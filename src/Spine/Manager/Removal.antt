-- ===== src/Spine/Manager/Removal.antt =====
-- What the removal of an entity leaves in a manager.
use openeebus.Prelude.{
  ℕ, zero, suc, ◌≤◌, ◌≡◌, refl, sym, ap, subst, ◌∙◌, Bool-cases, inl, inr, if◌then◌else◌, Option,
  none, some, List, [], ◌∷◌, ◌++◌, length, get_elem?, arith,
}
use openeebus.Spine.Device.{DeviceRemote, Feature, Entity, DeviceLocal}
use openeebus.Spine.FeatureLink.{FeatureLink, remote_entity_match, remove}
use openeebus.Spine.Manager.{Manager, EventPayload}
use openeebus.Spine.Manager.Release.{
  entity_event, entity_round, remove_entity_loop, remove_entity, remove_entities, remove_device,
}

-- Every link has its server feature.
pub data Complete : List FeatureLink → Type 0 where
  nothing : Complete []
  also :
      {l : FeatureLink} {ls : List FeatureLink} (server : Feature)
      → l.server_feature ≡ some server
      → Complete ls
      → Complete (l ∷ ls)

-- The links of other entities, in order.
abbrev pub without : Entity → List FeatureLink → List FeatureLink
without e [] = []
without e (l ∷ ls) = if remote_entity_match l e then without e ls else l ∷ without e ls

abbrev event_of : DeviceLocal → List ℕ → Entity → FeatureLink → Option Feature → List EventPayload
event_of dev ski e l none = []
event_of dev ski e l (some server) = entity_event dev ski e server l.client_feature ∷ []

-- One event for each link of the entity, in order.
abbrev pub removals : DeviceLocal → List ℕ → Entity → List FeatureLink → List EventPayload
removals dev ski e [] = []
removals dev ski e (l ∷ ls) =
    if remote_entity_match l e
    then event_of dev ski e l l.server_feature ++ removals dev ski e ls
    else removals dev ski e ls

module _ {ℓ} {A : Type ℓ} where
  pub append-nil : (xs : List A) → xs ++ [] ≡ xs
  append-nil [] = refl
  append-nil (x ∷ xs) = ap (λ l. x ∷ l) (append-nil xs)

  append-cons : (xs : List A) (y : A) (ys : List A) → (xs ++ y ∷ []) ++ ys ≡ xs ++ y ∷ ys
  append-cons [] y ys = refl
  append-cons (x ∷ xs) y ys = ap (λ l. x ∷ l) (append-cons xs y ys)

  length-snoc : (xs : List A) (y : A) → length (xs ++ y ∷ []) ≡ suc (length xs)
  length-snoc [] y = refl
  length-snoc (x ∷ xs) y = ap suc (length-snoc xs y)

  pub get_elem?-length :
      (xs : List A) (y : A) (ys : List A) → get_elem? (xs ++ y ∷ ys) (length xs) ≡ some y
  get_elem?-length [] y ys = refl
  get_elem?-length (x ∷ xs) y ys = get_elem?-length xs y ys

  get_elem?-end : (xs : List A) → get_elem? xs (length xs) ≡ none
  get_elem?-end [] = refl
  get_elem?-end (x ∷ xs) = get_elem?-end xs

pub remove-length :
    (xs : List FeatureLink) (y : FeatureLink) (ys : List FeatureLink)
    → remove (xs ++ y ∷ ys) (length xs) ≡ xs ++ ys
remove-length [] y ys = refl
remove-length (x ∷ xs) y ys = ap (λ l. x ∷ l) (remove-length xs y ys)

module _ (dev : DeviceLocal) (ski : List ℕ) (e : Entity) where
  round-match :
      (fuel : ℕ) (pre : List FeatureLink) (l : FeatureLink) (ls : List FeatureLink)
      → remove_entity_loop (suc fuel) dev ski e (length pre) (pre ++ l ∷ ls)
        ≡ entity_round dev ski e l
            (remote_entity_match l e)
            l.server_feature
            (remove_entity_loop fuel dev ski e (length (pre ++ l ∷ [])) ((pre ++ l ∷ []) ++ ls))
            (remove_entity_loop fuel dev ski e (length pre) (pre ++ ls))
  unfolding remove_entity_loop
  round-match fuel pre l ls =
      rw
        (
          get_elem?-length pre l ls,
          remove_entity_loop,
          remove-length pre l ls,
          length-snoc pre l,
          append-cons pre l ls,
        )
        refl

  loop-removals :
      (fuel : ℕ) (pre ls : List FeatureLink)
      → length ls ≤ fuel
      → Complete ls
      → remove_entity_loop fuel dev ski e (length pre) (pre ++ ls)
        ≡ some (pre ++ without e ls, removals dev ski e ls)
  unfolding remove_entity_loop
  loop-removals zero pre [] h c = refl
  loop-removals zero pre (l ∷ ls) h c = absurd (omega arith)
  loop-removals (suc fuel) pre [] h c =
      subst (λ z. remove_entity_loop (suc fuel) dev ski e (length pre) z ≡ some (z, []))
        (sym (append-nil pre)) (rw (get_elem?-end pre, remove_entity_loop) refl)
  loop-removals (suc fuel) pre (l ∷ ls) h (also server s c) =
      round-match fuel pre l ls ∙ (elim (Bool-cases (remote_entity_match l e)) [
        | inl m ↦ rw (m, s, loop-removals fuel pre ls (omega arith) c) refl
        | inr m ↦
            rw
              (
                m,
                loop-removals fuel (pre ++ l ∷ []) ls (omega arith) c,
                append-cons pre l (without e ls),
              )
              refl
      ])

-- In a manager whose links all have their server feature, the removal of an entity runs to its end:
-- it keeps exactly the links of other entities, in order, with number and device unchanged, and
-- publishes one event for each removed link, in order.
pub remove_entity-without :
    (m : Manager) (ski : List ℕ) (e : Entity)
    → Complete m.entries
    → remove_entity m ski e
      ≡ some (record m { entries = without e m.entries }, removals m.local_device ski e m.entries)
unfolding remove_entity
remove_entity-without m ski e c =
    rw
      (
        loop-removals m.local_device ski e (length m.entries) [] m.entries (omega arith) c,
        remove_entity,
      )
      refl

without-Complete : (e : Entity) (ls : List FeatureLink) → Complete ls → Complete (without e ls)
without-Complete e [] c = c
without-Complete e (l ∷ ls) (also server s c) = elim (Bool-cases (remote_entity_match l e)) [
  | inl m ↦ rw m (without-Complete e ls c)
  | inr m ↦ rw m (also server s (without-Complete e ls c))
]

-- The links of no entity of a list, in order.
abbrev pub without_all : List Entity → List FeatureLink → List FeatureLink
without_all [] ls = ls
without_all (e ∷ es) ls = without_all es (without e ls)

abbrev pub all_removals : DeviceLocal → List ℕ → List Entity → List FeatureLink → List EventPayload
all_removals dev ski [] ls = []
all_removals dev ski (e ∷ es) ls = removals dev ski e ls ++ all_removals dev ski es (without e ls)

entities-without :
    (m : Manager) (ski : List ℕ) (es : List Entity)
    → Complete m.entries
    → remove_entities m ski es
      ≡ some (
        record m { entries = without_all es m.entries },
        all_removals m.local_device ski es m.entries,
      )
unfolding remove_entities
entities-without m ski [] c = refl
entities-without m ski (e ∷ es) c =
    rw
      (
        remove_entity-without m ski e c,
        remove_entities,
        entities-without (record m { entries = without e m.entries }) ski es
            (without-Complete e m.entries c),
      )
      refl

-- In a manager whose links all have their server feature, the removal of a remote device runs to its
-- end: it keeps exactly the links that belong to none of the device's entities, in order, and
-- publishes one event for each removed link, entity by entity.
pub remove_device-without_all :
    (m : Manager) (d : DeviceRemote)
    → Complete m.entries
    → remove_device m d
      ≡ some (
        record m { entries = without_all d.entities m.entries },
        all_removals m.local_device d.ski d.entities m.entries,
      )
unfolding remove_device
remove_device-without_all m d c = entities-without m d.ski d.entities c

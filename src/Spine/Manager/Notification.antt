-- ===== src/Spine/Manager/Notification.antt =====
-- Whom a change of a feature is told, `Publish` of src/spine/subscription/subscription_manager.c.
use openeebus.Prelude.{
  ◌≡◌, refl, sym, subst, Bool, true, false, ◌||◌, Bool-cases, inl, inr, Option, none, some, List,
  [], ◌∷◌, arith,
}
use openeebus.Spine.Address.{FeatureAddress, compare, compare_ptr, compare_≡}
use openeebus.Spine.Device.{Feature}
use openeebus.Spine.FeatureLink.{FeatureLink, Search, crash, missing, found, find, find_at}
use openeebus.Spine.Manager.Report.{publish, notify}
use openeebus.Spine.Manager.Removal.{Complete}
use openeebus.Spine.Manager.Removal

abbrev pub contains : FeatureAddress → List FeatureAddress → Bool
contains a [] = false
contains a (b ∷ bs) = compare a b || contains a bs

-- Whether a client is among the receivers of a notification.
abbrev pub is_told : FeatureAddress → Option (List FeatureAddress) → Bool
is_told a none = false
is_told a (some bs) = contains a bs

abbrev pub is_found : Search → Bool
is_found (found i) = true
is_found _ = false

compare_comm : (a b : FeatureAddress) → compare a b ≡ compare b a
compare_comm a b = ground (arith, compare_≡ a b, compare_≡ b a)

-- A manager whose links all have their server feature runs through its notifications.
publish_runs :
    (ls : List FeatureLink) (a : FeatureAddress)
    → Complete ls
    → (told : List FeatureAddress) × (publish ls a ≡ some told)
unfolding publish
publish_runs [] a c = ([], refl)
publish_runs (l ∷ ls) a (Removal.also server s c) =
    let (told, e) = publish_runs ls a c in
    subst (λ o. (t : List FeatureAddress) × (notify o l.client_feature a (publish ls a) ≡ some t))
      (sym s)
      (subst (λ o. (t : List FeatureAddress) × (notify (some server) l.client_feature a o ≡ some t))
        (sym e)
        (elim (Bool-cases (compare server.address a)) [
          | inl y ↦ (l.client_feature.address ∷ told, rw y refl)
          | inr n ↦ (told, rw n refl)
        ]))

round-told :
    (server client : Feature) (a ca : FeatureAddress) (told : List FeatureAddress) (rest : Search)
    → contains ca told ≡ is_found rest
    → is_told ca (notify (some server) client a (some told))
      ≡ is_found (find_at (some server) client (some a) ca rest)
unfolding compare_ptr
round-told server client a ca told crash h = ground (arith, compare_comm a server.address)
round-told server client a ca told missing h = ground (arith, compare_comm a server.address)
round-told server client a ca told (found i) h = ground (arith, compare_comm a server.address)

-- With all server features present, `publish` tells a client of a change of a feature exactly if the
-- container has a link between the two.
pub publish-is_told :
    (ls : List FeatureLink) (a ca : FeatureAddress)
    → Complete ls
    → is_told ca (publish ls a) ≡ is_found (find ls (some a) ca)
unfolding publish find
publish-is_told [] a ca c = refl
publish-is_told (l ∷ ls) a ca (Removal.also server s c) =
    let (told, e) = publish_runs ls a c in
    let hyp : contains ca told ≡ is_found (find ls (some a) ca) =
      subst (λ o. is_told ca o ≡ is_found (find ls (some a) ca)) e (publish-is_told ls a ca c) in
    subst
      (λ o.
        is_told ca (notify o l.client_feature a (publish ls a))
        ≡ is_found (find_at o l.client_feature (some a) ca (find ls (some a) ca)))
      (sym s)
      (subst
        (λ o.
          is_told ca (notify (some server) l.client_feature a o)
          ≡ is_found (find_at (some server) l.client_feature (some a) ca (find ls (some a) ca)))
        (sym e) (round-told server l.client_feature a ca told (find ls (some a) ca) hyp))

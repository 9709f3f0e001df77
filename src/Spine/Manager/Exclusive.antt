-- ===== src/Spine/Manager/Exclusive.antt =====
-- "A local feature can only have one remote binding", src/spine/binding/binding_manager.c.
use openeebus.Prelude.{
  ℕ, ◌≡◌, refl, sym, subst, Bool, true, false, if◌then◌else◌, Bool-cases, inl, inr, Option, none,
  some, List, [], ◌∷◌, arith,
}
use openeebus.Common.Error.{EebusError}
use openeebus.Spine.Address.{FeatureAddress, compare, compare_ptr, compare_≡}
use openeebus.Spine.Device.{Feature, DeviceRemote, parameters_match, local_feature, remote_feature}
use openeebus.Spine.Device.Placed.{AllPlaced, local_feature-present}
use openeebus.Spine.FeatureLink.{FeatureLink, has_server, has_server_at, add}
use openeebus.Spine.Manager.{Manager, Call, RequestCall}
use openeebus.Spine.Manager.Request.{add_link, admits, unless_bound, bind, add_binding}

-- Every link has its server feature, and no later link has the same one.
pub data Exclusive : List FeatureLink → Type 0 where
  nothing : Exclusive []
  also :
      {l : FeatureLink} {ls : List FeatureLink} (server : Feature)
      → l.server_feature ≡ some server
      → has_server ls (some server.address) ≡ some false
      → Exclusive ls
      → Exclusive (l ∷ ls)

compare_sym : (a b : FeatureAddress) → compare a b ≡ false → compare b a ≡ false
compare_sym a b h = elim (Bool-cases (compare b a)) [
  | inl t ↦ absurd (ground (arith, h, (compare_≡ a b).1 (sym ((compare_≡ b a).0 t))))
  | inr f ↦ f
]

-- A container without a server, taken apart.
has_server-cons :
    (k : FeatureLink) (ks : List FeatureLink) (server : Feature) (a : FeatureAddress)
    → k.server_feature ≡ some server
    → has_server (k ∷ ks) (some a) ≡ some false
    → (compare a server.address ≡ false) × (has_server ks (some a) ≡ some false)
unfolding has_server compare_ptr
has_server-cons k ks server a s h =
    let h' = subst (λ o. has_server_at o (some a) (has_server ks (some a)) ≡ some false) s h in
    elim (Bool-cases (compare a server.address)) [
      | inl t ↦ absurd (ground (arith, h', t))
      | inr f ↦ (f, ground (arith, h', f))
    ]

has_server-add :
    (ks : List FeatureLink) (l : FeatureLink) (server : Feature) (a : FeatureAddress)
    → Exclusive ks
    → l.server_feature ≡ some server
    → compare a server.address ≡ false
    → has_server ks (some a) ≡ some false
    → has_server (add ks l) (some a) ≡ some false
unfolding has_server compare_ptr add
has_server-add [] l server a e s c h =
    subst (λ o. has_server_at o (some a) (some false) ≡ some false) (sym s) (rw c refl)
has_server-add (k ∷ ks) l server a (also t p q e) s c h =
    let (f, g) = has_server-cons k ks t a p h in
    subst (λ o. has_server_at o (some a) (has_server (add ks l) (some a)) ≡ some false) (sym p)
      (rw f (has_server-add ks l server a e s c g))

add-Exclusive :
    (ks : List FeatureLink) (l : FeatureLink) (server : Feature)
    → Exclusive ks
    → l.server_feature ≡ some server
    → has_server ks (some server.address) ≡ some false
    → Exclusive (add ks l)
unfolding add has_server
add-Exclusive [] l server e s h = also server s refl nothing
add-Exclusive (k ∷ ks) l server (also t p q e) s h =
    let (f, g) = has_server-cons k ks t server.address p h in
    also t p (has_server-add ks l server t.address e s (compare_sym _ _ f) q)
      (add-Exclusive ks l server e s g)

-- The manager after a call; a call that reads through NULL changes nothing.
abbrev pub after : Manager → Call → Manager
after m none = m
after m (some (m', err, evs)) = m'

module _ (m : Manager) (d : DeviceRemote) (e : Exclusive m.entries) where
  link-Exclusive :
      (server : Feature) (client : Option Feature)
      → has_server m.entries (some server.address) ≡ some false
      → Exclusive (after m (add_link m d (some server) client)).entries
  link-Exclusive server none h = e
  link-Exclusive server (some client) h = add-Exclusive m.entries _ server e refl h

  unless-Exclusive :
      (b : Option Bool) (server : Feature) (client : Option Feature)
      → has_server m.entries (some server.address) ≡ b
      → Exclusive (after m (unless_bound b m (add_link m d (some server) client))).entries
  unless-Exclusive none server client h = e
  unless-Exclusive (some true) server client h = e
  unless-Exclusive (some false) server client h = link-Exclusive server client h

  module _ (generic : ℕ) (a : FeatureAddress) (t : ℕ) where
    -- The branch of the test of the roles and types.
    admitted-Exclusive :
        (server client : Option Feature)
        → ((f : Feature) → server ≡ some f → f.address ≡ a)
        → Exclusive
            (after m (
              if admits generic server client (some t)
              then unless_bound (has_server m.entries (some a)) m (add_link m d server client)
              else some (m, EebusError.no_change, []))).entries
    unfolding parameters_match
    admitted-Exclusive none client k = e
    admitted-Exclusive (some f) client k =
        elim (Bool-cases (admits generic (some f) client (some t))) [
          | inl y ↦ rw y (unless-Exclusive _ f client (rw (k f refl) refl))
          | inr n ↦ rw n e
        ]

    bind-Exclusive :
        (ca : Option FeatureAddress) (request : RequestCall)
        → request.server_address ≡ some a
        → request.server_feature_type ≡ some t
        → ((f : Feature) → local_feature m.local_device (some a) ≡ some f → f.address ≡ a)
        → Exclusive (after m (bind generic m d request ca)).entries
    bind-Exclusive none request p q k = e
    bind-Exclusive (some ca) request p q k =
        subst (λ z. Bound ca z request.server_feature_type) (sym p)
          (subst (λ y. Bound ca (some a) y) (sym q)
            (admitted-Exclusive (local_feature m.local_device (some a)) (remote_feature d ca) k))
      where
        Bound : FeatureAddress → Option FeatureAddress → Option ℕ → Type 0
        Bound ca' z y =
            let server = local_feature m.local_device z in
            let client = remote_feature d ca' in
            Exclusive
              (after m (
                if admits generic server client y
                then unless_bound (has_server m.entries z) m (add_link m d server client)
                else some (m, EebusError.no_change, []))).entries

    -- The binding manager keeps to one binding per local feature: if no two links have the same server
    -- feature, this is so after a binding request that names the feature type and has the device part
    -- of the server address, for a local device whose features carry their own addresses.
    pub add_binding-Exclusive :
        (x : List ℕ) (request : RequestCall)
        → AllPlaced m.local_device.device_address m.local_device.entities
        → a.device ≡ some x
        → request.server_address ≡ some a
        → request.server_feature_type ≡ some t
        → Exclusive (after m (add_binding generic m d request)).entries
    unfolding add_binding
    add_binding-Exclusive x request w h p q = bind-Exclusive request.client_address request p q own
      where
        own : (f : Feature) → local_feature m.local_device (some a) ≡ some f → f.address ≡ a
        own f l = local_feature-present m.local_device a f x w h l

-- Every link has its server feature, whose address has its device part.
pub data Present : List FeatureLink → Type 0 where
  no_link : Present []
  present_link :
      {l : FeatureLink} {ls : List FeatureLink} (server : Feature) (x : List ℕ)
      → l.server_feature ≡ some server
      → server.address.device ≡ some x
      → Present ls
      → Present (l ∷ ls)

absent_unequal :
    (a b : FeatureAddress) (x : List ℕ) → a.device ≡ none → b.device ≡ some x → compare a b ≡ false
absent_unequal a b x h k = elim (Bool-cases (compare a b)) [
  | inl t ↦ absurd (ground (arith, (compare_≡ a b).0 t))
  | inr f ↦ f
]

absent-has_server :
    (ls : List FeatureLink) (a : FeatureAddress)
    → Present ls
    → a.device ≡ none
    → has_server ls (some a) ≡ some false
unfolding has_server compare_ptr
absent-has_server [] a e h = refl
absent-has_server (l ∷ ls) a (present_link server x s k e) h =
    subst (λ o. has_server_at o (some a) (has_server ls (some a)) ≡ some false) (sym s)
      (rw (absent_unequal a server.address x h k) (absent-has_server ls a e h))

-- If every link has its server feature and the address of that has a device part, a binding request
-- whose server address has no device part, for features that are found and match the requested type,
-- if any, is accepted: the link is added even if another link has the same server feature.
pub add_binding-absent :
    (generic : ℕ) (m : Manager) (d : DeviceRemote) (a ca : FeatureAddress) (server client : Feature)
    (t : Option ℕ)
    → Present m.entries
    → a.device ≡ none
    → local_feature m.local_device (some a) ≡ some server
    → remote_feature d ca ≡ some client
    → admits generic (some server) (some client) t ≡ true
    → (after m (
        add_binding generic m d (record {
          client_address = some ca;
          server_address = some a;
          server_feature_type = t;
        }))).entries
      ≡ add m.entries (record {
        id = m.num;
        server_feature = some server;
        client_feature = client;
        client_ski = d.ski;
      })
unfolding add_binding
add_binding-absent generic m d a ca server client t e h s c y =
    rw (s, c, y, absent-has_server m.entries a e h) refl

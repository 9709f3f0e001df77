-- ===== src/Spine/Manager/RoundTrip.antt =====
-- A subscription that was added can be removed.
use openeebus.Prelude.{
  ℕ, suc, ◌≡◌, refl, sym, subst, Option, none, some, List, [], ◌∷◌, length, arith,
}
use openeebus.Spine.Address.{FeatureAddress, compare_ptr, compare_≡}
use openeebus.Spine.Device.{Feature, DeviceRemote, local_feature}
use openeebus.Spine.FeatureLink.{FeatureLink, Search, crash, missing, found, find, find_at, add}
use openeebus.Spine.Manager.{Manager, Call, DeleteCall, EventPayload, ElementChange, next_num}
use openeebus.Spine.Manager.Delete.{remove_subscription}

module _ (sa ca : FeatureAddress) where
  find_here :
      (server client : Feature) (rest : Search)
      → server.address ≡ sa
      → client.address ≡ ca
      → find_at (some server) client (some sa) ca rest ≡ found 0
  unfolding compare_ptr
  find_here server client rest p q =
      rw ((compare_≡ sa server.address).1 (sym p), (compare_≡ ca client.address).1 (sym q)) refl

  find_later :
      (o : Option Feature) (client : Feature) (rest rest' : Search) (n : ℕ)
      → find_at o client (some sa) ca rest ≡ missing
      → (rest ≡ missing → rest' ≡ found n)
      → find_at o client (some sa) ca rest' ≡ found (suc n)
  find_later none client rest rest' n h k = absurd (cc h)
  find_later (some server) client crash rest' n h k = ground arith
  find_later (some server) client missing rest' n h k = ground (arith, k refl)
  find_later (some server) client (found i) rest' n h k = ground arith

  pub find-add :
      (ls : List FeatureLink) (l : FeatureLink) (server : Feature)
      → l.server_feature ≡ some server
      → server.address ≡ sa
      → l.client_feature.address ≡ ca
      → find ls (some sa) ca ≡ missing
      → find (add ls l) (some sa) ca ≡ found (length ls)
  unfolding find add
  find-add [] l server s p q h =
      subst (λ o. find_at o l.client_feature (some sa) ca missing ≡ found 0) (sym s)
        (find_here server l.client_feature missing p q)
  find-add (k ∷ ls) l server s p q h =
      find_later k.server_feature k.client_feature (find ls (some sa) ca)
        (find (add ls l) (some sa) ca) (length ls) h (find-add ls l server s p q)

-- What the removal makes of the manager of a call.
abbrev pub then_remove : DeviceRemote → DeleteCall → Call → Call
then_remove d request none = none
then_remove d request (some (m, err, evs)) = remove_subscription m d request

module _ (generic : ℕ) (m : Manager) (d : DeviceRemote) (sa ca : FeatureAddress) (t : Option ℕ)
    (server client : Feature) where
  abbrev link : FeatureLink
  link = record {
    id = m.num;
    server_feature = some server;
    client_feature = client;
    client_ski = d.ski;
  }

  abbrev linked : Manager
  linked = record m { num = next_num m.num; entries = add m.entries link }

  abbrev event : ElementChange → EventPayload
  event change = record {
    ski = d.ski;
    change_type = change;
    feature = some client;
    local_feature = some server;
  }

-- ===== src/Spine/FeatureLocal/Ready.antt =====
-- Addresses whose devices can be reached, and the last address of a container:
-- src/spine/feature/feature_local.c and feature_address_container.c.
use openeebus.Prelude.{
  ℕ, suc, Bool, true, false, ◌≡◌, refl, ap, Bool-cases, inl, inr, Option, none, some, List, [], ◌∷◌,
  length, get_elem?, arith,
}
use openeebus.Spine.Address.{FeatureAddress, compare, compare_≡}
use openeebus.Spine.Sender.{Sender, Sent}
use openeebus.Spine.FeatureLocal.{
  World, Remote, find_remote, put_sender, remote_with_address, sent_by,
}
use openeebus.Spine.FeatureLocal.Remotes.{remote_of, remove_address}

abbrev pub has_sender : Option Remote → Bool
has_sender none = false
has_sender (some r) = r.sender.has_writer

-- The device of an address is known and has a connection.
abbrev pub Ready : World → FeatureAddress → Type 0
Ready w a = has_sender (remote_of w (some a)) ≡ true

abbrev pub AllReady : World → List FeatureAddress → Type 0
AllReady w [] = Unit {0}
AllReady w (a ∷ as') = Ready w a × AllReady w as'

find-put_sender :
    (rs : List Remote) (ski d : List ℕ) (s : Sender)
    → s.has_writer ≡ true
    → has_sender (find_remote rs d) ≡ true
    → has_sender (find_remote (put_sender rs ski s) d) ≡ true
find-put_sender [] ski d s h k = k
find-put_sender (r ∷ rs) ski d s h k = ground (arith, find-put_sender rs ski d s h)

pub Ready-sent_by :
    (w : World) (ski : List ℕ) (sent : Sent) (a : FeatureAddress)
    → sent.sender.has_writer ≡ true
    → Ready w a
    → Ready (sent_by w ski sent) a
unfolding remote_of remote_with_address
Ready-sent_by w ski sent a h k = at a.device k
  where
    at :
        (d : Option (List ℕ))
        → has_sender (remote_with_address w.remotes d) ≡ true
        → has_sender (remote_with_address (put_sender w.remotes ski sent.sender) d) ≡ true
    at none k' = k'
    at (some d) k' = find-put_sender w.remotes ski d sent.sender h k'

pub AllReady-sent_by :
    (w : World) (ski : List ℕ) (sent : Sent) (as' : List FeatureAddress)
    → sent.sender.has_writer ≡ true
    → AllReady w as'
    → AllReady (sent_by w ski sent) as'
AllReady-sent_by w ski sent [] h k = tt
AllReady-sent_by w ski sent (a ∷ as') h (r, k) =
    (Ready-sent_by w ski sent a h r, AllReady-sent_by w ski sent as' h k)

pub AllReady-remove :
    (w : World) (as' : List FeatureAddress) (a : FeatureAddress)
    → AllReady w as'
    → AllReady w (remove_address as' a)
unfolding remove_address
AllReady-remove w [] a h = tt
AllReady-remove w (b ∷ bs) a (r, h) = elim (Bool-cases (compare b a)) [
  | inl y ↦ rw y h
  | inr z ↦ rw z (r, AllReady-remove w bs a h)
]

-- The last address of a container that is not empty.
pub last_address :
    (a : FeatureAddress) (as' : List FeatureAddress)
    → (l : FeatureAddress) × (get_elem? (a ∷ as') (length as') ≡ some l)
      × (length (remove_address (a ∷ as') l) ≡ length as')
unfolding remove_address
last_address a [] = (a, refl, rw ((compare_≡ a a).1 refl) refl)
last_address a (b ∷ bs) =
    let (l, e, h) = last_address b bs in
    (l, e, elim (Bool-cases (compare a l)) [ inl y ↦ rw y refl | inr z ↦ rw z (ap suc h) ])

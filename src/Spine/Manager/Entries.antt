-- ===== src/Spine/Manager/Entries.antt =====
-- The buffer of `AddSubscriptionEntries` and `AddBindingEntries`.
use openeebus.Prelude.{
  ℕ, zero, suc, ◌+◌, ◌≤◌, ◌<◌, ◌≡◌, refl, sym, subst, ◌⊎◌, leb, Bool, true, false, ◌||◌, Bool-cases,
  inl, inr, List, [], ◌∷◌, length, arith,
}
use openeebus.Spine.Device.{DeviceRemote}
use openeebus.Spine.FeatureLink.{FeatureLink, remote_device_match, remote_device_match_num}
use openeebus.Spine.Manager.{Manager}
use openeebus.Spine.Manager.Report.{entry_writes, add_entries}

-- Whether some write is to a place that is not below a bound.
abbrev pub is_beyond : ℕ → List (ℕ × ℕ) → Bool
is_beyond bound [] = false
is_beyond bound (w ∷ ws) = leb bound w.0 || is_beyond bound ws

beyond_below :
    (b b' : ℕ) (ws : List (ℕ × ℕ)) → b' ≤ b → is_beyond b ws ≡ true → is_beyond b' ws ≡ true
beyond_below b b' [] h t = ground arith
beyond_below b b' (w ∷ ws) h t = ground (arith, beyond_below b b' ws h)

zero-cases : (n : ℕ) → (n ≡ 0) ⊎ (0 < n)
zero-cases zero = inl refl
zero-cases (suc n) = inr (omega arith)

module _ (d : DeviceRemote) where
  writes_beyond :
      (i : ℕ) (ls : List FeatureLink)
      → 0 < remote_device_match_num ls d
      → (b : ℕ) → suc b ≡ i + remote_device_match_num ls d
      → is_beyond b (entry_writes i ls d) ≡ true
  unfolding remote_device_match_num entry_writes
  writes_beyond i [] h b e = absurd (omega arith)
  writes_beyond i (l ∷ ls) h b e = elim (Bool-cases (remote_device_match l d)) [
    | inl t ↦ elim (zero-cases (remote_device_match_num ls d)) [
      | inl z ↦ ground arith
      | inr p ↦ ground (arith, writes_beyond (suc i) ls p b (ground arith))
    ]
    | inr f ↦
        let further = writes_beyond (suc i) ls (ground arith) (suc b) (ground arith) in
        ground (arith, beyond_below (suc b) b (entry_writes (suc i) ls d) (omega arith) further)
  ]

  places_below :
      (i b : ℕ) (ls : List FeatureLink)
      → i + length ls ≤ b
      → is_beyond b (entry_writes i ls d) ≡ false
  unfolding entry_writes
  places_below i b [] h = refl
  places_below i b (l ∷ ls) h = ground (arith, places_below (suc i) b ls (omega arith))

  -- If all links are to the device, every write of `add_entries` is within the buffer.
  pub add_entries-within :
      (m : Manager)
      → remote_device_match_num m.entries d ≡ length m.entries
      → is_beyond (add_entries m d).0 (add_entries m d).1 ≡ false
  unfolding add_entries
  add_entries-within m h =
      places_below 0 (remote_device_match_num m.entries d) m.entries (omega (arith, h))

  overrun :
      (l : FeatureLink) (ls : List FeatureLink)
      → remote_device_match l d ≡ false
      → 0 < remote_device_match_num ls d
      → is_beyond (remote_device_match_num (l ∷ ls) d) (entry_writes 0 (l ∷ ls) d) ≡ true
  unfolding remote_device_match_num entry_writes
  overrun l ls f p =
      ground (arith, writes_beyond 1 ls p (remote_device_match_num ls d) (omega arith))

  -- If the first link is to another device and some link is to this one, `add_entries` writes past
  -- the end of the buffer.
  pub add_entries-overruns :
      (m : Manager) (l : FeatureLink) (ls : List FeatureLink)
      → m.entries ≡ l ∷ ls
      → remote_device_match l d ≡ false
      → 0 < remote_device_match_num ls d
      → is_beyond (add_entries m d).0 (add_entries m d).1 ≡ true
  unfolding add_entries
  add_entries-overruns m l ls e f p =
      subst (λ x. is_beyond (remote_device_match_num x d) (entry_writes 0 x d) ≡ true) (sym e)
        (overrun l ls f p)

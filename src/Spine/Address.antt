-- ===== src/Spine/Address.antt =====
-- Addresses of features and entities: src/spine/model/feature_types.c and entity_types.c. An absent
-- list of entities is the empty list.
use openeebus.Prelude.{
  ℕ, ◌==◌, Bool, true, false, ◌&&◌, ◌≡◌, ◌↔◌, Option, none, some, List, [], ◌∷◌, arith,
}

-- `FeatureAddressType`. A device name is a list of character codes.
pub record FeatureAddress : Type 0 where
  pub device : Option (List ℕ)
  pub entity : List ℕ
  pub feature : Option ℕ

abbrev pub same_list : List ℕ → List ℕ → Bool
same_list [] [] = true
same_list [] (_ ∷ _) = false
same_list (_ ∷ _) [] = false
same_list (x ∷ xs) (y ∷ ys) = x == y && same_list xs ys

abbrev same_device : Option (List ℕ) → Option (List ℕ) → Bool
same_device none none = true
same_device none (some _) = false
same_device (some _) none = false
same_device (some a) (some b) = same_list a b

abbrev pub same_feature : Option ℕ → Option ℕ → Bool
same_feature none none = true
same_feature none (some _) = false
same_feature (some _) none = false
same_feature (some a) (some b) = a == b

-- `EntityAddressCompare`: an absent part equals only an absent one.
abbrev pub compare_entity : Option (List ℕ) → List ℕ → Option (List ℕ) → List ℕ → Bool
compare_entity d ids d' ids' = same_device d d' && same_list ids ids'

-- `FeatureAddressCompare`.
unfoldable pub compare : FeatureAddress → FeatureAddress → Bool
compare a b =
    same_device a.device b.device
    && (same_list a.entity b.entity && same_feature a.feature b.feature)

-- `FeatureAddressCompare` on a first pointer that may be NULL.
unfoldable pub compare_ptr : Option FeatureAddress → FeatureAddress → Bool
compare_ptr none b = false
compare_ptr (some a) b = compare a b

-- `EntityAddressMatchIds`.
abbrev pub match_ids : List ℕ → List ℕ → Bool
match_ids [] _ = false
match_ids (_ ∷ _) [] = false
match_ids (x ∷ xs) (y ∷ ys) = same_list (x ∷ xs) (y ∷ ys)

pub same_list_≡ : (xs ys : List ℕ) → (same_list xs ys ≡ true) ↔ (xs ≡ ys)
same_list_≡ [] [] = ground arith
same_list_≡ [] (y ∷ ys) = ground arith
same_list_≡ (x ∷ xs) [] = ground arith
same_list_≡ (x ∷ xs) (y ∷ ys) = ground (arith, same_list_≡ xs ys)

same_device_≡ : (a b : Option (List ℕ)) → (same_device a b ≡ true) ↔ (a ≡ b)
same_device_≡ none none = ground arith
same_device_≡ none (some b) = ground arith
same_device_≡ (some a) none = ground arith
same_device_≡ (some a) (some b) = ground (arith, same_list_≡ a b)

same_feature_≡ : (a b : Option ℕ) → (same_feature a b ≡ true) ↔ (a ≡ b)
same_feature_≡ none none = ground arith
same_feature_≡ none (some b) = ground arith
same_feature_≡ (some a) none = ground arith
same_feature_≡ (some a) (some b) = ground arith

-- Two addresses compare as true exactly when they are equal.
pub compare_≡ : (a b : FeatureAddress) → (compare a b ≡ true) ↔ (a ≡ b)
unfolding compare
compare_≡ a b = ground (
  arith,
  same_device_≡ a.device b.device,
  same_list_≡ a.entity b.entity,
  same_feature_≡ a.feature b.feature,
)

pub match_ids_≡ : (xs ys : List ℕ) → match_ids xs ys ≡ true → xs ≡ ys
match_ids_≡ [] ys h = ground arith
match_ids_≡ (x ∷ xs) [] h = ground arith
match_ids_≡ (x ∷ xs) (y ∷ ys) h = ground (arith, same_list_≡ xs ys)

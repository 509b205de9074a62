-- ===== src/Image/References.antt =====
-- The cache of references and the references of the images agree, through every update.
use cri.Base.{
  String, ◌≡◌, refl, Bool, true, false, not, ◌||◌, ◌&&◌, List, [], ◌∷◌, str_eq, eq_iff, arith, All,
}
use cri.Base.GoMap.{Map, insert, keys}
use cri.Image.{fill, merge_string_slices, subtract_string_slice}

abbrev pub holds : String → List String → Bool
holds ref [] = false
holds ref (r ∷ rest) = str_eq r ref || holds ref rest

holds-keys-insert :
    (k ref : String) (m : Map Bool)
    → holds ref (keys (insert k true m)) ≡ (str_eq k ref || holds ref (keys m))
unfolding keys insert
holds-keys-insert k ref [] = refl
holds-keys-insert k ref ((j, v) ∷ m) = ground (arith, eq_iff j k, holds-keys-insert k ref m)

holds-fill :
    (ref : String) (l : List String) (m : Map Bool)
    → holds ref (keys (fill l m)) ≡ (holds ref l || holds ref (keys m))
unfolding fill
holds-fill ref [] m = refl
holds-fill ref (k ∷ l) m =
    ground (arith, holds-fill ref l (insert k true m), holds-keys-insert k ref m)

pub holds-merge_string_slices :
    (ref : String) (a b : List String)
    → holds ref (merge_string_slices a b) ≡ (holds ref a || holds ref b)
unfolding merge_string_slices keys
holds-merge_string_slices ref a b =
    ground (arith, holds-fill ref b (fill a []), holds-fill ref a [])

module _ (equal_fold : String → String → Bool) where
  -- Folding the case takes the references for one another only if they are equal.
  abbrev pub Apart : String → String → Type 0
  Apart a b = equal_fold a b ≡ str_eq a b

  pub holds-subtract_string_slice :
      (ref gone : String) (l : List String)
      → All (λ r. Apart r gone) l
      → holds ref (subtract_string_slice equal_fold l gone) ≡ (not (str_eq gone ref) && holds ref l)
  unfolding subtract_string_slice
  holds-subtract_string_slice ref gone [] h = ground arith
  holds-subtract_string_slice ref gone (r ∷ l) h = ground (
    arith,
    h,
    eq_iff r gone,
    eq_iff r ref,
    eq_iff gone ref,
    holds-subtract_string_slice ref gone l,
  )

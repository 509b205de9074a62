-- ===== src/RequestCache/Elements.antt =====
-- The elements of the list of a request cache: `cacheEntry` behind a pointer of container/list.
use cri.Base.{
  ℕ, suc, ◌≤◌, ◌<◌, String, ◌≡◌, refl, Option, none, some, List, [], ◌∷◌, ◌++◌, arith,
  if◌then◌else◌, ◌==◌,
}

-- cacheEntry, with the pointer of its element
pub record Element (R : Type 0) : Type 0 where
  pub pointer : ℕ
  pub token : String
  pub req : R
  pub expire_time : ℕ

module _ {R : Type 0} where
  -- The element that a pointer stands for.
  unfoldable pub find : ℕ → List (Element R) → Option (Element R)
  find p [] = none
  find p (x ∷ xs) = if x.pointer == p then some x else find p xs

  -- `ll.Remove(ele)`
  unfoldable pub unlink : ℕ → List (Element R) → List (Element R)
  unlink p [] = []
  unlink p (x ∷ xs) = if x.pointer == p then xs else x ∷ unlink p xs

  -- The pointers rise along the list, from `lo` up to below `hi`.
  abbrev pub Within : ℕ → ℕ → List (Element R) → Type 0
  Within lo hi [] = lo ≤ hi
  Within lo hi (x ∷ xs) = (lo ≤ x.pointer) × Within (suc x.pointer) hi xs

  pub Within-le : (lo hi : ℕ) (xs : List (Element R)) → Within lo hi xs → lo ≤ hi
  Within-le lo hi [] w = w
  Within-le lo hi (x ∷ xs) w = omega (arith, Within-le (suc x.pointer) hi xs w.1)

  pub Within-weaken :
      (lo lo' hi : ℕ) (xs : List (Element R)) → lo' ≤ lo → Within lo hi xs → Within lo' hi xs
  Within-weaken lo lo' hi [] h w = omega arith
  Within-weaken lo lo' hi (x ∷ xs) h w = (omega arith, w.1)

  pub find_below :
      (p lo hi : ℕ) (xs : List (Element R)) → Within lo hi xs → p < lo → find p xs ≡ none
  unfolding find
  find_below p lo hi [] w h = refl
  find_below p lo hi (x ∷ xs) w h = ground (arith, find_below p (suc x.pointer) hi xs w.1)

  pub find_above :
      (p lo hi : ℕ) (xs : List (Element R)) → Within lo hi xs → hi ≤ p → find p xs ≡ none
  unfolding find
  find_above p lo hi [] w h = refl
  find_above p lo hi (x ∷ xs) w h =
      ground (arith, find_above p (suc x.pointer) hi xs w.1, Within-le (suc x.pointer) hi xs w.1)

  pub find-unlink :
      (p q lo hi : ℕ) (xs : List (Element R))
      → Within lo hi xs
      → find q (unlink p xs) ≡ (if p == q then none else find q xs)
  unfolding find unlink
  find-unlink p q lo hi [] w = ground arith
  find-unlink p q lo hi (x ∷ xs) w =
      ground
        (arith, find-unlink p q (suc x.pointer) hi xs w.1, find_below q (suc x.pointer) hi xs w.1)

  pub unlink-Within :
      (p lo hi : ℕ) (xs : List (Element R)) → Within lo hi xs → Within lo hi (unlink p xs)
  unfolding unlink
  unlink-Within p lo hi [] w = w
  unlink-Within p lo hi (x ∷ xs) w =
      ground
        (arith, unlink-Within p (suc x.pointer) hi xs w.1, Within-weaken (suc x.pointer) lo hi xs)

  pub append-Within :
      (lo hi : ℕ) (xs : List (Element R)) (x : Element R)
      → Within lo hi xs
      → x.pointer ≡ hi
      → Within lo (suc hi) (xs ++ x ∷ [])
  append-Within lo hi [] x w e = omega arith
  append-Within lo hi (y ∷ xs) x w e = (w.0, append-Within (suc y.pointer) hi xs x w.1 e)

  pub find-append :
      (q lo hi : ℕ) (xs : List (Element R)) (x : Element R)
      → Within lo hi xs
      → x.pointer ≡ hi
      → find q (xs ++ x ∷ []) ≡ (if hi == q then some x else find q xs)
  unfolding find
  find-append q lo hi [] x w e = ground arith
  find-append q lo hi (y ∷ xs) x w e =
      ground (arith, find-append q (suc y.pointer) hi xs x w.1, Within-le (suc y.pointer) hi xs w.1)

-- ===== src/Base/Members.antt =====
-- The members of the list that a test keeps.
use mathlib.Core.List.{Memᴰ, List, [], ◌∷◌, map, reverse, reverse_aux}
use mathlib.Core.Path.{◌≡◌, refl, ap}
use mathlib.Core.Logic.{◌↔◌, ◌⊎◌, inl, inr}
use mathlib.Core.Bool.{Bool, true, false}
use cri.Base.Lists.{keep}
use cri.Base.Tests.{if◌then◌else◌}

module _ {A : Type 0} (p : A → Bool) where
  kept_if :
      (x y : A) (ys : List A) (b : Bool)
      → p y ≡ b
      → Memᴰ x (if b then y ∷ ys else ys)
      → (Memᴰ x ys ⊎ ((x ≡ y) × (b ≡ true)))
  kept_if x y ys true h (Memᴰ.head e) = inr (e, refl)
  kept_if x y ys true h (Memᴰ.tail m) = inl m
  kept_if x y ys false h m = inl m

  mem-keep_only : (x : A) (xs : List A) → Memᴰ x (keep p xs) → Memᴰ x xs × (p x ≡ true)
  unfolding keep
  mem-keep_only x [] m = elim m [ ]
  mem-keep_only x (y ∷ ys) m = elim (kept_if x y (keep p ys) (p y) refl m) [
    | inl m' ↦ let (k, h) = mem-keep_only x ys m' in (Memᴰ.tail k, h)
    | inr (e, h) ↦ (Memᴰ.head e, rw e h)
  ]

  put_if : (x y : A) (ys : List A) (b : Bool) → Memᴰ x ys → Memᴰ x (if b then y ∷ ys else ys)
  put_if x y ys true m = Memᴰ.tail m
  put_if x y ys false m = m

  mem-keep_all : (x : A) (xs : List A) → Memᴰ x xs → p x ≡ true → Memᴰ x (keep p xs)
  unfolding keep
  mem-keep_all x [] m h = elim m [ ]
  mem-keep_all x (y ∷ ys) (Memᴰ.head e) h = rw⁻¹ e (rw h (Memᴰ.head refl))
  mem-keep_all x (y ∷ ys) (Memᴰ.tail m) h = put_if x y (keep p ys) (p y) (mem-keep_all x ys m h)

  -- The elements that a test keeps are those of the list that it accepts.
  pub mem-keep : (x : A) (xs : List A) → Memᴰ x (keep p xs) ↔ (Memᴰ x xs × (p x ≡ true))
  mem-keep x xs = (mem-keep_only x xs, λ h. mem-keep_all x xs h.0 h.1)

pub mem-map : {A B : Type 0} (f : A → B) (x : A) (xs : List A) → Memᴰ x xs → Memᴰ (f x) (map f xs)
mem-map f x [] m = elim m [ ]
mem-map f x (y ∷ ys) (Memᴰ.head e) = Memᴰ.head (ap f e)
mem-map f x (y ∷ ys) (Memᴰ.tail m) = Memᴰ.tail (mem-map f x ys m)

mem-reverse_aux :
    {A : Type 0} (x : A) (xs r : List A) → Memᴰ x xs ⊎ Memᴰ x r → Memᴰ x (reverse_aux xs r)
mem-reverse_aux x [] r (inl m) = elim m [ ]
mem-reverse_aux x [] r (inr m) = m
mem-reverse_aux x (y ∷ ys) r (inl (Memᴰ.head e)) = mem-reverse_aux x ys (y ∷ r) (inr (Memᴰ.head e))
mem-reverse_aux x (y ∷ ys) r (inl (Memᴰ.tail m)) = mem-reverse_aux x ys (y ∷ r) (inl m)
mem-reverse_aux x (y ∷ ys) r (inr m) = mem-reverse_aux x ys (y ∷ r) (inr (Memᴰ.tail m))

pub mem-reverse : {A : Type 0} (x : A) (xs : List A) → Memᴰ x xs → Memᴰ x (reverse xs)
mem-reverse x xs m = mem-reverse_aux x xs [] (inl m)

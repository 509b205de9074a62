-- ===== src/Base/Errors.antt =====
-- Go's `error`. The two sentinels are those of pkg/store/errors.go; `errors.Wrap` keeps its cause.
use mathlib.Core.Path.{◌≡◌, refl}
use mathlib.Core.Logic.{◌⊎◌, inl, inr}
use mathlib.Core.Bool.{Bool, true, false}
use Prim.Native.String.{String}

pub data Error : Type 0 where
  not_exist : Error
  already_exist : Error
  failure : String → Error
  wrap : String → Error → Error

-- `errdefs.IsNotFound` looks through `errors.Wrap`.
abbrev pub is_not_found : Error → Bool
is_not_found not_exist = true
is_not_found already_exist = false
is_not_found (failure s) = false
is_not_found (wrap s e) = is_not_found e

-- `err == store.ErrNotExist` does not.
abbrev pub is_not_exist : Error → Bool
is_not_exist not_exist = true
is_not_exist already_exist = false
is_not_exist (failure s) = false
is_not_exist (wrap s e) = false

pub data Result {ℓ} (A : Type ℓ) : Type ℓ where
  ok : A → Result A
  err : Error → Result A

infixl 5 ◌>>=◌
abbrev pub ◌>>=◌ {ℓ κ} : {A : Type ℓ} {B : Type κ} → Result A → (A → Result B) → Result B
ok a >>= f = f a
err e >>= f = err e

pub Result-cases {ℓ} :
    {A : Type ℓ} (r : Result A) → ((a : A) × (r ≡ ok a)) ⊎ ((e : Error) × (r ≡ err e))
Result-cases (ok a) = inl (a, refl)
Result-cases (err e) = inr (e, refl)

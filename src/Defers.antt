-- ===== src/Defers.antt =====
-- The shape that the creating handlers of pkg/server share: steps in a row, each of which may end
-- the handler with an error, and after a step that took something a deferred function that gives it
-- back under `if retErr != nil`. Go runs deferred functions newest first. `S` is the part of the
-- service that the handler changes, `R` what it takes; the journal has the newest event first.
pub mod Balance
use cri.Base.{
  String, ◌≡◌, refl, ap, ◌⊎◌, inl, inr, Option, none, some, List, [], ◌∷◌, ◌++◌, map, reverse,
}
use cri.Base.Errors.{Error, Result, ok, err, wrap}
use mathlib.Core.List as L

pub data Event (R : Type 0) : Type 0 where
  acquired released : R → Event R
  stored monitored : Event R

-- The handler at one moment.
pub record Frame (S R : Type 0) : Type 0 where
  pub service : S
  pub journal : List (Event R)
  pub deferred : List R

abbrev pub Body : Type 0 → Type 0 → Type 0 → Type 0
Body S R A = Frame S R → Result A × Frame S R

abbrev pub continue :
    {S R A B : Type 0} → (A → Body S R B) → Result A × Frame S R → Result B × Frame S R
continue f (ok a, s) = f a s
continue f (err e, s) = (err e, s)

infixl 5 ◌>>=◌ ◌>>◌
unfoldable pub ◌>>=◌ : {S R A B : Type 0} → Body S R A → (A → Body S R B) → Body S R B
◌>>=◌ m f s = continue f (m s)

unfoldable pub ◌>>◌ : {S R A B : Type 0} → Body S R A → Body S R B → Body S R B
unfolding ◌>>=◌
m >> k = m >>= λ _. k

abbrev pub describe : {A : Type 0} → String → Result A → Result A
describe message (ok a) = ok a
describe message (err e) = err (wrap message e)

module _ {S R : Type 0} where
  -- `return nil, errors.Wrap(err, message)` where the call failed.
  unfoldable pub attempt : {A : Type 0} → String → Result A → Body S R A
  attempt message r s = (describe message r, s)

  unfoldable pub record_event : Event R → Body S R (Unit {0})
  record_event x s = (ok tt, record s { journal = x ∷ s.journal })

  -- `defer func() { if retErr != nil { ... } }()`
  abbrev pub defer_release : R → Body S R (Unit {0})
  defer_release r s = (ok tt, record s { deferred = r ∷ s.deferred })

  unfoldable pub return : {A : Type 0} → A → Body S R A
  return a s = (ok a, s)

  -- The handler has taken `r`, and defers the release of it as `r'`.
  unfoldable pub hold_as : R → R → Body S R (Unit {0})
  unfolding ◌>>=◌ ◌>>◌ record_event
  hold_as r r' = do record_event (acquired r); defer_release r'

  -- A call that takes `r` where it succeeds, with the deferred function that follows it.
  unfoldable pub take_as : {A : Type 0} → R → R → String → Result A → Body S R A
  unfolding ◌>>=◌ ◌>>◌ attempt return hold_as
  take_as r r' message result = do a ← attempt message result; hold_as r r'; return a

  module _ (give_back : R → S → S) where
    -- The deferred functions of a handler that failed; their own errors are only logged.
    abbrev run_deferred : List R → S × List (Event R) → S × List (Event R)
    run_deferred [] x = x
    run_deferred (r ∷ rs) (s, j) = run_deferred rs (give_back r s, released r ∷ j)

    abbrev pub give_back_all : List R → S → S
    give_back_all [] s = s
    give_back_all (r ∷ rs) s = give_back_all rs (give_back r s)

    -- The return of the handler.
    unfoldable pub finish : {A : Type 0} → Result A × Frame S R → Result A × (S × List (Event R))
    finish (ok a, s) = (ok a, (s.service, s.journal))
    finish (err e, s) = (err e, run_deferred s.deferred (s.service, s.journal))

-- ===== src/Defers/Balance.antt =====
-- What the bodies of the creating handlers keep: the deferred functions are those of what was taken.
use cri.Base.{
  if◌then◌else◌, Bool, true, false, String, ◌≡◌, refl, ◌∙◌, List, [], ◌∷◌, ◌++◌, map, reverse, All,
}
use cri.Base.Errors.{Error, Result, ok, err}
use cri.Defers.{
  Event, acquired, released, Frame, Body, ◌>>=◌, ◌>>◌, continue, attempt, return, hold_as, take_as,
  give_back_all, run_deferred, finish,
}
use mathlib.Core.List.{append_assoc, reverse-cons, map-append}

-- `P` holds of the resources that a body may take, and `undo` is the form of their release.
module _ {S R : Type 0} (P : R → Type 0) (undo : R → R) where
  -- From one moment to the next: only resources were taken, and each has its deferred function.
  pub record Grown (s s' : Frame S R) : Type 0 where
    pub taken : List R
    pub allowed : All P taken
    pub deferred : s'.deferred ≡ map undo taken ++ s.deferred
    pub journal : s'.journal ≡ map acquired taken ++ s.journal
    pub service : s'.service ≡ s.service

  pub Grown-refl : (s : Frame S R) → Grown s s
  Grown-refl s = record {
    taken = [];
    allowed = tt;
    deferred = refl;
    journal = refl;
    service = refl;
  }

  -- A step only takes resources, whether it succeeds or fails.
  pub record Keeps {A : Type 0} (m : Body S R A) : Type 0 where
    pub grown : (s₀ s : Frame S R) → Grown s₀ s → Grown s₀ (m s).1

  continue-Grown :
      {A B : Type 0} (f : A → Body S R B) (s₀ : Frame S R) (p : Result A × Frame S R)
      → Grown s₀ p.1
      → ((a : A) → Keeps (f a))
      → Grown s₀ (continue f p).1
  continue-Grown f s₀ (ok a, s) g hf = (hf a).grown s₀ s g
  continue-Grown f s₀ (err e, s) g hf = g

  pub bind-Keeps :
      {A B : Type 0} {m : Body S R A} {f : A → Body S R B}
      → Keeps m
      → ((a : A) → Keeps (f a))
      → Keeps (m >>= f)
  unfolding ◌>>=◌
  bind-Keeps {m = m} {f = f} hm hf = record {
    grown = λ s₀ s g. continue-Grown f s₀ (m s) (hm.grown s₀ s g) hf;
  }

  pub seq-Keeps :
      {A B : Type 0} {m : Body S R A} {n : Body S R B} → Keeps m → Keeps n → Keeps (m >> n)
  unfolding ◌>>◌
  seq-Keeps hm hn = bind-Keeps hm (λ _. hn)

  pub attempt-Keeps : {A : Type 0} (message : String) (r : Result A) → Keeps (attempt message r)
  unfolding attempt
  attempt-Keeps message r = record { grown = λ s₀ s g. g }

  pub return-Keeps : {A : Type 0} (a : A) → Keeps (return a)
  unfolding return
  return-Keeps a = record { grown = λ s₀ s g. g }

  pub if-Keeps :
      {A : Type 0} (c : Bool) {m n : Body S R A} → Keeps m → Keeps n → Keeps (if c then m else n)
  if-Keeps true hm hn = hm
  if-Keeps false hm hn = hn

  hold-Grown : (r : R) (s₀ s : Frame S R) → P r → Grown s₀ s → Grown s₀ (hold_as r (undo r) s).1
  unfolding hold_as
  hold-Grown r s₀ s h g = record {
    taken = r ∷ g.taken;
    allowed = (h, g.allowed);
    deferred = rw g.deferred;
    journal = rw g.journal;
    service = g.service;
  }

  pub hold-Keeps : (r r' : R) → P r → r' ≡ undo r → Keeps (hold_as r r')
  hold-Keeps r r' h e = rw e (record { grown = λ s₀ s g. hold-Grown r s₀ s h g })

  take-Grown :
      {A : Type 0} (r : R) (message : String) (result : Result A) (s₀ s : Frame S R)
      → P r
      → Grown s₀ s
      → Grown s₀ (take_as r (undo r) message result s).1
  unfolding take_as
  take-Grown r message (ok a) s₀ s h g = hold-Grown r s₀ s h g
  take-Grown r message (err e) s₀ s h g = g

  pub take-Keeps :
      {A : Type 0} (r r' : R) (message : String) (result : Result A)
      → P r
      → r' ≡ undo r
      → Keeps (take_as r r' message result)
  take-Keeps r r' message result h e =
      rw e (record { grown = λ s₀ s g. take-Grown r message result s₀ s h g })

  pub ruleset keeps =
      (bind-Keeps, seq-Keeps, attempt-Keeps, return-Keeps, if-Keeps, hold-Keeps, take-Keeps)

module _ {S R : Type 0} (give_back : R → S → S) where
  run_deferred-eq :
      (rs : List R) (s : S) (j : List (Event R))
      → run_deferred give_back rs (s, j)
        ≡ (give_back_all give_back rs s, map released (reverse rs) ++ j)
  run_deferred-eq [] s j = refl
  run_deferred-eq (r ∷ rs) s j =
      run_deferred-eq rs (give_back r s) (released r ∷ j)
      ∙ rw (
        reverse-cons r rs,
        map-append released (reverse rs) (r ∷ []),
        append_assoc (map released (reverse rs)) (released r ∷ []) j,
      )

  pub give_back_all-append :
      (rs ss : List R) (s : S)
      → give_back_all give_back (rs ++ ss) s
        ≡ give_back_all give_back ss (give_back_all give_back rs s)
  give_back_all-append [] ss s = refl
  give_back_all-append (r ∷ rs) ss s = give_back_all-append rs ss (give_back r s)

  -- The return of a handler that fails: the releases are in the order of the deferred functions, and
  -- the journal shows them over what it had.
  pub finish-err :
      {A : Type 0} (e : Error) (s : Frame S R)
      → finish give_back {A = A} (err e, s) ≡ (
        err e,
        (
          give_back_all give_back s.deferred s.service,
          map released (reverse s.deferred) ++ s.journal,
        ),
      )
  unfolding finish
  finish-err e s = rw (run_deferred-eq s.deferred s.service s.journal)

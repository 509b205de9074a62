-- ===== src/Label/Counts.antt =====
-- The counts of a label store are the numbers of reservations that are not yet released, and the
-- callbacks for a level alternate.
use cri.Base.{
  ℕ, ◌+◌, ◌-◌, String, Bool, false, ◌≡◌, ◌≢◌, refl, Option, none, some, List, [], ◌∷◌, arith,
  eq_iff, str_eq, if◌then◌else◌, is_some,
}
use cri.Base.GoMap.{lookup, lookup-insert, lookup-delete}
use cri.Base.Errors.{Result, ok, err}
use cri.Label.{
  LabelStore, Callback, reserver, releaser, Call, reserves, releases, reserve, release,
  new_label_store, reserve_level, release_level, step, run,
}

-- The label names the level, which is not empty.
abbrev pub has_level : String → Result String → Bool
has_level level (err e) = false
has_level level (ok l) = if str_eq l "" then false else str_eq l level

abbrev pub count : Option ℕ → ℕ
count none = 0
count (some n) = n

module _ (level_of : String → Result String) (level : String) where
  -- The specification: reservations outstanding, a release with none outstanding being ignored.
  pub outstanding : ℕ → List Call → ℕ
  outstanding n [] = n
  outstanding n (reserves l ∷ cs) =
      outstanding (if has_level level (level_of l) then n + 1 else n) cs
  outstanding n (releases l ∷ cs) =
      outstanding (if has_level level (level_of l) then n - 1 else n) cs

  -- How often `Reserver`, and `Releaser`, was called for the level.
  pub reserver_calls : List Callback → ℕ
  reserver_calls [] = 0
  reserver_calls (reserver l ∷ cs) =
      (if has_level level (level_of l) then 1 else 0) + reserver_calls cs
  reserver_calls (releaser l ∷ cs) = reserver_calls cs

  pub releaser_calls : List Callback → ℕ
  releaser_calls [] = 0
  releaser_calls (reserver l ∷ cs) = releaser_calls cs
  releaser_calls (releaser l ∷ cs) =
      (if has_level level (level_of l) then 1 else 0) + releaser_calls cs

  -- A level that is in the map has a positive count, and has been reserved once more than released.
  pub record Inv (n : ℕ) (s : LabelStore) : Type 0 where
    pub counted : count (lookup level s.levels) ≡ n
    pub positive : lookup level s.levels ≢ some 0
    pub balanced :
        reserver_calls s.callbacks
        ≡ releaser_calls s.callbacks + (if is_some (lookup level s.levels) then 1 else 0)

  module _ (n : ℕ) (l : String) (s : LabelStore) (v : Inv n s) where
    reserve_level-Inv :
        (r : Result String)
        → level_of l ≡ r
        → Inv (if has_level level r then n + 1 else n) (reserve_level l r s).0
    unfolding reserve_level reserver_calls releaser_calls
    reserve_level-Inv (err e) h = v
    reserve_level-Inv (ok k) h = record {
      counted = grind (arith, eq_iff, lookup-insert);
      positive = grind (arith, eq_iff, lookup-insert);
      balanced = grind (arith, eq_iff, lookup-insert);
    }

    release_level-Inv :
        (r : Result String)
        → level_of l ≡ r
        → Inv (if has_level level r then n - 1 else n) (release_level l r s)
    unfolding release_level reserver_calls releaser_calls
    release_level-Inv (err e) h = v
    release_level-Inv (ok k) h = record {
      counted = grind (arith, eq_iff, lookup-insert, lookup-delete);
      positive = grind (arith, eq_iff, lookup-insert, lookup-delete);
      balanced = grind (arith, eq_iff, lookup-insert, lookup-delete);
    }

  run-Inv :
      (cs : List Call) (n : ℕ) (s : LabelStore)
      → Inv n s
      → Inv (outstanding n cs) (run level_of s cs)
  unfolding run step reserve release outstanding
  run-Inv [] n s v = v
  run-Inv (reserves l ∷ cs) n s v = run-Inv cs _ _ (reserve_level-Inv n l s v (level_of l) refl)
  run-Inv (releases l ∷ cs) n s v = run-Inv cs _ _ (release_level-Inv n l s v (level_of l) refl)

  new-Inv : Inv 0 new_label_store
  unfolding new_label_store lookup reserver_calls releaser_calls
  new-Inv = record { counted = refl; positive = λ e. cc; balanced = refl }

  -- After any calls on a new store, the count of a level is the number of reservations of labels
  -- of that level that are not released, a release with none outstanding being ignored; a count in
  -- the map is never 0; and `Reserver` was called once more than `Releaser` for labels of the level
  -- if it is in the map, and equally often if it is not.
  pub run_counts : (cs : List Call) → Inv (outstanding 0 cs) (run level_of new_label_store cs)
  run_counts cs = run-Inv cs 0 new_label_store new-Inv

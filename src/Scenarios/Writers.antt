-- ===== src/Scenarios/Writers.antt =====
-- Runs of a group of writers, which are numbers.
use cri.Base.{ℕ, ◌+◌, ◌≡◌, refl, Bool, true, List, [], ◌∷◌, ltb}
use cri.Base.GoMap.{values, lookup, insert}
use cri.WriterGroup
use cri.WriterGroup.{new_writer_group, add, adds, writes, closes}
use cri.WriterGroup.Accounts.{count, added, FreshKeys, run_accounts}

abbrev any_writer : ℕ → Bool
any_writer w = true

-- The second writer fails.
abbrev calls : List (WriterGroup.Call ℕ)
calls = adds "log" 1 ∷ adds "attach" 5 ∷ writes (λ w. ltb w 3) ∷ closes ∷ []

calls_fresh : FreshKeys ℕ any_writer (new_writer_group ℕ) calls
unfolding new_writer_group add lookup insert WriterGroup.step
calls_fresh = (refl, (refl, tt))

run_accounts_example :
    let g = WriterGroup.run ℕ (new_writer_group ℕ) calls in
    count any_writer g.closings + count any_writer (values g.writers) ≡ added ℕ any_writer calls
run_accounts_example = run_accounts ℕ any_writer calls calls_fresh

-- ===== src/WriterGroup/Accounts.antt =====
-- Every writer of a group is in it or was closed, and never closed twice.
use cri.Base.{
  ℕ, ◌+◌, String, ◌≡◌, refl, Bool, none, some, List, [], ◌∷◌, if◌then◌else◌, arith, eq_iff,
  Option-cases, Bool-cases, inl, inr,
}
use cri.Base.GoMap.{
  Map, lookup, insert, delete, values, Distinct, insert-Distinct, delete-Distinct, delete_missing,
}
use cri.WriterGroup.{
  WriterGroup, new_writer_group, add, remove, remove_found, write, write_each, close, close_each,
  Call, adds, removes, writes, closes, step, run,
}

-- How many elements a test takes.
abbrev pub count : {A : Type 0} → (A → Bool) → List A → ℕ
count p [] = 0
count p (x ∷ xs) = (if p x then 1 else 0) + count p xs

module _ (W : Type 0) (p : W → Bool) where
  count-insert :
      (k : String) (w : W) (m : Map W)
      → lookup k m ≡ none
      → count p (values (insert k w m)) ≡ (if p w then 1 else 0) + count p (values m)
  unfolding values insert lookup
  count-insert k w [] h = refl
  count-insert k w ((j, v) ∷ m) h = ground (arith, h, count-insert k w m)

  count-delete :
      (k : String) (w : W) (m : Map W)
      → Distinct m
      → lookup k m ≡ some w
      → count p (values m) ≡ (if p w then 1 else 0) + count p (values (delete k m))
  unfolding values delete lookup
  count-delete k w [] d h = cc
  count-delete k w ((j, v) ∷ m) d h =
      ground (arith, h, d, eq_iff j k, delete_missing k m, count-delete k w m d.1)

  count-write_each :
      (accepts : W → Bool) (m : Map W) (closings : List W)
      → count p (write_each W accepts m closings).1
          + count p (values (write_each W accepts m closings).0)
        ≡ count p closings + count p (values m)
  unfolding values write_each
  count-write_each accepts [] closings = refl
  count-write_each accepts ((k, w) ∷ m) closings =
      ground (arith, count-write_each accepts m closings, count-write_each accepts m (w ∷ closings))

  count-close_each :
      (m : Map W) (closings : List W)
      → count p (close_each W m closings) ≡ count p closings + count p (values m)
  unfolding values close_each
  count-close_each [] closings = omega arith
  count-close_each ((k, w) ∷ m) closings = ground (arith, count-close_each m (w ∷ closings))

  -- The writers that were added and satisfy the test.
  abbrev pub added : List (Call W) → ℕ
  added [] = 0
  added (adds key w ∷ calls) = (if p w then 1 else 0) + added calls
  added (removes key ∷ calls) = added calls
  added (writes accepts ∷ calls) = added calls
  added (closes ∷ calls) = added calls

  -- Each key is free when a writer is added under it.
  abbrev pub FreshKeys : WriterGroup W → List (Call W) → Type 0
  FreshKeys g [] = Unit
  FreshKeys g (adds key w ∷ calls) =
      (lookup key g.writers ≡ none) × FreshKeys (step W g (adds key w)) calls
  FreshKeys g (c ∷ calls) = FreshKeys (step W g c) calls

  -- The writers closed and those in the group are `n`.
  record Balanced (n : ℕ) (g : WriterGroup W) : Type 0 where
    distinct : Distinct g.writers
    balance : count p g.closings + count p (values g.writers) ≡ n

  add-Balanced :
      (n : ℕ) (key : String) (w : W) (g : WriterGroup W)
      → Balanced n g
      → lookup key g.writers ≡ none
      → Balanced ((if p w then 1 else 0) + n) (add W key w g)
  unfolding add
  add-Balanced n key w g v free = elim (Bool-cases g.closed) [
    | inl q ↦ rw q record { distinct = v.distinct; balance = ground (arith, v.balance) }
    | inr q ↦ rw q record {
      distinct = insert-Distinct key w g.writers v.distinct;
      balance = ground (arith, v.balance, count-insert key w g.writers free);
    }
  ]

  lookup-write_each :
      (accepts : W → Bool) (k : String) (m : Map W) (closings : List W)
      → lookup k m ≡ none
      → lookup k (write_each W accepts m closings).0 ≡ none
  unfolding write_each lookup
  lookup-write_each accepts k [] closings h = refl
  lookup-write_each accepts k ((j, w) ∷ m) closings h = ground (
    arith,
    h,
    lookup-write_each accepts k m closings,
    lookup-write_each accepts k m (w ∷ closings),
  )

  write_each-Distinct :
      (accepts : W → Bool) (m : Map W) (closings : List W)
      → Distinct m
      → Distinct (write_each W accepts m closings).0
  unfolding write_each
  write_each-Distinct accepts [] closings d = tt
  write_each-Distinct accepts ((k, w) ∷ m) closings d = elim (Bool-cases (accepts w)) [
    | inl q ↦
        rw q
          (lookup-write_each accepts k m closings d.0, write_each-Distinct accepts m closings d.1)
    | inr q ↦ rw q (write_each-Distinct accepts m (w ∷ closings) d.1)
  ]

  remove-Balanced :
      (n : ℕ) (key : String) (g : WriterGroup W) → Balanced n g → Balanced n (remove W key g)
  unfolding remove remove_found
  remove-Balanced n key g v = elim (Option-cases (lookup key g.writers)) [
    | inl e ↦ rw (e, remove_found) v
    | inr (w, e) ↦
        rw (e, remove_found)
          record {
            distinct = delete-Distinct key g.writers v.distinct;
            balance = ground (arith, v.balance, count-delete key w g.writers v.distinct e);
          }
  ]

  write-Balanced :
      (n : ℕ) (accepts : W → Bool) (g : WriterGroup W)
      → Balanced n g
      → Balanced n (write W accepts g).0
  unfolding write
  write-Balanced n accepts g v = record {
    distinct = write_each-Distinct accepts g.writers g.closings v.distinct;
    balance = ground (arith, v.balance, count-write_each accepts g.writers g.closings);
  }

  close-Balanced : (n : ℕ) (g : WriterGroup W) → Balanced n g → Balanced n (close W g)
  unfolding close values
  close-Balanced n g v = record {
    distinct = tt;
    balance = ground (arith, v.balance, count-close_each g.writers g.closings);
  }

  run-Balanced :
      (n : ℕ) (g : WriterGroup W) (calls : List (Call W))
      → Balanced n g
      → FreshKeys g calls
      → Balanced (n + added calls) (run W g calls)
  unfolding run step
  run-Balanced n g [] v f = record { distinct = v.distinct; balance = ground (arith, v.balance) }
  run-Balanced n g (adds key w ∷ calls) v f =
      let rest =
        run-Balanced ((if p w then 1 else 0) + n) (add W key w g) calls
          (add-Balanced n key w g v f.0) f.1 in
      record { distinct = rest.distinct; balance = ground (arith, rest.balance) }
  run-Balanced n g (removes key ∷ calls) v f =
      run-Balanced n (remove W key g) calls (remove-Balanced n key g v) f
  run-Balanced n g (writes accepts ∷ calls) v f =
      run-Balanced n (write W accepts g).0 calls (write-Balanced n accepts g v) f
  run-Balanced n g (closes ∷ calls) v f = run-Balanced n (close W g) calls (close-Balanced n g v) f

  -- After any calls on a new group in which a key is free when a writer is added under it, the writers
  -- that were closed and those in the group are together the writers that were added: for every test,
  -- as many satisfy it, so none is lost and none is closed twice.
  pub run_accounts :
      (calls : List (Call W))
      → FreshKeys (new_writer_group W) calls
      → let g = run W (new_writer_group W) calls in
        count p g.closings + count p (values g.writers) ≡ added calls
  unfolding new_writer_group values
  run_accounts calls f =
      let start = new_writer_group W in
      let balanced = run-Balanced 0 start calls (record { distinct = tt; balance = refl }) f in
      ground (arith, balanced.balance)

-- ===== src/WriterGroup.antt =====
-- pkg/ioutil/writer_group.go: a group of writers behind one. The calls of `Close` on writers are
-- logged, newest first. What a writer does with the data is the argument `accepts`: it writes all of
-- it without error.
pub mod Accounts
use cri.Base.{ℕ, String, Bool, true, false, Option, none, some, List, [], ◌∷◌, if◌then◌else◌}
use cri.Base.GoMap.{Map, lookup, insert, delete, values}
use cri.Base.Errors.{Error, failure}

module _ (W : Type 0) where
  -- WriterGroup
  pub record WriterGroup : Type 0 where
    pub writers : Map W
    pub closed : Bool
    pub closings : List W

  -- NewWriterGroup
  unfoldable pub new_writer_group : WriterGroup
  new_writer_group = record { writers = []; closed = false; closings = [] }

  -- Add
  unfoldable pub add : String → W → WriterGroup → WriterGroup
  add key w g =
      if g.closed
      then record g { closings = w ∷ g.closings }
      else record g { writers = insert key w g.writers }

  -- Get
  unfoldable pub get : String → WriterGroup → Option W
  get key g = lookup key g.writers

  remove_found : String → Option W → WriterGroup → WriterGroup
  remove_found key none g = g
  remove_found key (some w) g = record g {
    writers = delete key g.writers;
    closings = w ∷ g.closings;
  }

  -- Remove
  unfoldable pub remove : String → WriterGroup → WriterGroup
  unfolding remove_found
  remove key g = remove_found key (lookup key g.writers) g

  -- The loop of Write over the map, which deletes the entry that it is at: the entries that stay, and
  -- the log of the closed writers.
  unfoldable pub write_each : (W → Bool) → Map W → List W → Map W × List W
  write_each accepts [] closings = ([], closings)
  write_each accepts ((k, w) ∷ rest) closings =
      let kept = write_each accepts rest closings in
      let dropped = write_each accepts rest (w ∷ closings) in
      if accepts w then ((k, w) ∷ kept.0, kept.1) else dropped

  empty_error : Map W → Option Error
  empty_error [] = some (failure "writer group is empty")
  empty_error (e ∷ rest) = none

  -- Write
  unfoldable pub write : (W → Bool) → WriterGroup → WriterGroup × Option Error
  unfolding empty_error
  write accepts g =
      let r = write_each accepts g.writers g.closings in
      (record g { writers = r.0; closings = r.1 }, empty_error r.0)

  close_each : Map W → List W → List W
  close_each [] closings = closings
  close_each ((k, w) ∷ rest) closings = close_each rest (w ∷ closings)

  -- Close
  unfoldable pub close : WriterGroup → WriterGroup
  unfolding close_each
  close g = record { writers = []; closed = true; closings = close_each g.writers g.closings }

-- One call of a client.
pub data Call (W : Type 0) : Type 0 where
  adds : String → W → Call W
  removes : String → Call W
  writes : (W → Bool) → Call W
  closes : Call W

module _ (W : Type 0) where
  unfoldable pub step : WriterGroup W → Call W → WriterGroup W
  step g (adds key w) = add W key w g
  step g (removes key) = remove W key g
  step g (writes accepts) = (write W accepts g).0
  step g closes = close W g

  pub run : WriterGroup W → List (Call W) → WriterGroup W
  run g [] = g
  run g (c ∷ calls) = run (step g c) calls

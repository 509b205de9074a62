-- ===== src/Container/Concurrency.antt =====
-- The transactions of StartContainer, RemoveContainer and the event monitor on one container, in
-- any order: `Update` and `UpdateSync` hold the status lock, so each transaction is one step. A
-- call that is under way is counted from the step that sets its flag to the step that resets it; a
-- removal that succeeds never resets its flag.
pub mod Exclusion
pub mod Progress
use cri.Base.{
  ℕ, ◌+◌, ◌-◌, String, Bool, Option, none, some, List, [], ◌∷◌, if◌then◌else◌, ltb, ◌==◌, not, ◌&&◌,
}
use cri.Base.Errors.{Result, ok, err}
use cri.Container.Status.{Status}
use cri.Container.Transitions.{
  set_starting, reset_starting, set_started, set_start_failed, set_removing, reset_removing,
  set_exited, set_oom,
}

pub record System : Type 0 where
  pub status : Status
  pub starters : ℕ  -- calls of StartContainer between their first and last transaction
  pub removers : ℕ  -- calls of RemoveContainer after setContainerRemoving

pub data Action : Type 0 where
  start_begins start_ends remove_begins remove_fails oom : Action
  start_succeeds : ℕ → ℕ → Action
  start_fails : ℕ → String → Action
  exits : ℕ → ℕ → Action

-- The status after a transaction; one that fails is rolled back.
abbrev after : Result Status → Status → Status
after (ok t) s = t
after (err e) s = s

abbrev is_ok : Result Status → ℕ
is_ok (ok t) = 1
is_ok (err e) = 0

-- One transaction. Those of a call under way need such a call; a time is not the epoch.
unfoldable pub act : Action → System → System
act start_begins s = record s {
  status = after (set_starting s.status) s.status;
  starters = s.starters + is_ok (set_starting s.status);
}
act (start_succeeds pid now) s =
    if ltb 0 s.starters && not (now == 0)
    then record s { status = after (set_started pid now s.status) s.status }
    else s
act (start_fails now message) s =
    if ltb 0 s.starters && not (now == 0)
    then record s { status = after (set_start_failed now message s.status) s.status }
    else s
act start_ends s =
    if ltb 0 s.starters
    then record s { status = after (reset_starting s.status) s.status; starters = s.starters - 1 }
    else s
act remove_begins s = record s {
  status = after (set_removing s.status) s.status;
  removers = s.removers + is_ok (set_removing s.status);
}
act remove_fails s =
    if ltb 0 s.removers
    then record s { status = after (reset_removing s.status) s.status; removers = s.removers - 1 }
    else s
act oom s = record s { status = after (set_oom s.status) s.status }
act (exits at code) s =
    if at == 0 then s else record s { status = after (set_exited at code s.status) s.status }

unfoldable pub run : System → List Action → System
run s [] = s
run s (a ∷ rest) = run (act a s) rest

-- A container that no call works on.
abbrev pub idle : Status → System
idle s = record { status = s; starters = 0; removers = 0 }

-- ===== src/Container/Concurrency/Exclusion.antt =====
-- Starting and removing exclude each other.
use cri.Base.{◌+◌, ◌≤◌, ◌≡◌, ◌≢◌, ◌⊎◌, inl, false, List, [], ◌∷◌, arith, if◌then◌else◌}
use cri.Container.Status.{Status, state}
use cri.Container.Transitions.{
  set_starting, reset_starting, set_started, set_start_failed, set_removing, reset_removing,
  set_exited, set_oom,
}
use cri.Container.Concurrency.{System, Action, start_begins, act, run, idle}

-- The flags count the calls under way, of which there is at most one; a container that is being
-- started is known and was created.
pub record Inv (s : System) : Type 0 where
  pub starting : s.starters ≡ (if s.status.starting then 1 else 0)
  pub removing : s.removers ≡ (if s.status.removing then 1 else 0)
  pub exclusive : s.starters + s.removers ≤ 1
  pub known : (s.status.starting ≡ false) ⊎ ((s.status.unknown ≡ false) × (s.status.created_at ≢ 0))

pub act-Inv : (a : Action) (s : System) → Inv s → Inv (act a s)
unfolding act set_starting reset_starting set_started set_start_failed set_removing reset_removing
    set_exited set_oom state
act-Inv start_begins s v = ground arith
act-Inv _ s v = ground arith

pub run_from-Inv : (actions : List Action) (s : System) → Inv s → Inv (run s actions)
unfolding run
run_from-Inv [] s v = v
run_from-Inv (a ∷ rest) s v = run_from-Inv rest (act a s) (act-Inv a s v)

-- From a container whose `Starting` and `Removing` are not set and on which no call works, in every
-- order of the transactions, at most one StartContainer or RemoveContainer is under way at a time, and the
-- flags `Starting` and `Removing` tell which.
pub start_remove_exclusive :
    (s : Status) (actions : List Action)
    → s.starting ≡ false
    → s.removing ≡ false
    → let t = run (idle s) actions in
      (t.starters + t.removers ≤ 1)
      × (t.starters ≡ (if t.status.starting then 1 else 0))
      × (t.removers ≡ (if t.status.removing then 1 else 0))
start_remove_exclusive s actions a b =
    let v =
      run_from-Inv actions (idle s)
        (record { starting = rw a; removing = rw b; exclusive = omega arith; known = inl a }) in
    (v.exclusive, v.starting, v.removing)

-- ===== src/Scenarios/Containers.antt =====
-- Runs of the handlers of a container.
use cri.Base.{
  ℕ, ◌≤◌, true, false, ◌≡◌, refl, sym, ◌⊎◌, none, some, List, [], ◌∷◌, arith, if◌then◌else◌, ◌+◌,
}
use cri.Base.Int.{pos}
use cri.Base.Errors.{Error, ok, not_exist}
use cri.Container.Status.{
  Status, VersionedStatus, Json, Storage, status_version, state, update_sync, container_exited,
}
use cri.Container.Status.Checkpointing.{Written, update_sync_atomic}
use cri.Container.Transitions.{set_exited}
use cri.Container.Exit.{
  ExitWorld, Live, Unchanged, Exited, handle_container_exit, handle_container_exit_effect,
}
use cri.Container.Start.{StartWorld, start_container}
use cri.Container.Start.Outcome.{Refused, Running, Failed, start_container_outcome}
use cri.Container.Concurrency.{
  run, act, idle, Action, start_begins, start_ends, start_succeeds, remove_begins, exits,
}
use cri.Container.Concurrency.Exclusion.{start_remove_exclusive}
use cri.Container.Concurrency.Progress.{◌⟶◌, states_advance, exited_forever}
use cri.Container.Remove.{RemoveWorld, remove_container}
use cri.Container.Remove.Effect.{Removed, NotRemoved, stopped, remove_container_effect}
use cri.Container.Stop.{StopWorld, stop_container}
use cri.Container.Stop.Signals.{StopCases, stop_container_signals}

-- Files that hold the value itself.
abbrev pub values : Json
values = record {
  Bytes = VersionedStatus;
  marshal = λ v. ok v;
  unmarshal = λ b. ok b;
  unmarshal-marshal = λ v b e. sym e;
}

-- Created at 5 and, where the times are not 0, started and finished.
abbrev pub status_at : ℕ → ℕ → Status
status_at started finished = record {
  fields = record {
    pid = 0;
    created_at = 5;
    started_at = started;
    finished_at = finished;
    exit_code = pos 0;
    reason = "";
    message = "";
  };
  starting = false;
  removing = false;
  unknown = false;
}

abbrev pub stored : Status → Storage values
stored s = record {
  status = s;
  file = some (record { version = status_version; status = s.fields });
}

abbrev pub live : Status → Live values
live s = record { storage = stored s; stopped = false }

update_sync_atomic_example :
    let r = update_sync values none (set_exited 9 137) (stored (status_at 7 0)) in
    ((e : Error) × (r ≡ (stored (status_at 7 0), some e)))
    ⊎ ((s : Status) × (set_exited 9 137 (status_at 7 0) ≡ ok s)
        × (r.1 ≡ none)
        × Written values s r.0)
update_sync_atomic_example =
    update_sync_atomic values none (set_exited 9 137) (stored (status_at 7 0))

abbrev task_gone : ExitWorld
task_gone = record { task = some not_exist; delete = none; write = none }

handle_container_exit_effect_example :
    let c = live (status_at 7 0) in
    let r =
      handle_container_exit values task_gone (record { exit_status = 137; exited_at = 9 }) c in
    Unchanged values c r ⊎ ((s : Status) × Exited values c r s)
handle_container_exit_effect_example =
    handle_container_exit_effect values task_gone (record { exit_status = 137; exited_at = 9 })
      (live (status_at 7 0)) (λ n. omega arith)

-- Everything works.
abbrev start_world : StartWorld
start_world = record {
  sandbox_ready = ok true;
  info = none;
  new_task = none;
  wait = none;
  start = none;
  pid = 42;
  started_at = 7;
  failed_at = 8;
  write_started = none;
  write_failed = none;
  text = λ e. "failed";
}

start_container_outcome_example :
    let p = start_container values start_world (stored (status_at 0 0)) in
    Refused values (stored (status_at 0 0)) p ⊎ Running values start_world p ⊎ Failed values p
start_container_outcome_example =
    start_container_outcome values start_world (λ v. (v, refl)) refl (stored (status_at 0 0))
      (λ n. omega arith) (λ n. omega arith)

-- A start during which a removal is tried, and an exit.
abbrev race : List Action
race =
    start_begins ∷ remove_begins ∷ start_succeeds 42 7 ∷ start_ends ∷ exits 9 0 ∷ remove_begins ∷ []

start_remove_exclusive_example :
    let t = run (idle (status_at 0 0)) race in
    (t.starters + t.removers ≤ 1)
    × (t.starters ≡ (if t.status.starting then 1 else 0))
    × (t.removers ≡ (if t.status.removing then 1 else 0))
start_remove_exclusive_example = start_remove_exclusive (status_at 0 0) race refl refl

states_advance_example :
    let t = run (idle (status_at 0 0)) race in state t.status ⟶ state (act (exits 12 1) t).status
states_advance_example = states_advance (status_at 0 0) race (exits 12 1) refl refl

exited_forever_example : state (run (idle (status_at 7 9)) race).status ≡ container_exited
exited_forever_example = exited_forever (status_at 7 9) race refl refl (unfold state in refl)

abbrev pub remove_world : RemoveWorld
remove_world = record {
  delete = some not_exist;
  delete_checkpoint = none;
  remove_root = none;
  remove_volatile = none;
}

remove_container_effect_example :
    let c = live (status_at 7 9) in
    let r = remove_container values (λ d. (d, none)) remove_world c in
    Removed values remove_world r ⊎ NotRemoved values (stopped values (λ d. (d, none)) c).0 r
remove_container_effect_example =
    remove_container_effect values (λ d. (d, none)) remove_world (live (status_at 7 9))

-- The stop signal does not stop the container in time.
abbrev stop_world : StopWorld
stop_world = record {
  task = none;
  wait = none;
  image_signal = ok "SIGQUIT";
  parse_signal = λ s. ok s;
  kill = none;
  stopped_in_time = false;
  cancelled = none;
  kill_forced = none;
  wait_forced = none;
  exit = task_gone;
  now = 11;
}

stop_container_signals_example :
    StopCases values stop_world "" 10
      (live (status_at 7 9))
      (live (status_at 7 0))
      (state (status_at 7 0))
      (stop_container values stop_world "" 10 (live (status_at 7 9)) (live (status_at 7 0)))
stop_container_signals_example =
    stop_container_signals values stop_world "" 10 (live (status_at 7 9)) (live (status_at 7 0))
      refl refl

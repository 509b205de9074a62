-- ===== src/Scenarios/Recovery.antt =====
-- Runs of the recovery of a container.
use cri.Base.{◌≡◌, ◌↔◌, none, true, arith}
use cri.Base.Int.{pos}
use cri.Base.Errors.{ok, err, failure}
use cri.Container.Status.{Checkpoint, state, restored, container_running, container_unknown}
use cri.Container.Load.{LoadWorld, task_running, load_container}
use cri.Container.Load.Recovery.{
  task_of, outcome, recovered, load_container_state, running_monitored, unreadable_unknown,
}

-- A running task that can be waited for.
abbrev world : LoadWorld
world = record {
  task = none;
  task_status = ok (record { status = task_running; exit_status = 0; exit_time = 1 });
  container_io = none;
  delete = none;
  wait = none;
  pid = 42;
  now = 11;
}

abbrev created : Checkpoint
created = record {
  pid = 0;
  created_at = 5;
  started_at = 0;
  finished_at = 0;
  exit_code = pos 0;
  reason = "";
  message = "";
}

load_container_state_example :
    state (load_container world (ok (restored created))).0
    ≡ recovered
        (task_of world)
        (outcome none)
        (outcome none)
        (outcome none)
        (state (restored created))
load_container_state_example =
    load_container_state world created (λ n. omega arith) (λ n. omega arith)

running_monitored_example :
    (state (load_container world (ok (restored created))).0 ≡ container_running)
    ↔ ((load_container world (ok (restored created))).1 ≡ true)
running_monitored_example = running_monitored world created (λ n. omega arith) (λ n. omega arith)

unreadable_unknown_example :
    state (load_container world (err (failure "no such file"))).0 ≡ container_unknown
unreadable_unknown_example = unreadable_unknown world (failure "no such file")

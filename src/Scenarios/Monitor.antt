-- ===== src/Scenarios/Monitor.antt =====
-- A run of the handler of events.
use cri.Base.{ℕ, String, false, ◌≡◌, Bool, Option, none, some, [], ◌∷◌, arith, if◌then◌else◌}
use cri.Base.Errors.{Error, not_exist, is_not_exist}
use cri.Container.Exit.{TaskExit}
use cri.Events.{
  task_exit, EventWorld, Container, container_fields, PodSandbox, sandbox_fields, Service,
  handle_event,
}
use cri.Events.Targets.{ExitOutcome, task_exit_outcome}
use cri.IdStore.{Store, new_store}
use cri.IdStore.Agreement
use cri.IdStore.Agreement.{Agree, adds, run-Agree}
use cri.IdStore.Index.{found, missing, refused}
use cri.Label.{new_label_store}
use cri.Sandbox as Sandbox
use cri.Scenarios.Containers.{values, live, status_at}
use cri.Scenarios.Reservations.{own_level}
use cri.Scenarios.Stores.{whole_ids}

never_refused :
    (i : String → Bool) (s : String) (y : Error)
    → (if i s then found s else missing) ≡ refused y
    → is_not_exist y ≡ false
never_refused i s y e = ground (arith, e)

abbrev running : Container values
running = record { id = "c1"; process_label = "s0:c1"; live = live (status_at 7 0) }

abbrev pod : PodSandbox
pod = record {
  id = "p1";
  process_label = "s0:c2";
  live = record {
    status = record { pid = 3; created_at = 5; state = Sandbox.ready };
    stopped = false;
  };
}

abbrev containers : Store whole_ids own_level (container_fields values)
containers =
    Agreement.run whole_ids own_level (container_fields values)
      (new_store whole_ids own_level (container_fields values) new_label_store) (adds running ∷ [])

abbrev pods : Store whole_ids own_level sandbox_fields
pods =
    Agreement.run whole_ids own_level sandbox_fields
      (new_store whole_ids own_level sandbox_fields new_label_store) (adds pod ∷ [])

-- The images are a number, which an update leaves.
abbrev update_image : String → ℕ → ℕ × Option Error
update_image name n = (n, none)

abbrev service : Service values whole_ids own_level update_image
service = record { containers = containers; sandboxes = pods; images = 2 }

abbrev event_world : EventWorld
event_world = record {
  container = record { task = some not_exist; delete = none; write = none };
  sandbox = record { task = none; delete = none };
  write = none;
}

abbrev exit : TaskExit
exit = record { exit_status = 137; exited_at = 9 }

containers-Agree : Agree whole_ids own_level (container_fields values) containers
containers-Agree =
    run-Agree whole_ids own_level (container_fields values) new_label_store (adds running ∷ [])

pods-Agree : Agree whole_ids own_level sandbox_fields pods
pods-Agree = run-Agree whole_ids own_level sandbox_fields new_label_store (adds pod ∷ [])

task_exit_outcome_example :
    ExitOutcome values whole_ids own_level update_image event_world exit "c1" service (
      handle_event values whole_ids own_level update_image event_world
        (task_exit "c1" exit)
        service)
task_exit_outcome_example =
    task_exit_outcome values whole_ids own_level update_image event_world "c1" exit service
      never_refused containers-Agree pods-Agree (λ n. omega arith)

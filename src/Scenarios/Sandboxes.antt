-- ===== src/Scenarios/Sandboxes.antt =====
-- Runs of the handlers of a sandbox.
use cri.Base.{ℕ, suc, String, ◌≡◌, ◌≢◌, refl, ◌⊎◌, Option, none, some, List, [], ◌∷◌, true, false}
use cri.Base.Errors.{Error, ok, err, not_exist}
use cri.Label.{new_label_store}
use cri.IdStore.{new_store, add, get}
use cri.Registrar.{new_registrar, reserve}
use cri.Scenarios.Reservations.{own_level}
use cri.Scenarios.Stores.{whole_ids, Item, item_fields}
use cri.Sandbox.{Live, State, ExitWorld, ready, not_ready, unknown, reap, handle_sandbox_exit}
use cri.Sandbox.Exit
use cri.Sandbox.Exit.{handle_sandbox_exit_effect}
use cri.Sandbox.Load.{
  LoadWorld, IsReady, IsDown, task_running, load_sandbox, load_sandbox_status, load_sandbox_cases,
}
use cri.Sandbox.Stop.Complete.{Stopped, stop_pod_sandbox_complete}
use cri.Sandbox.Stop.{PodWorld, stop_pod_sandbox, stop_sandbox_container, for_sandbox, tear_down}
use cri.Sandbox.Remove.{
  RemoveWorld, Service, Removed, Kept, remove_pod_sandbox, remove_pod_sandbox_cases,
}

abbrev sandbox_in : State → Live
sandbox_in s = record { status = record { pid = 7; created_at = 5; state = s }; stopped = false }

abbrev task_gone : ExitWorld
task_gone = record { task = some not_exist; delete = none }

handle_sandbox_exit_effect_example :
    ((reap task_gone ≡ none)
      × Exit.Ended (sandbox_in ready) (handle_sandbox_exit task_gone (sandbox_in ready)))
    ⊎ ((e : Error) × (reap task_gone ≡ some e)
        × (handle_sandbox_exit task_gone (sandbox_in ready) ≡ (sandbox_in ready, some e)))
handle_sandbox_exit_effect_example = handle_sandbox_exit_effect task_gone (sandbox_in ready)

abbrev load_world : LoadWorld
load_world = record {
  info = ok 5;
  task = none;
  task_status = ok task_running;
  wait = none;
  delete = none;
  pid = 7;
}

load_sandbox_cases_example :
    IsReady load_world (load_sandbox_status load_world) (load_sandbox load_world)
    ⊎ (((load_sandbox_status load_world).2 ≡ none)
        × IsDown not_ready true (load_sandbox_status load_world) (load_sandbox load_world))
    ⊎ (((load_sandbox_status load_world).2 ≢ none)
        × IsDown unknown false (load_sandbox_status load_world) (load_sandbox load_world))
load_sandbox_cases_example = load_sandbox_cases load_world

-- The task of the sandbox dies on its signal; the network's path is gone.
abbrev pod_world : PodWorld
pod_world = record {
  files = none;
  stop = record { task = none; wait = none; kill = none; stopped = none; exit = task_gone };
  later = record { status = record { pid = 0; created_at = 5; state = not_ready }; stopped = true };
  network = some (record { closed = ok true; teardown = λ path. none; remove = none });
  path = "/var/run/netns/cni-1";
}

-- A container is its id and the id of its sandbox; stopping one counts.
abbrev count_stop : String × String → ℕ → ℕ × Option Error
count_stop c n = (suc n, none)

abbrev two_containers : List (String × String)
two_containers = ("c1", "s1") ∷ ("c2", "s2") ∷ []

abbrev pod_stopped : ℕ × Live × Option Error
pod_stopped =
    stop_pod_sandbox (λ (c : String × String). c.1) count_stop pod_world "s1" two_containers
      (sandbox_in ready) 0

pod_stopped_well : pod_stopped.2 ≡ none
unfolding stop_pod_sandbox for_sandbox stop_sandbox_container tear_down
pod_stopped_well = refl

stop_pod_sandbox_complete_example :
    Stopped
      (λ (c : String × String). c.1)
      count_stop
      pod_world
      "s1"
      two_containers
      (sandbox_in ready)
      0
      pod_stopped
stop_pod_sandbox_complete_example =
    stop_pod_sandbox_complete (λ (c : String × String). c.1) count_stop pod_world "s1"
      two_containers (sandbox_in ready) 0 pod_stopped_well

abbrev remove_world : RemoveWorld
remove_world = record {
  closed = some (ok true);
  remove_root = none;
  remove_volatile = none;
  delete = some not_exist;
}

abbrev stop_nothing : Item → ℕ → ℕ × Option Error
stop_nothing a n = (n, none)

abbrev always_ready : Item → ℕ → State
always_ready a n = ready

abbrev containers_of : ℕ → List (String × String)
containers_of n = two_containers

abbrev service :
    Service whole_ids own_level item_fields
      (λ (c : String × String). c.1)
      count_stop
      stop_nothing
      always_ready
      containers_of
service = record {
  sandboxes =
      (add whole_ids own_level item_fields ("s1", "s0:c1")
        (new_store whole_ids own_level item_fields new_label_store)).0;
  names = (reserve "pod" "s1" new_registrar).0;
  rest = 0;
}

remove_pod_sandbox_cases_example :
    let r =
      remove_pod_sandbox whole_ids own_level item_fields
        (λ (c : String × String). c.1)
        count_stop
        stop_nothing
        always_ready
        containers_of
        remove_world
        "s1"
        service in
    ((get whole_ids own_level item_fields "s1" service.sandboxes ≡ err not_exist)
      × (r ≡ (service, none)))
    ⊎ ((a : Item) × (get whole_ids own_level item_fields "s1" service.sandboxes ≡ ok a)
        × (r.1 ≡ none)
        × Removed whole_ids own_level item_fields
            (λ (c : String × String). c.1)
            count_stop
            stop_nothing
            always_ready
            containers_of
            remove_world
            a
            service
            r.0)
    ⊎ Kept whole_ids own_level item_fields
        (λ (c : String × String). c.1)
        count_stop
        stop_nothing
        always_ready
        containers_of
        service
        r
remove_pod_sandbox_cases_example =
    remove_pod_sandbox_cases whole_ids own_level item_fields (λ (c : String × String). c.1)
      count_stop stop_nothing always_ready containers_of remove_world "s1" service

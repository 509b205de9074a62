-- ===== src/Container/Load/Recovery.antt =====
-- What the recovery makes of a container, by its checkpoint and its task.
use cri.Base.{◌≡◌, ◌≢◌, ◌↔◌, true, Option, none, some, arith, if◌then◌else◌}
use cri.Base.Errors.{Error, Result, ok, err, is_not_found}
use cri.Container.Status.{
  Checkpoint, ContainerState, state, restored, container_created, container_running,
  container_exited, container_unknown,
}
use cri.Container.Load.{
  LoadWorld, TaskState, TaskStatus, task_created, task_running, task_stopped, task_other, reconcile,
  load_container,
}

-- The errors that matter: none, gone, or another.
pub data Outcome : Type 0 where
  fine gone fails : Outcome

abbrev pub outcome : Option Error → Outcome
outcome none = fine
outcome (some e) = if is_not_found e then gone else fails

-- The task as the recovery finds it.
pub data Task : Type 0 where
  missing unreadable : Task
  found : TaskState → Task

abbrev status_of_task : Result TaskStatus → Task
status_of_task (ok t) = found t.status
status_of_task (err e) = if is_not_found e then missing else unreadable

abbrev pub task_of : LoadWorld → Task
task_of w = elim w.task [
  | none ↦ status_of_task w.task_status
  | some e ↦ if is_not_found e then missing else unreadable
]

-- The state that a container of the state `s` recovers to.
abbrev pub recovered : Task → Outcome → Outcome → Outcome → ContainerState → ContainerState
recovered missing io delete wait container_created = elim io [
  | fine ↦ container_created
  | gone ↦ container_unknown
  | fails ↦ container_unknown
]
recovered missing io delete wait container_running = container_exited
recovered missing io delete wait s = s
recovered unreadable io delete wait s = container_unknown
recovered (found task_created) io fails wait s = container_unknown
recovered (found task_created) io delete wait container_created = container_created
recovered (found task_created) io delete wait s = container_unknown
recovered (found task_running) io delete wait container_exited = container_unknown
recovered (found task_running) io delete fine s = container_running
recovered (found task_running) io delete gone s = container_exited
recovered (found task_running) io delete fails s = container_unknown
recovered (found task_stopped) io fails wait s = container_unknown
recovered (found task_stopped) io delete wait s = container_exited
recovered (found task_other) io delete wait s = container_unknown

-- The time of the exit of a stopped task is not the epoch.
abbrev pub HasExitTime : Result TaskStatus → Type 0
HasExitTime (err e) = Unit
HasExitTime (ok t) = t.exit_time ≢ 0

-- Where the clock and the exit time of a stopped task are not the epoch, a container whose checkpoint
-- loads recovers to the state that `recovered` gives for the state of the checkpoint, the task that
-- containerd has, and what became of the container's I/O and of the task's deletion and wait.
pub load_container_state :
    (w : LoadWorld) (c : Checkpoint)
    → w.now ≢ 0
    → HasExitTime w.task_status
    → state (load_container w (ok (restored c))).0
      ≡ recovered
          (task_of w)
          (outcome w.container_io)
          (outcome w.delete)
          (outcome w.wait)
          (state (restored c))
unfolding load_container reconcile state
load_container_state w c h t = ground arith

-- Where the clock and the exit time of a stopped task are not the epoch, a container whose checkpoint
-- loads is running after the recovery exactly when an exit monitor was started for its task.
pub running_monitored :
    (w : LoadWorld) (c : Checkpoint)
    → w.now ≢ 0
    → HasExitTime w.task_status
    → (state (load_container w (ok (restored c))).0 ≡ container_running)
      ↔ ((load_container w (ok (restored c))).1 ≡ true)
unfolding load_container reconcile state
running_monitored w c h t = ground arith

-- A container whose checkpoint does not load is unknown after the recovery, whatever its task is.
pub unreadable_unknown :
    (w : LoadWorld) (e : Error) → state (load_container w (err e)).0 ≡ container_unknown
unfolding load_container reconcile state
unreadable_unknown w e = ground arith

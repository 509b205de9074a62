-- ===== src/Container/Load.antt =====
-- `loadContainer` of pkg/server/restart.go after the metadata is read: the checkpointed status of a
-- container is reconciled with its task. What containerd returns is the argument `LoadWorld`.
pub mod Recovery
use cri.Base.{ℕ, String, Bool, true, false, Option, none, some, if◌then◌else◌}
use cri.Base.Int.{ℤ, pos, to_int32}
use cri.Base.Errors.{Error, Result, ok, err, is_not_found, wrap, failure}
use cri.Container.Status.{
  Checkpoint, Status, ContainerState, state, container_created, container_running, container_exited,
  container_unknown,
}

abbrev pub unknown_exit_code : ℤ
unknown_exit_code = pos 255

abbrev pub unknown_exit_reason : String
unknown_exit_reason = "Unknown"

-- unknownContainerStatus
abbrev pub unknown_container_status : Status
unknown_container_status = record {
  fields = record {
    pid = 0;
    created_at = 0;
    started_at = 0;
    finished_at = 0;
    exit_code = unknown_exit_code;
    reason = unknown_exit_reason;
    message = "";
  };
  starting = false;
  removing = false;
  unknown = true;
}

-- containerd.ProcessStatus; the last stands for every other text.
pub data TaskState : Type 0 where
  task_created task_running task_stopped task_other : TaskState

-- containerd.Status
pub record TaskStatus : Type 0 where
  pub status : TaskState
  pub exit_status : ℕ
  pub exit_time : ℕ

pub record LoadWorld : Type 0 where
  pub task : Option Error  -- the error of `cntr.Task`, the creation of the loggers included
  pub task_status : Result TaskStatus  -- `t.Status`
  pub container_io : Option Error  -- `cio.NewContainerIO` for a created container
  pub delete : Option Error  -- the error of `t.Delete`
  pub wait : Option Error  -- the error of `t.Wait`
  pub pid : ℕ  -- `t.Pid`
  pub now : ℕ

-- The status, whether an exit monitor was started, and the error.
abbrev pub Loading : Type 0
Loading = Status × Bool × Option Error

-- A container whose task has gone while it ran.
abbrev exited_unseen : ℕ → Status → Status
exited_unseen now s = record s {
  fields = record (s.fields) {
    finished_at = now;
    exit_code = unknown_exit_code;
    reason = unknown_exit_reason;
  };
}

-- The branch for a task that is not found, by the state of the status.
without_task : LoadWorld → ContainerState → Status → Loading
without_task w container_created s = elim w.container_io [
  | none ↦ (s, false, none)
  | some e ↦ (s, false, some (wrap "failed to create container io" e))
]
without_task w container_running s = (exited_unseen w.now s, false, none)
without_task w _ s = (s, false, none)

-- `t.Delete` fails, other than because the task is gone.
abbrev delete_error : Option Error → Option Error
delete_error none = none
delete_error (some e) = if is_not_found e then none else some (wrap "failed to delete task" e)

with_created : Option Error → ContainerState → Status → Loading
with_created (some e) st s = (s, false, some e)
with_created none container_created s = (s, false, none)
with_created none _ s = (s, false, some (failure "unexpected container state for created task"))

await_exit : Option Error → ℕ → Status → Loading
await_exit none now s = (s, true, none)
await_exit (some e) now s =
    if is_not_found e
    then (exited_unseen now s, false, none)
    else (s, false, some (wrap "failed to wait for task" e))

with_running : LoadWorld → ContainerState → Status → Loading
unfolding await_exit
with_running w container_exited s =
    (s, false, some (failure "unexpected container state for running task"))
with_running w container_running s = await_exit w.wait w.now s
with_running w _ s =
    await_exit w.wait w.now
      (record s { fields = record (s.fields) { started_at = w.now; pid = w.pid } })

with_stopped : Option Error → TaskStatus → Status → Loading
with_stopped (some e) t s = (s, false, some e)
with_stopped none t s = (
  record s {
    fields = record (s.fields) { finished_at = t.exit_time; exit_code = to_int32 t.exit_status };
  },
  false,
  none,
)

with_task : LoadWorld → TaskStatus → TaskState → Status → Loading
unfolding with_created with_running with_stopped
with_task w t task_created s = with_created (delete_error w.delete) (state s) s
with_task w t task_running s = with_running w (state s) s
with_task w t task_stopped s = with_stopped (delete_error w.delete) t s
with_task w t task_other s = (s, false, some (failure "unexpected task status"))

by_status : LoadWorld → Result TaskStatus → Status → Loading
unfolding with_task without_task
by_status w (ok t) s = with_task w t t.status s
by_status w (err e) s =
    if is_not_found e
    then without_task w (state s) s
    else (s, false, some (wrap "failed to get task status" e))

by_task : LoadWorld → Option Error → Status → Loading
unfolding by_status
by_task w none s = by_status w w.task_status s
by_task w (some e) s =
    if is_not_found e
    then without_task w (state s) s
    else (s, false, some (wrap "failed to load task" e))

-- The function that reconciles the status.
unfoldable pub reconcile : LoadWorld → Status → Loading
unfolding by_task
reconcile w s = by_task w w.task s

-- An error only sets the unknown field.
abbrev mark_unknown : Loading → Loading
mark_unknown (s, monitored, none) = (s, monitored, none)
mark_unknown (s, monitored, some e) = (record s { unknown = true }, monitored, some e)

abbrev or_unknown : Result Status → Status
or_unknown (ok s) = s
or_unknown (err e) = unknown_container_status

-- loadContainer, for what LoadStatus returns.
unfoldable pub load_container : LoadWorld → Result Status → Loading
load_container w loaded = mark_unknown (reconcile w (or_unknown loaded))

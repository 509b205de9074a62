-- ===== src/Container/Transitions.antt =====
-- The transactions on a container's status: pkg/server/container_start.go, container_remove.go and
-- events.go. Each is the function that a handler passes to `Update` or `UpdateSync`.
use cri.Base.{ℕ, String, true, false, if◌then◌else◌, ◌==◌}
use cri.Base.Int.{ℤ, pos, to_int32}
use cri.Base.Errors.{Result, ok, err, failure}
use cri.Container.Status.{
  Status, ContainerState, state, container_created, container_running, container_unknown,
}

abbrev pub error_start_exit_code : ℤ
error_start_exit_code = pos 128

abbrev pub error_start_reason : String
error_start_reason = "StartError"

abbrev pub oom_exit_reason : String
oom_exit_reason = "OOMKilled"

refuse_starting : ContainerState → Status → Result Status
refuse_starting container_created s =
    if s.removing
    then err (failure "container is in removing state, can't be started")
    else if s.starting
    then err (failure "container is already in starting state")
    else ok (record s { starting = true })
refuse_starting _ s = err (failure "container is not in created state")

-- setContainerStarting
unfoldable pub set_starting : Status → Result Status
unfolding refuse_starting
set_starting s = refuse_starting (state s) s

-- resetContainerStarting
unfoldable pub reset_starting : Status → Result Status
reset_starting s = ok (record s { starting = false })

-- The update of `StartContainer` after the task is started.
unfoldable pub set_started : ℕ → ℕ → Status → Result Status
set_started pid now s = ok (record s { fields = record (s.fields) { pid = pid; started_at = now } })

-- The deferred update of `StartContainer` after a failure.
unfoldable pub set_start_failed : ℕ → String → Status → Result Status
set_start_failed now message s = ok (record s {
  fields = record (s.fields) {
    pid = 0;
    finished_at = now;
    exit_code = error_start_exit_code;
    reason = error_start_reason;
    message = message;
  };
})

refuse_removing : ContainerState → Status → Result Status
refuse_removing container_running s = err (failure "container is still running, to stop first")
refuse_removing container_unknown s = err (failure "container state is unknown, to stop first")
refuse_removing _ s =
    if s.starting
    then err (failure "container is in starting state, can't be removed")
    else if s.removing
    then err (failure "container is already in removing state")
    else ok (record s { removing = true })

-- setContainerRemoving
unfoldable pub set_removing : Status → Result Status
unfolding refuse_removing
set_removing s = refuse_removing (state s) s

-- resetContainerRemoving
unfoldable pub reset_removing : Status → Result Status
reset_removing s = ok (record s { removing = false })

-- The update of `handleContainerExit`.
unfoldable pub set_exited : ℕ → ℕ → Status → Result Status
set_exited exited_at exit_status s =
    let t =
      if s.finished_at == 0
      then record s {
        fields = record (s.fields) {
          pid = 0;
          finished_at = exited_at;
          exit_code = to_int32 exit_status;
        };
      }
      else s in
    ok (if t.unknown then record t { unknown = false } else t)

-- The update for a TaskOOM event.
unfoldable pub set_oom : Status → Result Status
set_oom s = ok (record s { fields = record (s.fields) { reason = oom_exit_reason } })

-- ===== src/Sandbox.antt =====
-- The life of a sandbox: its status (pkg/store/sandbox), the handler of its exit (pkg/server/events.go),
-- and in the child modules its recovery, its stop and its removal.
pub mod Load
pub mod Stop
pub mod Remove
pub mod Exit
pub mod Network
pub mod Runtime
pub mod Run
use cri.Base.{ℕ, Bool, true, false, Option, none, some, if◌then◌else◌}
use cri.Base.Errors.{Error, Result, ok, err, is_not_found, wrap}

-- State
pub data State : Type 0 where
  ready not_ready unknown : State

-- Status
pub record Status : Type 0 where
  pub pid : ℕ
  pub created_at : ℕ
  pub state : State

-- A sandbox, the part that changes: its status and its stop channel.
pub record Live : Type 0 where
  pub status : Status
  pub stopped : Bool

abbrev pub is_not_ready : State → Bool
is_not_ready ready = false
is_not_ready not_ready = true
is_not_ready unknown = false

-- NewSandbox
unfoldable pub new_sandbox : Status → Live
new_sandbox s = record { status = s; stopped = is_not_ready s.state }

-- unknownSandboxStatus
abbrev pub unknown_sandbox_status : Status
unknown_sandbox_status = record { pid = 0; created_at = 0; state = unknown }

commit : Result Status → Live → Live × Option Error
commit (ok s) c = (record c { status = s }, none)
commit (err e) c = (c, some e)

-- Update
unfoldable pub update : (Status → Result Status) → Live → Live × Option Error
unfolding commit
update u c = commit (u c.status) c

pub record ExitWorld : Type 0 where
  pub task : Option Error  -- the error of `sb.Container.Task`
  pub delete : Option Error  -- the error of `task.Delete`

-- The first part of the handler: the task is loaded and deleted, and `none` means to go on.
unfoldable pub reap : ExitWorld → Option Error
reap w = elim w.task [
  | some e ↦ if is_not_found e then none else some (wrap "failed to load task for sandbox" e)
  | none ↦ elim w.delete [
    | none ↦ none
    | some e ↦ if is_not_found e then none else some (wrap "failed to stop sandbox" e)
  ]
]

-- The update of `handleSandboxExit`.
unfoldable pub set_not_ready : Status → Result Status
set_not_ready s = ok (record s { state = not_ready; pid = 0 })

-- `sb.Stop()` only after a successful update
close_stop : Live × Option Error → Live × Option Error
close_stop (c, none) = (record c { stopped = true }, none)
close_stop (c, some e) = (c, some (wrap "failed to update sandbox state" e))

exit_after : Option Error → Live → Live × Option Error
unfolding close_stop
exit_after (some e) c = (c, some e)
exit_after none c = close_stop (update set_not_ready c)

-- handleSandboxExit
unfoldable pub handle_sandbox_exit : ExitWorld → Live → Live × Option Error
unfolding exit_after
handle_sandbox_exit w c = exit_after (reap w) c

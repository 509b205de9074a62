-- ===== src/Sandbox/Load.antt =====
-- `loadSandbox` of pkg/server/restart.go after the metadata is read: the status of a sandbox is
-- rebuilt from its task. What containerd returns is the argument `LoadWorld`.
use cri.Base.{String, ℕ, ◌≡◌, ◌≢◌, ◌⊎◌, Bool, true, false, Option, none, some, if◌then◌else◌, arith}
use cri.Base.Errors.{Error, Result, ok, err, is_not_found, wrap}
use cri.Sandbox.{
  Status, Live, State, ready, not_ready, unknown, new_sandbox, unknown_sandbox_status,
}

-- containerd.ProcessStatus
pub data TaskStatus : Type 0 where
  task_created task_running task_stopped task_other : TaskStatus

pub record LoadWorld : Type 0 where
  pub info : Result ℕ  -- `cntr.Info`, the time of creation
  pub task : Option Error  -- the error of `cntr.Task`
  pub task_status : Result TaskStatus  -- `t.Status`
  pub wait : Option Error  -- the error of `t.Wait`
  pub delete : Option Error  -- the error of `t.Delete`
  pub pid : ℕ

-- The status, whether an exit monitor was started, and the error.
abbrev pub Loading : Type 0
Loading = Status × Bool × Option Error

-- What is gone leaves the sandbox not ready; another error ends the function.
abbrev unless_gone : String → Error → Status → Loading
unless_gone message e s =
    if is_not_found e
    then (record s { state = not_ready }, false, none)
    else (s, false, some (wrap message e))

load_running : LoadWorld → Option Error → Status → Loading
load_running w (some e) s = unless_gone "failed to wait for task" e s
load_running w none s = (record s { state = ready; pid = w.pid }, true, none)

load_not_running : Option Error → Status → Loading
load_not_running (some e) s = unless_gone "failed to delete task" e s
load_not_running none s = (record s { state = not_ready }, false, none)

load_by_status : LoadWorld → Result TaskStatus → Status → Loading
unfolding load_running load_not_running
load_by_status w (err e) s = unless_gone "failed to get task status" e s
load_by_status w (ok task_running) s = load_running w w.wait s
load_by_status w (ok _) s = load_not_running w.delete s

load_by_task : LoadWorld → Option Error → Status → Loading
unfolding load_by_status
load_by_task w (some e) s = unless_gone "failed to load task" e s
load_by_task w none s = load_by_status w w.task_status s

load_by_info : LoadWorld → Result ℕ → Loading
unfolding load_by_task
load_by_info w (err e) =
    (unknown_sandbox_status, false, some (wrap "failed to get sandbox container info" e))
load_by_info w (ok created_at) =
    load_by_task w w.task (record unknown_sandbox_status { created_at = created_at })

-- The function that computes the status.
unfoldable pub load_sandbox_status : LoadWorld → Loading
unfolding load_by_info
load_sandbox_status w = load_by_info w w.info

-- loadSandbox; an error of the status is logged.
unfoldable pub load_sandbox : LoadWorld → Live
load_sandbox w = new_sandbox (load_sandbox_status w).0

-- The sandbox is ready: its task runs and an exit monitor waits for it.
pub record IsReady (w : LoadWorld) (l : Loading) (c : Live) : Type 0 where
  pub task : w.task ≡ none
  pub running : w.task_status ≡ ok task_running
  pub waited : w.wait ≡ none
  pub monitored : l.1 ≡ true
  pub success : l.2 ≡ none
  pub state : c.status.state ≡ ready
  pub pid : c.status.pid ≡ w.pid
  pub open_channel : c.stopped ≡ false

-- The sandbox is in a state without a monitor and a process.
pub record IsDown (s : State) (stopped : Bool) (l : Loading) (c : Live) : Type 0 where
  pub unmonitored : l.1 ≡ false
  pub state : c.status.state ≡ s
  pub pid : c.status.pid ≡ 0
  pub channel : c.stopped ≡ stopped

-- A sandbox that is loaded is either ready, with a running task that an exit monitor waits for; or
-- not ready, without a monitor and with its stop channel closed; or, exactly when its status could
-- not be loaded, unknown, without a monitor and with an open stop channel.
pub load_sandbox_cases :
    (w : LoadWorld)
    → IsReady w (load_sandbox_status w) (load_sandbox w)
      ⊎ (((load_sandbox_status w).2 ≡ none)
          × IsDown not_ready true (load_sandbox_status w) (load_sandbox w))
      ⊎ (((load_sandbox_status w).2 ≢ none)
          × IsDown unknown false (load_sandbox_status w) (load_sandbox w))
unfolding load_sandbox_status load_sandbox new_sandbox
load_sandbox_cases w = ground arith

-- ===== src/Container/Start.antt =====
-- `StartContainer` of pkg/server/container_start.go on the container that the store returned. What
-- containerd, the clock and the sandbox store return is the argument `StartWorld`; other handlers do
-- not run between the steps here (Container/Concurrency has the interleavings).
pub mod Outcome
use cri.Base.{ℕ, String, Bool, true, false, Option, none, some, List, [], ◌∷◌, ◌++◌, if◌then◌else◌}
use cri.Base.Errors.{Error, Result, ok, err, failure, wrap}
use cri.Container.Status.{Status, Json, Storage, update, update_sync}
use cri.Container.Transitions.{set_starting, reset_starting, set_started, set_start_failed}

pub record StartWorld : Type 0 where
  pub sandbox_ready : Result Bool  -- the store's sandbox, and whether it is in StateReady
  pub info : Option Error  -- `container.Info`
  pub new_task : Option Error  -- `container.NewTask`, the creation of the loggers included
  pub wait : Option Error  -- `task.Wait`
  pub start : Option Error  -- `task.Start`
  pub pid : ℕ
  pub started_at : ℕ  -- `time.Now()` of the update on success
  pub failed_at : ℕ  -- `time.Now()` of the update on failure
  pub write_started : Option Error  -- writing the checkpoint on success
  pub write_failed : Option Error  -- writing the checkpoint on failure
  pub text : Error → String  -- `retErr.Error()`

-- What the handler does to the task.
pub data TaskAction : Type 0 where
  creates starts deletes monitors : TaskAction

module _ (j : Json) where
  -- The handler's state: the container's status and the actions on its task, in order; and `retErr`.
  abbrev pub Progress : Type 0
  Progress = Storage j × List TaskAction × Option Error

  mark_started : Storage j × Option Error → Progress
  mark_started (st, none) = (st, creates ∷ starts ∷ monitors ∷ [], none)
  mark_started (st, some e) =
      (st, creates ∷ starts ∷ deletes ∷ [], some (wrap "failed to update container state" e))

  -- From `task.Wait` on; the deferred `task.Delete` runs on each error.
  run_task : StartWorld → Storage j → Progress
  unfolding mark_started
  run_task w st = elim w.wait [
    | some e ↦ (st, creates ∷ deletes ∷ [], some (wrap "failed to wait for containerd task" e))
    | none ↦ elim w.start [
      | some e ↦ (st, creates ∷ deletes ∷ [], some (wrap "failed to start containerd task" e))
      | none ↦ mark_started (update_sync j w.write_started (set_started w.pid w.started_at) st)
    ]
  ]

  create_task : StartWorld → Storage j → Progress
  unfolding run_task
  create_task w st = elim w.info [
    | some e ↦ (st, [], some (wrap "failed to get container info" e))
    | none ↦ elim w.new_task [
      | some e ↦ (st, [], some (wrap "failed to create containerd task" e))
      | none ↦ run_task w st
    ]
  ]

  start_in_sandbox : Result Bool → StartWorld → Storage j → Progress
  unfolding create_task
  start_in_sandbox (err e) w st = (st, [], some (wrap "sandbox not found" e))
  start_in_sandbox (ok ready) w st =
      if ready
      then create_task w st
      else (st, [], some (failure "sandbox container is not running"))

  -- The first deferred function: it records a failure, and resets the starting state. Its own
  -- errors are logged.
  finish_start : StartWorld → Progress → Progress
  finish_start w (st, actions, none) = ((update j reset_starting st).0, actions, none)
  finish_start w (st, actions, some e) =
      let failed = update_sync j w.write_failed (set_start_failed w.failed_at (w.text e)) st in
      ((update j reset_starting failed.0).0, actions, some e)

  after_starting : StartWorld → Storage j × Option Error → Progress
  unfolding finish_start start_in_sandbox
  after_starting w (st, some e) =
      (st, [], some (wrap "failed to set starting state for container" e))
  after_starting w (st, none) = finish_start w (start_in_sandbox w.sandbox_ready w st)

  -- StartContainer
  unfoldable pub start_container : StartWorld → Storage j → Progress
  unfolding after_starting
  start_container w st = after_starting w (update j set_starting st)

-- ===== src/Container/Stop.antt =====
-- `stopContainer` of pkg/server/container_stop.go. What containerd, the image store and the waits
-- return is the argument `StopWorld`; while the handler waits the event monitor may change the
-- container, so the container after the waits is an argument too.
pub mod Signals
use cri.Base.{
  ℕ, String, Bool, true, false, Option, none, some, List, [], ◌∷◌, ◌++◌, if◌then◌else◌, str_eq, ltb,
  not, ◌&&◌,
}
use cri.Base.Errors.{Error, Result, ok, err, is_not_found, is_not_exist, wrap, ◌>>=◌}
use cri.Container.Status.{ContainerState, state, container_running, container_unknown, Json}
use cri.Container.Exit.{Live, ExitWorld, cleanup_unknown_container}

pub record StopWorld : Type 0 where
  pub task : Option Error  -- the error of `container.Container.Task`
  pub wait : Option Error  -- the error of `task.Wait`, asked for in the unknown state
  pub image_signal : Result String  -- `imageStore.Get(ImageRef)`, the image's stop signal
  pub parse_signal : String → Result String  -- `containerd.ParseSignal`
  pub kill : Option Error  -- the error of the first `task.Kill`
  pub stopped_in_time : Bool  -- the stop channel is closed before the timeout
  pub cancelled : Option Error  -- `ctx.Err()` after the first wait
  pub kill_forced : Option Error  -- the error of `task.Kill` with SIGKILL
  pub wait_forced : Option Error  -- the error of the last wait
  pub exit : ExitWorld
  pub now : ℕ

-- What the handler does to the task.
pub data StopAction : Type 0 where
  monitors : StopAction
  kills : String → StopAction

abbrev pub sigkill : String
sigkill = "SIGKILL"

-- An error of `task.Kill` other than that the task is gone.
abbrev kill_error : Option Error → Option Error
kill_error none = none
kill_error (some e) = if is_not_found e then none else some e

-- The signal's name: that of the container, else that of the image, else SIGTERM.
image_stop_signal : Result String → Result String
image_stop_signal (err e) =
    if is_not_exist e then ok "SIGTERM" else err (wrap "failed to get image" e)
image_stop_signal (ok signal) = ok (if str_eq signal "" then "SIGTERM" else signal)

parse_error : Result String → Result String
parse_error (ok s) = ok s
parse_error (err e) = err (wrap "failed to parse stop signal" e)

unfoldable pub choose_signal : StopWorld → String → Result String
unfolding image_stop_signal parse_error
choose_signal w stop_signal = do
  name ← if str_eq stop_signal "" then image_stop_signal w.image_signal else ok stop_signal
  parse_error (w.parse_signal name)

-- The signals sent, and the error; the last part of the handler kills the task.
unfoldable pub force : StopWorld → List StopAction → List StopAction × Option Error
force w done = elim (kill_error w.kill_forced) [
  | some e ↦ (done ++ kills sigkill ∷ [], some (wrap "failed to kill container" e))
  | none ↦ elim w.wait_forced [
    | some e ↦ (
      done ++ kills sigkill ∷ [],
      some (wrap "an error occurs during waiting for container to be killed" e),
    )
    | none ↦ (done ++ kills sigkill ∷ [], none)
  ]
]

-- The wait after the first signal.
after_signal : StopWorld → List StopAction → List StopAction × Option Error
unfolding force
after_signal w done =
    if w.stopped_in_time
    then (done, none)
    else elim w.cancelled [ some e ↦ (done, some e) | none ↦ force w done ]

signal_task : StopWorld → List StopAction → Result String → List StopAction × Option Error
unfolding after_signal
signal_task w done (err e) = (done, some e)
signal_task w done (ok sig) = elim (kill_error w.kill) [
  | some e ↦ (done ++ kills sig ∷ [], some (wrap "failed to stop container" e))
  | none ↦ after_signal w (done ++ kills sig ∷ [])
]

-- The part for a task that was found, after the unknown state is handled.
unfoldable pub kill_task : StopWorld → String → ℕ → List StopAction → List StopAction × Option Error
unfolding signal_task
kill_task w stop_signal timeout done =
    if ltb 0 timeout then signal_task w done (choose_signal w stop_signal) else force w done

module _ (j : Json) where
  -- The container, the actions on its task, and the error.
  abbrev pub Stopping : Type 0
  Stopping = Live j × List StopAction × Option Error

  with_actions : List StopAction → Live j × Option Error → Stopping
  with_actions actions (c, e) = (c, actions, e)

  killed : Live j → List StopAction × Option Error → Stopping
  killed c (actions, e) = (c, actions, e)

  stop_running : StopWorld → String → ℕ → Live j → Live j → Stopping
  unfolding killed kill_task
  stop_running w stop_signal timeout later c = elim w.task [
    | some e ↦
        (c, [], if is_not_found e then none else some (wrap "failed to get task for container" e))
    | none ↦ killed later (kill_task w stop_signal timeout [])
  ]

  -- An exit monitor is started first; without a task the container is cleaned up.
  stop_unknown : StopWorld → String → ℕ → Live j → Live j → Stopping
  unfolding killed kill_task with_actions
  stop_unknown w stop_signal timeout later c = elim w.task [
    | some e ↦
        if is_not_found e
        then with_actions [] (cleanup_unknown_container j w.exit w.now c)
        else (c, [], some (wrap "failed to get task for container" e))
    | none ↦ elim w.wait [
      | some e ↦
          if is_not_found e
          then with_actions [] (cleanup_unknown_container j w.exit w.now c)
          else (c, [], some (wrap "failed to wait for task" e))
      | none ↦ killed later (kill_task w stop_signal timeout (monitors ∷ []))
    ]
  ]

  stop_in_state : ContainerState → StopWorld → String → ℕ → Live j → Live j → Stopping
  unfolding stop_running stop_unknown
  stop_in_state container_running w sig timeout later c = stop_running w sig timeout later c
  stop_in_state container_unknown w sig timeout later c = stop_unknown w sig timeout later c
  stop_in_state _ w sig timeout later c = (c, [], none)

  -- stopContainer: `later` is the container when the handler has sent its signals and waited.
  unfoldable pub stop_container : StopWorld → String → ℕ → Live j → Live j → Stopping
  unfolding stop_in_state
  stop_container w stop_signal timeout later c =
      stop_in_state (state c.storage.status) w stop_signal timeout later c

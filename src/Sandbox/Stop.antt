-- ===== src/Sandbox/Stop.antt =====
-- `stopPodSandbox` and `stopSandboxContainer` of pkg/server/sandbox_stop.go. What containerd and
-- the network return is an argument; while the handler waits the event monitor may change the
-- sandbox, so the sandbox after the wait is an argument too. The service that the stops of the
-- containers change is a state `S`.
pub mod Complete
use cri.Base.{
  String, ◌≡◌, refl, sym, ◌∙◌, ap, subst, eq_iff, Bool-cases, ◌≢◌, ◌⊎◌, inl, inr, Bool, true, false,
  Option, none, some, List, [], ◌∷◌, if◌then◌else◌, str_eq, arith,
}
use cri.Base.Errors.{Error, Result, ok, err, is_not_found, wrap}
use cri.Sandbox.Exit.{handle_sandbox_exit_effect}
use cri.Sandbox.{Live, State, ready, not_ready, unknown, ExitWorld, handle_sandbox_exit}

pub record StopWorld : Type 0 where
  pub task : Option Error  -- the error of `container.Task`
  pub wait : Option Error  -- the error of `task.Wait`, asked for in the unknown state
  pub kill : Option Error  -- the error of `task.Kill`
  pub stopped : Option Error  -- the error of waitSandboxStop
  pub exit : ExitWorld

-- cleanupUnknownSandbox; the handler reads no field of its event.
abbrev pub cleanup_unknown_sandbox : ExitWorld → Live → Live × Option Error
cleanup_unknown_sandbox w c = handle_sandbox_exit w c

-- The error of `task.Kill`, unless the task is gone, and then that of the wait.
kill_sandbox : StopWorld → Option Error → Option Error
kill_sandbox w none = w.stopped
kill_sandbox w (some e) =
    if is_not_found e then w.stopped else some (wrap "failed to kill sandbox container" e)

stop_unknown : StopWorld → Option Error → Live → Live → Live × Option Error
unfolding kill_sandbox
stop_unknown w (some e) later c =
    if is_not_found e
    then cleanup_unknown_sandbox w.exit c
    else (c, some (wrap "failed to wait for task" e))
stop_unknown w none later c = (later, kill_sandbox w w.kill)

stop_found : StopWorld → State → Live → Live → Live × Option Error
unfolding stop_unknown
stop_found w unknown later c = stop_unknown w w.wait later c
stop_found w _ later c = (later, kill_sandbox w w.kill)

stop_missing : StopWorld → State → Live → Live × Option Error
stop_missing w unknown c = cleanup_unknown_sandbox w.exit c
stop_missing w _ c = (c, none)

stop_by_task : StopWorld → Option Error → Live → Live → Live × Option Error
unfolding stop_found stop_missing
stop_by_task w none later c = stop_found w c.status.state later c
stop_by_task w (some e) later c =
    if is_not_found e
    then stop_missing w c.status.state c
    else (c, some (wrap "failed to get sandbox container" e))

-- stopSandboxContainer
unfoldable pub stop_sandbox_container : StopWorld → Live → Live → Live × Option Error
unfolding stop_by_task
stop_sandbox_container w later c = stop_by_task w w.task later c

-- The network namespace of a sandbox.
pub record NetworkWorld : Type 0 where
  pub closed : Result Bool  -- `sandbox.NetNS.Closed`
  pub teardown : String → Option Error  -- teardownPodNetwork with the path
  pub remove : Option Error  -- `sandbox.NetNS.Remove`

-- `if err := f(); err != nil { return errors.Wrap(err, message) }`, then the rest.
abbrev pub check : String → Option Error → Option Error → Option Error
check message none rest = rest
check message (some e) rest = some (wrap message e)

tear_down_open : NetworkWorld → String → Option Error
tear_down_open n path =
    check "failed to destroy network for sandbox" (n.teardown path)
      (check "failed to remove network namespace for sandbox" n.remove none)

-- The end of stopPodSandbox; `none` is a sandbox without a network namespace of its own.
unfoldable pub tear_down : Option NetworkWorld → String → Option Error
unfolding tear_down_open
tear_down none path = none
tear_down (some n) path = elim n.closed [
  | err e ↦ some (wrap "failed to check network namespace closed" e)
  | ok closed ↦ tear_down_open n (if closed then "" else path)
]

abbrev pub must_stop : State → Bool
must_stop ready = true
must_stop not_ready = false
must_stop unknown = true

module _ {S C : Type 0} (sandbox_id : C → String) (act : C → S → S × Option Error) where
  act_result : String → S × Option Error → (S → S × Option Error) → S × Option Error
  act_result message (s, some e) next = (s, some (wrap message e))
  act_result message (s, none) next = next s

  -- The loop over `containerStore.List()`: it acts on those of the sandbox until one fails.
  unfoldable pub for_sandbox : String → String → List C → S → S × Option Error
  unfolding act_result
  for_sandbox message id [] s = (s, none)
  for_sandbox message id (c ∷ rest) s =
      if str_eq (sandbox_id c) id
      then act_result message (act c s) (for_sandbox message id rest)
      else for_sandbox message id rest s

  -- Each container of the sandbox was acted on without error, in order.
  pub data ActedOn (id : String) : List C → S → S → Type 0 where
    done : {s : S} → ActedOn id [] s s
    other :
        {c : C} {rest : List C} {s t : S}
        → sandbox_id c ≢ id
        → ActedOn id rest s t
        → ActedOn id (c ∷ rest) s t
    own :
        {c : C} {rest : List C} {s u t : S}
        → sandbox_id c ≡ id
        → act c s ≡ (u, none)
        → ActedOn id rest u t
        → ActedOn id (c ∷ rest) s t

  act_result-ActedOn :
      (message id : String) (c : C) (rest : List C) (s t : S) (r : S × Option Error)
      → act c s ≡ r
      → sandbox_id c ≡ id
      → act_result message r (for_sandbox message id rest) ≡ (t, none)
      → ((u : S) → for_sandbox message id rest u ≡ (t, none) → ActedOn id rest u t)
      → ActedOn id (c ∷ rest) s t
  unfolding act_result
  act_result-ActedOn message id c rest s t (u, some x) q i e next = cc
  act_result-ActedOn message id c rest s t (u, none) q i e next = own i q (next u e)

  pub for_sandbox-ActedOn :
      (message id : String) (s t : S) (l : List C)
      → for_sandbox message id l s ≡ (t, none)
      → ActedOn id l s t
  unfolding for_sandbox
  for_sandbox-ActedOn message id s t [] =
      λ e. subst (ActedOn id [] s) (ap (λ (p : S × Option Error). p.0) e) done
  for_sandbox-ActedOn message id s t (c ∷ rest) = elim (Bool-cases (str_eq (sandbox_id c) id)) [
    | inl q ↦ rw q λ e.
        act_result-ActedOn message id c rest s t (act c s) refl ((eq_iff (sandbox_id c) id).0 q) e
          (λ u. for_sandbox-ActedOn message id u t rest)
    | inr q ↦ rw q λ e.
        other (ground (arith, q, eq_iff (sandbox_id c) id))
          (for_sandbox-ActedOn message id s t rest e)
  ]

-- What a stop of a sandbox meets.
pub record PodWorld : Type 0 where
  pub files : Option Error  -- cleanupSandboxFiles
  pub stop : StopWorld
  pub later : Live  -- the sandbox after the wait of stopSandboxContainer
  pub network : Option NetworkWorld
  pub path : String  -- `sandbox.NetNSPath`

stop_if_needed : PodWorld → Live → Live × Option Error
stop_if_needed w c =
    if must_stop c.status.state then stop_sandbox_container w.stop w.later c else (c, none)

network_after : PodWorld → Live × Option Error → Live × Option Error
network_after w (c, some e) = (c, some (wrap "failed to stop sandbox container" e))
network_after w (c, none) = (c, tear_down w.network w.path)

files_then_stop : PodWorld → Option Error → Live → Live × Option Error
unfolding network_after stop_if_needed
files_then_stop w (some e) c = (c, some (wrap "failed to cleanup sandbox files" e))
files_then_stop w none c = network_after w (stop_if_needed w c)

module _ {S C : Type 0} (sandbox_id : C → String) (stop : C → S → S × Option Error) where
  after_containers : PodWorld → S × Option Error → Live → S × Live × Option Error
  unfolding files_then_stop
  after_containers w (s, some e) c = (s, c, some e)
  after_containers w (s, none) c = let r = files_then_stop w w.files c in (s, r.0, r.1)

  -- stopPodSandbox
  unfoldable pub stop_pod_sandbox : PodWorld → String → List C → Live → S → S × Live × Option Error
  unfolding after_containers
  stop_pod_sandbox w id containers c s =
      after_containers w (for_sandbox sandbox_id stop "failed to stop container" id containers s) c

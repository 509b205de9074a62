-- ===== src/Container/Concurrency/Progress.antt =====
-- The states of a container advance along the diagram of pkg/store/container/status.go, with one
-- more edge: a start that fails takes CREATED to EXITED.
use cri.Base.{◌≡◌, refl, false, inl, List, [], ◌∷◌, arith}
use cri.Container.Status.{
  Status, ContainerState, state, container_running, container_exited, container_created,
  container_unknown,
}
use cri.Container.Transitions.{
  set_starting, reset_starting, set_started, set_start_failed, set_removing, reset_removing,
  set_exited, set_oom,
}
use cri.Container.Concurrency.{System, Action, start_begins, act, run, idle}
use cri.Container.Concurrency.Exclusion.{Inv, act-Inv}

infix 40 ◌⟶◌ ◌⟶*◌
pub data ◌⟶◌ : ContainerState → ContainerState → Type 0 where
  stay : {s : ContainerState} → s ⟶ s
  start : container_created ⟶ container_running
  start_failure : container_created ⟶ container_exited
  exit : container_running ⟶ container_exited
  cleanup : container_unknown ⟶ container_exited

pub data ◌⟶*◌ : ContainerState → ContainerState → Type 0 where
  here : {s : ContainerState} → s ⟶* s
  next : {s t u : ContainerState} → s ⟶ t → t ⟶* u → s ⟶* u

ruleset edges = (stay, start, start_failure, exit, cleanup)

act-⟶ : (a : Action) (s : System) → Inv s → state s.status ⟶ state (act a s).status
unfolding act set_starting reset_starting set_started set_start_failed set_removing reset_removing
    set_exited set_oom state
act-⟶ start_begins s v = grind (arith, edges)
act-⟶ _ s v = grind (arith, edges)

run-⟶* :
    (actions : List Action) (s : System) → Inv s → state s.status ⟶* state (run s actions).status
unfolding run
run-⟶* [] s v = here
run-⟶* (a ∷ rest) s v = next (act-⟶ a s v) (run-⟶* rest (act a s) (act-Inv a s v))

exited_final : {s t : ContainerState} → s ⟶* t → s ≡ container_exited → t ≡ container_exited
exited_final here e = e
exited_final (next stay r) e = exited_final r e
exited_final (next start r) e = cc
exited_final (next start_failure r) e = exited_final r refl
exited_final (next exit r) e = exited_final r refl
exited_final (next cleanup r) e = exited_final r refl

idle-Inv : (s : Status) → s.starting ≡ false → s.removing ≡ false → Inv (idle s)
idle-Inv s a b = record { starting = rw a; removing = rw b; exclusive = omega arith; known = inl a }

run-Inv : (actions : List Action) (s : System) → Inv s → Inv (run s actions)
unfolding run
run-Inv [] s v = v
run-Inv (a ∷ rest) s v = run-Inv rest (act a s) (act-Inv a s v)

-- From a container whose `Starting` and `Removing` are not set and on which no call works, after
-- any transactions in any order, at times other than the epoch, the next transaction leaves the
-- state or follows one of the edges CREATED to RUNNING, and CREATED, RUNNING and UNKNOWN to EXITED.
pub states_advance :
    (s : Status) (actions : List Action) (a : Action)
    → s.starting ≡ false
    → s.removing ≡ false
    → state (run (idle s) actions).status ⟶ state (act a (run (idle s) actions)).status
states_advance s actions a h k =
    act-⟶ a (run (idle s) actions) (run-Inv actions (idle s) (idle-Inv s h k))

-- A container that has exited, whose `Starting` and `Removing` are not set and on which no call
-- works, stays exited in every order of the transactions.
pub exited_forever :
    (s : Status) (actions : List Action)
    → s.starting ≡ false
    → s.removing ≡ false
    → state s ≡ container_exited
    → state (run (idle s) actions).status ≡ container_exited
exited_forever s actions a b e = exited_final (run-⟶* actions (idle s) (idle-Inv s a b)) e

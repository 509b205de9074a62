-- ===== src/Container/Exit.antt =====
-- `handleContainerExit` and `cleanupUnknownContainer`: pkg/server/events.go, container_stop.go.
-- What containerd returns is the argument `ExitWorld`.
use cri.Base.{
  ℕ, Bool, true, Option, none, some, if◌then◌else◌, ◌≡◌, refl, ◌≢◌, ◌⊎◌, inl, inr, Option-cases,
  arith,
}
use cri.Base.Errors.{Error, ok, is_not_found, wrap}
use cri.Container.Status.{Status, Json, Storage, update_sync, state, container_exited}
use cri.Container.Status.Checkpointing.{Written, update_sync_atomic}
use cri.Container.Transitions.{set_exited}

pub record ExitWorld : Type 0 where
  pub task : Option Error  -- the error of `cntr.Container.Task`
  pub delete : Option Error  -- the error of `task.Delete`
  pub write : Option Error  -- the error of writing the checkpoint

-- eventtypes.TaskExit, the fields that are read
pub record TaskExit : Type 0 where
  pub exit_status : ℕ
  pub exited_at : ℕ

module _ (j : Json) where
  -- The state of a container that a stop changes: its status and its stop channel.
  pub record Live : Type 0 where
    pub storage : Storage j
    pub stopped : Bool

-- The first part of the handler: the task is loaded and deleted, and `none` means to go on.
unfoldable pub reap : ExitWorld → Option Error
reap w = elim w.task [
  | some e ↦ if is_not_found e then none else some (wrap "failed to load task for container" e)
  | none ↦ elim w.delete [
    | none ↦ none
    | some e ↦ if is_not_found e then none else some (wrap "failed to stop container" e)
  ]
]

module _ (j : Json) where
  -- `cntr.Stop()` only after a successful update
  record_exit : Storage j × Option Error → Live j → Live j × Option Error
  record_exit (st, none) c = (record { storage = st; stopped = true }, none)
  record_exit (st, some e) c =
      (record c { storage = st }, some (wrap "failed to update container state" e))

  exit_after : Option Error → ExitWorld → TaskExit → Live j → Live j × Option Error
  unfolding record_exit
  exit_after (some e) w x c = (c, some e)
  exit_after none w x c =
      record_exit (update_sync j w.write (set_exited x.exited_at x.exit_status) c.storage) c

  -- handleContainerExit
  unfoldable pub handle_container_exit : ExitWorld → TaskExit → Live j → Live j × Option Error
  unfolding exit_after reap
  handle_container_exit w x c = exit_after (reap w) w x c

  -- cleanupUnknownContainer, at the time `now`
  unfoldable pub cleanup_unknown_container : ExitWorld → ℕ → Live j → Live j × Option Error
  cleanup_unknown_container w now c =
      handle_container_exit w (record { exit_status = 255; exited_at = now }) c

  set_exited-state :
      (x : TaskExit) (s t : Status)
      → x.exited_at ≢ 0
      → set_exited x.exited_at x.exit_status s ≡ ok t
      → (state t ≡ container_exited)
        × ((s.finished_at ≡ 0) ⊎ ((t.finished_at ≡ s.finished_at) × (t.exit_code ≡ s.exit_code)))
  unfolding set_exited state
  set_exited-state x s t h e = ground arith

  -- The handler failed and changed nothing.
  abbrev pub Unchanged : Live j → Live j × Option Error → Type 0
  Unchanged c r = (e : Error) × (r ≡ (c, some e))

  -- The container is stopped and exited with status `s`, in memory and on disk.
  pub record Exited (c : Live j) (r : Live j × Option Error) (s : Status) : Type 0 where
    pub success : r.1 ≡ none
    pub stopped : r.0.stopped ≡ true
    pub written : Written j s r.0.storage
    pub exited : state s ≡ container_exited
    pub first_exit :
        (c.storage.status.finished_at ≡ 0)
        ⊎ ((s.finished_at ≡ c.storage.status.finished_at)
            × (s.exit_code ≡ c.storage.status.exit_code))

  record_exit_effect :
      (x : TaskExit) (c : Live j) (p : Storage j × Option Error)
      → x.exited_at ≢ 0
      → ((e : Error) × (p ≡ (c.storage, some e)))
        ⊎ ((s : Status) × (set_exited x.exited_at x.exit_status c.storage.status ≡ ok s)
            × (p.1 ≡ none)
            × Written j s p.0)
      → Unchanged c (record_exit p c) ⊎ ((s : Status) × Exited c (record_exit p c) s)
  unfolding record_exit
  record_exit_effect x c (st, some e) h (inl (d, q)) =
      inl (wrap "failed to update container state" e, ground arith)
  record_exit_effect x c (st, none) h (inl (d, q)) = cc
  record_exit_effect x c (st, some e) h (inr (s, u, n, v)) = cc
  record_exit_effect x c (st, none) h (inr (s, u, n, v)) =
      let facts = set_exited-state x c.storage.status s h u in
      inr (
        s,
        record {
          success = refl;
          stopped = refl;
          written = v;
          exited = facts.0;
          first_exit = facts.1;
        },
      )

  -- An exit that is handled without error, at a time other than the epoch, closes the stop channel
  -- and leaves the container exited, on disk too, and an exit code and time that were recorded
  -- before stay. An exit that fails changes nothing, the stop channel included.
  pub handle_container_exit_effect :
      (w : ExitWorld) (x : TaskExit) (c : Live j)
      → x.exited_at ≢ 0
      → Unchanged c (handle_container_exit w x c)
        ⊎ ((s : Status) × Exited c (handle_container_exit w x c) s)
  unfolding handle_container_exit
  handle_container_exit_effect w x c h = elim (Option-cases (reap w)) [
    | inr (e, r) ↦ inl (e, rw r)
    | inl r ↦ rw r (
        record_exit_effect x c _ h
          (update_sync_atomic j w.write (set_exited x.exited_at x.exit_status) c.storage))
  ]

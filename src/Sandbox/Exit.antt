-- ===== src/Sandbox/Exit.antt =====
-- What the exit of a sandbox leaves.
use cri.Base.{◌≡◌, refl, ◌⊎◌, inl, inr, Option, none, some, true, Option-cases}
use cri.Base.Errors.{Error}
use cri.Sandbox.{
  Live, ExitWorld, not_ready, reap, handle_sandbox_exit, exit_after, update, set_not_ready,
}

-- The sandbox is not ready, has no process, and its stop channel is closed.
pub record Ended (c : Live) (r : Live × Option Error) : Type 0 where
  pub success : r.1 ≡ none
  pub state : r.0.status.state ≡ not_ready
  pub pid : r.0.status.pid ≡ 0
  pub created_at : r.0.status.created_at ≡ c.status.created_at
  pub stopped : r.0.stopped ≡ true

-- The exit of a sandbox is handled without error when its task is deleted or gone, and then the
-- sandbox is not ready, without a process, and its stop channel is closed; otherwise the handler
-- returns the error of containerd and changes nothing.
pub handle_sandbox_exit_effect :
    (w : ExitWorld) (c : Live)
    → ((reap w ≡ none) × Ended c (handle_sandbox_exit w c))
      ⊎ ((e : Error) × (reap w ≡ some e) × (handle_sandbox_exit w c ≡ (c, some e)))
unfolding handle_sandbox_exit exit_after update set_not_ready
handle_sandbox_exit_effect w c = elim (Option-cases (reap w)) [
  | inl h ↦ inl (
    h,
    rw (h, exit_after)
        record { success = refl; state = refl; pid = refl; created_at = refl; stopped = refl },
  )
  | inr (e, h) ↦ inr (e, h, rw (h, exit_after))
]

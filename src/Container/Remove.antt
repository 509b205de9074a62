-- ===== src/Container/Remove.antt =====
-- `RemoveContainer` of pkg/server/container_remove.go after the store found the container. The
-- forced stop of a running container is the argument `stop` (Container/Stop models it).
pub mod Effect
pub mod Handler
use cri.Base.{String, Bool, true, false, Option, none, some, if◌then◌else◌}
use cri.Base.Errors.{Error, Result, ok, err, is_not_found, wrap}
use cri.Container.Status.{
  Status, ContainerState, state, container_running, container_unknown, Json, Storage, update,
}
use cri.Container.Transitions.{set_removing, reset_removing}
use cri.Container.Exit.{Live}

pub record RemoveWorld : Type 0 where
  pub delete : Option Error  -- `container.Container.Delete` with its snapshot
  pub delete_checkpoint : Option Error  -- `container.Delete`, which removes the status file
  pub remove_root : Option Error  -- `ensureRemoveAll` of the root directory
  pub remove_volatile : Option Error  -- `ensureRemoveAll` of the volatile root directory

abbrev pub must_stop : ContainerState → Bool
must_stop container_running = true
must_stop container_unknown = true
must_stop _ = false

abbrev pub ignore_not_found : Option Error → Option Error
ignore_not_found none = none
ignore_not_found (some e) = if is_not_found e then none else some e

-- `if err := f(); err != nil { return errors.Wrap(err, message) }`, then the rest.
abbrev check : String → Option Error → Option Error → Option Error
check message none rest = rest
check message (some e) rest = some (wrap message e)

-- The steps between setContainerRemoving and the deletion from the store.
unfoldable pub clean_up : RemoveWorld → Option Error
clean_up w = check "failed to delete containerd container" (ignore_not_found w.delete) (
    check "failed to delete container checkpoint" w.delete_checkpoint (
      check "failed to remove container root directory" w.remove_root
        (check "failed to remove volatile container root directory" w.remove_volatile none)))

module _ (j : Json) where
  -- What the caller does next: `none` goes on to `containerStore.Delete` and `ReleaseByKey`.
  abbrev pub Removal : Type 0
  Removal = Live j × Option Error

  -- The deferred function: the flag is reset if the removal failed.
  finish_removal : Option Error → Live j → Removal
  finish_removal none c = (c, none)
  finish_removal (some e) c = (record c { storage = (update j reset_removing c.storage).0 }, some e)

  set_flag : RemoveWorld → Storage j × Option Error → Live j → Removal
  unfolding finish_removal
  set_flag w (st, some e) c = (c, some (wrap "failed to set removing state for container" e))
  set_flag w (st, none) c = finish_removal (clean_up w) (record c { storage = st })

  after_stop : RemoveWorld → Removal → Removal
  unfolding set_flag
  after_stop w (c, some e) = (c, some (wrap "failed to forcibly stop container" e))
  after_stop w (c, none) = set_flag w (update j set_removing c.storage) c

  unfoldable pub remove_container : (Live j → Removal) → RemoveWorld → Live j → Removal
  unfolding after_stop
  remove_container stop w c =
      after_stop w (if must_stop (state c.storage.status) then stop c else (c, none))

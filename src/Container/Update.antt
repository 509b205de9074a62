-- ===== src/Container/Update.antt =====
-- `UpdateContainerResources` of pkg/server/container_update_resources_unix.go after the store found
-- the container. The specification is the one that containerd keeps for the container; the change of
-- a specification by the request (`updateOCILinuxResource`) is the parameter `set_resources`.
pub mod Effect
use cri.Base.{
  String, ◌≡◌, ◌≢◌, refl, ◌∙◌, ◌⊎◌, inl, inr, Bool, true, false, Option, none, some, if◌then◌else◌,
  arith, Bool-cases, Option-cases,
}
use cri.Base.Errors.{Error, Result, ok, err, failure, wrap, is_not_found}
use cri.Container.Status.{Status, ContainerState, container_running, state}

pub record UpdateWorld : Type 0 where
  pub spec : Option Error  -- the error of `cntr.Container.Spec`
  pub marshal : Option Error  -- the error of `typeurl.MarshalAny` of the new specification
  pub write : Option Error  -- the error of `cntr.Update` with it
  pub marshal_old : Option Error  -- the same for the old specification
  pub write_old : Option Error
  pub task : Option Error  -- the error of `cntr.Container.Task`
  pub update : Option Error  -- the error of `task.Update`

abbrev is_running : ContainerState → Bool
is_running container_running = true
is_running _ = false

-- `if errdefs.IsNotFound(err) { return nil }`
abbrev unless_not_found : String → Error → Option Error
unless_not_found message e = if is_not_found e then none else some (wrap message e)

module _ (Spec Request Resources : Type 0) (set_resources : Request → Spec → Result Spec)
    (resources_of : Spec → Resources) where
  -- What the handler changes: the specification, and the resources of the task.
  pub record Limits : Type 0 where
    pub spec : Spec
    pub applied : Resources

  -- updateContainerSpec, where `MarshalAny` and `Update` end with these errors
  unfoldable pub update_container_spec :
      Option Error → Option Error → Spec → Limits → Limits × Option Error
  update_container_spec (some e) write spec l = (l, some (wrap "failed to marshal spec" e))
  update_container_spec none (some e) spec l = (l, some (wrap "failed to update container spec" e))
  update_container_spec none none spec l = (record l { spec = spec }, none)

  -- The task of a running container, where `Task` and `Update` end with these errors.
  unfoldable pub update_task : Option Error → Option Error → Spec → Limits → Limits × Option Error
  update_task (some e) update new l = (l, unless_not_found "failed to get task" e)
  update_task none (some e) new l = (l, unless_not_found "failed to update resources" e)
  update_task none none new l = (record l { applied = resources_of new }, none)

  -- The deferred function: the old specification is written back.
  reset_spec : UpdateWorld → Spec → Limits × Option Error → Limits × Option Error
  unfolding update_container_spec
  reset_spec w old (l, none) = (l, none)
  reset_spec w old (l, some e) = ((update_container_spec w.marshal_old w.write_old old l).0, some e)

  after_write : UpdateWorld → Spec → Spec → Status → Limits × Option Error → Limits × Option Error
  unfolding reset_spec update_task
  after_write w old new s (l, some e) = (l, some e)
  after_write w old new s (l, none) =
      reset_spec w old
        (if is_running (state s) then update_task w.task w.update new l else (l, none))

  after_change : UpdateWorld → Status → Result Spec → Limits → Limits × Option Error
  unfolding after_write update_container_spec
  after_change w s (err e) l = (l, some (wrap "failed to update resource in spec" e))
  after_change w s (ok new) l =
      after_write w l.spec new s (update_container_spec w.marshal w.write new l)

  after_spec : UpdateWorld → Request → Status → Option Error → Limits → Limits × Option Error
  unfolding after_change
  after_spec w r s (some e) l = (l, some (wrap "failed to get container spec" e))
  after_spec w r s none l = after_change w s (set_resources r l.spec) l

  -- updateContainerResources
  unfoldable pub update_container_resources :
      UpdateWorld → Request → Status → Limits → Limits × Option Error
  unfolding after_spec
  update_container_resources w r s l =
      if s.removing
      then (l, some (failure "container is in removing state"))
      else after_spec w r s w.spec l

  -- The transaction of `Status.Update`: the callback returns the status that it was given.
  abbrev commit : Status → Limits × Option Error → Status × Limits × Option Error
  commit s (l, none) = (s, l, none)
  commit s (l, some e) = (s, l, some (wrap "failed to update resources" e))

  -- UpdateContainerResources
  unfoldable pub update_resources :
      UpdateWorld → Request → Status → Limits → Status × Limits × Option Error
  unfolding update_container_resources
  update_resources w r s l = commit s (update_container_resources w r s l)

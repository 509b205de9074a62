-- ===== src/Events/Targets.antt =====
-- What the event of an exit changes.
use cri.Base.{
  String, false, ◌≡◌, ◌≢◌, ◌↔◌, refl, ◌⊎◌, inl, inr, Option, none, some, if◌then◌else◌, str_eq,
}
use cri.Base.GoMap.{lookup, lookup-insert}
use cri.Base.Errors.{Error, Result, is_not_exist}
use cri.Container.Exit.{
  TaskExit, Live, handle_container_exit, Unchanged, Exited, handle_container_exit_effect,
}
use cri.Container.Status.{Status, Json}
use cri.Events.{
  task_exit, EventWorld, Container, container_fields, PodSandbox, sandbox_fields, Service, wrapped,
  exit_container, exit_sandbox, exit_in_sandboxes, exit_in_containers, handle_event, put_container,
  put_sandbox,
}
use cri.IdStore.{get}
use cri.IdStore.Agreement.{Agree}
use cri.IdStore.Index.{TruncIndex, found, missing, refused}
use cri.IdStore.Views.{get_resolved}
use cri.Sandbox as Sandbox
use cri.Sandbox.Exit.{Ended, handle_sandbox_exit_effect}

module _ (j : Json) (t : TruncIndex) (level_of : String → Result String) {I : Type 0}
    (update_image : String → I → I × Option Error) where
  abbrev Sv : Type 0
  Sv = Service j t level_of update_image

  -- The container `c` of the store was handled, and nothing else changed.
  pub record ContainerHandled (w : EventWorld) (x : TaskExit) (c : Container j) (s : Sv)
      (r : Sv × Option Error) : Type 0 where
    pub handled : Live j × Option Error
    pub by_handler : handled ≡ handle_container_exit j w.container x c.live
    pub stored : lookup c.id s.containers.items ≡ some c
    pub items :
        (k : String)
        → lookup k r.0.containers.items ≡ (
            if str_eq c.id k
            then some (record c { live = handled.0 })
            else lookup k s.containers.items)
    pub sandboxes : r.0.sandboxes ≡ s.sandboxes
    pub images : r.0.images ≡ s.images
    pub error : (r.1 ≡ none) ↔ (handled.1 ≡ none)
    pub effect : Unchanged j c.live handled ⊎ ((st : Status) × Exited j c.live handled st)

  -- The sandbox `a` of the store was handled, and nothing else changed.
  pub record SandboxHandled (w : EventWorld) (a : PodSandbox) (s : Sv) (r : Sv × Option Error)
      : Type 0 where
    pub handled : Sandbox.Live × Option Error
    pub by_handler : handled ≡ Sandbox.handle_sandbox_exit w.sandbox a.live
    pub stored : lookup a.id s.sandboxes.items ≡ some a
    pub items :
        (k : String)
        → lookup k r.0.sandboxes.items ≡ (
            if str_eq a.id k
            then some (record a { live = handled.0 })
            else lookup k s.sandboxes.items)
    pub containers : r.0.containers ≡ s.containers
    pub images : r.0.images ≡ s.images
    pub error : (r.1 ≡ none) ↔ (handled.1 ≡ none)
    pub effect : ((e : Error) × (handled ≡ (a.live, some e))) ⊎ Ended a.live handled

  wrapped-none :
      (message : String) (o : Option Error)
      → (wrapped j t level_of update_image message o ≡ none) ↔ (o ≡ none)
  unfolding wrapped
  wrapped-none message none = ((λ h. refl), λ h. refl)
  wrapped-none message (some x) = ((λ h. absurd cc), λ h. absurd cc)

  -- What the event of an exit leads to.
  pub data ExitOutcome (w : EventWorld) (x : TaskExit) (id : String) (s : Sv)
      (r : Sv × Option Error) : Type 0 where
    -- The index finds the id of the container `c` of the store.
    of_container :
        (c : Container j)
        → t.get s.containers.index id ≡ found c.id
        → ContainerHandled w x c s r
        → ExitOutcome w x id s r
    -- It finds none, and the index of the sandboxes finds `a`.
    of_sandbox :
        (a : PodSandbox)
        → t.get s.containers.index id ≡ missing
        → t.get s.sandboxes.index id ≡ found a.id
        → SandboxHandled w a s r
        → ExitOutcome w x id s r
    of_nothing :
        t.get s.containers.index id ≡ missing
        → t.get s.sandboxes.index id ≡ missing
        → lookup id s.containers.items ≡ none
        → lookup id s.sandboxes.items ≡ none
        → r ≡ (s, none)
        → ExitOutcome w x id s r
    -- An index refuses the id.
    of_refusal :
        {y : Error}
        → (t.get s.containers.index id ≡ refused y)
          ⊎ ((t.get s.containers.index id ≡ missing) × (t.get s.sandboxes.index id ≡ refused y))
        → r.0 ≡ s
        → r.1 ≢ none
        → ExitOutcome w x id s r

  container_exit :
      (w : EventWorld) (x : TaskExit) (c : Container j) (s : Sv)
      → x.exited_at ≢ 0
      → lookup c.id s.containers.items ≡ some c
      → ContainerHandled w x c s (
          exit_container j t level_of update_image c
            (handle_container_exit j w.container x c.live)
            s)
  unfolding exit_container put_container
  container_exit w x c s h l = record {
    handled = handle_container_exit j w.container x c.live;
    by_handler = refl;
    stored = l;
    items = λ k. lookup-insert c.id k _ s.containers.items;
    sandboxes = refl;
    images = refl;
    error = wrapped-none _ _;
    effect = handle_container_exit_effect j w.container x c.live h;
  }

  sandbox_effect :
      (w : Sandbox.ExitWorld) (c : Sandbox.Live)
      → ((e : Error) × (Sandbox.handle_sandbox_exit w c ≡ (c, some e)))
        ⊎ Ended c (Sandbox.handle_sandbox_exit w c)
  sandbox_effect w c = elim (handle_sandbox_exit_effect w c) [
    | inl (h, d) ↦ inr d
    | inr (e, h, q) ↦ inl (e, q)
  ]

  sandbox_exit :
      (w : EventWorld) (a : PodSandbox) (s : Sv)
      → lookup a.id s.sandboxes.items ≡ some a
      → SandboxHandled w a s (
          exit_sandbox j t level_of update_image a (Sandbox.handle_sandbox_exit w.sandbox a.live) s)
  unfolding exit_sandbox put_sandbox
  sandbox_exit w a s l = record {
    handled = Sandbox.handle_sandbox_exit w.sandbox a.live;
    by_handler = refl;
    stored = l;
    items = λ k. lookup-insert a.id k _ s.sandboxes.items;
    containers = refl;
    images = refl;
    error = wrapped-none _ _;
    effect = sandbox_effect w.sandbox a.live;
  }

  -- An index that refuses an id does so by an error of its own, not by the stores' ErrNotExist.
  abbrev pub OwnRefusals : Type 0
  OwnRefusals =
      (i : t.Index) (id : String) (y : Error) → t.get i id ≡ refused y → is_not_exist y ≡ false

  in_sandboxes :
      (w : EventWorld) (x : TaskExit) (id : String) (s : Sv)
      → OwnRefusals
      → Agree t level_of sandbox_fields s.sandboxes
      → t.get s.containers.index id ≡ missing
      → lookup id s.containers.items ≡ none
      → ExitOutcome w x id s (
          exit_in_sandboxes j t level_of update_image w
            (get t level_of sandbox_fields id s.sandboxes)
            s)
  unfolding exit_in_sandboxes
  in_sandboxes w x id s own v f n = elim (get_resolved t level_of sandbox_fields s.sandboxes id v) [
    | inl (a, q, l, g) ↦ rw q (of_sandbox a f g (sandbox_exit w a s l))
    | inr (inl (q, m, g)) ↦ rw q (of_nothing f g n m refl)
    | inr (inr (y, g, q)) ↦ rw q (rw (own _ id y g) (of_refusal (inr (f, g)) refl (λ z. cc)))
  ]

  -- The event of an exit, in stores whose maps and indexes agree, with an index that has errors of its
  -- own for the ids that it refuses, and at a time other than the epoch, is handled by the container
  -- whose id the index of the containers finds for the event's; if it finds none, by the sandbox whose
  -- id that of the sandboxes finds; if it finds none either, as for the exit of an exec, it is done
  -- without error. The handler of the container or of the sandbox says what it becomes: the container
  -- is exited and its stop channel closed, the sandbox not ready, or it is as it was and there is an
  -- error; no other container, sandbox or image changes. An id that an index refuses, and only such an
  -- id, leads to another error, which changes nothing.
  pub task_exit_outcome :
      (w : EventWorld) (id : String) (x : TaskExit) (s : Sv)
      → OwnRefusals
      → Agree t level_of (container_fields j) s.containers
      → Agree t level_of sandbox_fields s.sandboxes
      → x.exited_at ≢ 0
      → ExitOutcome w x id s (handle_event j t level_of update_image w (task_exit id x) s)
  unfolding handle_event exit_in_containers
  task_exit_outcome w id x s own v u h =
      elim (get_resolved t level_of (container_fields j) s.containers id v) [
        | inl (c, q, l, g) ↦ rw q (of_container c g (container_exit w x c s h l))
        | inr (inl (q, m, g)) ↦ rw q (in_sandboxes w x id s own u g m)
        | inr (inr (y, g, q)) ↦ rw q (rw (own _ id y g) (of_refusal (inl g) refl (λ z. cc)))
      ]

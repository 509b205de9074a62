-- ===== src/Events.antt =====
-- `handleEvent` of pkg/server/events.go: which container, sandbox or image an event of containerd
-- changes. A status is behind a pointer in Go, so what the handler changes stands in the store. The
-- update of an image is a parameter over the store of images `I` (Image/Handlers models it).
pub mod Targets
use cri.Base.{String, Option, none, some, List, [], ◌∷◌, if◌then◌else◌}
use cri.Base.GoMap.{Map, insert}
use cri.Base.Errors.{Error, Result, ok, err, wrap, is_not_exist}
use cri.Container.Exit as Exit
use cri.Container.Exit.{TaskExit, Live, handle_container_exit}
use cri.Container.Status.{Json, Storage, update_sync}
use cri.Container.Transitions.{set_oom}
use cri.IdStore.{Stored, Store, get}
use cri.IdStore.Index.{TruncIndex}
use cri.Sandbox as Sandbox

pub data Event : Type 0 where
  task_exit : String → TaskExit → Event
  task_oom : String → Event
  image_create image_update image_delete : String → Event

-- convertEvent: the id under which an event waits; an exit comes with its own.
abbrev pub event_id : Event → String
event_id (task_exit id x) = id
event_id (task_oom id) = id
event_id (image_create name) = name
event_id (image_update name) = name
event_id (image_delete name) = name

pub record EventWorld : Type 0 where
  pub container : Exit.ExitWorld
  pub sandbox : Sandbox.ExitWorld
  pub write : Option Error  -- the error of writing the checkpoint at a TaskOOM

module _ (j : Json) where
  -- A container of the store.
  pub record Container : Type 0 where
    pub id : String
    pub process_label : String
    pub live : Live j

  abbrev pub container_fields : Stored Container
  container_fields = record { id = λ c. c.id; process_label = λ c. c.process_label }

-- A sandbox of the store.
pub record PodSandbox : Type 0 where
  pub id : String
  pub process_label : String
  pub live : Sandbox.Live

abbrev pub sandbox_fields : Stored PodSandbox
sandbox_fields = record { id = λ s. s.id; process_label = λ s. s.process_label }

module _ (j : Json) (t : TruncIndex) (level_of : String → Result String) {I : Type 0}
    (update_image : String → I → I × Option Error) where
  pub record Service : Type 0 where
    pub containers : Store t level_of (container_fields j)
    pub sandboxes : Store t level_of sandbox_fields
    pub images : I

  put_container : Container j → Live j → Service → Service
  put_container c live s = record s {
    containers = record s.containers {
      items = insert c.id (record c { live = live }) s.containers.items;
    };
  }

  put_sandbox : PodSandbox → Sandbox.Live → Service → Service
  put_sandbox a live s = record s {
    sandboxes = record s.sandboxes {
      items = insert a.id (record a { live = live }) s.sandboxes.items;
    };
  }

  wrapped : String → Option Error → Option Error
  wrapped message none = none
  wrapped message (some x) = some (wrap message x)

  exit_container : Container j → Live j × Option Error → Service → Service × Option Error
  unfolding put_container wrapped
  exit_container c (live, o) s =
      (put_container c live s, wrapped "failed to handle container TaskExit event" o)

  exit_sandbox : PodSandbox → Sandbox.Live × Option Error → Service → Service × Option Error
  unfolding put_sandbox wrapped
  exit_sandbox a (live, o) s =
      (put_sandbox a live s, wrapped "failed to handle sandbox TaskExit event" o)

  exit_in_sandboxes : EventWorld → Result PodSandbox → Service → Service × Option Error
  unfolding exit_sandbox
  exit_in_sandboxes w (ok a) s = exit_sandbox a (Sandbox.handle_sandbox_exit w.sandbox a.live) s
  exit_in_sandboxes w (err x) s =
      (s, if is_not_exist x then none else some (wrap "can't find sandbox for TaskExit event" x))

  exit_in_containers :
      EventWorld → String → TaskExit → Result (Container j) → Service → Service × Option Error
  unfolding exit_container exit_in_sandboxes
  exit_in_containers w id x (ok c) s =
      exit_container c (handle_container_exit j w.container x c.live) s
  exit_in_containers w id x (err e) s =
      if is_not_exist e
      then exit_in_sandboxes w (get t level_of sandbox_fields id s.sandboxes) s
      else (s, some (wrap "can't find container for TaskExit event" e))

  oom_container : Container j → Storage j × Option Error → Service → Service × Option Error
  unfolding put_container wrapped
  oom_container c (st, o) s = (
    put_container c (record c.live { storage = st }) s,
    wrapped "failed to update container status for TaskOOM event" o,
  )

  oom_in_containers : EventWorld → Result (Container j) → Service → Service × Option Error
  unfolding oom_container
  oom_in_containers w (ok c) s = oom_container c (update_sync j w.write set_oom c.live.storage) s
  oom_in_containers w (err x) s =
      (s, if is_not_exist x then none else some (wrap "can't find container for TaskOOM event" x))

  image_changed : String → Service → Service × Option Error
  image_changed name s = let r = update_image name s.images in (record s { images = r.0 }, r.1)

  -- handleEvent
  unfoldable pub handle_event : EventWorld → Event → Service → Service × Option Error
  unfolding exit_in_containers oom_in_containers image_changed
  handle_event w (task_exit id x) s =
      exit_in_containers w id x (get t level_of (container_fields j) id s.containers) s
  handle_event w (task_oom id) s =
      oom_in_containers w (get t level_of (container_fields j) id s.containers) s
  handle_event w (image_create name) s = image_changed name s
  handle_event w (image_update name) s = image_changed name s
  handle_event w (image_delete name) s = image_changed name s

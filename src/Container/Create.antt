-- ===== src/Container/Create.antt =====
-- `CreateContainer` of pkg/server/container_create.go: its steps in their order, with the deferred
-- functions that undo them when a later step fails. The calls of containerd and of the file system,
-- the search for the image, and the generation of the OCI specification, are outcomes given in
-- `CreateWorld`.
pub mod Rollback
pub mod Success
use cri.Base.{
  ℕ, String, Bool, true, false, Option, none, some, List, [], if◌then◌else◌, ◌||◌, str_eq,
}
use cri.Base.Int.{pos}
use cri.Base.Errors.{Error, Result, ok, err, failure, wrap}
use cri.Container.Status.{Status}
use cri.Creation.{
  Resource, process_label, containerd_container, root_directory, volatile_directory, container_io,
  checkpoint, Service, give_back, under_name,
}
use cri.Defers.{Event, ◌>>=◌, ◌>>◌, attempt, return, hold_as, take_as, finish}
use cri.IdStore.{Stored, Store, get}
use cri.IdStore.Index.{TruncIndex}
use cri.Names.{PodMetadata, ContainerMetadata, make_container_name}
use cri.Sandbox.Run.{Sandbox, sandbox_fields}
use cri.Sandbox.Runtime.{PodConfig, RuntimesConfig, get_sandbox_runtime}

-- The container's object: metadata and status.
pub record Container : Type 0 where
  pub id : String
  pub name : String
  pub sandbox_id : String
  pub process_label : String
  pub image_ref : String
  pub log_path : String
  pub status : Status

abbrev pub container_fields : Stored Container
container_fields = record { id = λ c. c.id; process_label = λ c. c.process_label }

pub record CreateWorld : Type 0 where
  pub sandbox_task : Result (Unit {0})  -- `sandbox.Container.Task`
  pub resolve : Result String  -- `localResolve`, with the image's id
  pub containerd_image : Result (Unit {0})  -- `toContainerdImage`
  pub sandbox_info : Result (Unit {0})  -- `sandbox.Container.Info`
  pub make_root : Result (Unit {0})  -- `c.os.MkdirAll` of the root directory
  pub make_volatile : Result (Unit {0})  -- `c.os.MkdirAll` of the volatile root directory
  pub spec : Result String  -- `containerSpec`, with its SELinux label
  pub new_io : Result (Unit {0})  -- `cio.NewContainerIO`
  pub spec_opts : Result (Unit {0})  -- `containerSpecOpts`
  pub runtime_options : Result (Unit {0})  -- `getRuntimeOptions`
  pub new_container : Result (Unit {0})  -- `c.client.NewContainer`
  pub new_object : Result (Unit {0})  -- `containerstore.NewContainer`, which writes the checkpoint
  pub now : ℕ  -- `time.Now().UnixNano()`

-- runtime.CreateContainerRequest. The sandbox's configuration comes with it.
pub record Request : Type 0 where
  pub pod_sandbox_id : String
  pub metadata : Option ContainerMetadata
  pub log_path : String
  pub privileged : Bool
  pub pod_metadata : PodMetadata
  pub pod : PodConfig
  pub log_directory : String

-- What the steps before the addition to the store found out.
pub record Prepared : Type 0 where
  pub image_ref : String
  pub label : String

-- `containerstore.Status{CreatedAt: now}`
abbrev pub created_status : ℕ → Status
created_status now = record {
  fields = record {
    pid = 0;
    created_at = now;
    started_at = 0;
    finished_at = 0;
    exit_code = pos 0;
    reason = "";
    message = "";
  };
  starting = false;
  removing = false;
  unknown = false;
}

-- The form in which the deferred functions release a resource: that of the label reads
-- `spec.Process.SelinuxLabel`, which is reset for a privileged container.
abbrev pub released_as : Bool → Resource → Resource
released_as privileged (process_label label) = process_label (if privileged then "" else label)
released_as privileged r = r

-- Logging is disabled where either path is empty; `join_path` is `filepath.Join`.
unfoldable pub full_log_path : (String → String → String) → Request → String
full_log_path join_path r =
    if str_eq r.log_directory "" || str_eq r.log_path ""
    then ""
    else join_path r.log_directory r.log_path

module _ (t : TruncIndex) (level_of : String → Result String) where
  abbrev pub Step : Type 0 → Type 0
  Step = cri.Creation.Step t level_of container_fields

  module _ (show : ℕ → String) (join_path : String → String → String) {T : Type 0}
      (config : RuntimesConfig T) (sandboxes : Store t level_of sandbox_fields) where
    -- The image is looked up before anything is taken but the name.
    unfoldable pub look_up : CreateWorld → Step String
    look_up w = do
      image ← attempt "failed to resolve image" w.resolve
      attempt "failed to get image from containerd" w.containerd_image
      attempt "failed to get sandbox info" w.sandbox_info
      return image

    unfoldable pub make_directories : CreateWorld → Step (Unit {0})
    make_directories w = do
      take_as root_directory root_directory "failed to create container root directory" w.make_root
      take_as volatile_directory volatile_directory
          "failed to create volatile container root directory" w.make_volatile

    -- The runtime is the sandbox's; the label is returned.
    unfoldable pub make_spec : CreateWorld → Sandbox → Request → Step String
    make_spec w sandbox r = do
      attempt "failed to get sandbox runtime"
          (get_sandbox_runtime config (record r.pod { runtime_handler = sandbox.runtime_handler }))
      label ← attempt "failed to generate container spec" w.spec
      hold_as (process_label label) (process_label (if r.privileged then "" else label))
      return label

    unfoldable pub make_container : CreateWorld → Step (Unit {0})
    make_container w = do
      take_as container_io container_io "failed to create container io" w.new_io
      attempt "" w.spec_opts
      attempt "failed to get runtime options" w.runtime_options
      take_as containerd_container containerd_container "failed to create containerd container"
          w.new_container
      take_as checkpoint checkpoint "failed to create internal container object" w.new_object

    -- The steps between the reservation of the name and the addition to the store.
    unfoldable pub prepare : CreateWorld → Sandbox → Request → Step Prepared
    prepare w sandbox r = do
      image ← look_up w
      make_directories w
      label ← make_spec w sandbox r
      make_container w
      return (record { image_ref = image; label = label })

    -- The object that is stored.
    unfoldable pub created_container :
        CreateWorld → String → String → String → String → Prepared → Container
    created_container w id name sandbox_id log_path p = record {
      id = id;
      name = name;
      sandbox_id = sandbox_id;
      process_label = p.label;
      image_ref = p.image_ref;
      log_path = log_path;
      status = created_status w.now;
    }

    unfoldable pub make_object : CreateWorld → String → String → Sandbox → Request → Step Container
    make_object w id name sandbox r = do
      prepared ← prepare w sandbox r
      return (created_container w id name sandbox.id (full_log_path join_path r) prepared)

    -- The name is made of the container's metadata and the sandbox's.
    named : CreateWorld → String → Sandbox → Request → Option ContainerMetadata → Step String
    named w id sandbox r none s = (err (failure "container config must include metadata"), s)
    named w id sandbox r (some m) s =
        (do
          under_name t level_of container_fields (make_container_name show m r.pod_metadata) id
              (make_object w id (make_container_name show m r.pod_metadata) sandbox r)
          return id)
          s

    unfoldable pub body : CreateWorld → String → Request → Step String
    unfolding named
    body w id r = do
      sandbox ←
          attempt "failed to find sandbox id"
            (get t level_of sandbox_fields r.pod_sandbox_id sandboxes)
      attempt "failed to get sandbox container task" w.sandbox_task
      named w id sandbox r r.metadata

    -- CreateContainer, where `id` is what `GenerateID` returned
    unfoldable pub create_container :
        CreateWorld
        → String
        → Request
        → Service t level_of container_fields
        → Result String × (Service t level_of container_fields × List (Event Resource))
    create_container w id r s =
        finish (give_back t level_of container_fields)
          (body w id r (record { service = s; journal = []; deferred = [] }))

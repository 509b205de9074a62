-- ===== src/Sandbox/Run.antt =====
-- `RunPodSandbox` of pkg/server/sandbox_run.go: its steps in their order, with the deferred functions
-- that undo them when a later step fails. The calls of containerd, of the kernel and of the file
-- system, and the generation of the OCI specification, are outcomes given in `RunWorld`.
pub mod Rollback
pub mod Success
use cri.Base.{ℕ, String, Bool, true, false, Option, none, some, List, [], ◌∷◌, if◌then◌else◌}
use cri.Base.GoMap.{Map}
use cri.Base.Errors.{Error, Result, ok, err, failure, wrap}
use cri.Defers.{
  Event, monitored, ◌>>=◌, ◌>>◌, attempt, record_event, return, hold_as, take_as, finish,
}
use cri.Creation.{
  Resource, process_label, namespace, pod_network, containerd_container, root_directory,
  volatile_directory, sandbox_files, task, Service, give_back, under_name,
}
use cri.IdStore.{Stored}
use cri.IdStore.Index.{TruncIndex}
use cri.Names.{PodMetadata, make_sandbox_name}
use cri.Sandbox.{Status, ready}
use cri.Sandbox.Network.{Plugin, PortMapping, Dns, setup_pod_network}
use cri.Sandbox.Runtime.{PodConfig, RuntimesConfig, get_sandbox_runtime, is_node}

-- The sandbox's object: metadata, network and status.
pub record Sandbox : Type 0 where
  pub id : String
  pub name : String
  pub runtime_handler : String
  pub process_label : String
  pub net_ns_path : String
  pub ip : String
  pub additional_ips : List String
  pub status : Status

abbrev pub sandbox_fields : Stored Sandbox
sandbox_fields = record { id = λ s. s.id; process_label = λ s. s.process_label }

pub record RunWorld : Type 0 where
  pub image : Result (Unit {0})  -- `ensureImageExists`
  pub containerd_image : Result (Unit {0})  -- `toContainerdImage`
  pub new_netns : Result String  -- `netns.NewNetNS`, with the path
  pub spec : Result String  -- `sandboxContainerSpec`, with its SELinux label
  pub spec_opts : Result (Unit {0})  -- `sandboxContainerSpecOpts`
  pub runtime_opts : Result (Unit {0})  -- `generateRuntimeOptions`
  pub new_container : Result (Unit {0})  -- `c.client.NewContainer`
  pub make_root : Result (Unit {0})  -- `c.os.MkdirAll` of the root directory
  pub make_volatile : Result (Unit {0})  -- `c.os.MkdirAll` of the volatile root directory
  pub setup_files : Result (Unit {0})  -- `setupSandboxFiles`
  pub info : Result ℕ  -- `container.Info`, with the time of the creation
  pub new_task : Result ℕ  -- `container.NewTask`, with the process id
  pub wait : Result (Unit {0})  -- `task.Wait`
  pub start : Result (Unit {0})  -- `task.Start`

-- What the steps before the addition to the store found out.
pub record Prepared : Type 0 where
  pub network : String × (String × List String)
  pub label : String
  pub created : ℕ
  pub pid : ℕ

-- runtime.RunPodSandboxRequest
pub record Request (P : Type 0) : Type 0 where
  pub metadata : Option PodMetadata
  pub pod : PodConfig
  pub port_mappings : List (PortMapping P)
  pub dns_config : Option Dns

module _ (t : TruncIndex) (level_of : String → Result String) where
  abbrev pub Step : Type 0 → Type 0
  Step = cri.Creation.Step t level_of sandbox_fields

  abbrev pub take : {A : Type 0} → Resource → String → Result A → Step A
  take r = take_as r r

  module _ (show : ℕ → String) {P : Type 0} (protocol_name : P → String)
      (extract : Map String → Result (Option ℕ × Option ℕ)) {T : Type 0} (config : RuntimesConfig T)
      (plugin : Option (Plugin protocol_name extract)) where
    -- The namespace and the network, for a pod that does not use the host's.
    unfoldable pub make_network :
        RunWorld → String → PodMetadata → Request P → Step (String × (String × List String))
    make_network w id m r = if is_node r.pod.network then return ("", ("", [])) else do
      path ← take namespace "failed to create network namespace for sandbox" w.new_netns
      hold_as pod_network pod_network
      found ← attempt "failed to setup network for sandbox" (
          setup_pod_network protocol_name extract plugin id path (record {
            metadata = m;
            annotations = r.pod.annotations;
            port_mappings = r.port_mappings;
            dns_config = r.dns_config;
          }))
      return (path, found)

    -- The image and the runtime are looked up before anything is taken but the name.
    unfoldable pub look_up : RunWorld → Request P → Step T
    look_up w r = do
      attempt "failed to get sandbox image" w.image
      attempt "failed to get image from containerd" w.containerd_image
      attempt "failed to get sandbox runtime" (get_sandbox_runtime config r.pod)

    -- The specification, its label and the container; the label is returned.
    unfoldable pub make_container : RunWorld → Step String
    make_container w = do
      label ← attempt "failed to generate sandbox container spec" w.spec
      hold_as (process_label label) (process_label label)
      attempt "failed to generate sanbdox container spec options" w.spec_opts
      attempt "failed to generate runtime options" w.runtime_opts
      take containerd_container "failed to create containerd container" w.new_container
      return label

    unfoldable pub make_files : RunWorld → Step (Unit {0})
    make_files w = do
      take root_directory "failed to create sandbox root directory" w.make_root
      take volatile_directory "failed to create volatile sandbox root directory" w.make_volatile
      take sandbox_files "failed to setup sandbox files" w.setup_files

    -- The task is created and started: the time of the creation and the process id.
    unfoldable pub make_task : RunWorld → Step (ℕ × ℕ)
    make_task w = do
      created ← attempt "failed to get sandbox container info" w.info
      pid ← take task "failed to create containerd task" w.new_task
      attempt "failed to wait for sandbox container task" w.wait
      attempt "failed to start sandbox container task" w.start
      return (created, pid)

    -- The steps between the reservation of the name and the addition to the store.
    unfoldable pub prepare : RunWorld → String → PodMetadata → Request P → Step Prepared
    prepare w id m r = do
      look_up w r
      network ← make_network w id m r
      label ← make_container w
      make_files w
      started ← make_task w
      return (record { network = network; label = label; created = started.0; pid = started.1 })

    -- The object that is stored, with the status that `Status.Update` sets at the end.
    unfoldable pub ready_sandbox : String → String → String → Prepared → Sandbox
    ready_sandbox id name handler p = record {
      id = id;
      name = name;
      runtime_handler = handler;
      process_label = p.label;
      net_ns_path = p.network.0;
      ip = p.network.1.0;
      additional_ips = p.network.1.1;
      status = record { pid = p.pid; created_at = p.created; state = ready };
    }

    -- `sandbox`, until it is added to the store.
    unfoldable pub make_sandbox : RunWorld → String → PodMetadata → Request P → Step Sandbox
    make_sandbox w id m r = do
      prepared ← prepare w id m r
      return (ready_sandbox id (make_sandbox_name show m) r.pod.runtime_handler prepared)

    -- The exit monitor starts after the sandbox is in the store.
    unfoldable pub create : RunWorld → String → PodMetadata → Request P → Step String
    create w id m r = do
      under_name t level_of sandbox_fields (make_sandbox_name show m) id (make_sandbox w id m r)
      record_event monitored
      return id

    -- The handler, from `GenerateID` on: `id` is the id that it returned.
    body : RunWorld → String → Option PodMetadata → Request P → Step String
    unfolding create
    body w id none r s = (err (failure "sandbox config must include metadata"), s)
    body w id (some m) r s = create w id m r s

    -- RunPodSandbox
    unfoldable pub run_pod_sandbox :
        RunWorld
        → String
        → Request P
        → Service t level_of sandbox_fields
        → Result String × (Service t level_of sandbox_fields × List (Event Resource))
    unfolding body
    run_pod_sandbox w id r s =
        finish (give_back t level_of sandbox_fields)
          (body w id r.metadata r (record { service = s; journal = []; deferred = [] }))

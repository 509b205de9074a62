-- ===== src/Sandbox/Run/Success.antt =====
-- `RunPodSandbox` where nothing fails.
use cri.Base.{
  ℕ, String, ◌≡◌, refl, Bool, true, false, Option, none, some, List, [], ◌∷◌, if◌then◌else◌,
}
use cri.Base.GoMap.{Map}
use cri.Base.Errors.{Result, ok}
use cri.Creation.{
  Resource, reserved_name, process_label, namespace, pod_network, containerd_container,
  root_directory, volatile_directory, sandbox_files, task, Service, reserve_name, under_name,
  add_item,
}
use cri.Defers.{
  monitored, stored, acquired, ◌>>=◌, ◌>>◌, attempt, record_event, return, hold_as, take_as, finish,
}
use cri.IdStore.{Store, add}
use cri.IdStore.Index.{TruncIndex}
use cri.Names.{PodMetadata, make_sandbox_name}
use cri.Registrar.{Registrar, reserve}
use cri.Sandbox.Network.{Plugin, setup_pod_network}
use cri.Sandbox.Runtime.{RuntimesConfig, is_node, get_sandbox_runtime}
use cri.Sandbox.Run.{
  RunWorld, Request, Prepared, sandbox_fields, run_pod_sandbox, body, create, make_sandbox, prepare,
  ready_sandbox, look_up, make_network, make_container, make_files, make_task,
}

-- All the calls succeed, with these results.
abbrev pub good_world : String → String → ℕ → ℕ → RunWorld
good_world path label created pid = record {
  image = ok tt;
  containerd_image = ok tt;
  new_netns = ok path;
  spec = ok label;
  spec_opts = ok tt;
  runtime_opts = ok tt;
  new_container = ok tt;
  make_root = ok tt;
  make_volatile = ok tt;
  setup_files = ok tt;
  info = ok created;
  new_task = ok pid;
  wait = ok tt;
  start = ok tt;
}

-- All that a sandbox with its own network holds, the newest first.
abbrev pub all_resources : String → String → List Resource
all_resources name label =
    task
    ∷ sandbox_files
    ∷ volatile_directory
    ∷ root_directory
    ∷ containerd_container
    ∷ process_label label
    ∷ pod_network
    ∷ namespace
    ∷ reserved_name name
    ∷ []

module _ (t : TruncIndex) (level_of : String → Result String) (show : ℕ → String) {P : Type 0}
    (protocol_name : P → String) (extract : Map String → Result (Option ℕ × Option ℕ)) {T : Type 0}
    (config : RuntimesConfig T) (plugin : Option (Plugin protocol_name extract)) where
  -- The handler runs a sandbox with its own network if the request has metadata, a runtime is found,
  -- the name and the id can be reserved, the plugin sets the network up, the store takes the sandbox
  -- and no call of containerd or the kernel fails: the journal shows each resource taken once, the
  -- addition to the store and then the monitor.
  pub run_pod_sandbox_succeeds :
      (path label : String) (created pid : ℕ) (id : String) (r : Request P)
      (s : Service t level_of sandbox_fields) (m : PodMetadata) (runtime : T)
      (found : String × List String) (names : Registrar) (items : Store t level_of sandbox_fields)
      → let name = make_sandbox_name show m in
        let prepared : Prepared = record {
          network = (path, found);
          label = label;
          created = created;
          pid = pid;
        } in
        let sandbox =
          ready_sandbox t level_of show protocol_name extract config plugin id name
            r.pod.runtime_handler prepared in
        r.metadata ≡ some m
        → get_sandbox_runtime config r.pod ≡ ok runtime
        → is_node r.pod.network ≡ false
        → setup_pod_network protocol_name extract plugin id path (record {
          metadata = m;
          annotations = r.pod.annotations;
          port_mappings = r.port_mappings;
          dns_config = r.dns_config;
        })
          ≡ ok found
        → reserve name id s.names ≡ (names, none)
        → add t level_of sandbox_fields sandbox s.items ≡ (items, none)
        → run_pod_sandbox t level_of show protocol_name extract config plugin
            (good_world path label created pid)
            id
            r
            s
          ≡ (
            ok id,
            (
              record { names = names; items = items },
              monitored ∷ stored ∷ cri.Base.map acquired (all_resources name label),
            ),
          )
  unfolding run_pod_sandbox body create under_name reserve_name add_item finish make_sandbox prepare
      look_up make_network make_container make_files make_task take_as hold_as record_event return
      attempt ◌>>◌ ◌>>=◌
  run_pod_sandbox_succeeds path label created pid id r s m runtime found names items hm hr hn hs
        hres hadd =
      rw (hm, hres, hr, hn, hs, hadd)

-- ===== src/Container/Create/Success.antt =====
-- `CreateContainer` where nothing fails.
use cri.Base.{ℕ, String, ◌≡◌, none, some, List, [], ◌∷◌, map}
use cri.Base.Errors.{Result, ok}
use cri.Container.Create.{
  CreateWorld, Request, Prepared, container_fields, create_container, body, named, make_object,
  created_container, full_log_path, prepare, look_up, make_directories, make_spec, make_container,
}
use cri.Creation.{
  Resource, reserved_name, process_label, containerd_container, root_directory, volatile_directory,
  container_io, checkpoint, Service, reserve_name, under_name, add_item,
}
use cri.Defers.{
  stored, acquired, ◌>>=◌, ◌>>◌, attempt, record_event, return, hold_as, take_as, finish,
}
use cri.IdStore.{Store, add, get}
use cri.IdStore.Index.{TruncIndex}
use cri.Names.{ContainerMetadata, make_container_name}
use cri.Registrar.{Registrar, reserve}
use cri.Sandbox.Run.{Sandbox, sandbox_fields}
use cri.Sandbox.Runtime.{RuntimesConfig, get_sandbox_runtime}

-- All the calls succeed, with these results.
abbrev pub good_world : String → String → ℕ → CreateWorld
good_world image label now = record {
  sandbox_task = ok tt;
  resolve = ok image;
  containerd_image = ok tt;
  sandbox_info = ok tt;
  make_root = ok tt;
  make_volatile = ok tt;
  spec = ok label;
  new_io = ok tt;
  spec_opts = ok tt;
  runtime_options = ok tt;
  new_container = ok tt;
  new_object = ok tt;
  now = now;
}

-- All that a created container holds, the newest first.
abbrev pub all_resources : String → String → List Resource
all_resources name label =
    checkpoint
    ∷ containerd_container
    ∷ container_io
    ∷ process_label label
    ∷ volatile_directory
    ∷ root_directory
    ∷ reserved_name name
    ∷ []

module _ (t : TruncIndex) (level_of : String → Result String) (show : ℕ → String)
    (join_path : String → String → String) {T : Type 0} (config : RuntimesConfig T)
    (sandboxes : Store t level_of sandbox_fields) where
  -- The handler creates a container if its sandbox is in the store, the request has metadata, the
  -- name and the id can be reserved, the sandbox's runtime is configured, the store takes the
  -- container and no call of containerd or the file system fails: the journal shows each resource
  -- taken once, and then the addition to the store.
  pub create_container_succeeds :
      (image label : String) (now : ℕ) (id : String) (r : Request)
      (s : Service t level_of container_fields) (a : Sandbox) (m : ContainerMetadata) (runtime : T)
      (names : Registrar) (items : Store t level_of container_fields)
      → let w = good_world image label now in
        let name = make_container_name show m r.pod_metadata in
        let prepared : Prepared = record { image_ref = image; label = label } in
        let path = full_log_path join_path r in
        let container =
          created_container t level_of show join_path config sandboxes w id name a.id path
            prepared in
        get t level_of sandbox_fields r.pod_sandbox_id sandboxes ≡ ok a
        → r.metadata ≡ some m
        → get_sandbox_runtime config (record r.pod { runtime_handler = a.runtime_handler })
          ≡ ok runtime
        → reserve name id s.names ≡ (names, none)
        → add t level_of container_fields container s.items ≡ (items, none)
        → create_container t level_of show join_path config sandboxes w id r s ≡ (
          ok id,
          (
            record { names = names; items = items },
            stored ∷ map acquired (all_resources name label),
          ),
        )
  unfolding create_container body named under_name reserve_name add_item finish make_object prepare
      look_up make_directories make_spec make_container take_as hold_as record_event return attempt
      ◌>>◌ ◌>>=◌
  create_container_succeeds image label now id r s a m runtime names items hg hm hr hres hadd =
      simp (hg, hm, hr, hres, hadd)

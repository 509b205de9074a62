-- ===== src/Scenarios/Creation.antt =====
-- Runs of the handlers that create sandboxes and containers.
use Prim.Native.String.{◌++◌ as str_append}
use cri.Base.{
  ◌⊎◌, ◌≢◌, ℕ, zero, suc, String, Bool, true, false, ◌||◌, str_eq, ◌≡◌, ◌≢◌, refl, ap, Option, none,
  some, List, [], ◌∷◌, ◌++◌, map, reverse, arith, eq_iff,
}
use cri.Base.Errors.{Result, ok, err, failure}
use cri.Base.GoMap.{Map, lookup}
use cri.Creation.{
  Resource, reserved_name, process_label, namespace, pod_network, containerd_container,
  root_directory, volatile_directory, Service,
}
use cri.Defers.{Event, acquired, released, stored, monitored}
use cri.IdStore.{Store, new_store, add, get}
use cri.Label.{new_label_store}
use cri.Names.{PodMetadata, ContainerMetadata, make_sandbox_name, make_container_name}
use cri.Names.Unique.{make_sandbox_name-distinct}
use cri.Registrar.{Registrar, new_registrar, reserve}
use cri.Registrar.Bijection.{new_registrar-IsBijection}
use cri.Sandbox.{ready}
use cri.Sandbox.Network.{IpConfig, Plugin, select_pod_ips}
use cri.Sandbox.Network.Addresses.{preferred, select_pod_ips-eq-preferred}
use cri.Sandbox.Runtime.{
  node_namespace, PodConfig, RuntimesConfig, get_sandbox_runtime, pod_namespace, runtime_untrusted,
  untrusted_confined,
}
use cri.Sandbox.Run as SandboxRun
use cri.Sandbox.Run.{Sandbox, RunWorld, sandbox_fields, run_pod_sandbox, ready_sandbox}
use cri.Sandbox.Run.Rollback.{RunOutcome, run_pod_sandbox_outcome}
use cri.Sandbox.Run.Success as RunSuccess
use cri.Sandbox.Run.Success.{run_pod_sandbox_succeeds}
use cri.Container.Create as ContainerCreate
use cri.Container.Create.{Container, container_fields, create_container, created_container}
use cri.Container.Create.Rollback.{CreateOutcome, create_container_outcome}
use cri.Container.Create.Success as CreateSuccess
use cri.Container.Create.Success.{create_container_succeeds}
use cri.Scenarios.Reservations.{own_level}
use cri.Scenarios.Stores.{whole_ids}

-- A number as that many strokes.
tally : ℕ → String
tally zero = ""
tally (suc n) = String.◌∷◌ "1" (tally n)

tally-injective : (m n : ℕ) → tally m ≡ tally n → m ≡ n
unfolding tally
tally-injective zero zero e = refl
tally-injective zero (suc n) e = absurd cc
tally-injective (suc m) zero e = absurd cc
tally-injective (suc m) (suc n) e = ap suc (tally-injective m n (cc))

abbrev web : PodMetadata
web = record { name = "web"; namespace = "prod"; uid = "u1"; attempt = 0 }

abbrev db : PodMetadata
db = record { name = "db"; namespace = "prod"; uid = "u2"; attempt = 0 }

abbrev addresses : List IpConfig
addresses =
    record { is_ipv4 = false; text = "fe80::2" }
    ∷ record { is_ipv4 = true; text = "10.88.0.2" }
    ∷ record { is_ipv4 = true; text = "10.88.0.3" }
    ∷ []

prefers_ipv4 : select_pod_ips addresses ≡ some ("10.88.0.2", "fe80::2" ∷ "10.88.0.3" ∷ [])
unfolding select_pod_ips
prefers_ipv4 = refl

select_pod_ips-eq-preferred_example : select_pod_ips addresses ≡ preferred addresses
select_pod_ips-eq-preferred_example =
    select_pod_ips-eq-preferred addresses (refl, (refl, (refl, tt)))

web_not_db : ◌≢◌ {A = String} "web" "db"
web_not_db = ground (arith, eq_iff "web" "db")

make_sandbox_name-distinct_example : make_sandbox_name tally web ≢ make_sandbox_name tally db
make_sandbox_name-distinct_example =
    make_sandbox_name-distinct tally tally-injective web db (refl, refl, refl) (refl, refl, refl)
      (λ e. web_not_db (ap (λ (m : PodMetadata). m.name) e))

abbrev pod : PodConfig
pod = record {
  annotations = [];
  network = pod_namespace;
  pid = pod_namespace;
  ipc = pod_namespace;
  runtime_handler = "";
}

abbrev untrusted_pod : PodConfig
untrusted_pod = record pod { annotations = ("io.kubernetes.cri.untrusted-workload", "true") ∷ [] }

abbrev runtimes : RuntimesConfig String
runtimes = record {
  default_runtime_name = "runc";
  runtimes = ("runc", "io.containerd.runc.v2") ∷ ("untrusted", "io.containerd.kata.v2") ∷ [];
}

untrusted_confined_example :
    (lookup runtime_untrusted runtimes.runtimes ≡ some "io.containerd.kata.v2")
    × (untrusted_pod.network ≢ node_namespace)
    × (untrusted_pod.pid ≢ node_namespace)
    × (untrusted_pod.ipc ≢ node_namespace)
    × ((untrusted_pod.runtime_handler ≡ "") ⊎ (untrusted_pod.runtime_handler ≡ "untrusted"))
unfolding lookup get_sandbox_runtime
untrusted_confined_example =
    untrusted_confined runtimes untrusted_pod "io.containerd.kata.v2" refl refl

abbrev protocol_name : Bool → String
protocol_name true = "tcp"
protocol_name false = "udp"

abbrev no_limits : Map String → Result (Option ℕ × Option ℕ)
no_limits annotations = ok (none, none)

-- A plugin that gives every sandbox the same addresses.
abbrev plugin : Plugin protocol_name no_limits
plugin id path opts = ok (("eth0", addresses) ∷ [])

abbrev request : SandboxRun.Request Bool
request = record { metadata = some web; pod = pod; port_mappings = []; dns_config = none }

abbrev no_sandboxes : Service whole_ids own_level sandbox_fields
no_sandboxes = record {
  names = new_registrar;
  items = new_store whole_ids own_level sandbox_fields new_label_store;
}

abbrev good : RunWorld
good = RunSuccess.good_world "/run/netns/n1" "l1" 7 42

-- The task cannot be started.
abbrev bad_start : RunWorld
bad_start = record good { start = err (failure "no memory") }

abbrev run_web :
    RunWorld → Result String × (Service whole_ids own_level sandbox_fields × List (Event Resource))
run_web w =
    run_pod_sandbox whole_ids own_level tally protocol_name no_limits runtimes (some plugin) w "s1"
      request no_sandboxes

run_pod_sandbox_outcome_example :
    RunOutcome whole_ids own_level tally protocol_name no_limits runtimes
      (some plugin)
      bad_start
      "s1"
      request
      no_sandboxes
      (run_web bad_start)
unfolding lookup new_registrar
run_pod_sandbox_outcome_example =
    run_pod_sandbox_outcome whole_ids own_level tally protocol_name no_limits runtimes (some plugin)
      bad_start "s1" request no_sandboxes new_registrar-IsBijection refl

abbrev web_sandbox : Sandbox
web_sandbox = record {
  id = "s1";
  name = "web_prod_u1_";
  runtime_handler = "";
  process_label = "l1";
  net_ns_path = "/run/netns/n1";
  ip = "10.88.0.2";
  additional_ips = "fe80::2" ∷ "10.88.0.3" ∷ [];
  status = record { pid = 42; created_at = 7; state = ready };
}

-- The failed start is undone, task first and name last.
undoes_bad_start :
    (run_web bad_start).1.1
    ≡ map released (reverse (RunSuccess.all_resources "web_prod_u1_" "l1"))
      ++ map acquired (RunSuccess.all_resources "web_prod_u1_" "l1")
unfolding run_pod_sandbox SandboxRun.create cri.Defers.finish cri.Defers.◌>>◌
    cri.Creation.under_name cri.Creation.reserve_name reserve make_sandbox_name cri.Names.join tally
    lookup new_registrar cri.Defers.hold_as SandboxRun.make_sandbox SandboxRun.prepare
    SandboxRun.look_up cri.Defers.attempt get_sandbox_runtime SandboxRun.make_network
    cri.Creation.give_back cri.Defers.record_event cri.Defers.return cri.Defers.take_as
    cri.Defers.◌>>=◌ cri.Registrar.release_by_name cri.Sandbox.Network.cni_namespace_opts
    select_pod_ips cri.Sandbox.Network.setup_pod_network cri.Sandbox.Network.to_cni_bandwidth
    cri.Sandbox.Network.to_cni_labels cri.Sandbox.Network.to_cni_port_mappings
    SandboxRun.make_container SandboxRun.make_files SandboxRun.make_task
undoes_bad_start = refl

run_pod_sandbox_succeeds_example : run_web good ≡ (
  ok "s1",
  (
    record {
      names = (reserve "web_prod_u1_" "s1" new_registrar).0;
      items = (add whole_ids own_level sandbox_fields web_sandbox no_sandboxes.items).0;
    },
    monitored ∷ stored ∷ map acquired (RunSuccess.all_resources "web_prod_u1_" "l1"),
  ),
)
unfolding tally get_sandbox_runtime lookup cri.Sandbox.Network.setup_pod_network
    cri.Sandbox.Network.cni_namespace_opts cri.Sandbox.Network.to_cni_bandwidth select_pod_ips
    reserve make_sandbox_name cri.Names.join new_registrar add new_store cri.Label.reserve
    ready_sandbox
run_pod_sandbox_succeeds_example =
    run_pod_sandbox_succeeds whole_ids own_level tally protocol_name no_limits runtimes
      (some plugin) "/run/netns/n1" "l1" 7 42 "s1" request no_sandboxes web "io.containerd.runc.v2"
      ("10.88.0.2", "fe80::2" ∷ "10.88.0.3" ∷ []) _ _ refl refl refl refl refl refl

abbrev container_request : ContainerCreate.Request
container_request = record {
  pod_sandbox_id = "s1";
  metadata = some (record { name = "nginx"; attempt = 0 });
  log_path = "nginx.log";
  privileged = true;
  pod_metadata = web;
  pod = pod;
  log_directory = "/var/log/pods";
}

abbrev join_path : String → String → String
join_path a b = str_append a (str_append "/" b)

abbrev sandboxes : Store whole_ids own_level sandbox_fields
sandboxes = (add whole_ids own_level sandbox_fields web_sandbox no_sandboxes.items).0

abbrev no_containers : Service whole_ids own_level container_fields
no_containers = record {
  names = new_registrar;
  items = new_store whole_ids own_level container_fields new_label_store;
}

abbrev create_nginx :
    ContainerCreate.CreateWorld
    → Result String × (Service whole_ids own_level container_fields × List (Event Resource))
create_nginx w =
    create_container whole_ids own_level tally join_path runtimes sandboxes w "c1" container_request
      no_containers

abbrev good_create : ContainerCreate.CreateWorld
good_create = CreateSuccess.good_world "sha256:1" "l2" 9

-- The streams cannot be made.
abbrev bad_io : ContainerCreate.CreateWorld
bad_io = record good_create { new_io = err (failure "no fifo") }

create_container_outcome_example :
    CreateOutcome whole_ids own_level tally join_path runtimes sandboxes bad_io container_request
      "c1" no_containers
      (create_nginx bad_io)
unfolding lookup new_registrar
create_container_outcome_example =
    create_container_outcome whole_ids own_level tally join_path runtimes sandboxes bad_io
      container_request "c1" no_containers new_registrar-IsBijection refl

abbrev nginx : Container
nginx = record {
  id = "c1";
  name = "nginx_web_prod_u1_";
  sandbox_id = "s1";
  process_label = "l2";
  image_ref = "sha256:1";
  log_path = "/var/log/pods/nginx.log";
  status = ContainerCreate.created_status 9;
}

-- The label of a privileged container is not given back: the release reads the label that was reset.
keeps_privileged_label :
    (create_nginx bad_io).1.1
    ≡ released (reserved_name "nginx_web_prod_u1_")
      ∷ released root_directory
      ∷ released volatile_directory
      ∷ released (process_label "")
      ∷ acquired (process_label "l2")
      ∷ acquired volatile_directory
      ∷ acquired root_directory
      ∷ acquired (reserved_name "nginx_web_prod_u1_")
      ∷ []
unfolding create_container cri.Defers.finish ContainerCreate.body cri.Defers.◌>>=◌
    cri.Defers.attempt get add lookup new_store cri.Label.reserve cri.Base.GoMap.insert
    cri.Defers.◌>>◌ cri.Creation.under_name cri.Creation.reserve_name reserve make_container_name
    cri.Names.join tally new_registrar created_container ContainerCreate.full_log_path
    ContainerCreate.look_up ContainerCreate.make_container ContainerCreate.make_directories
    ContainerCreate.make_object ContainerCreate.make_spec ContainerCreate.prepare
    cri.Creation.give_back cri.Defers.hold_as cri.Defers.record_event cri.Defers.return
    cri.Defers.take_as cri.Registrar.release_by_name get_sandbox_runtime
keeps_privileged_label = refl

create_container_succeeds_example : create_nginx good_create ≡ (
  ok "c1",
  (
    record {
      names = (reserve "nginx_web_prod_u1_" "c1" new_registrar).0;
      items = (add whole_ids own_level container_fields nginx no_containers.items).0;
    },
    stored ∷ map acquired (CreateSuccess.all_resources "nginx_web_prod_u1_" "l2"),
  ),
)
unfolding tally get add lookup new_store cri.Label.reserve cri.Base.GoMap.insert get_sandbox_runtime
    reserve make_container_name cri.Names.join new_registrar created_container
    ContainerCreate.full_log_path
create_container_succeeds_example =
    create_container_succeeds whole_ids own_level tally join_path runtimes sandboxes "sha256:1" "l2"
      9 "c1" container_request no_containers web_sandbox (record { name = "nginx"; attempt = 0 })
      "io.containerd.runc.v2" _ _ refl refl refl refl refl

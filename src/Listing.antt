-- ===== src/Listing.antt =====
-- The lists of containers and sandboxes that the service returns: `ListContainers` of
-- pkg/server/container_list.go, `ListPodSandbox` of sandbox_list.go, and the choice of the containers
-- whose statistics are asked for in container_stats_list.go. An empty message is its zero value; the
-- order in which Go ranges over a selector has no effect.
pub mod Selection
use cri.Base.{
  ℕ, String, Bool, true, false, Option, none, some, List, [], ◌∷◌, map, keep, ◌==◌, str_eq, not,
  ◌&&◌, if◌then◌else◌,
}
use cri.Base.GoMap.{Map, lookup}
use cri.Base.Errors.{Result, ok, err}
use cri.Container.Status.{
  Status, ContainerState, container_created, container_running, container_exited, container_unknown,
  state,
}
use cri.IdStore.{Stored, Store, get, list}
use cri.IdStore.Index.{TruncIndex}
use cri.Sandbox as Sandbox

-- The numbers of the generated enumeration, by which `==` compares.
abbrev pub state_number : ContainerState → ℕ
state_number container_created = 0
state_number container_running = 1
state_number container_exited = 2
state_number container_unknown = 3

-- The part of a stored container that is listed or filtered by.
pub record StoredContainer : Type 0 where
  pub id : String
  pub sandbox_id : String
  pub process_label : String
  pub labels : Map String
  pub status : Status

-- runtime.Container, the fields that are filtered by, and the time of the creation
pub record Container : Type 0 where
  pub id : String
  pub pod_sandbox_id : String
  pub state : ContainerState
  pub created_at : ℕ
  pub labels : Map String

-- runtime.ContainerFilter
pub record ContainerFilter : Type 0 where
  pub id : String
  pub pod_sandbox_id : String
  pub state : Option ContainerState
  pub label_selector : Option (Map String)

pub record StoredSandbox : Type 0 where
  pub id : String
  pub process_label : String
  pub labels : Map String
  pub runtime_handler : String
  pub status : Sandbox.Status

-- runtime.PodSandbox; `ready` is its state SANDBOX_READY, and not SANDBOX_NOTREADY
pub record PodSandbox : Type 0 where
  pub id : String
  pub ready : Bool
  pub created_at : ℕ
  pub labels : Map String
  pub runtime_handler : String

-- runtime.PodSandboxFilter
pub record PodSandboxFilter : Type 0 where
  pub id : String
  pub ready : Option Bool
  pub label_selector : Option (Map String)

-- toCRIContainer
unfoldable pub to_cri_container : StoredContainer → Container
to_cri_container c = record {
  id = c.id;
  pod_sandbox_id = c.sandbox_id;
  state = state c.status;
  created_at = c.status.created_at;
  labels = c.labels;
}

abbrev pub is_ready : Sandbox.State → Bool
is_ready Sandbox.ready = true
is_ready Sandbox.not_ready = false
is_ready Sandbox.unknown = false

-- toCRISandbox
unfoldable pub to_cri_sandbox : StoredSandbox → PodSandbox
to_cri_sandbox s = record {
  id = s.id;
  ready = is_ready s.status.state;
  created_at = s.status.created_at;
  labels = s.labels;
  runtime_handler = s.runtime_handler;
}

-- `got, ok := labels[k]; ok && got == v`
abbrev has_value : String → Option String → Bool
has_value v none = false
has_value v (some got) = str_eq got v

-- matchLabelSelector, and the loops over the selector in the two filters
unfoldable pub match_label_selector : Map String → Map String → Bool
match_label_selector [] labels = true
match_label_selector ((k, v) ∷ selector) labels =
    let rest = match_label_selector selector labels in has_value v (lookup k labels) && rest

-- The test of a selector that may be absent.
unfoldable pub selected : Option (Map String) → Map String → Bool
selected none labels = true
selected (some selector) labels = match_label_selector selector labels

-- `want != "" && want != id`, where a container is skipped
abbrev pub id_differs : String → String → Bool
id_differs want id = not (str_eq want "") && not (str_eq want id)

abbrev pub state_differs : Option ContainerState → ContainerState → Bool
state_differs none s = false
state_differs (some want) s = not (state_number want == state_number s)

abbrev same_bool : Bool → Bool → Bool
same_bool true b = b
same_bool false b = not b

abbrev pub readiness_differs : Option Bool → Bool → Bool
readiness_differs none s = false
readiness_differs (some want) s = not (same_bool want s)

-- The body of the loop of `filterCRIContainers`: true where the container is appended.
unfoldable pub accepts_container : ContainerFilter → Container → Bool
accepts_container f c =
    if id_differs f.id c.id
    then false
    else if id_differs f.pod_sandbox_id c.pod_sandbox_id
    then false
    else if state_differs f.state c.state
    then false
    else selected f.label_selector c.labels

-- The body of the loop of `filterCRISandboxes`.
unfoldable pub accepts_sandbox : PodSandboxFilter → PodSandbox → Bool
accepts_sandbox f s =
    if id_differs f.id s.id
    then false
    else if readiness_differs f.ready s.ready
    then false
    else selected f.label_selector s.labels

-- The body of the loop of `buildTaskMetricsRequest`.
unfoldable pub accepts_stats : ContainerFilter → StoredContainer → Bool
accepts_stats f c =
    if id_differs f.id c.id
    then false
    else if id_differs f.pod_sandbox_id c.sandbox_id
    then false
    else selected f.label_selector c.labels

abbrev pub container_fields : Stored StoredContainer
container_fields = record { id = λ c. c.id; process_label = λ c. c.process_label }

abbrev pub sandbox_fields : Stored StoredSandbox
sandbox_fields = record { id = λ s. s.id; process_label = λ s. s.process_label }

-- A short id becomes the whole one where the store finds it.
abbrev pub whole_id : {A : Type 0} → (A → String) → String → Result A → String
whole_id id_of id (ok a) = id_of a
whole_id id_of id (err e) = id

module _ (t : TruncIndex) (level_of : String → Result String) where
  pub record Stores : Type 0 where
    pub containers : Store t level_of container_fields
    pub sandboxes : Store t level_of sandbox_fields

  unfoldable pub whole_container_id : Stores → String → String
  whole_container_id s id =
      whole_id (λ c. c.id) id (get t level_of container_fields id s.containers)

  unfoldable pub whole_sandbox_id : Stores → String → String
  whole_sandbox_id s id = whole_id (λ a. a.id) id (get t level_of sandbox_fields id s.sandboxes)

  -- normalizeContainerFilter and normalizeContainerStatsFilter
  unfoldable pub normalize_container_filter : Stores → ContainerFilter → ContainerFilter
  normalize_container_filter s f = record f {
    id = whole_container_id s f.id;
    pod_sandbox_id = whole_sandbox_id s f.pod_sandbox_id;
  }

  -- normalizePodSandboxFilter
  unfoldable pub normalize_pod_sandbox_filter : Stores → PodSandboxFilter → PodSandboxFilter
  normalize_pod_sandbox_filter s f = record f { id = whole_sandbox_id s f.id }

  -- The sandbox that `filterCRIContainers` compares with.
  unfoldable pub asked_sandbox : Stores → String → String
  unfolding whole_sandbox_id
  asked_sandbox s id = if str_eq id "" then "" else whole_sandbox_id s id

  -- filterCRIContainers
  unfoldable pub filter_cri_containers :
      Stores → List Container → Option ContainerFilter → List Container
  filter_cri_containers s cs none = cs
  filter_cri_containers s cs (some f) =
      keep
        (accepts_container (record (normalize_container_filter s f) {
          pod_sandbox_id = asked_sandbox s f.pod_sandbox_id;
        }))
        cs

  -- ListContainers
  unfoldable pub list_containers : Stores → Option ContainerFilter → List Container
  list_containers s f =
      filter_cri_containers s (map to_cri_container (list t level_of container_fields s.containers))
        f

  -- filterCRISandboxes
  unfoldable pub filter_cri_sandboxes :
      Stores → List PodSandbox → Option PodSandboxFilter → List PodSandbox
  filter_cri_sandboxes s xs none = xs
  filter_cri_sandboxes s xs (some f) = keep (accepts_sandbox (normalize_pod_sandbox_filter s f)) xs

  -- ListPodSandbox
  unfoldable pub list_pod_sandbox : Stores → Option PodSandboxFilter → List PodSandbox
  list_pod_sandbox s f =
      filter_cri_sandboxes s (map to_cri_sandbox (list t level_of sandbox_fields s.sandboxes)) f

  -- buildTaskMetricsRequest: without a filter it returns no containers, and asks for all.
  unfoldable pub stats_containers : Stores → Option ContainerFilter → List StoredContainer
  stats_containers s none = []
  stats_containers s (some f) =
      keep (accepts_stats (normalize_container_filter s f))
        (list t level_of container_fields s.containers)

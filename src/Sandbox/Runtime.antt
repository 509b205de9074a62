-- ===== src/Sandbox/Runtime.antt =====
-- Which runtime a sandbox is given: `getSandboxRuntime`, `untrustedWorkload` and
-- `hostAccessingSandbox` of pkg/server/sandbox_run.go. `T` is the configuration of a runtime.
use cri.Base.{
  String, ◌≡◌, ◌≢◌, ◌⊎◌, inl, inr, refl, eq_iff, Bool-cases, Bool, true, false, Option, none, some,
  ◌&&◌, ◌||◌, not, if◌then◌else◌, str_eq, arith,
}
use cri.Base.GoMap.{Map, lookup}
use cri.Base.Errors.{Result, ok, err, failure}

-- runtime.NamespaceMode
pub data NamespaceMode : Type 0 where
  pod_namespace container_namespace node_namespace : NamespaceMode

-- The parts of a sandbox's request and configuration that decide. An absent message has the zero
-- values, as the getters of the generated code return them.
pub record PodConfig : Type 0 where
  pub annotations : Map String
  pub network : NamespaceMode
  pub pid : NamespaceMode
  pub ipc : NamespaceMode
  pub runtime_handler : String

pub record RuntimesConfig (T : Type 0) : Type 0 where
  pub default_runtime_name : String
  pub runtimes : Map T

-- annotations.UntrustedWorkload
abbrev pub untrusted_annotation : String
untrusted_annotation = "io.kubernetes.cri.untrusted-workload"

-- criconfig.RuntimeUntrusted
abbrev pub runtime_untrusted : String
runtime_untrusted = "untrusted"

abbrev pub is_node : NamespaceMode → Bool
is_node pod_namespace = false
is_node container_namespace = false
is_node node_namespace = true

-- A missing key of `map[string]string` reads as "".
abbrev pub or_empty : Option String → String
or_empty none = ""
or_empty (some s) = s

-- untrustedWorkload
abbrev pub untrusted_workload : PodConfig → Bool
untrusted_workload c = str_eq (or_empty (lookup untrusted_annotation c.annotations)) "true"

-- hostAccessingSandbox
abbrev pub host_accessing_sandbox : PodConfig → Bool
host_accessing_sandbox c = is_node c.network || is_node c.pid || is_node c.ipc

-- The handler that an untrusted workload leads to, or why it is refused.
unfoldable choose_handler : PodConfig → Result String
choose_handler c =
    if untrusted_workload c
    then (if not (str_eq c.runtime_handler "") && not (str_eq c.runtime_handler runtime_untrusted)
        then err (failure "untrusted workload with explicit runtime handler is not allowed")
        else if host_accessing_sandbox c
        then err (failure "untrusted workload with host access is not allowed")
        else ok runtime_untrusted)
    else ok c.runtime_handler

not_node : (m : NamespaceMode) → is_node m ≡ false → m ≢ node_namespace
not_node pod_namespace h e = cc
not_node container_namespace h e = cc
not_node node_namespace h e = cc

no_host :
    (c : PodConfig)
    → host_accessing_sandbox c ≡ false
    → (c.network ≢ node_namespace) × (c.pid ≢ node_namespace) × (c.ipc ≢ node_namespace)
no_host c h = (
  not_node c.network (ground arith),
  not_node c.pid (ground arith),
  not_node c.ipc (ground arith),
)

named_handler :
    (s : String) → (str_eq s "" || str_eq s runtime_untrusted) ≡ true → (s ≡ "") ⊎ (s ≡ "untrusted")
named_handler s h = elim (Bool-cases (str_eq s "")) [
  | inl q ↦ inl ((eq_iff s "").0 q)
  | inr q ↦ inr ((eq_iff s "untrusted").0 (ground (arith, q, h)))
]

module _ {T : Type 0} where
  configured : Option T → Result T
  configured none = err (failure "no runtime is configured")
  configured (some t) = ok t

  or_default : RuntimesConfig T → String → String
  or_default config handler = if str_eq handler "" then config.default_runtime_name else handler

  find_handler : RuntimesConfig T → Result String → Result T
  unfolding configured or_default
  find_handler config (err e) = err e
  find_handler config (ok handler) = configured (lookup (or_default config handler) config.runtimes)

  -- getSandboxRuntime
  unfoldable pub get_sandbox_runtime : RuntimesConfig T → PodConfig → Result T
  unfolding find_handler choose_handler
  get_sandbox_runtime config c = find_handler config (choose_handler c)

  confined_tests :
      (config : RuntimesConfig T) (c : PodConfig) (t : T)
      → untrusted_workload c ≡ true
      → get_sandbox_runtime config c ≡ ok t
      → (lookup runtime_untrusted config.runtimes ≡ some t)
        × (host_accessing_sandbox c ≡ false)
        × ((str_eq c.runtime_handler "" || str_eq c.runtime_handler runtime_untrusted) ≡ true)
  unfolding get_sandbox_runtime find_handler choose_handler configured or_default
  confined_tests config c t u h = grind arith

  -- A runtime is given to a sandbox with the annotation of an untrusted workload only if its request
  -- names no handler or that of untrusted workloads, and none of its network, process and IPC
  -- namespaces is that of the node; and then it is the runtime configured for untrusted workloads.
  pub untrusted_confined :
      (config : RuntimesConfig T) (c : PodConfig) (t : T)
      → lookup untrusted_annotation c.annotations ≡ some "true"
      → get_sandbox_runtime config c ≡ ok t
      → (lookup "untrusted" config.runtimes ≡ some t)
        × (c.network ≢ node_namespace)
        × (c.pid ≢ node_namespace)
        × (c.ipc ≢ node_namespace)
        × ((c.runtime_handler ≡ "") ⊎ (c.runtime_handler ≡ "untrusted"))
  untrusted_confined config c t u h =
      let (l, host, handler) = confined_tests config c t (rw u refl) h in
      let (network, pid, ipc) = no_host c host in
      (l, network, pid, ipc, named_handler c.runtime_handler handler)

  -- A trusted workload gets the runtime that its request names, the default one where it names
  -- none, and an error where that one is not configured.
  pub trusted_runtime :
      (config : RuntimesConfig T) (c : PodConfig)
      → untrusted_workload c ≡ false
      → get_sandbox_runtime config c
        ≡ (elim (lookup
            (if str_eq c.runtime_handler "" then config.default_runtime_name else c.runtime_handler)
            config.runtimes) [ none ↦ err (failure "no runtime is configured") | some t ↦ ok t ])
  unfolding get_sandbox_runtime find_handler choose_handler configured or_default
  trusted_runtime config c u = grind arith

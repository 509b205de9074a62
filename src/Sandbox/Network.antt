-- ===== src/Sandbox/Network.antt =====
-- The network of a sandbox in pkg/server/sandbox_run.go: `setupPodNetwork`, the options that it
-- gives the CNI plugin, and the choice of the address that the sandbox reports. The plugin, the
-- bandwidth annotations' parser (a copy of another project's) and the generated enumeration of
-- protocols are parameters.
pub mod Addresses
use cri.Base.{
  ℕ, zero, suc, ◌^◌, ◌-◌, String, Bool, true, false, Option, none, some, List, [], ◌∷◌, ◌++◌, ◌&&◌,
  if◌then◌else◌, str_eq,
}
use cri.Base.Int.{ℤ, pos, negsuc, is_zero}
use cri.Base.GoMap.{Map, lookup}
use cri.Base.Errors.{Error, Result, ok, err, failure, wrap, ◌>>=◌}
use cri.Names.{PodMetadata}

-- What the code reads of a `cni.IPConfig`: whether `IP.To4` is not nil, and `IP.String`.
pub record IpConfig : Type 0 where
  pub is_ipv4 : Bool
  pub text : String

-- The body of the loop: the address so far, and the additional ones.
place : IpConfig → String × List String → String × List String
place c (ip, more) =
    if c.is_ipv4 && str_eq ip "" then (c.text, more) else (ip, more ++ (c.text ∷ []))

place_all : List IpConfig → String × List String → String × List String
unfolding place
place_all [] found = found
place_all (c ∷ cs) found = place_all cs (place c found)

-- What follows the loop; `none` is the index that is out of range.
choose : String × List String → Option (String × List String)
choose (ip, []) = if str_eq ip "" then none else some (ip, [])
choose (ip, first ∷ more) = if str_eq ip "" then some (first, more) else some (ip, first ∷ more)

-- selectPodIPs
unfoldable pub select_pod_ips : List IpConfig → Option (String × List String)
unfolding place_all choose
select_pod_ips cs = choose (place_all cs ("", []))

pub record PortMapping (P : Type 0) : Type 0 where
  pub protocol : P
  pub container_port : ℤ
  pub host_port : ℤ
  pub host_ip : String

abbrev pub is_positive : ℤ → Bool
is_positive (pos zero) = false
is_positive (pos (suc n)) = true
is_positive (negsuc n) = false

module _ {P : Type 0} (protocol_name : P → String) where
  to_cni : PortMapping P → PortMapping String
  to_cni m = record {
    protocol = protocol_name m.protocol;
    container_port = m.container_port;
    host_port = m.host_port;
    host_ip = m.host_ip;
  }

  -- toCNIPortMappings; `protocol_name` is `strings.ToLower(mapping.Protocol.String())`.
  unfoldable pub to_cni_port_mappings : List (PortMapping P) → List (PortMapping String)
  unfolding to_cni
  to_cni_port_mappings [] = []
  to_cni_port_mappings (m ∷ ms) =
      let rest = to_cni_port_mappings ms in
      if is_positive m.host_port then to_cni m ∷ rest else rest

-- toCNILabels
unfoldable pub to_cni_labels : String → PodMetadata → Map String
to_cni_labels id m =
    ("K8S_POD_NAMESPACE", m.namespace)
    ∷ ("K8S_POD_NAME", m.name)
    ∷ ("K8S_POD_INFRA_CONTAINER_ID", id)
    ∷ ("IgnoreUnknown", "1")
    ∷ []

-- cni.BandWidth
pub record BandWidth : Type 0 where
  pub ingress_rate : ℕ
  pub ingress_burst : ℕ
  pub egress_rate : ℕ
  pub egress_burst : ℕ

-- math.MaxUint32
abbrev pub max_uint32 : ℕ
max_uint32 = 2 ^ 32 - 1

abbrev rate : Option ℕ → ℕ
rate none = 0
rate (some value) = value

abbrev burst : Option ℕ → ℕ
burst none = 0
burst (some value) = max_uint32

bandwidth_of : Option ℕ → Option ℕ → Option BandWidth
bandwidth_of none none = none
bandwidth_of ingress egress = some (record {
  ingress_rate = rate ingress;
  ingress_burst = burst ingress;
  egress_rate = rate egress;
  egress_burst = burst egress;
})

-- toCNIBandWidth, after `bandwidth.ExtractPodBandwidthResources`
unfoldable pub to_cni_bandwidth : Result (Option ℕ × Option ℕ) → Result (Option BandWidth)
unfolding bandwidth_of
to_cni_bandwidth (err e) = err (wrap "reading pod bandwidth annotations" e)
to_cni_bandwidth (ok (ingress, egress)) = ok (bandwidth_of ingress egress)

-- runtime.DNSConfig and cni.DNS
pub record Dns : Type 0 where
  pub servers : List String
  pub searches : List String
  pub options : List String

pub data NamespaceOpt : Type 0 where
  labels : Map String → NamespaceOpt
  port_map : List (PortMapping String) → NamespaceOpt
  capability_bandwidth : BandWidth → NamespaceOpt
  capability_dns : Dns → NamespaceOpt

abbrev port_option : List (PortMapping String) → List NamespaceOpt
port_option [] = []
port_option (m ∷ ms) = port_map (m ∷ ms) ∷ []

abbrev bandwidth_option : Option BandWidth → List NamespaceOpt
bandwidth_option none = []
bandwidth_option (some b) = capability_bandwidth b ∷ []

-- toCNIDNS
abbrev dns_option : Option Dns → List NamespaceOpt
dns_option none = []
dns_option (some d) = capability_dns d ∷ []

module _ {P : Type 0} (protocol_name : P → String)
    (extract : Map String → Result (Option ℕ × Option ℕ)) where
  pub record NetworkConfig : Type 0 where
    pub metadata : PodMetadata
    pub annotations : Map String
    pub port_mappings : List (PortMapping P)
    pub dns_config : Option Dns

  -- cniNamespaceOpts
  unfoldable pub cni_namespace_opts : String → NetworkConfig → Result (List NamespaceOpt)
  cni_namespace_opts id c = do
    bandwidth ← to_cni_bandwidth (extract c.annotations)
    ok (
        labels (to_cni_labels id c.metadata)
        ∷ (port_option (to_cni_port_mappings protocol_name c.port_mappings)
            ++ (bandwidth_option bandwidth ++ dns_option c.dns_config)))

  -- The plugin's `Setup`: the addresses of each interface.
  abbrev pub Plugin : Type 0
  Plugin = String → String → List NamespaceOpt → Result (Map (List IpConfig))

  -- The addresses of the default interface.
  addresses : Option (List IpConfig) → Result (String × List String)
  addresses none = err (failure "failed to find network info for sandbox")
  addresses (some []) = err (failure "failed to find network info for sandbox")
  addresses (some (c ∷ cs)) = elim (select_pod_ips (c ∷ cs)) [
    | none ↦ err (failure "index out of range")
    | some found ↦ ok found
  ]

  -- setupPodNetwork; the addresses are stored in the sandbox.
  unfoldable pub setup_pod_network :
      Option Plugin → String → String → NetworkConfig → Result (String × List String)
  unfolding addresses
  setup_pod_network none id path c = err (failure "cni config not initialized")
  setup_pod_network (some plugin) id path c = do
    opts ← elim (cni_namespace_opts id c) [
      | ok opts ↦ ok opts
      | err e ↦ err (wrap "get cni namespace options" e)
    ]
    interfaces ← plugin id path opts
    addresses (lookup "eth0" interfaces)

-- ===== src/Mounts.antt =====
-- The mounts of a container's specification: `WithMounts`, `ensureShared` and `ensureSharedOrSlave` of
-- pkg/containerd/opts/spec_unix.go and `orderedMounts` of spec.go. `sort.Sort`, `filepath.Clean` and
-- the calls of the operating system, with the state that they change, are parameters. A specification
-- without a Linux part is one with an empty propagation.
pub mod Reach
pub mod Bind
pub mod Binds
pub mod Supplied
use Prim.Native.Char.{Char, code}
use text.Mathlib.Text.{starts_with}
use cri.Base.{
  ℕ, suc, ◌==◌, String, Option, none, some, List, [], ◌∷◌, ◌++◌, Bool, true, false, not,
  if◌then◌else◌, str_eq, keep,
}
use cri.Base.Errors.{Error, Result, ok, err, wrap, failure}

pub data Propagation : Type 0 where
  private host_to_container bidirectional unknown_mode : Propagation

-- A mount of the runtime interface.
pub record Mount : Type 0 where
  pub container_path : String
  pub host_path : String
  pub propagation : Propagation
  pub readonly : Bool
  pub selinux_relabel : Bool

-- A mount of the specification.
pub record SpecMount : Type 0 where
  pub source : String
  pub destination : String
  pub kind : String
  pub options : List String

-- What `WithMounts` changes of a specification.
pub record Spec : Type 0 where
  pub mounts : List SpecMount
  pub rootfs_propagation : String

pub record MountInfo : Type 0 where
  pub optional : String
  pub mountpoint : String

-- path/filepath and sort. `sort` takes the number by which it sorts.
pub record Paths : Type 1 where
  pub clean : String → String
  pub sort : (Mount → ℕ) → List Mount → List Mount

-- strings.Count of the path separator
unfoldable pub count_separators : String → ℕ
count_separators String.[] = 0
count_separators (String.◌∷◌ c s) =
    let rest = count_separators s in if code c == b'/' then suc rest else rest

put_first : Char → List String → List String
put_first c [] = String.◌∷◌ c "" ∷ []
put_first c (field ∷ rest) = String.◌∷◌ c field ∷ rest

-- strings.Split at the spaces
unfoldable pub split : String → List String
unfolding put_first
split String.[] = "" ∷ []
split (String.◌∷◌ c s) =
    let rest = split s in if code c == b' ' then "" ∷ rest else put_first c rest

-- The operating system.
pub record Os : Type 1 where
  pub State : Type 0
  pub stat : String → State → Option Error
  pub is_not_exist : Error → Bool
  pub mkdir_all : String → State → State × Option Error
  pub resolve_symbolic_link : String → State → Result String
  pub lookup_mount : String → State → Result MountInfo
  pub relabel : String → String → State → State × Option Error
  pub is_not_supported : Error → Bool

module _ (x : Paths) where
  -- orderedMounts
  abbrev pub parts : Mount → ℕ
  parts m = count_separators (x.clean m.container_path)

  unfoldable pub has_path : String → List Mount → Bool
  has_path dst [] = false
  has_path dst (m ∷ ms) = if str_eq dst (x.clean m.container_path) then true else has_path dst ms

  abbrev pub is_extra : List Mount → Mount → Bool
  is_extra mounts e = not (has_path (x.clean e.container_path) mounts)

  unfoldable pub merge_mounts : List Mount → List Mount → List Mount
  merge_mounts mounts extra = mounts ++ keep (is_extra mounts) extra

  -- Whether a default mount stays beside the supplied ones.
  abbrev pub stays : List Mount → SpecMount → Bool
  stays mounts d =
      if has_path (x.clean d.destination) mounts
      then false
      else if has_path "/dev" mounts
      then not (starts_with (x.clean d.destination) "/dev/")
      else true

  unfoldable pub has_option : (String → Bool) → List String → Bool
  has_option p [] = false
  has_option p (o ∷ rest) = if p o then true else has_option p rest

  abbrev pub is_shared : String → Bool
  is_shared o = starts_with o "shared:"

  abbrev pub is_shared_or_slave : String → Bool
  is_shared_or_slave o = if starts_with o "shared:" then true else starts_with o "master:"

  -- ensureShared and ensureSharedOrSlave, by the test of an option.
  unfoldable pub ensure : (String → Bool) → Result MountInfo → Option Error
  ensure p (err e) = some e
  ensure p (ok i) =
      if has_option p (split i.optional)
      then none
      else some (failure "path is mounted but it is not a shared mount")

abbrev pub cgroup : SpecMount
cgroup = record {
  source = "cgroup";
  destination = "/sys/fs/cgroup";
  kind = "cgroup";
  options = "nosuid" ∷ "noexec" ∷ "nodev" ∷ "relatime" ∷ "ro" ∷ [];
}

module _ (x : Paths) (os : Os) (mount_label : String) where
  wrapped : String → os.State × Option Error → os.State × Option Error
  wrapped message (st, none) = (st, none)
  wrapped message (st, some e) = (st, some (wrap message e))

  unfoldable pub make_host_path : String → os.State → os.State × Option Error
  unfolding wrapped
  make_host_path src st = elim (os.stat src st) [
    | none ↦ (st, none)
    | some e ↦
        if os.is_not_exist e
        then wrapped "failed to mkdir" (os.mkdir_all src st)
        else (st, some (wrap "failed to stat" e))
  ]

  when_ensured : Option Error → String × String → Result (String × String)
  when_ensured none r = ok r
  when_ensured (some e) r = err e

  -- The option of the mount and the propagation of the root file system.
  unfoldable pub propagate : Propagation → String → String → os.State → Result (String × String)
  unfolding when_ensured
  propagate private src rootfs st = ok ("rprivate", rootfs)
  propagate bidirectional src rootfs st =
      when_ensured (ensure x (is_shared x) (os.lookup_mount src st)) ("rshared", "rshared")
  propagate host_to_container src rootfs st =
      when_ensured (ensure x (is_shared_or_slave x) (os.lookup_mount src st)) (
        "rslave",
        if str_eq rootfs "rshared"
            then rootfs
            else if str_eq rootfs "rslave"
            then rootfs
            else "rslave",
      )
  propagate unknown_mode src rootfs st = ok ("rprivate", rootfs)

  abbrev pub bound : Mount → String → String → SpecMount
  bound m src option = record {
    source = src;
    destination = m.container_path;
    kind = "bind";
    options = "rbind" ∷ option ∷ (if m.readonly then "ro" else "rw") ∷ [];
  }

  abbrev pub Bound : Type 0
  Bound = os.State × Result (SpecMount × String)

  relabelled : SpecMount → String → os.State × Option Error → Bound
  relabelled b rootfs (st, none) = (st, ok (b, rootfs))
  relabelled b rootfs (st, some e) =
      if os.is_not_supported e then (st, ok (b, rootfs)) else (st, err (wrap "relabel failed" e))

  bind_propagated : Mount → String → os.State → Result (String × String) → Bound
  unfolding relabelled
  bind_propagated m src st (err e) = (st, err e)
  bind_propagated m src st (ok (option, rootfs)) =
      relabelled (bound m src option) rootfs
        (if m.selinux_relabel then os.relabel src mount_label st else (st, none))

  bind_resolved : Mount → String → os.State → Result String → Bound
  unfolding bind_propagated
  bind_resolved m rootfs st (err e) = (st, err (wrap "failed to resolve symlink" e))
  bind_resolved m rootfs st (ok src) =
      bind_propagated m src st (propagate m.propagation src rootfs st)

  bind_made : Mount → String → os.State × Option Error → Bound
  unfolding bind_resolved
  bind_made m rootfs (st, some e) = (st, err e)
  bind_made m rootfs (st, none) =
      bind_resolved m rootfs st (os.resolve_symbolic_link m.host_path st)

  -- One supplied mount, with the propagation of the root file system before and after.
  unfoldable pub bind_mount : Mount → String → os.State → Bound
  unfolding bind_made
  bind_mount m rootfs st = bind_made m rootfs (make_host_path m.host_path st)

  abbrev pub Mounting : Type 0
  Mounting = os.State → Spec → os.State × Result Spec

  unfoldable pub after_bind : Mounting → Spec → Bound → os.State × Result Spec
  after_bind next s (st, err e) = (st, err e)
  after_bind next s (st, ok (b, rootfs)) =
      next st (record { mounts = s.mounts ++ (b ∷ []); rootfs_propagation = rootfs })

  unfoldable pub bind_mounts : List Mount → Mounting
  unfolding after_bind
  bind_mounts [] st s = (st, ok s)
  bind_mounts (m ∷ ms) st s = after_bind (bind_mounts ms) s (bind_mount m s.rootfs_propagation st)

  -- WithMounts
  unfoldable pub with_mounts : List Mount → List Mount → Mounting
  unfolding bind_mounts
  with_mounts mounts extra st s =
      let supplied = x.sort (parts x) (merge_mounts x mounts extra) in
      bind_mounts supplied st
        (record s { mounts = keep (stays x supplied) (s.mounts ++ (cgroup ∷ [])) })

-- ===== src/Scenarios/Mounting.antt =====
-- A run of `WithMounts`, with an insertion sort.
use cri.Base.{ℕ, none, List, [], ◌∷◌, true, false, leb, if◌then◌else◌}
use cri.Base.Errors.{ok, is_not_found}
use cri.Mounts.{Mount, Spec, Paths, Os, private, bidirectional}

module _ (key : Mount → ℕ) where
  abbrev insert_mount : Mount → List Mount → List Mount
  insert_mount m [] = m ∷ []
  insert_mount m (n ∷ ns) =
      let rest = insert_mount m ns in if leb (key m) (key n) then m ∷ n ∷ ns else n ∷ rest

  abbrev sort_mounts : List Mount → List Mount
  sort_mounts [] = []
  sort_mounts (m ∷ ms) = insert_mount m (sort_mounts ms)

abbrev clean_paths : Paths
clean_paths = record { clean = λ p. p; sort = sort_mounts }

-- Every source is there, on a shared mount.
abbrev host : Os
host = record {
  State = ℕ;
  stat = λ p n. none;
  is_not_exist = is_not_found;
  mkdir_all = λ p n. (n, none);
  resolve_symbolic_link = λ p n. ok p;
  lookup_mount = λ p n. ok (record { optional = "shared:7 unbindable"; mountpoint = "/" });
  relabel = λ p l n. (n, none);
  is_not_supported = λ e. false;
}

abbrev data_mount : Mount
data_mount = record {
  container_path = "/var/data";
  host_path = "/srv";
  propagation = bidirectional;
  readonly = true;
  selinux_relabel = true;
}

abbrev dev_mount : Mount
dev_mount = record {
  container_path = "/dev";
  host_path = "/dev";
  propagation = private;
  readonly = false;
  selinux_relabel = false;
}

abbrev initial : Spec
initial = record {
  mounts =
      record { source = "proc"; destination = "/proc"; kind = "proc"; options = [] }
      ∷ record { source = "shm"; destination = "/dev/shm"; kind = "tmpfs"; options = [] }
      ∷ [];
  rootfs_propagation = "";
}

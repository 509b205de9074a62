-- ===== src/Mounts/Supplied.antt =====
-- What the mounts of a specification are after `WithMounts`.
use mathlib.Core.List.Memᴰ
use mathlib.Core.List.{Memᴰ}
use Prim.Native.String.{◌++◌ as str_append}
use Prim.Native.String.append
use cri.Base.{ℕ, ◌≤◌, String, ◌≡◌, ◌≢◌, ◌↔◌, ◌⊎◌, List, [], ◌∷◌, ◌++◌, true, All}
use cri.Base.Errors.{Error, Result, ok, err}
use text.Mathlib.Text.{starts_with}
use cri.Mounts.{bidirectional, Mount, SpecMount, Spec, Paths, Os, cgroup}
use cri.Mounts.Binds.{root_after_all, Binds}
use cri.Mounts.Bind.{Obstacle}

-- Every element has a number that is at most those of the elements after it.
abbrev pub IsAscending : (Mount → ℕ) → List Mount → Type 0
IsAscending key [] = Unit
IsAscending key (m ∷ ms) = All (λ n. key m ≤ key n) ms × IsAscending key ms

module _ (x : Paths) where
  -- No supplied mount is at the path.
  abbrev pub IsFree : String → List Mount → Type 0
  IsFree dst ms = (m : Mount) → Memᴰ m ms → dst ≢ x.clean m.container_path

  -- A default mount that stays: no supplied mount is at its path, and it is not below `/dev` where
  -- `/dev` is supplied.
  abbrev pub Beside : List Mount → SpecMount → Type 0
  Beside ms d =
      IsFree (x.clean d.destination) ms
      × (starts_with (x.clean d.destination) "/dev/" ≡ true → IsFree "/dev" ms)

  -- The mounts of the request, and the extra ones at other paths.
  abbrev pub Wanted : List Mount → List Mount → Mount → Type 0
  Wanted mounts extra m = Memᴰ m mounts ⊎ (Memᴰ m extra × IsFree (x.clean m.container_path) mounts)

  -- The mount is below the other one: its path goes on after the other's and a separator.
  abbrev pub IsBelow : Mount → Mount → Type 0
  IsBelow n m =
      (rest : String) × (x.clean n.container_path
        ≡ str_append (x.clean m.container_path) (str_append "/" rest))

  -- No mount comes before one that it is below, which would be mounted over it.
  abbrev pub IsUnshadowed : List Mount → Type 0
  IsUnshadowed [] = Unit
  IsUnshadowed (n ∷ ms) = All (λ m. ¬ IsBelow n m) ms × IsUnshadowed ms

  -- What sort.Sort does, for the number by which it sorts.
  pub record Sorts : Type 0 where
    pub members :
        (key : Mount → ℕ) (m : Mount) (ms : List Mount) → Memᴰ m (x.sort key ms) ↔ Memᴰ m ms
    pub ordered : (key : Mount → ℕ) (ms : List Mount) → IsAscending key (x.sort key ms)

module _ (x : Paths) (os : Os) (mount_label : String) where
  -- The mounts of the specification that is returned, and the state after it.
  pub record IsArranged (mounts extra : List Mount) (st : os.State) (s : Spec)
      (r : os.State × Result Spec) : Type 0 where
    pub supplied : List Mount
    pub members : (m : Mount) → Memᴰ m supplied ↔ Wanted x mounts extra m
    pub unshadowed : IsUnshadowed x supplied
    pub defaults : List SpecMount
    pub kept :
        (d : SpecMount)
        → Memᴰ d defaults ↔ (Memᴰ d (s.mounts ++ (cgroup ∷ [])) × Beside x supplied d)
    pub added : List SpecMount
    pub binds : Binds x os mount_label st supplied added r.0
    pub result : Spec
    pub returned : r.1 ≡ ok result
    pub listed : result.mounts ≡ defaults ++ added
    pub root :
        result.rootfs_propagation ≡ root_after_all x os mount_label supplied s.rootfs_propagation
    pub shared :
        (m : Mount)
        → Memᴰ m supplied
        → m.propagation ≡ bidirectional
        → result.rootfs_propagation ≡ "rshared"

  -- A mount that was to be made met an obstacle, after those before it were bound.
  pub record IsBlocked (mounts extra : List Mount) (st : os.State) (r : Result Spec) : Type 0 where
    pub before : List Mount
    pub mount : Mount
    pub rest : List Mount
    pub members : (m : Mount) → Memᴰ m (before ++ (mount ∷ rest)) ↔ Wanted x mounts extra m
    pub bound_before : List SpecMount
    pub state : os.State
    pub binds : Binds x os mount_label st before bound_before state
    pub obstacle : Obstacle x os mount_label state mount
    pub error : Error
    pub returned : r ≡ err error

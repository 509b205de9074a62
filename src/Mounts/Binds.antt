-- ===== src/Mounts/Binds.antt =====
-- What the loop of `WithMounts` binds, and where it stops.
use mathlib.Core.List.{append_assoc, append-nil}
use cri.Base.{String, ◌≡◌, refl, ap, ◌⊎◌, inl, inr, List, [], ◌∷◌, ◌++◌}
use cri.Base.Errors.{Error, Result, ok, err}
use cri.Mounts.{
  Mount, SpecMount, Spec, Paths, Os, bind_mount, after_bind, bind_mounts, Bound, Mounting,
}
use cri.Mounts.Reach.{root_after}
use cri.Mounts.Bind.{IsBound, Obstacle, bind_mount_cases}

module _ (x : Paths) (os : Os) (mount_label : String) where
  abbrev pub root_after_all : List Mount → String → String
  root_after_all [] root = root
  root_after_all (m ∷ ms) root = root_after_all ms (root_after x os mount_label m.propagation root)

  -- One mount of the specification for each supplied one, in the same order, each made in the state
  -- that the one before it left.
  pub data Binds : os.State → List Mount → List SpecMount → os.State → Type 0 where
    nothing : {st : os.State} → Binds st [] [] st
    and_bound :
        {st u after : os.State} {m : Mount} {b : SpecMount} {ms : List Mount} {bs : List SpecMount}
        → IsBound x os mount_label st m b u
        → Binds u ms bs after
        → Binds st (m ∷ ms) (b ∷ bs) after

  -- The mounts of the list before one of them are bound, and that one meets an obstacle.
  pub record Fails (st : os.State) (ms : List Mount) (r : Result Spec) : Type 0 where
    pub before : List Mount
    pub mount : Mount
    pub rest : List Mount
    pub split_at : ms ≡ before ++ (mount ∷ rest)
    pub bound_before : List SpecMount
    pub state : os.State
    pub binds : Binds st before bound_before state
    pub obstacle : Obstacle x os mount_label state mount
    pub error : Error
    pub returned : r ≡ err error

  pub record BindsAll (st : os.State) (ms : List Mount) (s : Spec) (r : os.State × Result Spec)
      : Type 0 where
    pub added : List SpecMount
    pub binds : Binds st ms added r.0
    pub returned :
        r.1
        ≡ ok (record {
          mounts = s.mounts ++ added;
          rootfs_propagation = root_after_all ms s.rootfs_propagation;
        })

  later :
      (st u : os.State) (m : Mount) (b : SpecMount) (ms : List Mount) (r : Result Spec)
      → IsBound x os mount_label st m b u
      → Fails u ms r
      → Fails st (m ∷ ms) r
  later st u m b ms r h f = record {
    before = m ∷ f.before;
    mount = f.mount;
    rest = f.rest;
    split_at = ap (λ (l : List Mount). m ∷ l) f.split_at;
    bound_before = b ∷ f.bound_before;
    state = f.state;
    binds = and_bound h f.binds;
    obstacle = f.obstacle;
    error = f.error;
    returned = f.returned;
  }

  after_bind_ok :
      (next : Mounting x os mount_label) (s : Spec) (a : Bound x os mount_label) (b : SpecMount)
      (root : String)
      → a.1 ≡ ok (b, root)
      → after_bind x os mount_label next s a
        ≡ next a.0 (record { mounts = s.mounts ++ (b ∷ []); rootfs_propagation = root })
  unfolding after_bind
  after_bind_ok next s (st, r) b root h = rw h refl

  after_bind_err :
      (next : Mounting x os mount_label) (s : Spec) (a : Bound x os mount_label) (e : Error)
      → a.1 ≡ err e
      → (after_bind x os mount_label next s a).1 ≡ err e
  unfolding after_bind
  after_bind_err next s (st, r) e h = rw h refl

  put_first :
      (st u : os.State) (m : Mount) (b : SpecMount) (ms : List Mount) (s : Spec)
      (r : os.State × Result Spec)
      → IsBound x os mount_label st m b u
      → BindsAll u ms
          (record {
            mounts = s.mounts ++ (b ∷ []);
            rootfs_propagation = root_after x os mount_label m.propagation s.rootfs_propagation;
          })
          r
      → BindsAll st (m ∷ ms) s r
  put_first st u m b ms s r h a = record {
    added = b ∷ a.added;
    binds = and_bound h a.binds;
    returned = rw⁻¹ (append_assoc s.mounts (b ∷ []) a.added) a.returned;
  }

  pub bind_mounts_cases :
      (ms : List Mount) (st : os.State) (s : Spec)
      → let r = bind_mounts x os mount_label ms st s in Fails st ms r.1 ⊎ BindsAll st ms s r
  unfolding bind_mounts
  bind_mounts_cases [] st s =
      inr (record { added = []; binds = nothing; returned = rw (append-nil s.mounts) refl })
  bind_mounts_cases (m ∷ ms) st s =
      elim (bind_mount_cases x os mount_label st m s.rootfs_propagation) [
        | inl (e, h, o) ↦ inl (record {
          before = [];
          mount = m;
          rest = ms;
          split_at = refl;
          bound_before = [];
          state = st;
          binds = nothing;
          obstacle = o;
          error = e;
          returned = after_bind_err (bind_mounts x os mount_label ms) s _ e h;
        })
        | inr (b, h, bind) ↦
            let u = (bind_mount x os mount_label m s.rootfs_propagation st).0 in
            rw
              (after_bind_ok (bind_mounts x os mount_label ms) s
                (bind_mount x os mount_label m s.rootfs_propagation st) b
                (root_after x os mount_label m.propagation s.rootfs_propagation) h)
              (elim (bind_mounts_cases ms _ _) [
                | inl f ↦ inl (later st u m b ms _ bind f)
                | inr a ↦ inr (put_first st u m b ms s _ bind a)
              ])
      ]

-- ===== src/Mounts/Bind.antt =====
-- How one mount of `WithMounts` is made, and the obstacles to it.
use cri.Base.{
  String, ◌≡◌, refl, ap, ◌⊎◌, inl, inr, Option, none, some, [], ◌∷◌, Bool, true, false,
  if◌then◌else◌, Bool-cases, Option-cases,
}
use cri.Base.Errors.{Error, ok, err, wrap, Result-cases}
use cri.Mounts.{
  Mount, SpecMount, Paths, Os, make_host_path, wrapped, propagate, bound, bind_made, bind_resolved,
  bind_propagated, relabelled, bind_mount, Bound,
}
use cri.Mounts.Reach.{Reaches, propagation_option, root_after, propagate_cases}

module _ (x : Paths) (os : Os) (mount_label : String) where
  -- The source is made where it is missing, which leaves `at`.
  abbrev pub Made : String → os.State → os.State → Type 0
  Made src st at =
      ((os.stat src st ≡ none) × (at ≡ st))
      ⊎ ((e : Error) × (os.stat src st ≡ some e)
          × (os.is_not_exist e ≡ true)
          × (os.mkdir_all src st ≡ (at, none)))

  -- The source is relabelled where the mount asks for it.
  abbrev pub Labelled : Mount → String → os.State → os.State → Type 0
  Labelled m src at after =
      ((m.selinux_relabel ≡ false) × (after ≡ at))
      ⊎ ((m.selinux_relabel ≡ true) × (os.relabel src mount_label at ≡ (after, none)))
      ⊎ ((e : Error) × (m.selinux_relabel ≡ true)
          × (os.relabel src mount_label at ≡ (after, some e))
          × (os.is_not_supported e ≡ true))

  -- The mount of the specification for a supplied one, made from one state to another.
  pub record IsBound (st : os.State) (m : Mount) (b : SpecMount) (after : os.State) : Type 0 where
    pub destination : b.destination ≡ m.container_path
    pub kind : b.kind ≡ "bind"
    pub options :
        b.options
        ≡ "rbind"
          ∷ propagation_option x os mount_label m.propagation
          ∷ (if m.readonly then "ro" else "rw")
          ∷ []
    pub state : os.State
    pub made : Made m.host_path st state
    pub source : os.resolve_symbolic_link m.host_path state ≡ ok b.source
    pub reaches : Reaches x os mount_label m.propagation b.source state
    pub labelled : Labelled m b.source state after

  -- Why a mount cannot be made in a state.
  pub data Obstacle (st : os.State) (m : Mount) : Type 0 where
    unreadable :
        {e : Error} → os.stat m.host_path st ≡ some e → os.is_not_exist e ≡ false → Obstacle st m
    unmakable :
        {e y : Error}
        → os.stat m.host_path st ≡ some e
        → (os.mkdir_all m.host_path st).1 ≡ some y
        → Obstacle st m
    unresolved :
        {at : os.State} {e : Error}
        → Made m.host_path st at
        → os.resolve_symbolic_link m.host_path at ≡ err e
        → Obstacle st m
    unreached :
        {at : os.State} {src : String}
        → Made m.host_path st at
        → os.resolve_symbolic_link m.host_path at ≡ ok src
        → ¬ Reaches x os mount_label m.propagation src at
        → Obstacle st m
    unlabelled :
        {at : os.State} {src : String} {e : Error}
        → Made m.host_path st at
        → os.resolve_symbolic_link m.host_path at ≡ ok src
        → m.selinux_relabel ≡ true
        → (os.relabel src mount_label at).1 ≡ some e
        → os.is_not_supported e ≡ false
        → Obstacle st m

  -- A mount fails, or is bound.
  abbrev pub Binding : os.State → Mount → String → Bound x os mount_label → Type 0
  Binding st m root r =
      ((e : Error) × (r.1 ≡ err e) × Obstacle st m)
      ⊎ ((b : SpecMount) × (r.1 ≡ ok (b, root_after x os mount_label m.propagation root))
          × IsBound st m b r.0)

  -- A relabelling fails, or is done.
  abbrev Relabelling :
      Mount → String → os.State → SpecMount × String → Bound x os mount_label → Type 0
  Relabelling m src at b r =
      ((e : Error) × (r.1 ≡ err e)
        × ((y : Error) × (m.selinux_relabel ≡ true)
            × ((os.relabel src mount_label at).1 ≡ some y)
            × (os.is_not_supported y ≡ false)))
      ⊎ ((r.1 ≡ ok b) × Labelled m src at r.0)

  relabel_result :
      (m : Mount) (src : String) (at : os.State) (b : SpecMount) (root : String)
      (r : os.State × Option Error)
      → m.selinux_relabel ≡ true
      → os.relabel src mount_label at ≡ r
      → Relabelling m src at (b, root) (relabelled x os mount_label b root r)
  unfolding relabelled
  relabel_result m src at b root (st, none) h q = inr (refl, inr (inl (h, q)))
  relabel_result m src at b root (st, some e) h q = elim (Bool-cases (os.is_not_supported e)) [
    | inl n ↦ rw n (inr (refl, inr (inr (e, h, q, n))))
    | inr n ↦ rw n (
        inl (wrap "relabel failed" e, refl, (e, h, ap (λ (p : os.State × Option Error). p.1) q, n)))
  ]

  relabelled_cases :
      (m : Mount) (src : String) (at : os.State) (b : SpecMount) (root : String) (f : Bool)
      → m.selinux_relabel ≡ f
      → Relabelling m src at
          (b, root)
          (relabelled x os mount_label b root
            (if f then os.relabel src mount_label at else (at, none)))
  unfolding relabelled
  relabelled_cases m src at b root false h = inr (refl, inl (h, refl))
  relabelled_cases m src at b root true h = relabel_result m src at b root _ h refl

  propagated_cases :
      (st : os.State) (m : Mount) (src root : String) (at : os.State)
      → Made m.host_path st at
      → os.resolve_symbolic_link m.host_path at ≡ ok src
      → Binding st m root (
          bind_propagated x os mount_label m src at
            (propagate x os mount_label m.propagation src root at))
  unfolding bind_propagated
  propagated_cases st m src root at made q =
      elim (propagate_cases x os mount_label m.propagation src root at) [
        | inl (e, f, n) ↦ rw f (inl (e, refl, unreached made q n))
        | inr (f, g) ↦
            let b =
              bound x os mount_label m src (propagation_option x os mount_label m.propagation) in
            rw f
              (elim (relabelled_cases m src at b (root_after x os mount_label m.propagation root)
                m.selinux_relabel refl) [
                  | inl (e, h, (y, s, l, n)) ↦ inl (e, h, unlabelled made q s l n)
                  | inr (h, l) ↦ inr (
                    b,
                    h,
                    record {
                      destination = refl;
                      kind = refl;
                      options = refl;
                      state = at;
                      made = made;
                      source = q;
                      reaches = g;
                      labelled = l;
                    },
                  )
                ])
      ]

  resolved_cases :
      (st : os.State) (m : Mount) (root : String) (at : os.State)
      → Made m.host_path st at
      → Binding st m root (bind_made x os mount_label m root (at, none))
  unfolding bind_made bind_resolved
  resolved_cases st m root at made = elim (Result-cases (os.resolve_symbolic_link m.host_path at)) [
    | inr (e, q) ↦ rw q (inl (wrap "failed to resolve symlink" e, refl, unresolved made q))
    | inl (src, q) ↦ rw q (propagated_cases st m src root at made q)
  ]

  made_directory :
      (st : os.State) (m : Mount) (root : String) (e : Error) (r : os.State × Option Error)
      → os.stat m.host_path st ≡ some e
      → os.is_not_exist e ≡ true
      → os.mkdir_all m.host_path st ≡ r
      → Binding st m root
          (bind_made x os mount_label m root (wrapped x os mount_label "failed to mkdir" r))
  unfolding wrapped bind_made
  made_directory st m root e (at, none) s n q = resolved_cases st m root at (inr (e, s, n, q))
  made_directory st m root e (at, some y) s n q =
      inl
        (wrap "failed to mkdir" y, refl, unmakable s (ap (λ (p : os.State × Option Error). p.1) q))

  host_there :
      (src : String) (st : os.State)
      → os.stat src st ≡ none
      → make_host_path x os mount_label src st ≡ (st, none)
  unfolding make_host_path
  host_there src st s = rw (s, make_host_path)

  host_missing :
      (src : String) (st : os.State) (e : Error)
      → os.stat src st ≡ some e
      → os.is_not_exist e ≡ true
      → make_host_path x os mount_label src st
        ≡ wrapped x os mount_label "failed to mkdir" (os.mkdir_all src st)
  unfolding make_host_path
  host_missing src st e s n = rw (s, n, make_host_path)

  host_unreadable :
      (src : String) (st : os.State) (e : Error)
      → os.stat src st ≡ some e
      → os.is_not_exist e ≡ false
      → make_host_path x os mount_label src st ≡ (st, some (wrap "failed to stat" e))
  unfolding make_host_path
  host_unreadable src st e s n = rw (s, n, make_host_path)

  failed_host :
      (st : os.State) (m : Mount) (root : String) (y : Error)
      → Obstacle st m
      → Binding st m root (bind_made x os mount_label m root (st, some y))
  unfolding bind_made
  failed_host st m root y o = inl (y, refl, o)

  pub bind_mount_cases :
      (st : os.State) (m : Mount) (root : String)
      → Binding st m root (bind_mount x os mount_label m root st)
  unfolding bind_mount
  bind_mount_cases st m root = elim (Option-cases (os.stat m.host_path st)) [
    | inl s ↦ rw (host_there m.host_path st s) (resolved_cases st m root st (inl (s, refl)))
    | inr (e, s) ↦ elim (Bool-cases (os.is_not_exist e)) [
      | inl n ↦ rw (host_missing m.host_path st e s n) (made_directory st m root e _ s n refl)
      | inr n ↦
          rw (host_unreadable m.host_path st e s n)
            (failed_host st m root (wrap "failed to stat" e) (unreadable s n))
    ]
  ]

-- ===== src/Listing/Selection.antt =====
-- Which containers and sandboxes are listed.
use mathlib.Core.List.{Memᴰ}
use cri.Base.{
  ℕ, zero, suc, String, ◌≡◌, ◌≢◌, ◌↔◌, refl, sym, ap, subst, ◌∙◌, Bool, true, false, Option, none,
  some, List, [], ◌∷◌, map, arith, eq_iff, if◌then◌else◌, not, str_eq, inl, inr, Bool-cases,
}
use cri.Base.Members.{mem-keep}
use cri.Base.GoMap.{Map, lookup, Distinct, str_eq_refl}
use cri.Base.Errors.{Result}
use cri.Container.Status.{
  ContainerState, container_created, container_running, container_exited, container_unknown,
}
use cri.IdStore.{Stored, Store, get, list}
use cri.IdStore.Agreement.{Agree}
use cri.IdStore.Index.{TruncIndex, found}
use cri.IdStore.Views.{get_resolved}
use cri.Listing.{
  Stores, Container, ContainerFilter, PodSandbox, PodSandboxFilter, accepts_container,
  accepts_sandbox, match_label_selector, selected, state_number, id_differs, state_differs,
  has_value, same_bool, readiness_differs, normalize_container_filter, normalize_pod_sandbox_filter,
  list_containers, list_pod_sandbox, filter_cri_containers, filter_cri_sandboxes, to_cri_container,
  to_cri_sandbox, whole_id, asked_sandbox, whole_container_id, whole_sandbox_id, container_fields,
  sandbox_fields,
}

-- Each label of the selector has the value that the selector asks for.
abbrev pub HasLabels : Map String → Map String → Type 0
HasLabels selector labels = (k v : String) → lookup k selector ≡ some v → lookup k labels ≡ some v

has_value-eq : (v : String) (o : Option String) → has_value v o ≡ true → o ≡ some v
has_value-eq v none h = absurd cc
has_value-eq v (some got) h = ground (arith, eq_iff v got, eq_iff got v)

has_value-some : (v : String) (o : Option String) → o ≡ some v → has_value v o ≡ true
has_value-some v none h = absurd cc
has_value-some v (some got) h = ground (arith, eq_iff v got)

match-HasLabels :
    (selector labels : Map String)
    → match_label_selector selector labels ≡ true
    → HasLabels selector labels
unfolding match_label_selector lookup
match-HasLabels [] labels h k v e = absurd cc
match-HasLabels ((k', v') ∷ selector) labels h k v e =
    grind (arith, eq_iff k' k, has_value-eq v' (lookup k' labels), match-HasLabels selector labels)

HasLabels-match :
    (selector labels : Map String)
    → Distinct selector
    → HasLabels selector labels
    → match_label_selector selector labels ≡ true
unfolding match_label_selector lookup
HasLabels-match [] labels d h = refl
HasLabels-match ((k', v') ∷ selector) labels d h =
    let here : lookup k' labels ≡ some v' = h k' v' (rw (str_eq_refl k') refl) in
    let there : HasLabels selector labels = λ k v e. h k v (grind (arith, eq_iff k' k, d.0)) in
    rw (has_value-some v' _ here, HasLabels-match selector labels d.1 there) refl

id_agrees : (want id : String) → (id_differs want id ≡ false) ↔ (want ≢ "" → want ≡ id)
id_agrees want id =
    (ground (arith, eq_iff want "", eq_iff want id), ground (arith, eq_iff want "", eq_iff want id))

number_state : ℕ → ContainerState
number_state zero = container_created
number_state (suc zero) = container_running
number_state (suc (suc zero)) = container_exited
number_state (suc (suc (suc n))) = container_unknown

number_state_lem : (a : ContainerState) → number_state (state_number a) ≡ a
unfolding number_state
number_state_lem container_created = refl
number_state_lem container_running = refl
number_state_lem container_exited = refl
number_state_lem container_unknown = refl

state_number-injective : (a b : ContainerState) → state_number a ≡ state_number b → a ≡ b
state_number-injective a b h = sym (number_state_lem a) ∙ ap number_state h ∙ number_state_lem b

state_agrees :
    (want : Option ContainerState) (s : ContainerState)
    → (state_differs want s ≡ false) ↔ ((x : ContainerState) → want ≡ some x → x ≡ s)
state_agrees none s = ((λ h x e. absurd cc), λ h. refl)
state_agrees (some want) s = (
  (λ h x e. let same : want ≡ s = state_number-injective want s (ground arith) in cc),
  λ h.
      let same : state_number want ≡ state_number s = ap state_number (h want refl) in ground arith,
)

-- Each key of a selector stands once.
abbrev pub IsSelector : Option (Map String) → Type 0
IsSelector none = Unit
IsSelector (some selector) = Distinct selector

selected-HasLabels :
    (o : Option (Map String)) (labels : Map String)
    → IsSelector o
    → (selected o labels ≡ true) ↔ ((m : Map String) → o ≡ some m → HasLabels m labels)
unfolding selected
selected-HasLabels none labels d = ((λ h m e. absurd cc), λ h. refl)
selected-HasLabels (some selector) labels d = (
  (λ h m e.
      subst (λ x. HasLabels x labels)
        (ap (λ (o : Option (Map String)). elim o [ none ↦ selector | some x ↦ x ]) e)
        (match-HasLabels selector labels h)),
  λ h. HasLabels-match selector labels d (h selector refl),
)

-- What a filter asks of a container: the id and the sandbox where they are not empty, the state where
-- there is one, and each label of the selector.
pub record Matches (f : ContainerFilter) (c : Container) : Type 0 where
  pub id : f.id ≢ "" → f.id ≡ c.id
  pub sandbox : f.pod_sandbox_id ≢ "" → f.pod_sandbox_id ≡ c.pod_sandbox_id
  pub state : (x : ContainerState) → f.state ≡ some x → x ≡ c.state
  pub labels : (m : Map String) → f.label_selector ≡ some m → HasLabels m c.labels

all_pass :
    (a b c d : Bool)
    → ((if a then false else if b then false else if c then false else d) ≡ true)
      ↔ ((a ≡ false) × (b ≡ false) × (c ≡ false) × (d ≡ true))
all_pass a b c d = (ground arith, ground arith)

accepts_container-Matches :
    (f : ContainerFilter) (c : Container)
    → IsSelector f.label_selector
    → (accepts_container f c ≡ true) ↔ Matches f c
unfolding accepts_container
accepts_container-Matches f c d =
    let ids = id_agrees f.id c.id in
    let pods = id_agrees f.pod_sandbox_id c.pod_sandbox_id in
    let states = state_agrees f.state c.state in
    let labels = selected-HasLabels f.label_selector c.labels d in
    let pass =
      all_pass (id_differs f.id c.id) (id_differs f.pod_sandbox_id c.pod_sandbox_id)
        (state_differs f.state c.state) (selected f.label_selector c.labels) in
    (
      (λ h.
          let (a, b, x, y) = pass.0 h in
          record { id = ids.0 a; sandbox = pods.0 b; state = states.0 x; labels = labels.0 y }),
      λ m. pass.1 (ids.1 m.id, pods.1 m.sandbox, states.1 m.state, labels.1 m.labels),
    )

module _ (t : TruncIndex) (level_of : String → Result String) where
  -- The containers of the store, as they are listed.
  abbrev pub stored : Stores t level_of → List Container
  stored s = map to_cri_container (list t level_of container_fields s.containers)

  -- An id that is asked for, which an index may find by a prefix: it is that of the id found, and
  -- where the index finds none it is itself. The empty id asks for nothing.
  pub record Means (i : t.Index) (asked id : String) : Type 0 where
    pub short : (k : String) → k ≢ "" → t.get i asked ≡ found k → k ≡ id
    pub whole : asked ≢ "" → ((k : String) → t.get i asked ≢ found k) → asked ≡ id

  -- What a filter asks of a container: the id and the sandbox, which may be short, where they are not
  -- empty, the state where there is one, and each label of the selector.
  pub record AskedBy (s : Stores t level_of) (f : ContainerFilter) (c : Container) : Type 0 where
    pub id : Means s.containers.index f.id c.id
    pub sandbox : f.pod_sandbox_id ≢ "" → Means s.sandboxes.index f.pod_sandbox_id c.pod_sandbox_id
    pub state : (x : ContainerState) → f.state ≡ some x → x ≡ c.state
    pub labels : (m : Map String) → f.label_selector ≡ some m → HasLabels m c.labels

  -- A filter that may be absent.
  abbrev pub Asked : Stores t level_of → Option ContainerFilter → Container → Type 0
  Asked s none c = Unit
  Asked s (some f) c = AskedBy s f c

  whole-Means :
      {A : Type 0} (e : Stored A) (s : Store t level_of e) (asked id : String)
      → Agree t level_of e s
      → let w = whole_id e.id asked (get t level_of e asked s) in
        (w ≢ "" → w ≡ id) ↔ Means s.index asked id
  whole-Means e s asked id v = elim (get_resolved t level_of e s asked v) [
    | inl (a, q, l, f) ↦ rw q (
      (λ h. record {
        short = λ k n g. let same : e.id a ≡ k = cc in rw⁻¹ same (h (rw same n));
        whole = λ n g. absurd (g (e.id a) f);
      }),
      λ m n. m.short (e.id a) n f,
    )
    | inr (inl (q, l, f)) ↦ rw q (
      (λ h. record { short = λ k n g. absurd cc; whole = λ n g. h n }),
      λ m n. m.whole n (λ k g. cc),
    )
    | inr (inr (y, f, q)) ↦ rw q (
      (λ h. record { short = λ k n g. absurd cc; whole = λ n g. h n }),
      λ m n. m.whole n (λ k g. cc),
    )
  ]

  asked_sandbox-Means :
      (s : Stores t level_of) (asked id : String)
      → Agree t level_of sandbox_fields s.sandboxes
      → let w = asked_sandbox t level_of s asked in
        (w ≢ "" → w ≡ id) ↔ (asked ≢ "" → Means s.sandboxes.index asked id)
  unfolding asked_sandbox whole_sandbox_id
  asked_sandbox-Means s asked id v = elim (Bool-cases (str_eq asked "")) [
    | inl q ↦ rw q ((λ h n. absurd (n ((eq_iff asked "").0 q))), λ h n. absurd (n refl))
    | inr q ↦
        let some_asked : asked ≢ "" = ground (arith, q, eq_iff asked "") in
        let (to, from) = whole-Means sandbox_fields s.sandboxes asked id v in
        rw q ((λ h n. to h), λ h. from (h some_asked))
  ]

  abbrev pub HasSelector : Option ContainerFilter → Type 0
  HasSelector none = Unit
  HasSelector (some f) = IsSelector f.label_selector

  -- From stores whose maps and indexes agree, and with a selector that has each key once,
  -- `ListContainers` returns the containers that match the filter and no others: those with the id,
  -- the sandbox, the state and each of the labels that it names, where an id for which the index finds
  -- a whole one stands for that one; all containers where there is no filter.
  pub list_containers_lem :
      (s : Stores t level_of) (o : Option ContainerFilter) (c : Container)
      → Agree t level_of container_fields s.containers
      → Agree t level_of sandbox_fields s.sandboxes
      → HasSelector o
      → Memᴰ c (list_containers t level_of s o) ↔ (Memᴰ c (stored s) × Asked s o c)
  unfolding list_containers filter_cri_containers normalize_container_filter whole_container_id
  list_containers_lem s none c u v d = ((λ m. (m, tt)), λ h. h.0)
  list_containers_lem s (some f) c u v d =
      let n : ContainerFilter = record (normalize_container_filter t level_of s f) {
        pod_sandbox_id = asked_sandbox t level_of s f.pod_sandbox_id;
      } in
      let kept = mem-keep (accepts_container n) c (stored s) in
      let same = accepts_container-Matches n c d in
      let ids = whole-Means container_fields s.containers f.id c.id u in
      let pods = asked_sandbox-Means s f.pod_sandbox_id c.pod_sandbox_id v in
      (
        (λ m.
            let (k, h) = kept.0 m in
            let a = same.0 h in
            (
              k,
              record {
                id = ids.0 a.id;
                sandbox = pods.0 a.sandbox;
                state = a.state;
                labels = a.labels;
              },
            )),
        λ (k, a). kept.1 (
          k,
          same.1 (record {
            id = ids.1 a.id;
            sandbox = pods.1 a.sandbox;
            state = a.state;
            labels = a.labels;
          }),
        ),
      )

-- What a filter asks of a sandbox.
pub record MatchesSandbox (f : PodSandboxFilter) (s : PodSandbox) : Type 0 where
  pub id : f.id ≢ "" → f.id ≡ s.id
  pub ready : (x : Bool) → f.ready ≡ some x → x ≡ s.ready
  pub labels : (m : Map String) → f.label_selector ≡ some m → HasLabels m s.labels

same_bool-eq : (a b : Bool) → (not (same_bool a b) ≡ false) ↔ (a ≡ b)
same_bool-eq a b = (ground arith, ground arith)

readiness_agrees :
    (want : Option Bool) (s : Bool)
    → (readiness_differs want s ≡ false) ↔ ((x : Bool) → want ≡ some x → x ≡ s)
readiness_agrees none s = ((λ h x e. absurd cc), λ h. refl)
readiness_agrees (some want) s = (
  (λ h x e. let same : want ≡ s = (same_bool-eq want s).0 h in cc),
  λ h. (same_bool-eq want s).1 (h want refl),
)

accepts_sandbox-Matches :
    (f : PodSandboxFilter) (s : PodSandbox)
    → IsSelector f.label_selector
    → (accepts_sandbox f s ≡ true) ↔ MatchesSandbox f s
unfolding accepts_sandbox
accepts_sandbox-Matches f s d =
    let ids = id_agrees f.id s.id in
    let states = readiness_agrees f.ready s.ready in
    let labels = selected-HasLabels f.label_selector s.labels d in
    let pass =
      all_pass (id_differs f.id s.id) false (readiness_differs f.ready s.ready)
        (selected f.label_selector s.labels) in
    (
      (λ h.
          let (a, b, x, y) = pass.0 h in
          record { id = ids.0 a; ready = states.0 x; labels = labels.0 y }),
      λ m. pass.1 (ids.1 m.id, refl, states.1 m.ready, labels.1 m.labels),
    )

-- `ListPodSandbox` with a filter returns the sandboxes of the store that match it, and no others.
pub list_pod_sandbox_lem :
    (t : TruncIndex) (level_of : String → Result String) (s : Stores t level_of)
    (f : PodSandboxFilter) (a : PodSandbox)
    → IsSelector f.label_selector
    → Memᴰ a (list_pod_sandbox t level_of s (some f)) ↔ (
        Memᴰ a (map to_cri_sandbox (list t level_of sandbox_fields s.sandboxes))
        × MatchesSandbox (normalize_pod_sandbox_filter t level_of s f) a)
unfolding list_pod_sandbox filter_cri_sandboxes normalize_pod_sandbox_filter
list_pod_sandbox_lem t level_of s f a d =
    let n = normalize_pod_sandbox_filter t level_of s f in
    let kept = mem-keep (accepts_sandbox n) a _ in
    let same = accepts_sandbox-Matches n a d in
    ((λ m. let (k, h) = kept.0 m in (k, same.0 h)), λ h. kept.1 (h.0, same.1 h.1))

-- ===== src/Container/Create/Rollback.antt =====
-- What `CreateContainer` leaves: where it fails, what it took is released in the opposite order, and where it succeeds all that it took, with the container in the store.
use mathlib.Core.List.Memᴰ
use mathlib.Core.List.{Memᴰ, map-append}
use cri.Base.Members.{mem-map, mem-reverse}
use cri.Base.{
  ℕ, String, ◌≡◌, refl, sym, ◌∙◌, ap, subst, ◌⊎◌, inl, inr, true, false, Bool, Option, none, some,
  List, [], ◌∷◌, ◌++◌, map, if◌then◌else◌, str_eq,
}
use cri.Base.GoMap.{lookup}
use cri.Base.Errors.{Result, ok, err}
use cri.Container.Create.{
  Container, CreateWorld, Request, Prepared, released_as, container_fields, Step, look_up,
  make_directories, make_spec, make_container, prepare, make_object, created_container, named, body,
  create_container, created_status,
}
use cri.Creation.{
  Resource, reserved_name, process_label, namespace, pod_network, containerd_container,
  root_directory, volatile_directory, sandbox_files, task, container_io, checkpoint, Service,
  give_back,
}
use cri.Creation.Rollback.{
  IsOther, Outcome, Undone, start-Undone, finish-Undone, under_name-Outcome,
}
use cri.Defers.{
  Event, stored, acquired, released, Frame, finish, continue, return, ◌>>=◌, ◌>>◌, attempt,
}
use cri.Defers.Balance.{keeps, Keeps}
use cri.IdStore.{Store, get}
use cri.IdStore.Index.{TruncIndex}
use cri.Names.{ContainerMetadata, make_container_name}
use cri.Registrar.{reserve}
use cri.Registrar.Bijection.{IsBijection}
use cri.Sandbox.Run.{Sandbox, sandbox_fields}
use cri.Sandbox.Runtime.{RuntimesConfig}

released_as-IsOther : (p : Bool) (r : Resource) → IsOther r → IsOther (released_as p r)
released_as-IsOther p (reserved_name name) h = h
released_as-IsOther p (process_label label) h = tt
released_as-IsOther p namespace h = tt
released_as-IsOther p pod_network h = tt
released_as-IsOther p containerd_container h = tt
released_as-IsOther p root_directory h = tt
released_as-IsOther p volatile_directory h = tt
released_as-IsOther p sandbox_files h = tt
released_as-IsOther p task h = tt
released_as-IsOther p container_io h = tt
released_as-IsOther p checkpoint h = tt

released_same :
    (p : Bool) (a : Resource)
    → (released_as p a ≡ a) ⊎ ((l : String) × (a ≡ process_label l) × (p ≡ true))
released_same p (reserved_name name) = inl refl
released_same true (process_label label) = inr (label, refl, refl)
released_same false (process_label label) = inl refl
released_same p namespace = inl refl
released_same p pod_network = inl refl
released_same p containerd_container = inl refl
released_same p root_directory = inl refl
released_same p volatile_directory = inl refl
released_same p sandbox_files = inl refl
released_same p task = inl refl
released_same p container_io = inl refl
released_same p checkpoint = inl refl

module _ (t : TruncIndex) (level_of : String → Result String) (show : ℕ → String)
    (join_path : String → String → String) {T : Type 0} (config : RuntimesConfig T)
    (sandboxes : Store t level_of sandbox_fields) (w : CreateWorld) (r : Request) where
  abbrev Takes : {A : Type 0} → Step t level_of A → Type 0
  Takes = Keeps IsOther (released_as r.privileged)

  look_up-Takes : Takes (look_up t level_of show join_path config sandboxes w)
  unfolding look_up
  look_up-Takes = search keeps

  make_directories-Takes : Takes (make_directories t level_of show join_path config sandboxes w)
  unfolding make_directories
  make_directories-Takes = search keeps

  make_spec-Takes :
      (a : Sandbox) → Takes (make_spec t level_of show join_path config sandboxes w a r)
  unfolding make_spec
  make_spec-Takes a = search keeps depth 12

  make_container-Takes : Takes (make_container t level_of show join_path config sandboxes w)
  unfolding make_container
  make_container-Takes = search keeps depth 12

  prepare-Takes : (a : Sandbox) → Takes (prepare t level_of show join_path config sandboxes w a r)
  unfolding prepare
  prepare-Takes a =
      search (keeps, look_up-Takes, make_directories-Takes, make_spec-Takes, make_container-Takes)
        depth 12

  make_object-Takes :
      (id name : String) (a : Sandbox)
      → Takes (make_object t level_of show join_path config sandboxes w id name a r)
  unfolding make_object
  make_object-Takes id name a = search (keeps, prepare-Takes)

  module _ (id : String) (s : Service t level_of container_fields) where
    -- The container is created: it is in the store under its id with its name reserved, and nothing
    -- that was taken was released.
    pub record Created (a : Sandbox) (m : ContainerMetadata)
        (y : Service t level_of container_fields × List (Event Resource)) : Type 0 where
      pub taken : List Resource
      pub journal : y.1 ≡ stored ∷ map acquired taken
      pub reserved : (reserve (make_container_name show m r.pod_metadata) id s.names).1 ≡ none
      pub names : y.0.names ≡ (reserve (make_container_name show m r.pod_metadata) id s.names).0
      pub container : Container
      pub container_id : container.id ≡ id
      pub container_name : container.name ≡ make_container_name show m r.pod_metadata
      pub in_sandbox : container.sandbox_id ≡ a.id
      pub status : container.status ≡ created_status w.now
      pub fresh : lookup id s.items.items ≡ none
      pub items :
          (k : String)
          → lookup k y.0.items.items
            ≡ (if str_eq id k then some container else lookup k s.items.items)

    returned :
        (a : Sandbox) (name path : String)
        (p : Result Prepared × Frame (Service t level_of container_fields) Resource) (c : Container)
        → (continue
            (λ prepared. return (
              created_container t level_of show join_path config sandboxes w id name a.id path
                prepared))
            p).0
          ≡ ok c
        → (c.id ≡ id) × (c.name ≡ name) × (c.sandbox_id ≡ a.id) × (c.status ≡ created_status w.now)
    unfolding created_container return
    returned a name path (err x, f) c h = absurd cc
    returned a name path (ok prepared, f) c h = (
      cc,
      cc,
      cc,
      ap (λ (x : Result Container). elim x [ ok d ↦ d.status | err e ↦ c.status ]) (sym h),
    )

    -- The handler failed: each resource that it took was released, but for the process label of a
    -- privileged container.
    pub record Failed (y : Service t level_of container_fields × List (Event Resource))
        : Type 0 where
      pub undone : Undone t level_of container_fields (released_as r.privileged) s y
      pub given_back :
          (a : Resource)
          → Memᴰ a undone.taken
          → Memᴰ (released a) y.1 ⊎ ((l : String) × (a ≡ process_label l) × (r.privileged ≡ true))

    failed :
        (y : Service t level_of container_fields × List (Event Resource))
        → Undone t level_of container_fields (released_as r.privileged) s y
        → Failed y
    failed y u = record {
      undone = u;
      given_back = λ a m. elim (released_same r.privileged a) [
        | inr leak ↦ inr leak
        | inl same ↦ inl (
            rw u.journal (
              Memᴰ.append_left (map acquired u.taken) (
                mem-map released a _ (
                  mem-reverse a _ (
                    subst (λ b. Memᴰ b (map (released_as r.privileged) u.taken)) same
                      (mem-map (released_as r.privileged) a u.taken m))))))
      ];
    }

    -- What the handler returns and leaves.
    abbrev pub CreateOutcome :
        Result String × (Service t level_of container_fields × List (Event Resource)) → Type 0
    CreateOutcome (err x, y) = Failed y
    CreateOutcome (ok i, y) =
        (i ≡ id)
        × (a : Sandbox) × (get t level_of sandbox_fields r.pod_sandbox_id sandboxes ≡ ok a)
        × (m : ContainerMetadata) × (r.metadata ≡ some m)
        × Created a m y

    finish_create :
        (a : Sandbox) (m : ContainerMetadata)
        (p : Result (Unit {0}) × Frame (Service t level_of container_fields) Resource)
        → get t level_of sandbox_fields r.pod_sandbox_id sandboxes ≡ ok a
        → r.metadata ≡ some m
        → IsBijection s.names
        → lookup id s.names.key_to_name ≡ none
        → Outcome t level_of container_fields
            (released_as r.privileged)
            (released_as-IsOther r.privileged)
            (make_container_name show m r.pod_metadata)
            id
            (make_object t level_of show join_path config sandboxes w id
              (make_container_name show m r.pod_metadata)
              a
              r)
            s
            p
        → CreateOutcome
            (finish (give_back t level_of container_fields) (continue (λ _. return id) p))
    unfolding Outcome finish make_object ◌>>◌ ◌>>=◌ return
    finish_create a m (err x, f) g e b fresh h = failed _ (
        finish-Undone t level_of container_fields (released_as r.privileged)
          (released_as-IsOther r.privileged) (make_container_name show m r.pod_metadata) id
          (make_object t level_of show join_path config sandboxes w id
            (make_container_name show m r.pod_metadata) a r)
          s String x f b fresh refl h)
    finish_create a m (ok u, f) g e b fresh h =
        let (same_id, same_name, same_sandbox, status) =
          returned a _ _ (prepare t level_of show join_path config sandboxes w a r h.added.before)
            h.added.item h.added.made in
        (
          refl,
          a,
          g,
          m,
          e,
          record {
            taken = h.taken ++ (reserved_name (make_container_name show m r.pod_metadata) ∷ []);
            journal =
                h.journal
                ∙ rw (
                    map-append acquired h.taken
                      (reserved_name (make_container_name show m r.pod_metadata) ∷ []));
            reserved = h.reserved;
            names = h.names;
            container = h.added.item;
            container_id = same_id;
            container_name = same_name;
            in_sandbox = same_sandbox;
            status = status;
            fresh = rw⁻¹ same_id h.added.fresh;
            items = λ k. rw⁻¹ same_id (h.added.items k);
          },
        )

    named_outcome :
        (a : Sandbox) (o : Option ContainerMetadata)
        → get t level_of sandbox_fields r.pod_sandbox_id sandboxes ≡ ok a
        → r.metadata ≡ o
        → IsBijection s.names
        → lookup id s.names.key_to_name ≡ none
        → CreateOutcome (
            finish (give_back t level_of container_fields) (
              named t level_of show join_path config sandboxes w id a r o
                (record { service = s; journal = []; deferred = [] })))
    unfolding named finish ◌>>=◌ ◌>>◌
    named_outcome a none g e b fresh =
        failed _ (start-Undone t level_of container_fields (released_as r.privileged) s)
    named_outcome a (some m) g e b fresh = finish_create a m _ g e b fresh (
        under_name-Outcome t level_of container_fields (released_as r.privileged)
          (released_as-IsOther r.privileged) (make_container_name show m r.pod_metadata) id
          (make_object t level_of show join_path config sandboxes w id
            (make_container_name show m r.pod_metadata) a r)
          s (make_object-Takes id (make_container_name show m r.pod_metadata) a) b)

    found_outcome :
        (q : Result Sandbox) (loaded : Result (Unit {0}))
        → get t level_of sandbox_fields r.pod_sandbox_id sandboxes ≡ q
        → IsBijection s.names
        → lookup id s.names.key_to_name ≡ none
        → CreateOutcome (
            finish (give_back t level_of container_fields) (
              continue
                (λ a.
                  attempt "failed to get sandbox container task" loaded
                  >> named t level_of show join_path config sandboxes w id a r r.metadata)
                (attempt "failed to find sandbox id" q
                  (record { service = s; journal = []; deferred = [] }))))
    unfolding finish attempt ◌>>=◌ ◌>>◌
    found_outcome (err x) loaded q b fresh =
        failed _ (start-Undone t level_of container_fields (released_as r.privileged) s)
    found_outcome (ok a) (err x) q b fresh =
        failed _ (start-Undone t level_of container_fields (released_as r.privileged) s)
    found_outcome (ok a) (ok u) q b fresh = named_outcome a r.metadata q refl b fresh

    -- On a service whose names and ids are inverse and in which the new id has no name, the handler
    -- either fails or returns the id of a container that is in the store. Where it fails, all that it
    -- took was released, newest first, but the process label of a privileged container, for which the
    -- empty label is released; every name and id is held as before, and the store has the items and the
    -- index that it had. The labels of the store are as before too, unless the index refused the id of
    -- the element that `Add` was given: then the label that it reserved for the element stays reserved.
    pub create_container_outcome :
        IsBijection s.names
        → lookup id s.names.key_to_name ≡ none
        → CreateOutcome (create_container t level_of show join_path config sandboxes w id r s)
    unfolding create_container body ◌>>=◌
    create_container_outcome b fresh = found_outcome _ w.sandbox_task refl b fresh

-- ===== src/Sandbox/Run/Rollback.antt =====
-- What `RunPodSandbox` leaves: where it fails, what it took is released in the opposite order, and where it succeeds all that it took, with the sandbox in the store.
use cri.Base.{
  ℕ, String, ◌≡◌, refl, ◌∙◌, ap, Option, none, some, List, [], ◌∷◌, ◌++◌, map, if◌then◌else◌,
  str_eq,
}
use mathlib.Core.List.{map-append}
use cri.Base.GoMap.{Map, lookup}
use cri.Base.Errors.{Result, ok, err}
use cri.Defers.{
  Event, stored, monitored, acquired, Frame, finish, continue, return, record_event, ◌>>=◌, ◌>>◌,
}
use cri.Defers.Balance.{keeps, Keeps}
use cri.Creation.{Resource, reserved_name, Service, give_back}
use cri.Creation.Rollback.{
  IsOther, Outcome, Undone, start-Undone, finish-Undone, under_name-Outcome,
}
use cri.Registrar.Bijection.{IsBijection}
use cri.IdStore.Index.{TruncIndex}
use cri.Names.{PodMetadata, make_sandbox_name}
use cri.Registrar.{reserve}
use cri.Sandbox.{ready}
use cri.Sandbox.Network.{Plugin}
use cri.Sandbox.Runtime.{RuntimesConfig}
use cri.Sandbox.Run.{
  Sandbox, RunWorld, Request, Prepared, sandbox_fields, Step, make_sandbox, ready_sandbox, look_up,
  make_container, make_files, make_task, make_network, prepare, create, body, run_pod_sandbox,
}

abbrev keep_form : Resource → Resource
keep_form r = r

module _ (t : TruncIndex) (level_of : String → Result String) (show : ℕ → String) {P : Type 0}
    (protocol_name : P → String) (extract : Map String → Result (Option ℕ × Option ℕ)) {T : Type 0}
    (config : RuntimesConfig T) (plugin : Option (Plugin protocol_name extract)) where
  abbrev Takes : {A : Type 0} → Step t level_of A → Type 0
  Takes = Keeps IsOther keep_form

  make_network-Takes :
      (w : RunWorld) (id : String) (m : PodMetadata) (r : Request P)
      → Takes (make_network t level_of show protocol_name extract config plugin w id m r)
  unfolding make_network
  make_network-Takes w id m r = search keeps

  look_up-Takes :
      (w : RunWorld) (r : Request P)
      → Takes (look_up t level_of show protocol_name extract config plugin w r)
  unfolding look_up
  look_up-Takes w r = search keeps

  make_container-Takes :
      (w : RunWorld) → Takes (make_container t level_of show protocol_name extract config plugin w)
  unfolding make_container
  make_container-Takes w = search keeps depth 12

  make_files-Takes :
      (w : RunWorld) → Takes (make_files t level_of show protocol_name extract config plugin w)
  unfolding make_files
  make_files-Takes w = search keeps

  make_task-Takes :
      (w : RunWorld) → Takes (make_task t level_of show protocol_name extract config plugin w)
  unfolding make_task
  make_task-Takes w = search keeps depth 12

  prepare-Takes :
      (w : RunWorld) (id : String) (m : PodMetadata) (r : Request P)
      → Takes (prepare t level_of show protocol_name extract config plugin w id m r)
  unfolding prepare
  prepare-Takes w id m r =
      search
        (
          keeps, look_up-Takes, make_network-Takes, make_container-Takes, make_files-Takes,
          make_task-Takes,
        )
        depth 12

  make_sandbox-Takes :
      (w : RunWorld) (id : String) (m : PodMetadata) (r : Request P)
      → Takes (make_sandbox t level_of show protocol_name extract config plugin w id m r)
  unfolding make_sandbox
  make_sandbox-Takes w id m r = search (keeps, prepare-Takes)

  module _ (w : RunWorld) (id : String) (r : Request P)
      (s : Service t level_of sandbox_fields) where
    -- The sandbox runs: it is in the store under its id, ready, with its name reserved; nothing that
    -- was taken was released, and the exit monitor started after the addition to the store.
    pub record Running (m : PodMetadata)
        (y : Service t level_of sandbox_fields × List (Event Resource)) : Type 0 where
      pub taken : List Resource
      pub journal : y.1 ≡ monitored ∷ stored ∷ map acquired taken
      pub reserved : (reserve (make_sandbox_name show m) id s.names).1 ≡ none
      pub names : y.0.names ≡ (reserve (make_sandbox_name show m) id s.names).0
      pub sandbox : Sandbox
      pub sandbox_id : sandbox.id ≡ id
      pub sandbox_name : sandbox.name ≡ make_sandbox_name show m
      pub is_ready : sandbox.status.state ≡ ready
      pub fresh : lookup id s.items.items ≡ none
      pub items :
          (k : String)
          → lookup k y.0.items.items
            ≡ (if str_eq id k then some sandbox else lookup k s.items.items)

    returned :
        (m : PodMetadata) (p : Result Prepared × Frame (Service t level_of sandbox_fields) Resource)
        (a : Sandbox)
        → (continue
            (λ prepared. return (
              ready_sandbox t level_of show protocol_name extract config plugin id
                (make_sandbox_name show m)
                r.pod.runtime_handler
                prepared))
            p).0
          ≡ ok a
        → (a.id ≡ id) × (a.name ≡ make_sandbox_name show m) × (a.status.state ≡ ready)
    unfolding ready_sandbox return
    returned m (err x, f) a h = absurd cc
    returned m (ok prepared, f) a h = (cc, cc, cc)

    -- What the handler returns and leaves.
    abbrev pub RunOutcome :
        Result String × (Service t level_of sandbox_fields × List (Event Resource)) → Type 0
    RunOutcome (err x, y) = Undone t level_of sandbox_fields keep_form s y
    RunOutcome (ok i, y) = (i ≡ id) × (m : PodMetadata) × (r.metadata ≡ some m) × Running m y

    finish_run :
        (m : PodMetadata)
        (p : Result (Unit {0}) × Frame (Service t level_of sandbox_fields) Resource)
        → r.metadata ≡ some m
        → IsBijection s.names
        → lookup id s.names.key_to_name ≡ none
        → Outcome t level_of sandbox_fields keep_form
            (λ x h. h)
            (make_sandbox_name show m)
            id
            (make_sandbox t level_of show protocol_name extract config plugin w id m r)
            s
            p
        → RunOutcome (
            finish
              (give_back t level_of sandbox_fields)
              (continue (λ _. record_event monitored >> return id) p))
    unfolding Outcome finish make_sandbox ◌>>◌ ◌>>=◌ record_event return
    finish_run m (err x, f) e b fresh h =
        finish-Undone t level_of sandbox_fields keep_form (λ x h. h) (make_sandbox_name show m) id
          (make_sandbox t level_of show protocol_name extract config plugin w id m r) s String x f b
          fresh refl h
    finish_run m (ok u, f) e b fresh h =
        let (same_id, same_name, state) =
          returned m
            (prepare t level_of show protocol_name extract config plugin w id m r h.added.before)
            h.added.item h.added.made in
        (
          refl,
          m,
          e,
          record {
            taken = h.taken ++ (reserved_name (make_sandbox_name show m) ∷ []);
            journal =
                ap (λ j. monitored ∷ j) h.journal
                ∙ rw (map-append acquired h.taken (reserved_name (make_sandbox_name show m) ∷ []));
            reserved = h.reserved;
            names = h.names;
            sandbox = h.added.item;
            sandbox_id = same_id;
            sandbox_name = same_name;
            is_ready = state;
            fresh = rw⁻¹ same_id h.added.fresh;
            items = λ k. rw⁻¹ same_id (h.added.items k);
          },
        )

    run_body :
        (o : Option PodMetadata)
        → r.metadata ≡ o
        → IsBijection s.names
        → lookup id s.names.key_to_name ≡ none
        → RunOutcome (
            finish (give_back t level_of sandbox_fields) (
              body t level_of show protocol_name extract config plugin w id o r
                (record { service = s; journal = []; deferred = [] })))
    unfolding body create finish ◌>>=◌ ◌>>◌
    run_body none e b fresh = start-Undone t level_of sandbox_fields keep_form s
    run_body (some m) e b fresh = finish_run m _ e b fresh (
        under_name-Outcome t level_of sandbox_fields keep_form (λ x h. h) (make_sandbox_name show m)
          id (make_sandbox t level_of show protocol_name extract config plugin w id m r) s
          (make_sandbox-Takes w id m r) b)

    -- On a service whose names and ids are inverse and in which the new id has no name, the handler
    -- either fails or returns the id of a sandbox that runs. Where it fails, what it took was released,
    -- newest first, every name and id is held as before, and the store has the items and the index
    -- that it had. Its labels are as before too, unless the index refused the id of the element that
    -- `Add` was given: then the label that it reserved for the element stays reserved.
    pub run_pod_sandbox_outcome :
        IsBijection s.names
        → lookup id s.names.key_to_name ≡ none
        → RunOutcome (run_pod_sandbox t level_of show protocol_name extract config plugin w id r s)
    unfolding run_pod_sandbox
    run_pod_sandbox_outcome b fresh = run_body r.metadata refl b fresh

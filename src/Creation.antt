-- ===== src/Creation.antt =====
-- What `RunPodSandbox` and `CreateContainer` of pkg/server share: the resources that they take, the
-- part of the service that they change, and their frame: the name is reserved first, and the object
-- is added to its store last.
pub mod Rollback
use cri.Base.{String, Option, none, some, List, [], ◌∷◌}
use cri.Base.Errors.{Error, Result, ok, err, wrap}
use cri.Defers.{Event, stored, Body, ◌>>=◌, ◌>>◌, record_event, hold_as, take_as}
use cri.IdStore.{Stored, Store, add}
use cri.IdStore.Index.{TruncIndex}
use cri.Registrar.{Registrar, reserve, release_by_name}

-- What the handlers take. The pod network counts from the call of the plugin's set-up on: a set-up
-- that failed is torn down too.
pub data Resource : Type 0 where
  reserved_name process_label : String → Resource
  namespace pod_network containerd_container root_directory volatile_directory : Resource
  sandbox_files task container_io checkpoint : Resource

module _ (t : TruncIndex) (level_of : String → Result String) {A : Type 0} (e : Stored A) where
  pub record Service : Type 0 where
    pub names : Registrar
    pub items : Store t level_of e

  -- What the deferred functions change in the service.
  unfoldable pub give_back : Resource → Service → Service
  give_back (reserved_name name) s = record s { names = release_by_name name s.names }
  give_back _ s = s

  abbrev pub Step : Type 0 → Type 0
  Step = Body Service Resource

  after_reserve : Registrar × Option Error → Step (Unit {0})
  after_reserve (names, some x) s = (
    err (wrap "failed to reserve name" x),
    record s { service = record s.service { names = names } },
  )
  after_reserve (names, none) s = (ok tt, record s { service = record s.service { names = names } })

  -- `Reserve(name, id)` of the registrar.
  unfoldable pub reserve_name : String → String → Step (Unit {0})
  unfolding after_reserve
  reserve_name name id s = after_reserve (reserve name id s.service.names) s

  after_add : Store t level_of e × Option Error → Step (Unit {0})
  after_add (items, some x) s = (
    err (wrap "failed to add into store" x),
    record s { service = record s.service { items = items } },
  )
  after_add (items, none) s = (ok tt, record s { service = record s.service { items = items } })

  -- `Add` of the store.
  unfoldable pub add_item : A → Step (Unit {0})
  unfolding after_add
  add_item a s = after_add (add t level_of e a s.service.items) s

  -- The frame of both handlers: `make` takes what the object needs.
  unfoldable pub under_name : String → String → Step A → Step (Unit {0})
  under_name name id make = do
    reserve_name name id
    hold_as (reserved_name name) (reserved_name name)
    a ← make
    add_item a
    record_event stored

-- ===== src/Container/Remove/Handler.antt =====
-- The whole of `RemoveContainer`, with the store of containers and the registrar of their names.
use cri.Base.{String, ◌≡◌, ◌≢◌, Option, none, some, if◌then◌else◌}
use cri.Base.Errors.{Error, Result, ok, err, is_not_exist, wrap}
use cri.IdStore.{Stored, Store, get, remove}
use cri.IdStore.Index.{TruncIndex}
use cri.Registrar.{Registrar, release_by_key}
use cri.Container.Status.{Json}
use cri.Container.Exit.{Live}
use cri.Container.Remove.{RemoveWorld, Removal, remove_container}
use cri.Container.Remove.Effect.{Removed}

module _ (j : Json) (t : TruncIndex) (level_of : String → Result String) {A : Type 0}
    (e : Stored A) where
  pub record Service : Type 0 where
    pub containers : Store t level_of e
    pub names : Registrar

  -- `c.containerStore.Delete(id)` and `c.containerNameIndex.ReleaseByKey(id)`
  forget : A → Service → Service
  forget a s = record {
    containers = remove t level_of e (e.id a) s.containers;
    names = release_by_key (e.id a) s.names;
  }

  -- The service, the container and the error.
  abbrev pub Response : Type 0
  Response = Service × Live j × Option Error

  finish : A → Removal j → Service → Response
  unfolding forget
  finish a (c, some x) s = (s, c, some x)
  finish a (c, none) s = (forget a s, c, none)

  remove_found : (Live j → Removal j) → RemoveWorld → Result A → Live j → Service → Response
  unfolding finish
  remove_found stop w (err x) c s = (
    s,
    c,
    if is_not_exist x then none else some (wrap "an error occurred when try to find container" x),
  )
  remove_found stop w (ok a) c s = finish a (remove_container j stop w c) s

  -- RemoveContainer of the container `c`, which the store finds under the id.
  unfoldable pub remove_container_by_id :
      (Live j → Removal j) → RemoveWorld → String → Live j → Service → Response
  unfolding remove_found
  remove_container_by_id stop w id c s = remove_found stop w (get t level_of e id s.containers) c s

  -- The container `a` was removed and then forgotten.
  pub record Forgotten (w : RemoveWorld) (a : A) (s : Service) (r : Response) : Type 0 where
    pub removed : Removed j w (r.1, r.2)
    pub store : r.0.containers ≡ remove t level_of e (e.id a) s.containers
    pub names : r.0.names ≡ release_by_key (e.id a) s.names

  -- An error was returned, and the service still knows the container, which at most was stopped.
  abbrev pub Kept : Live j → Service → Response → Type 0
  Kept c s r = (r.0 ≡ s) × (r.1 ≡ c) × (r.2 ≢ none)

-- ===== src/Recovery.antt =====
-- `recover` of pkg/server/restart.go: at a start the service fills its stores and names from
-- containerd, and removes the directories of what is gone. What `loadSandbox` and `loadContainer`
-- return is given here (Sandbox/Load and Container/Load model them); so is the store of images, as `I`.
pub mod Complete
pub mod Directories
use cri.Base.{
  String, Bool, true, false, not, ◌&&◌, Option, none, some, List, [], ◌∷◌, map, keep, is_some,
}
use cri.Base.GoMap.{Map, lookup, insert}
use cri.Base.Errors.{Error, Result, ok, err, wrap}
use cri.Creation.{Service}
use cri.IdStore.{Stored, Store, add}
use cri.IdStore.Index.{TruncIndex}
use cri.Registrar.{Registrar, reserve}

module _ (t : TruncIndex) (level_of : String → Result String) {A : Type 0} (e : Stored A)
    (name_of : A → String) where
  abbrev S : Type 0
  S = Service t level_of e

  after_reserve : Registrar × Option Error → (S → S × Option Error) → S → S × Option Error
  after_reserve (names, some x) next s =
      (record s { names = names }, some (wrap "failed to reserve name" x))
  after_reserve (names, none) next s = next (record s { names = names })

  after_add : A → Store t level_of e × Option Error → (S → S × Option Error) → S → S × Option Error
  unfolding after_reserve
  after_add a (items, some x) next s =
      (record s { items = items }, some (wrap "failed to add to store" x))
  after_add a (items, none) next s =
      after_reserve (reserve (name_of a) (e.id a) s.names) next (record s { items = items })

  -- A loop of `recover`: what could not be loaded is logged and left out.
  unfoldable pub recover_items : List (Result A) → S → S × Option Error
  unfolding after_add
  recover_items [] s = (s, none)
  recover_items (err x ∷ rest) s = recover_items rest s
  recover_items (ok a ∷ rest) s = after_add a (add t level_of e a s.items) (recover_items rest) s

-- What `ioutil.ReadDir` returns; an entry is its name and whether it is a directory.
pub data Directory : Type 0 where
  entries : List (String × Bool) → Directory
  no_directory : Directory
  unreadable : Error → Directory

ids_map : List String → Map Bool
ids_map [] = []
ids_map (id ∷ ids) = insert id true (ids_map ids)

-- The directories of the base directory that no container has.
unfoldable pub is_orphan : List String → String × Bool → Bool
unfolding ids_map
is_orphan ids d = d.1 && not (is_some (lookup d.0 (ids_map ids)))

abbrev entry_name : String × Bool → String
entry_name d = d.0

-- cleanupOrphanedIDDirs: the names on which `ensureRemoveAll` is called, whose errors are logged only
unfoldable pub cleanup_orphaned_id_dirs : List String → Directory → Result (List String)
cleanup_orphaned_id_dirs ids (entries ds) = ok (map entry_name (keep (is_orphan ids) ds))
cleanup_orphaned_id_dirs ids no_directory = ok []
cleanup_orphaned_id_dirs ids (unreadable x) = err (wrap "failed to read base directory" x)

-- What is read of an image of containerd: the check of its content, `IsUnpacked`, and its name.
pub record CheckedImage : Type 0 where
  pub check : Result Bool
  pub unpacked : Result Bool
  pub name : String

module _ {I : Type 0} (update_image : String → I → I) where
  -- The body of the loop of `loadImages`. An image that is not unpacked is loaded with a warning.
  unfoldable pub load_image : CheckedImage → I → I
  load_image i s = elim i.check [
    | err x ↦ s
    | ok good ↦ elim good [
      | false ↦ s
      | true ↦ elim i.unpacked [ err x ↦ s | ok unpacked ↦ update_image i.name s ]
    ]
  ]

  -- loadImages
  unfoldable pub load_images : List CheckedImage → I → I
  load_images [] s = s
  load_images (i ∷ rest) s = load_images rest (load_image i s)

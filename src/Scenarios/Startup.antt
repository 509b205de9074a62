-- ===== src/Scenarios/Startup.antt =====
-- Runs of the recovery at a start, and of the removal of an image.
use mathlib.Core.List.{Memᴰ}
use cri.Base.{
  String, Bool, true, false, ◌≡◌, ◌↔◌, refl, sym, Option, none, some, List, [], ◌∷◌, if◌then◌else◌,
  str_eq, arith, eq_iff,
}
use cri.Base.GoMap.{Map, lookup, delete, lookup-delete_self}
use cri.Base.Errors.{Result, ok, err, failure}
use cri.Creation.{Service}
use cri.IdStore.{new_store, add}
use cri.Image.{Image, ImageStore, update, new_image_store, add as add_image}
use cri.Image.Handlers.{Client, local_resolve}
use cri.Label.{new_label_store}
use cri.Recovery.{recover_items, entries, cleanup_orphaned_id_dirs}
use cri.Recovery.Complete.{Recovered, recover_items_complete}
use cri.Recovery.Directories.{removed, cleanup_orphaned_id_dirs_lem}
use cri.Registrar.{new_registrar, reserve}
use cri.Registrar.Bijection.{new_registrar-IsBijection}
use cri.Scenarios.Reservations.{own_level}
use cri.Scenarios.Stores.{whole_ids, Item, item_fields}

abbrev empty_service : Service whole_ids own_level item_fields
empty_service = record {
  names = new_registrar;
  items = new_store whole_ids own_level item_fields new_label_store;
}

-- One sandbox of three cannot be loaded.
abbrev loaded : List (Result Item)
loaded = ok ("s1", "") ∷ err (failure "no metadata") ∷ ok ("s2", "") ∷ []

abbrev name_of : Item → String
name_of a = a.0

abbrev after_recovery : Service whole_ids own_level item_fields
after_recovery = (recover_items whole_ids own_level item_fields name_of loaded empty_service).0

recover_items_complete_example :
    Recovered whole_ids own_level item_fields name_of loaded empty_service after_recovery
unfolding recover_items add lookup new_store cri.Label.reserve reserve new_registrar
    cri.Base.GoMap.insert
recover_items_complete_example =
    recover_items_complete whole_ids own_level item_fields name_of loaded empty_service
      new_registrar-IsBijection refl

abbrev base_entries : List (String × Bool)
base_entries = ("s1", true) ∷ ("s9", true) ∷ ("notes", false) ∷ []

cleanup_orphaned_id_dirs_lem_example :
    Memᴰ "s9" (removed (cleanup_orphaned_id_dirs ("s1" ∷ "s2" ∷ []) (entries base_entries)))
    ↔ (Memᴰ ("s9", true) base_entries × (Memᴰ {A = String} "s9" ("s1" ∷ "s2" ∷ []) → ⊥))
cleanup_orphaned_id_dirs_lem_example =
    cleanup_orphaned_id_dirs_lem ("s1" ∷ "s2" ∷ []) base_entries "s9"

-- A containerd whose images are a map of references, and whose deletions succeed.
deleted_gone : (ref : String) (c : Map (Image Bool)) → ok (lookup ref (delete ref c)) ≡ ok none
deleted_gone ref c = rw (lookup-delete_self ref c) refl

abbrev image_map : Client Bool
image_map = record {
  State = Map (Image Bool);
  get_image = λ ref c. ok (lookup ref c);
  delete_image = λ ref c. (delete ref c, none);
  deleted = λ ref c h. deleted_gone ref c;
  not_found = λ ref c x h n. deleted_gone ref c;
}

abbrev busybox : Image Bool
busybox = record { id = "sha256:e5"; references = "busybox:1" ∷ []; info = true }

abbrev one_image : ImageStore whole_ids str_eq Bool
one_image =
    (update whole_ids str_eq Bool "busybox:1" (some busybox)
      (new_image_store whole_ids str_eq Bool)).0

abbrev no_digest : String → Bool
no_digest ref = false

abbrev as_it_stands : String → Result String
as_it_stands ref = ok ref

finds_busybox :
    local_resolve whole_ids str_eq Bool image_map no_digest as_it_stands "busybox:1" one_image
    ≡ ok busybox
unfolding local_resolve cri.Image.get update lookup new_image_store add_image
    cri.Image.Handlers.image_id cri.Image.resolve cri.Base.GoMap.insert
finds_busybox = refl

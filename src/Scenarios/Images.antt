-- ===== src/Scenarios/Images.antt =====
-- Runs of the image store.
use cri.Base.{String, Bool, ◌≡◌, refl, none, some, true, [], ◌∷◌, if◌then◌else◌, str_eq, arith}
use cri.Base.GoMap.{lookup}
use cri.IdStore.Index.{found, missing}
use cri.Scenarios.Stores.{whole_ids}
use cri.Image.{Image, ImageStore, new_image_store, update, add}
use cri.Image.Agreement.{Agree, new_image_store-Agree, update-Agree}

finds_held :
    (i : String → Bool) (id : String)
    → i id ≡ true
    → (if i id then found id else missing) ≡ found id
finds_held i id h = rw h

abbrev empty_store : ImageStore whole_ids str_eq Bool
empty_store = new_image_store whole_ids str_eq Bool

abbrev busybox : Image Bool
busybox = record { id = "sha256:e5"; references = "busybox:1" ∷ []; info = true }

busybox_whole :
    (i : String → Bool) (id : String)
    → (if i "sha256:e5" then found "sha256:e5" else missing) ≡ found id
    → id ≡ "sha256:e5"
busybox_whole i id h = ground (arith, h)

busybox_added : (update whole_ids str_eq Bool "busybox:1" (some busybox) empty_store).1 ≡ none
unfolding update add new_image_store lookup
busybox_added = refl

update-Agree_example :
    Agree whole_ids str_eq Bool
      (update whole_ids str_eq Bool "busybox:1" (some busybox) empty_store).0
update-Agree_example =
    update-Agree whole_ids str_eq Bool finds_held "busybox:1" (some busybox) empty_store
      (new_image_store-Agree whole_ids str_eq Bool) (λ r h. refl)
      (record { references = refl; whole_id = busybox_whole }) busybox_added

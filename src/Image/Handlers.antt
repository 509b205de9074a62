-- ===== src/Image/Handlers.antt =====
-- The handlers over the store of images: `localResolve` and `toContainerdImage` of
-- pkg/server/helpers.go, `RemoveImage` of image_remove.go, and `Update` of pkg/store/image/image.go,
-- which reads one reference from containerd. The parsers of digests and of references are parameters.
pub mod Removal
use cri.Base.{
  String, ◌≡◌, refl, sym, ap, subst, ◌∙◌, ◌⊎◌, inl, inr, Bool, true, false, Option, none, some,
  List, [], ◌∷◌, if◌then◌else◌, str_eq, arith, eq_iff, Bool-cases,
}
use cri.Base.GoMap.{lookup, delete, lookup-delete}
use cri.Base.Errors.{Error, Result, ok, err, wrap, failure, is_not_found, is_not_exist}
use cri.IdStore.Index.{TruncIndex}
use cri.Image.{Image, Images, ImageStore, get, resolve, update, forget, remove}

-- The images of containerd, as the handlers use them. `get_image` reads a reference with all that
-- the store keeps of it; `none` is a reference that containerd does not have.
pub record Client (D : Type 0) : Type 1 where
  pub State : Type 0
  pub get_image : String → State → Result (Option (Image D))
  pub delete_image : String → State → State × Option Error
  -- A reference whose deletion succeeded, or was not found, is not there.
  pub deleted :
      (ref : String) (c : State)
      → (delete_image ref c).1 ≡ none
      → get_image ref (delete_image ref c).0 ≡ ok none
  pub not_found :
      (ref : String) (c : State) (x : Error)
      → (delete_image ref c).1 ≡ some x
      → is_not_found x ≡ true
      → get_image ref (delete_image ref c).0 ≡ ok none

module _ (t : TruncIndex) (equal_fold : String → String → Bool) (D : Type 0) (client : Client D)
    (is_digest : String → Bool) (parse_ref : String → Result String) where
  abbrev St : Type 0
  St = ImageStore t equal_fold D

  update_read : String → Result (Option (Image D)) → St → St × Option Error
  update_read ref (err x) s = (s, some (wrap "get image from containerd" x))
  update_read ref (ok img) s = update t equal_fold D ref img s

  -- Update
  unfoldable pub update_reference : String → client.State → St → St × Option Error
  unfolding update_read
  update_reference ref c s = update_read ref (client.get_image ref c) s

  or_empty : Result String → String
  or_empty (ok id) = id
  or_empty (err x) = ""

  -- `getImageID` of localResolve
  unfoldable pub image_id : String → St → String
  unfolding or_empty
  image_id ref s = if is_digest ref then ref else elim (parse_ref ref) [
    | err x ↦ ""
    | ok normalized ↦ or_empty (resolve t equal_fold D normalized s)
  ]

  -- localResolve
  unfoldable pub local_resolve : String → St → Result (Image D)
  local_resolve ref s =
      let id = image_id ref s in get t equal_fold D (if str_eq id "" then ref else id) s.store

  -- toContainerdImage: the reference that is asked for
  unfoldable pub to_containerd_image : Image D → Result String
  to_containerd_image img = elim img.references [
    | [] ↦ err (failure "invalid image with no reference")
    | ref ∷ rest ↦ ok ref
  ]

  -- What the loop does after a reference was deleted, `next` being the rest of the loop.
  after_update :
      client.State
      → St × Option Error
      → (client.State → St → client.State × St × Option Error)
      → client.State × St × Option Error
  after_update c (s, some x) next = (c, s, some (wrap "failed to update image reference" x))
  after_update c (s, none) next = next c s

  after_delete :
      String
      → client.State × Option Error
      → St
      → (client.State → St → client.State × St × Option Error)
      → client.State × St × Option Error
  unfolding after_update
  after_delete ref (c, none) s next = after_update c (update_reference ref c s) next
  after_delete ref (c, some x) s next =
      if is_not_found x
      then after_update c (update_reference ref c s) next
      else (c, s, some (wrap "failed to delete image reference" x))

  -- The loop of RemoveImage over the references of the image.
  unfoldable pub remove_references :
      List String → client.State → St → client.State × St × Option Error
  unfolding after_delete
  remove_references [] c s = (c, s, none)
  remove_references (ref ∷ refs) c s =
      after_delete ref (client.delete_image ref c) s (remove_references refs)

  remove_resolved : Result (Image D) → client.State → St → client.State × St × Option Error
  remove_resolved (err x) c s =
      (c, s, if is_not_exist x then none else some (wrap "can not resolve image locally" x))
  remove_resolved (ok img) c s = remove_references img.references c s

  -- RemoveImage
  unfoldable pub remove_image : String → client.State → St → client.State × St × Option Error
  unfolding remove_resolved
  remove_image ref c s = remove_resolved (local_resolve ref s) c s

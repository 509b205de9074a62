-- ===== src/Image.antt =====
-- pkg/store/image/image.go and pkg/util/strings.go: the store of images by their ids, and the cache
-- of the id that each image reference stands for. `digestset.Set` finds ids by their prefixes, by the
-- interface of IdStore/Index; `strings.EqualFold` is the parameter `equal_fold`.
pub mod References
pub mod Changes
pub mod Agreement
pub mod Handlers
use cri.Base.{
  String, str_eq, Bool, true, false, Option, none, some, List, [], ◌∷◌, ◌++◌, if◌then◌else◌,
}
use cri.Base.GoMap.{Map, lookup, insert, delete, values, keys}
use cri.Base.Errors.{Error, Result, ok, err, not_exist}
use cri.IdStore.Index.{TruncIndex, Found, found, missing, refused}

-- Image; the fields that are only stored are one parameter.
pub record Image (D : Type 0) : Type 0 where
  pub id : String
  pub references : List String
  pub info : D

-- The keys of the map that `MergeStringSlices` fills.
fill : List String → Map Bool → Map Bool
fill [] m = m
fill (s ∷ rest) m = fill rest (insert s true m)

-- MergeStringSlices
unfoldable pub merge_string_slices : List String → List String → List String
unfolding fill
merge_string_slices a b = keys (fill b (fill a []))

module _ (equal_fold : String → String → Bool) where
  -- SubtractStringSlice
  unfoldable pub subtract_string_slice : List String → String → List String
  subtract_string_slice [] str = []
  subtract_string_slice (s ∷ rest) str =
      let res = subtract_string_slice rest str in if equal_fold s str then res else s ∷ res

module _ (t : TruncIndex) (equal_fold : String → String → Bool) (D : Type 0) where
  -- store
  pub record Images : Type 0 where
    pub images : Map (Image D)
    pub digest_set : t.Index

  -- Store, without its client
  pub record ImageStore : Type 0 where
    pub ref_cache : Map String
    pub store : Images

  -- NewStore
  unfoldable pub new_image_store : ImageStore
  new_image_store = record { ref_cache = []; store = record { images = []; digest_set = t.empty } }

  -- The image is new, or its references are merged with those known.
  put_image : Image D → Option (Image D) → Images → Images
  put_image img none s = record s { images = insert img.id img s.images }
  put_image img (some i) s = record s {
    images =
        insert img.id (record i { references = merge_string_slices i.references img.references })
          s.images;
  }

  put_indexed : Image D → Result t.Index → Images → Images × Option Error
  unfolding put_image
  put_indexed img (err e) s = (s, some e)
  put_indexed img (ok index) s =
      (put_image img (lookup img.id s.images) (record s { digest_set = index }), none)

  add_looked_up : Image D → Found → Images → Images × Option Error
  unfolding put_indexed
  add_looked_up img (refused e) s = (s, some e)
  add_looked_up img missing s = put_indexed img (t.add img.id s.digest_set) s
  add_looked_up img (found id) s = put_indexed img (ok s.digest_set) s

  -- add
  unfoldable pub add : Image D → Images → Images × Option Error
  unfolding add_looked_up
  add img s = add_looked_up img (t.get s.digest_set img.id) s

  or_not_exist : Option (Image D) → Result (Image D)
  or_not_exist none = err not_exist
  or_not_exist (some i) = ok i

  get_looked_up : Found → Images → Result (Image D)
  unfolding or_not_exist
  get_looked_up (refused e) s = err e
  get_looked_up missing s = err not_exist
  get_looked_up (found id) s = or_not_exist (lookup id s.images)

  -- get
  unfoldable pub get : String → Images → Result (Image D)
  unfolding get_looked_up
  get id s = get_looked_up (t.get s.digest_set id) s

  -- The image keeps the references that are left, or goes with the last.
  keep_or_remove : String → Image D → List String → Images → Images
  keep_or_remove id i [] s = record {
    images = delete id s.images;
    digest_set = t.delete id s.digest_set;
  }
  keep_or_remove id i (r ∷ rest) s = record s {
    images = insert id (record i { references = r ∷ rest }) s.images;
  }

  remove_from : String → String → Option (Image D) → Images → Images
  unfolding keep_or_remove
  remove_from ref id none s = s
  remove_from ref id (some i) s =
      keep_or_remove id i (subtract_string_slice equal_fold i.references ref) s

  remove_looked_up : String → Found → Images → Images
  unfolding remove_from
  remove_looked_up ref (refused e) s = s
  remove_looked_up ref missing s = s
  remove_looked_up ref (found id) s = remove_from ref id (lookup id s.images) s

  -- delete
  unfoldable pub remove : String → String → Images → Images
  unfolding remove_looked_up
  remove id ref s = remove_looked_up ref (t.get s.digest_set id) s

  -- The removal of a reference from the store and the cache.
  forget : String → Option String → ImageStore → ImageStore
  forget ref none s = s
  forget ref (some old_id) s = record {
    ref_cache = delete ref s.ref_cache;
    store = remove old_id ref s.store;
  }

  -- `s.refCache[ref] = img.ID`, and then the store.
  cache_and_add : String → Image D → Images → ImageStore → ImageStore × Option Error
  cache_and_add ref img store s =
      let r = add img store in
      (record { ref_cache = insert ref img.id s.ref_cache; store = r.0 }, r.1)

  update_image : String → Image D → Option String → ImageStore → ImageStore × Option Error
  unfolding cache_and_add
  update_image ref img none s = cache_and_add ref img s.store s
  update_image ref img (some old_id) s =
      if str_eq old_id img.id
      then (s, none)
      else cache_and_add ref img (remove old_id ref s.store) s

  -- update; no image is one that containerd does not have.
  unfoldable pub update : String → Option (Image D) → ImageStore → ImageStore × Option Error
  unfolding update_image forget
  update ref none s = (forget ref (lookup ref s.ref_cache) s, none)
  update ref (some img) s = update_image ref img (lookup ref s.ref_cache) s

  -- Resolve
  unfoldable pub resolve : String → ImageStore → Result String
  resolve ref s = elim (lookup ref s.ref_cache) [ none ↦ err not_exist | some id ↦ ok id ]

  -- List
  unfoldable pub list : Images → List (Image D)
  list s = values s.images

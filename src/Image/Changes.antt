-- ===== src/Image/Changes.antt =====
-- What adding an image and removing a reference make of the references of the stored images.
use cri.Base.{
  String, ◌≡◌, refl, ap, sym, ◌∙◌, Bool, true, not, ◌||◌, ◌&&◌, Option, none, some, List, [], ◌∷◌,
  if◌then◌else◌, str_eq, eq_iff, arith, All, is_some,
}
use cri.Base.GoMap.{lookup, lookup-insert, lookup-delete}
use cri.Base.Errors.{Result, ok, err}
use cri.IdStore.Index.{TruncIndex, Found, found, missing, refused}
use cri.Image.{
  Image, merge_string_slices, subtract_string_slice, Images, add, add_looked_up, put_indexed,
  put_image, remove, remove_looked_up, remove_from, keep_or_remove,
}
use cri.Image.References.{holds, Apart, holds-merge_string_slices, holds-subtract_string_slice}

abbrev pub refs_of : {D : Type 0} → Option (Image D) → List String
refs_of none = []
refs_of (some i) = i.references

pub holds-All :
    (P : String → Type 0) (l : List String) → ((r : String) → holds r l ≡ true → P r) → All P l
holds-All P [] h = tt
holds-All P (r ∷ l) h =
    (h r (ground (arith, eq_iff r r)), holds-All P l (λ x e. h x (ground (arith, e))))

module _ (t : TruncIndex) (equal_fold : String → String → Bool) (D : Type 0) where
  abbrev pub refs : Images t equal_fold D → String → List String
  refs s id = refs_of (lookup id s.images)

  abbrev pub Indexed : Images t equal_fold D → Type 0
  Indexed s = (id : String) → t.has s.digest_set id ≡ is_some (lookup id s.images)

  module _ (img : Image D) where
    put_image-refs :
        (o : Option (Image D)) (s : Images t equal_fold D) (r id : String)
        → lookup img.id s.images ≡ o
        → holds r (refs (put_image t equal_fold D img o s) id) ≡ (
            if str_eq img.id id
            then holds r img.references || holds r (refs s id)
            else holds r (refs s id))
    unfolding put_image
    put_image-refs none s r id e =
        ground (arith, e, lookup-insert img.id id img s.images, eq_iff img.id id)
    put_image-refs (some i) s r id e = ground (
      arith,
      e,
      lookup-insert img.id id
          (record i { references = merge_string_slices i.references img.references }) s.images,
      holds-merge_string_slices r i.references img.references,
      eq_iff img.id id,
    )

    put_image-is_some :
        (o : Option (Image D)) (s : Images t equal_fold D) (id : String)
        → is_some (lookup id (put_image t equal_fold D img o s).images)
          ≡ (if str_eq img.id id then true else is_some (lookup id s.images))
    unfolding put_image
    put_image-is_some none s id = ground (arith, lookup-insert img.id id img s.images)
    put_image-is_some (some i) s id = ground (
      arith,
      lookup-insert img.id id
          (record i { references = merge_string_slices i.references img.references }) s.images,
    )

    put_image-digest_set :
        (o : Option (Image D)) (s : Images t equal_fold D)
        → (put_image t equal_fold D img o s).digest_set ≡ s.digest_set
    unfolding put_image
    put_image-digest_set none s = refl
    put_image-digest_set (some i) s = refl

    -- What a successful `add` makes of the references.
    pub record Added (s s' : Images t equal_fold D) : Type 0 where
      pub references :
          (r id : String)
          → holds r (refs s' id) ≡ (
              if str_eq img.id id
              then holds r img.references || holds r (refs s id)
              else holds r (refs s id))
      pub indexed : Indexed s'

    put_image-Added :
        (s : Images t equal_fold D) (index : t.Index)
        → ((id : String)
            → t.has index id ≡ (if str_eq img.id id then true else is_some (lookup id s.images)))
        → Added s (
            put_image t equal_fold D img (lookup img.id s.images) (record s { digest_set = index }))
    put_image-Added s index h = record {
      references = λ r id.
          put_image-refs (lookup img.id s.images) (record s { digest_set = index }) r id refl;
      indexed = λ id.
          ap (λ i. t.has i id)
            (put_image-digest_set (lookup img.id s.images) (record s { digest_set = index }))
          ∙ h id
          ∙ sym (put_image-is_some (lookup img.id s.images) (record s { digest_set = index }) id);
    }

    put_indexed-Added :
        (s : Images t equal_fold D) (r : Result t.Index)
        → t.add img.id s.digest_set ≡ r
        → Indexed s
        → (put_indexed t equal_fold D img r s).1 ≡ none
        → Added s (put_indexed t equal_fold D img r s).0
    unfolding put_indexed
    put_indexed-Added s (err e) q v h = cc
    put_indexed-Added s (ok index) q v h =
        put_image-Added s index λ k. ground (arith, v k, t.has-add img.id k s.digest_set index q)

    looked_up-Added :
        (s : Images t equal_fold D) (f : Found)
        → t.get s.digest_set img.id ≡ f
        → Indexed s
        → ((i : t.Index) (id : String) → t.get i img.id ≡ found id → id ≡ img.id)
        → (add_looked_up t equal_fold D img f s).1 ≡ none
        → Added s (add_looked_up t equal_fold D img f s).0
    unfolding add_looked_up put_indexed
    looked_up-Added s (refused e) q v full h = cc
    looked_up-Added s missing q v full h = put_indexed-Added s (t.add img.id s.digest_set) refl v h
    looked_up-Added s (found id) q v full h = put_image-Added s s.digest_set λ k.
        let same = full s.digest_set id q in
        let held = t.get_found s.digest_set img.id id q in
        ground (arith, v k, v img.id, same, held, eq_iff img.id k)

    pub add-Added :
        (s : Images t equal_fold D)
        → Indexed s
        → ((i : t.Index) (id : String) → t.get i img.id ≡ found id → id ≡ img.id)
        → (add t equal_fold D img s).1 ≡ none
        → Added s (add t equal_fold D img s).0
    unfolding add
    add-Added s v full h = looked_up-Added s (t.get s.digest_set img.id) refl v full h

  -- What the removal of a reference makes of the references.
  pub record Removed (old_id ref : String) (s s' : Images t equal_fold D) : Type 0 where
    pub references :
        (r id : String)
        → holds r (refs s' id) ≡ (
            if str_eq old_id id
            then not (str_eq ref r) && holds r (refs s id)
            else holds r (refs s id))
    pub indexed : Indexed s'

  keep_or_remove-Removed :
      (old_id ref : String) (i : Image D) (left : List String) (s : Images t equal_fold D)
      → Indexed s
      → lookup old_id s.images ≡ some i
      → ((r : String) → holds r left ≡ (not (str_eq ref r) && holds r i.references))
      → Removed old_id ref s (keep_or_remove t equal_fold D old_id i left s)
  unfolding keep_or_remove
  keep_or_remove-Removed old_id ref i [] s v e h = record {
    references = λ r id. ground (arith, e, h r, lookup-delete old_id id s.images, eq_iff old_id id);
    indexed = λ id.
        ground (arith, v id, lookup-delete old_id id s.images, t.has-delete old_id id s.digest_set);
  }
  keep_or_remove-Removed old_id ref i (x ∷ rest) s v e h = record {
    references = λ r id. ground (
      arith,
      e,
      h r,
      lookup-insert old_id id (record i { references = x ∷ rest }) s.images,
      eq_iff old_id id,
    );
    indexed = λ id. ground (
      arith,
      e,
      v id,
      lookup-insert old_id id (record i { references = x ∷ rest }) s.images,
      eq_iff old_id id,
    );
  }

  pub remove-Removed :
      (old_id ref : String) (i : Image D) (s : Images t equal_fold D)
      → Indexed s
      → t.get s.digest_set old_id ≡ found old_id
      → lookup old_id s.images ≡ some i
      → All (λ r. Apart equal_fold r ref) i.references
      → Removed old_id ref s (remove t equal_fold D old_id ref s)
  unfolding remove remove_looked_up remove_from
  remove-Removed old_id ref i s v g e a =
      rw (g, e)
        (keep_or_remove-Removed old_id ref i (subtract_string_slice equal_fold i.references ref) s v
          e (λ r. holds-subtract_string_slice equal_fold r ref i.references a))

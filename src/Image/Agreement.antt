-- ===== src/Image/Agreement.antt =====
-- The cache of references and the references of the stored images agree, through every update.
use cri.Base.{
  String, ◌≡◌, refl, ◌∙◌, Bool, true, not, ◌&&◌, ◌↔◌, Option, none, some, [], ◌∷◌, str_eq, eq_iff,
  arith, is_some, Option-cases, Bool-cases, inl, inr,
}
use cri.Base.GoMap.{lookup, lookup-insert, lookup-delete}
use cri.IdStore.Index.{TruncIndex, found}
use cri.Image.{
  Image, Images, ImageStore, new_image_store, remove, forget, cache_and_add, update_image, update,
}
use cri.Image.References.{holds, Apart}
use cri.Image.Changes.{refs, Indexed, add-Added, Removed, remove-Removed, holds-All}

module _ (t : TruncIndex) (equal_fold : String → String → Bool) (D : Type 0) where
  -- A reference is cached for an id exactly if the image of the id has the reference.
  pub record Agree (s : ImageStore t equal_fold D) : Type 0 where
    pub indexed : Indexed t equal_fold D s.store
    pub exact :
        (ref id : String)
        → (lookup ref s.ref_cache ≡ some id) ↔ (holds ref (refs t equal_fold D s.store id) ≡ true)

  -- The index finds a whole id that it holds.
  module _ (whole : (i : t.Index) (id : String) → t.has i id ≡ true → t.get i id ≡ found id) where
    cached-Removed :
        (ref old_id : String) (s : ImageStore t equal_fold D)
        → Agree s
        → lookup ref s.ref_cache ≡ some old_id
        → ((r : String) → is_some (lookup r s.ref_cache) ≡ true → Apart equal_fold r ref)
        → Removed t equal_fold D old_id ref s.store (remove t equal_fold D old_id ref s.store)
    cached-Removed ref old_id s v e apart = elim (Option-cases (lookup old_id s.store.images)) [
      | inl n ↦ absurd (ground (arith, n, (v.exact ref old_id).0 e))
      | inr (i, n) ↦
          remove-Removed t equal_fold D old_id ref i s.store v.indexed
            (whole s.store.digest_set old_id (v.indexed old_id ∙ rw n)) n
            (holds-All (λ r. Apart equal_fold r ref) i.references
              λ r h. apart r (ground (arith, (v.exact r old_id).1 (rw n h))))
    ]

    -- No image has the reference any more, and all others are as they were.
    gone_everywhere :
        (ref old_id : String) (s : ImageStore t equal_fold D) (s' : Images t equal_fold D)
        → Agree s
        → lookup ref s.ref_cache ≡ some old_id
        → Removed t equal_fold D old_id ref s.store s'
        → (r id : String)
        → holds r (refs t equal_fold D s' id)
          ≡ (not (str_eq ref r) && holds r (refs t equal_fold D s.store id))
    gone_everywhere ref old_id s s' v e gone r id =
        ground (arith, gone.references r id, v.exact ref id, e, eq_iff old_id id, eq_iff ref r)

    forget-Agree :
        (ref : String) (o : Option String) (s : ImageStore t equal_fold D)
        → Agree s
        → lookup ref s.ref_cache ≡ o
        → ((r : String) → is_some (lookup r s.ref_cache) ≡ true → Apart equal_fold r ref)
        → Agree (forget t equal_fold D ref o s)
    unfolding forget
    forget-Agree ref none s v e apart = v
    forget-Agree ref (some old_id) s v e apart =
        let gone = cached-Removed ref old_id s v e apart in
        record {
          indexed = gone.indexed;
          exact = λ r id. ground (
            arith,
            gone_everywhere ref old_id s (remove t equal_fold D old_id ref s.store) v e gone r id,
            v.exact r id,
            lookup-delete ref r s.ref_cache,
          );
        }

    -- The new image of the reference: it has this reference alone, and its id is whole.
    pub record IsImageOf (ref : String) (img : Image D) : Type 0 where
      pub references : img.references ≡ ref ∷ []
      pub whole_id : (i : t.Index) (id : String) → t.get i img.id ≡ found id → id ≡ img.id

    cache_and_add-Agree :
        (ref : String) (img : Image D) (store : Images t equal_fold D)
        (s : ImageStore t equal_fold D)
        → Agree s
        → Indexed t equal_fold D store
        → ((r id : String)
            → holds r (refs t equal_fold D store id)
              ≡ (not (str_eq ref r) && holds r (refs t equal_fold D s.store id)))
        → IsImageOf ref img
        → (cache_and_add t equal_fold D ref img store s).1 ≡ none
        → Agree (cache_and_add t equal_fold D ref img store s).0
    unfolding cache_and_add
    cache_and_add-Agree ref img store s v ix others im h =
        let added = add-Added t equal_fold D img store ix im.whole_id h in
        record {
          indexed = added.indexed;
          exact = λ r id. ground (
            arith,
            added.references r id,
            im.references,
            others r id,
            v.exact r id,
            v.exact ref id,
            lookup-insert ref r img.id s.ref_cache,
            eq_iff img.id id,
            eq_iff ref r,
          );
        }

    update_image-Agree :
        (ref : String) (img : Image D) (o : Option String) (s : ImageStore t equal_fold D)
        → Agree s
        → lookup ref s.ref_cache ≡ o
        → ((r : String) → is_some (lookup r s.ref_cache) ≡ true → Apart equal_fold r ref)
        → IsImageOf ref img
        → (update_image t equal_fold D ref img o s).1 ≡ none
        → Agree (update_image t equal_fold D ref img o s).0
    unfolding update_image
    update_image-Agree ref img none s v e apart im =
        cache_and_add-Agree ref img s.store s v v.indexed
          (λ r id. ground (arith, v.exact ref id, e, eq_iff ref r)) im
    update_image-Agree ref img (some old_id) s v e apart im =
        elim (Bool-cases (str_eq old_id img.id)) [
          | inl q ↦ rw q (λ h. v)
          | inr q ↦
              let gone = cached-Removed ref old_id s v e apart in
              rw q (
                cache_and_add-Agree ref img (remove t equal_fold D old_id ref s.store) s v
                  gone.indexed
                  (gone_everywhere ref old_id s (remove t equal_fold D old_id ref s.store) v e gone)
                  im)
        ]

    -- The image that an update brings, if containerd has one.
    abbrev pub Brings : String → Option (Image D) → Type 0
    Brings ref none = Unit
    Brings ref (some img) = IsImageOf ref img

    -- Where the index finds whole ids, no cached reference differs from the updated one in its case
    -- only, and the image brought has that reference alone, an update that returns no error keeps the
    -- agreement: a reference is cached for an id exactly if the image stored under the id has it, and
    -- the index holds the ids of the stored images.
    pub update-Agree :
        (ref : String) (o : Option (Image D)) (s : ImageStore t equal_fold D)
        → Agree s
        → ((r : String) → is_some (lookup r s.ref_cache) ≡ true → Apart equal_fold r ref)
        → Brings ref o
        → (update t equal_fold D ref o s).1 ≡ none
        → Agree (update t equal_fold D ref o s).0
    unfolding update
    update-Agree ref none s v apart b h = forget-Agree ref (lookup ref s.ref_cache) s v refl apart
    update-Agree ref (some img) s v apart b h =
        update_image-Agree ref img (lookup ref s.ref_cache) s v refl apart b h

  pub new_image_store-Agree : Agree (new_image_store t equal_fold D)
  unfolding new_image_store lookup
  new_image_store-Agree = record { indexed = t.has-empty; exact = λ ref id. ground arith }

-- ===== src/Image/Handlers/Removal.antt =====
-- What `RemoveImage` leaves of an image.
use mathlib.Core.List.{Memᴰ}
use cri.Base.{String, ◌≡◌, refl, ◌⊎◌, Bool, Option, none, some, List, ◌∷◌, arith, eq_iff, ◌≢◌}
use cri.Base.GoMap.{lookup, lookup-delete}
use cri.Base.Errors.{Error, Result, ok, err, not_exist}
use cri.IdStore.Index.{TruncIndex}
use cri.Image.{Image, ImageStore, forget}
use cri.Image.Handlers.{Client}

module _ (t : TruncIndex) (equal_fold : String → String → Bool) (D : Type 0) (client : Client D)
    (is_digest : String → Bool) (parse_ref : String → Result String) where
  abbrev Images : Type 0
  Images = ImageStore t equal_fold D

  -- A reference that is not in the cache.
  abbrev pub IsForgotten : String → Images → Type 0
  IsForgotten ref s = lookup ref s.ref_cache ≡ none

  forget-IsForgotten :
      (ref r : String) (o : Option String) (s : Images)
      → lookup ref s.ref_cache ≡ o
      → let s' = forget t equal_fold D ref o s in
        IsForgotten ref s' × (IsForgotten r s → IsForgotten r s')
  unfolding forget
  forget-IsForgotten ref r none s h = (h, λ f. f)
  forget-IsForgotten ref r (some id) s h = (
    grind (arith, eq_iff, lookup-delete ref ref s.ref_cache),
    λ f. grind (arith, eq_iff, lookup-delete ref r s.ref_cache, f),
  )

  -- Every reference of the list is forgotten, and none comes back.
  pub record Forgotten (refs : List String) (s s' : Images) : Type 0 where
    pub gone : (r : String) → Memᴰ r refs → IsForgotten r s'
    pub stays : (r : String) → IsForgotten r s → IsForgotten r s'

  abbrev Next : Type 0
  Next = client.State → Images → client.State × Images × Option Error

  -- The rest of the loop forgets its references where it ends without error.
  abbrev Forgets : List String → Next → Type 0
  Forgets refs next =
      (c : client.State) (s : Images) → (next c s).2 ≡ none → Forgotten refs s (next c s).1

  put_first :
      (ref : String) (refs : List String) (s s' : Images)
      → let s₁ = forget t equal_fold D ref (lookup ref s.ref_cache) s in
        Forgotten refs s₁ s' → Forgotten (ref ∷ refs) s s'
  put_first ref refs s s' f =
      let one : (r : String) → _ = λ r. forget-IsForgotten ref r _ s refl in
      record {
        gone = λ r m. elim m [
          | Memᴰ.head q ↦ f.stays r (rw q (one ref).0)
          | Memᴰ.tail m' ↦ f.gone r m'
        ];
        stays = λ r h. f.stays r ((one r).1 h);
      }

  abbrev result_of : client.State × Option Error → Option Error
  result_of p = p.1

  abbrev pub RemoveOutcome :
      Result (Image D) → Images → client.State × Images × Option Error → Type 0
  RemoveOutcome (ok img) s r = ((r.2 ≡ none) × Forgotten img.references s r.1) ⊎ (r.2 ≢ none)
  RemoveOutcome (err x) s r =
      (r.1 ≡ s) × (((x ≡ not_exist) × (r.2 ≡ none)) ⊎ ((x ≢ not_exist) × (r.2 ≢ none)))

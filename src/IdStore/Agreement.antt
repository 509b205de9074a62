-- ===== src/IdStore/Agreement.antt =====
-- The map and the index of a store hold the same ids, through every call.
use cri.Base.{String, ◌≡◌, refl, Option, none, some, List, [], ◌∷◌, arith, eq_iff, is_some}
use cri.Base.GoMap.{lookup, lookup-insert, lookup-delete}
use cri.Base.Errors.{Error, Result, ok, err}
use cri.Label.{LabelStore}
use cri.IdStore.Index.{TruncIndex, Found, found, missing, refused}
use cri.IdStore.{
  Stored, Store, new_store, add, add_missing, label_item, index_item, remove, delete_found,
}

-- One call of a client that changes the store.
pub data Call (A : Type 0) : Type 0 where
  adds : A → Call A
  removes : String → Call A

module _ (t : TruncIndex) (level_of : String → Result String) {A : Type 0} (e : Stored A) where
  abbrev pub S : Type 0
  S = Store t level_of e

  -- The index holds the ids of the map, and each element stands under its own id.
  pub record Agree (s : S) : Type 0 where
    pub indexed : (k : String) → t.has s.index k ≡ is_some (lookup k s.items)
    pub keyed : (k : String) (a : A) → lookup k s.items ≡ some a → e.id a ≡ k

  new_store-Agree : (labels : LabelStore) → Agree (new_store t level_of e labels)
  unfolding new_store lookup
  new_store-Agree labels = record { indexed = t.has-empty; keyed = λ k a h. cc }

  index_item-Agree :
      (a : A) (s : S) (r : Result t.Index)
      → t.add (e.id a) s.index ≡ r
      → Agree s
      → Agree (index_item t level_of e a r s).0
  unfolding index_item
  index_item-Agree a s (err x) q v = v
  index_item-Agree a s (ok i) q v = record {
    indexed = λ k.
        ground (
          arith,
          t.has-add (e.id a) k s.index i q,
          lookup-insert (e.id a) k a s.items,
          v.indexed k,
        );
    keyed =
        λ k b. ground (arith, lookup-insert (e.id a) k a s.items, eq_iff (e.id a) k, v.keyed k b);
  }

  relabel-Agree : (s : S) (labels : LabelStore) → Agree s → Agree (record s { labels = labels })
  relabel-Agree s labels v = record { indexed = v.indexed; keyed = v.keyed }

  label_item-Agree :
      (a : A) (r : LabelStore × Option Error) (s : S)
      → Agree s
      → Agree (label_item t level_of e a r s).0
  unfolding label_item
  label_item-Agree a (labels, some x) s v = relabel-Agree s labels v
  label_item-Agree a (labels, none) s v = index_item-Agree a _ _ refl (relabel-Agree s labels v)

  add_missing-Agree :
      (a : A) (o : Option A) (s : S) → Agree s → Agree (add_missing t level_of e a o s).0
  unfolding add_missing
  add_missing-Agree a (some b) s v = v
  add_missing-Agree a none s v = label_item-Agree a _ s v

  delete_found-Agree : (f : Found) (s : S) → Agree s → Agree (delete_found t level_of e f s)
  unfolding delete_found
  delete_found-Agree missing s v = v
  delete_found-Agree (refused x) s v = v
  delete_found-Agree (found id) s v = record {
    indexed =
        λ k. ground (arith, t.has-delete id k s.index, lookup-delete id k s.items, v.indexed k);
    keyed = λ k b. ground (arith, lookup-delete id k s.items, v.keyed k b);
  }

  unfoldable pub step : S → Call A → S
  step s (adds a) = (add t level_of e a s).0
  step s (removes id) = remove t level_of e id s

  unfoldable pub run : S → List (Call A) → S
  run s [] = s
  run s (c ∷ cs) = run (step s c) cs

  pub step-Agree : (s : S) (c : Call A) → Agree s → Agree (step s c)
  unfolding step add remove
  step-Agree s (adds a) v = add_missing-Agree a _ s v
  step-Agree s (removes id) v = delete_found-Agree _ s v

  run_from-Agree : (s : S) (cs : List (Call A)) → Agree s → Agree (run s cs)
  unfolding run
  run_from-Agree s [] v = v
  run_from-Agree s (c ∷ cs) v = run_from-Agree (step s c) cs (step-Agree s c v)

  -- After any calls on a new store, failing ones included, the index holds exactly the ids of the
  -- map, and each element stands under its own id.
  pub run-Agree :
      (labels : LabelStore) (cs : List (Call A)) → Agree (run (new_store t level_of e labels) cs)
  run-Agree labels cs = run_from-Agree (new_store t level_of e labels) cs (new_store-Agree labels)

-- ===== src/IdStore.antt =====
-- The store of pkg/store/container/container.go and pkg/store/sandbox/sandbox.go: a map by id, an
-- index that finds ids by their prefixes, and the shared label store. The two Go types differ in
-- their element only, which is the parameter `A`. `truncindex.TruncIndex` is the interface below.
pub mod Index
pub mod Agreement
pub mod Views
use cri.Base.{String, Bool, Option, none, some, List, [], is_some}
use cri.Base.GoMap.{Map, lookup, insert, delete, values}
use cri.Base.Errors.{Error, Result, ok, err, not_exist, already_exist}
use cri.Label
use cri.Label.{LabelStore}
use Index.{TruncIndex, Found, found, missing, refused}

-- The fields of a container or sandbox that its store reads.
pub record Stored (A : Type 0) : Type 0 where
  pub id : A → String
  pub process_label : A → String

module _ (t : TruncIndex) (level_of : String → Result String) {A : Type 0} (e : Stored A) where
  -- Store
  pub record Store : Type 0 where
    pub items : Map A
    pub index : t.Index
    pub labels : LabelStore

  -- NewStore
  unfoldable pub new_store : LabelStore → Store
  new_store labels = record { items = []; index = t.empty; labels = labels }

  -- `s.idIndex.Add`, and then the map.
  index_item : A → Result t.Index → Store → Store × Option Error
  index_item a (err x) s = (s, some x)
  index_item a (ok index) s = (record s { items = insert (e.id a) a s.items; index = index }, none)

  -- `s.labels.Reserve`, and what follows it.
  label_item : A → LabelStore × Option Error → Store → Store × Option Error
  unfolding index_item
  label_item a (labels, some x) s = (record s { labels = labels }, some x)
  label_item a (labels, none) s =
      index_item a (t.add (e.id a) s.index) (record s { labels = labels })

  add_missing : A → Option A → Store → Store × Option Error
  unfolding label_item
  add_missing a (some old) s = (s, some already_exist)
  add_missing a none s = label_item a (Label.reserve level_of (e.process_label a) s.labels) s

  -- Add
  unfoldable pub add : A → Store → Store × Option Error
  unfolding add_missing
  add a s = add_missing a (lookup (e.id a) s.items) s

  or_not_exist : Option A → Result A
  or_not_exist none = err not_exist
  or_not_exist (some a) = ok a

  get_found : Found → Store → Result A
  unfolding or_not_exist
  get_found (found id) s = or_not_exist (lookup id s.items)
  get_found missing s = err not_exist
  get_found (refused x) s = err x

  -- Get
  unfoldable pub get : String → Store → Result A
  unfolding get_found
  get id s = get_found (t.get s.index id) s

  -- List
  unfoldable pub list : Store → List A
  list s = values s.items

  -- `s.containers[id].ProcessLabel` of a missing id is the zero value "".
  label_of : Option A → String
  label_of none = ""
  label_of (some a) = e.process_label a

  delete_found : Found → Store → Store
  unfolding label_of
  delete_found (found id) s = record {
    items = delete id s.items;
    index = t.delete id s.index;
    labels = Label.release level_of (label_of (lookup id s.items)) s.labels;
  }
  delete_found missing s = s
  delete_found (refused x) s = s

  -- Delete
  unfoldable pub remove : String → Store → Store
  unfolding delete_found
  remove id s = delete_found (t.get s.index id) s

-- ===== src/Scenarios/Stores.antt =====
-- Runs of the container and sandbox stores, and of the snapshot store.
use cri.Base.{
  ℕ, ◌≤◌, String, Bool, true, false, ◌≡◌, refl, sym, ap, ◌⊎◌, none, some, List, [], ◌∷◌, arith,
  if◌then◌else◌, str_eq, inl, inr, ◌+◌,
}
use cri.Base.GoMap.{lookup, insert, delete, values, Distinct}
use cri.Base.Errors.{Error, Result, ok, err, not_exist}
use cri.Label.{new_label_store}
use cri.IdStore.{Stored, Store, new_store, add, get, remove}
use cri.IdStore.Index.{TruncIndex, found, missing, refused}
use cri.IdStore.Agreement
use cri.IdStore.Agreement.{Agree, adds, removes, run-Agree}
use cri.IdStore.Views.{AddOutcome, IsRemoved, get_stored, add_effect, remove_effect}
use cri.Scenarios.Reservations.{own_level}
use cri.Snapshot.{
  Snapshot, SnapshotStore, Info, Usage, active, committed, sync, sweep, list, refresh, refresh_all,
}
use cri.Snapshot.Sync.{is_fresh, Named, sync_walked, sync_kept}

pub get_whole :
    (i : String → Bool) (s id : String)
    → (if i s then found s else missing) ≡ found id
    → i id ≡ true
get_whole i s id e = ground (arith, e)

pub get_none :
    (i : String → Bool) (s : String) → (if i s then found s else missing) ≡ missing → i s ≡ false
get_none i s e = ground (arith, e)

held : String → Result (String → Bool) → Bool
held k (ok i) = i k
held k (err e) = false

pub ok_same :
    (id k : String) (i i' : String → Bool)
    → ok (λ k. if str_eq id k then true else i k) ≡ ok i'
    → i' k ≡ (if str_eq id k then true else i k)
unfolding held
ok_same id k i i' e = sym (ap (held k) e)

-- An index that takes whole ids only.
abbrev pub whole_ids : TruncIndex
whole_ids = record {
  Index = String → Bool;
  empty = λ k. false;
  add = λ id i. ok (λ k. if str_eq id k then true else i k);
  get = λ i s. if i s then found s else missing;
  delete = λ id i k. if str_eq id k then false else i k;
  has = λ i k. i k;
  has-empty = λ k. refl;
  has-add = ok_same;
  has-delete = λ id k i. refl;
  get_found = get_whole;
  get_missing = get_none;
}

-- An id with its label.
abbrev pub Item : Type 0
Item = String × String

abbrev pub item_fields : Stored Item
item_fields = record { id = λ a. a.0; process_label = λ a. a.1 }

abbrev item_calls : List (Agreement.Call Item)
item_calls = adds ("c1", "s0:c1") ∷ adds ("c2", "s0:c1") ∷ removes "c1" ∷ []

abbrev items : Store whole_ids own_level item_fields
items =
    Agreement.run whole_ids own_level item_fields
      (new_store whole_ids own_level item_fields new_label_store) item_calls

run-Agree_example : Agree whole_ids own_level item_fields items
run-Agree_example = run-Agree whole_ids own_level item_fields new_label_store item_calls

items-Agree : Agree whole_ids own_level item_fields items
items-Agree = run-Agree whole_ids own_level item_fields new_label_store item_calls

get_stored_example :
    ((a : Item) × (get whole_ids own_level item_fields "c2" items ≡ ok a)
      × (lookup a.0 items.items ≡ some a))
    ⊎ ((get whole_ids own_level item_fields "c2" items ≡ err not_exist)
        × (lookup "c2" items.items ≡ none))
    ⊎ ((y : Error) × (whole_ids.get items.index "c2" ≡ refused y)
        × (get whole_ids own_level item_fields "c2" items ≡ err y))
get_stored_example = get_stored whole_ids own_level item_fields items "c2" items-Agree

add_effect_example :
    let a : Item = ("c3", "s0:c2") in
    AddOutcome whole_ids own_level item_fields a items (add whole_ids own_level item_fields a items)
add_effect_example = add_effect whole_ids own_level item_fields ("c3", "s0:c2") items

remove_effect_example :
    ((a : Item) × IsRemoved whole_ids own_level item_fields a
        (get whole_ids own_level item_fields "c2" items)
        items
        (remove whole_ids own_level item_fields "c2" items))
    ⊎ ((y : Error) × (get whole_ids own_level item_fields "c2" items ≡ err y)
        × (remove whole_ids own_level item_fields "c2" items ≡ items))
remove_effect_example = remove_effect whole_ids own_level item_fields items "c2" items-Agree

abbrev usage : String → Result Usage
usage key = ok (record { size = 4096; inodes = 3 })

-- A clock that advances by one at each reading.
abbrev clock : ℕ → ℕ
clock i = 100 + i

abbrev infos : List Info
infos = record { name = "layer"; kind = committed } ∷ record { name = "rw"; kind = active } ∷ []

abbrev old_snapshots : SnapshotStore
old_snapshots =
    ("gone", record { key = "gone"; kind = committed; size = 1; inodes = 1; timestamp = 5 })
    ∷ ("layer", record { key = "layer"; kind = committed; size = 9; inodes = 9; timestamp = 5 })
    ∷ []

old_snapshots-Distinct : Distinct old_snapshots
unfolding lookup
old_snapshots-Distinct = (refl, (refl, tt))

abbrev synced : SnapshotStore
synced = (sync usage (ok infos) clock old_snapshots).0

layer_synced :
    lookup "layer" synced
    ≡ some (record { key = "layer"; kind = committed; size = 9; inodes = 9; timestamp = 101 })
unfolding sync sweep list values refresh_all refresh lookup insert delete
layer_synced = refl

layer_old : is_fresh (clock 0) (lookup "layer" old_snapshots) ≡ false
unfolding lookup
layer_old = refl

sync_walked_example : Named "layer" infos × (100 ≤ 101)
sync_walked_example =
    sync_walked usage clock "layer" infos old_snapshots _ (refl, (refl, tt)) old_snapshots-Distinct
      layer_old layer_synced

sync_kept_example : (sn : Snapshot) × (lookup "rw" synced ≡ some sn)
sync_kept_example =
    sync_kept usage clock "rw" infos old_snapshots (record { size = 4096; inodes = 3 })
      (refl, (refl, tt)) old_snapshots-Distinct (λ j. omega arith) refl (inr (inl refl))

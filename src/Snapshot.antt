-- ===== src/Snapshot.antt =====
-- pkg/store/snapshot/snapshot.go: the store of snapshot statistics; pkg/server/snapshots.go: its
-- periodic synchronisation with the snapshotter, which is a parameter: what `Walk` and `Usage` return.
-- `time.Now().UnixNano()` is a clock whose readings are numbered.
pub mod Sync
use cri.Base.{
  ℕ, suc, String, Bool, true, false, not, ◌&&◌, Option, none, some, List, [], ◌∷◌, if◌then◌else◌,
  leb,
}
use cri.Base.GoMap.{Map, lookup, insert, delete, values}
use cri.Base.Errors.{Error, Result, ok, err, not_exist, wrap}

-- snapshot.Kind of containerd
pub data Kind : Type 0 where
  unknown view active committed : Kind

abbrev pub kind_eq : Kind → Kind → Bool
kind_eq unknown unknown = true
kind_eq view view = true
kind_eq active active = true
kind_eq committed committed = true
kind_eq _ _ = false

-- Snapshot
pub record Snapshot : Type 0 where
  pub key : String
  pub kind : Kind
  pub size : ℕ
  pub inodes : ℕ
  pub timestamp : ℕ

abbrev pub SnapshotStore : Type 0
SnapshotStore = Map Snapshot

-- Add
unfoldable pub add : Snapshot → SnapshotStore → SnapshotStore
add sn s = insert sn.key sn s

or_not_exist : Option Snapshot → Result Snapshot
or_not_exist none = err not_exist
or_not_exist (some sn) = ok sn

-- Get
unfoldable pub get : String → SnapshotStore → Result Snapshot
unfolding or_not_exist
get key s = or_not_exist (lookup key s)

-- List
unfoldable pub list : SnapshotStore → List Snapshot
list s = values s

-- Delete
unfoldable pub remove : String → SnapshotStore → SnapshotStore
remove key s = delete key s

-- The fields of snapshot.Info that are read.
pub record Info : Type 0 where
  pub name : String
  pub kind : Kind

pub record Usage : Type 0 where
  pub size : ℕ
  pub inodes : ℕ

module _ (usage : String → Result Usage) where
  -- The end of the loop body, after the call of `Usage`; an error is logged and skipped.
  store_usage : Info → ℕ → Result Usage → SnapshotStore → SnapshotStore
  unfolding add
  store_usage info now (err e) s = s
  store_usage info now (ok u) s =
      add
        (record {
          key = info.name;
          kind = info.kind;
          size = u.size;
          inodes = u.inodes;
          timestamp = now;
        })
        s

  -- The loop body, for what `s.store.Get(info.Name)` finds.
  refresh_found : Info → ℕ → Result Snapshot → SnapshotStore → SnapshotStore
  unfolding store_usage add
  refresh_found info now (err e) s = store_usage info now (usage info.name) s
  refresh_found info now (ok sn) s =
      if kind_eq sn.kind info.kind && not (kind_eq sn.kind active)
      then add (record sn { timestamp = now }) s
      else store_usage info now (usage info.name) s

  unfoldable pub refresh : Info → ℕ → SnapshotStore → SnapshotStore
  unfolding refresh_found get
  refresh info now s = refresh_found info now (get info.name s) s

  -- The loop over the walked snapshots; each round reads the clock once.
  unfoldable pub refresh_all : (ℕ → ℕ) → ℕ → List Info → SnapshotStore → SnapshotStore
  refresh_all clock i [] s = s
  refresh_all clock i (info ∷ rest) s = refresh_all clock (suc i) rest (refresh info (clock i) s)

-- The loop over `s.store.List()` that drops what was not updated.
unfoldable pub sweep : ℕ → List Snapshot → SnapshotStore → SnapshotStore
unfolding remove
sweep start [] s = s
sweep start (sn ∷ rest) s = sweep start rest (if leb start sn.timestamp then s else remove sn.key s)

-- sync
unfoldable pub sync :
    (String → Result Usage)
    → Result (List Info)
    → (ℕ → ℕ)
    → SnapshotStore
    → SnapshotStore × Option Error
sync usage (err e) clock s = (s, some (wrap "walk all snapshots failed" e))
sync usage (ok infos) clock s =
    let t = refresh_all usage clock 1 infos s in (sweep (clock 0) (list t) t, none)

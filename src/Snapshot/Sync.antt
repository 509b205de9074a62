-- ===== src/Snapshot/Sync.antt =====
-- What a synchronisation leaves in the store.
use cri.Base.{
  ℕ, suc, ◌≤◌, String, ◌≡◌, refl, sym, subst, ◌∙◌, ◌⊎◌, inl, inr, Bool, true, false, not, ◌&&◌,
  Option, none, some, List, [], ◌∷◌, arith, eq_iff, str_eq, if◌then◌else◌, leb, Bool-cases,
}
use cri.Base.GoMap.{
  lookup, insert, delete, values, lookup-insert, lookup-delete, Distinct, insert-Distinct,
}
use cri.Base.Errors.{Result, ok, err}
use cri.Snapshot.{
  Snapshot, SnapshotStore, Info, Usage, list, refresh, refresh_all, refresh_found, store_usage, get,
  kind_eq, active, sweep, sync,
}

-- Each snapshot stands under its own key, and each key once.
abbrev pub IsKeyed : SnapshotStore → Type 0
IsKeyed [] = Unit
IsKeyed ((k, sn) ∷ m) = (sn.key ≡ k) × IsKeyed m

insert-IsKeyed : (sn : Snapshot) (s : SnapshotStore) → IsKeyed s → IsKeyed (insert sn.key sn s)
unfolding insert
insert-IsKeyed sn [] h = (refl, tt)
insert-IsKeyed sn ((k, x) ∷ s) h = ground (arith, insert-IsKeyed sn s)

-- The info names the key.
abbrev pub Named : String → List Info → Type 0
Named k [] = ⊥
Named k (info ∷ rest) = (info.name ≡ k) ⊎ Named k rest

abbrev pub is_fresh : ℕ → Option Snapshot → Bool
is_fresh start none = false
is_fresh start (some sn) = leb start sn.timestamp

is_fresh-some :
    (start : ℕ) (o : Option Snapshot) → is_fresh start o ≡ true → (sn : Snapshot) × (o ≡ some sn)
is_fresh-some start none f = cc
is_fresh-some start (some sn) f = (sn, refl)

-- Some listed snapshot of the key is older than the start.
any_stale : ℕ → String → List Snapshot → Bool
any_stale start k [] = false
any_stale start k (sn ∷ rest) =
    if leb start sn.timestamp
    then any_stale start k rest
    else if str_eq sn.key k
    then true
    else any_stale start k rest

lookup-sweep :
    (start : ℕ) (k : String) (l : List Snapshot) (s : SnapshotStore)
    → lookup k (sweep start l s) ≡ (if any_stale start k l then none else lookup k s)
unfolding sweep any_stale
lookup-sweep start k [] s = refl
lookup-sweep start k (sn ∷ l) s = ground (
  arith,
  lookup-sweep start k l s,
  lookup-sweep start k l (delete sn.key s),
  lookup-delete sn.key k s,
)

any_stale-values :
    (start : ℕ) (k : String) (s : SnapshotStore)
    → IsKeyed s
    → Distinct s
    → any_stale start k (values s)
      ≡ (if is_fresh start (lookup k s) then false else is_fresh 0 (lookup k s))
unfolding any_stale values lookup
any_stale-values start k [] h d = refl
any_stale-values start k ((j, sn) ∷ s) h d =
    ground (arith, any_stale-values start k s, eq_iff j k, eq_iff sn.key k)

lookup-IsKeyed :
    (k : String) (sn : Snapshot) (s : SnapshotStore) → IsKeyed s → lookup k s ≡ some sn → sn.key ≡ k
unfolding lookup
lookup-IsKeyed k sn [] h e = cc
lookup-IsKeyed k sn ((j, x) ∷ s) h e = ground (arith, lookup-IsKeyed k sn s, eq_iff j k)

module _ (usage : String → Result Usage) where
  module _ (P : SnapshotStore → Type 0) (info : Info) (now : ℕ) (s : SnapshotStore) (same : P s)
      (added : (sn : Snapshot)
        → sn.key ≡ info.name
        → sn.timestamp ≡ now
        → P (insert sn.key sn s)) where
    store_usage_cases : (r : Result Usage) → P (store_usage usage info now r s)
    unfolding store_usage
    store_usage_cases (err e) = same
    store_usage_cases (ok u) = added _ refl refl

    refresh_found_cases :
        (r : Result Snapshot)
        → ((sn : Snapshot) → r ≡ ok sn → sn.key ≡ info.name)
        → P (refresh_found usage info now r s)
    unfolding refresh_found
    refresh_found_cases (err e) own = store_usage_cases (usage info.name)
    refresh_found_cases (ok sn) own =
        elim (Bool-cases (kind_eq sn.kind info.kind && not (kind_eq sn.kind active))) [
          | inl b ↦ rw b (added (record sn { timestamp = now }) (own sn refl) refl)
          | inr b ↦ rw b (store_usage_cases (usage info.name))
        ]

    -- A round either leaves the store or adds a snapshot of the walked name with the time read.
    refresh_cases : IsKeyed s → P (refresh usage info now s)
    unfolding refresh
    refresh_cases h =
        refresh_found_cases (get info.name s)
          λ sn e. lookup-IsKeyed info.name sn s h (ground (arith, e))

  refresh-IsKeyed :
      (info : Info) (now : ℕ) (s : SnapshotStore) → IsKeyed s → IsKeyed (refresh usage info now s)
  refresh-IsKeyed info now s h =
      refresh_cases IsKeyed info now s h (λ sn e t. insert-IsKeyed sn s h) h

  refresh-Distinct :
      (info : Info) (now : ℕ) (s : SnapshotStore)
      → IsKeyed s
      → Distinct s
      → Distinct (refresh usage info now s)
  refresh-Distinct info now s h d =
      refresh_cases Distinct info now s d (λ sn e t. insert-Distinct sn.key sn s d) h

  module _ (k : String) where
    refresh_walked :
        (info : Info) (now : ℕ) (s : SnapshotStore) (sn : Snapshot)
        → IsKeyed s
        → lookup k (refresh usage info now s) ≡ some sn
        → (info.name ≡ k) ⊎ (lookup k s ≡ some sn)
    refresh_walked info now s sn h =
        refresh_cases (λ t. lookup k t ≡ some sn → (info.name ≡ k) ⊎ (lookup k s ≡ some sn)) info
          now s (λ e. inr e) (λ x e t. ground (arith, lookup-insert x.key k x s, eq_iff x.key k)) h

    refresh-is_fresh :
        (start : ℕ) (info : Info) (now : ℕ) (s : SnapshotStore)
        → IsKeyed s
        → start ≤ now
        → is_fresh start (lookup k s) ≡ true
        → is_fresh start (lookup k (refresh usage info now s)) ≡ true
    refresh-is_fresh start info now s h le f =
        refresh_cases (λ t. is_fresh start (lookup k t) ≡ true) info now s f
          (λ x e t. ground (arith, lookup-insert x.key k x s, eq_iff x.key k)) h

    store_usage_used :
        (start : ℕ) (info : Info) (now : ℕ) (s : SnapshotStore) (r : Result Usage) (u : Usage)
        → start ≤ now
        → info.name ≡ k
        → r ≡ ok u
        → is_fresh start (lookup k (store_usage usage info now r s)) ≡ true
    unfolding store_usage
    store_usage_used start info now s (err e) u le e' q = cc
    store_usage_used start info now s (ok v) u le e' q = grind (arith, lookup-insert, eq_iff)

    refresh_found_used :
        (start : ℕ) (info : Info) (now : ℕ) (s : SnapshotStore) (u : Usage) (o : Result Snapshot)
        → ((sn : Snapshot) → o ≡ ok sn → sn.key ≡ k)
        → start ≤ now
        → info.name ≡ k
        → usage info.name ≡ ok u
        → is_fresh start (lookup k (refresh_found usage info now o s)) ≡ true
    unfolding refresh_found
    refresh_found_used start info now s u (err e) own le n q =
        store_usage_used start info now s (usage info.name) u le n q
    refresh_found_used start info now s u (ok sn) own le n q = ground (
      arith,
      store_usage_used start info now s (usage info.name) u le n q,
      own sn refl,
      lookup-insert sn.key k (record sn { timestamp = now }) s,
      eq_iff sn.key k,
    )

    refresh_used :
        (start : ℕ) (info : Info) (now : ℕ) (s : SnapshotStore) (u : Usage)
        → IsKeyed s
        → start ≤ now
        → info.name ≡ k
        → usage k ≡ ok u
        → is_fresh start (lookup k (refresh usage info now s)) ≡ true
    unfolding refresh
    refresh_used start info now s u h le n q =
        refresh_found_used start info now s u (get info.name s)
          (λ sn e. lookup-IsKeyed info.name sn s h (ground (arith, e)) ∙ n) le n
          (subst (λ x. usage x ≡ ok u) (sym n) q)

module _ (usage : String → Result Usage) (clock : ℕ → ℕ) (k : String) where
  refresh_all-IsKeyed :
      (infos : List Info) (i : ℕ) (s : SnapshotStore)
      → IsKeyed s
      → IsKeyed (refresh_all usage clock i infos s)
  unfolding refresh_all
  refresh_all-IsKeyed [] i s h = h
  refresh_all-IsKeyed (info ∷ rest) i s h =
      refresh_all-IsKeyed rest (suc i) _ (refresh-IsKeyed usage info (clock i) s h)

  refresh_all-Distinct :
      (infos : List Info) (i : ℕ) (s : SnapshotStore)
      → IsKeyed s
      → Distinct s
      → Distinct (refresh_all usage clock i infos s)
  unfolding refresh_all
  refresh_all-Distinct [] i s h d = d
  refresh_all-Distinct (info ∷ rest) i s h d =
      refresh_all-Distinct rest (suc i) _ (refresh-IsKeyed usage info (clock i) s h)
        (refresh-Distinct usage info (clock i) s h d)

  refresh_all_walked :
      (infos : List Info) (i : ℕ) (s : SnapshotStore) (sn : Snapshot)
      → IsKeyed s
      → lookup k (refresh_all usage clock i infos s) ≡ some sn
      → Named k infos ⊎ (lookup k s ≡ some sn)
  unfolding refresh_all
  refresh_all_walked [] i s sn h e = inr e
  refresh_all_walked (info ∷ rest) i s sn h e = ground (
    arith,
    refresh_all_walked rest (suc i) (refresh usage info (clock i) s) sn
        (refresh-IsKeyed usage info (clock i) s h) e,
    refresh_walked usage k info (clock i) s sn h,
  )

  refresh_all-is_fresh :
      (infos : List Info) (start i : ℕ) (s : SnapshotStore)
      → IsKeyed s
      → ((j : ℕ) → start ≤ clock j)
      → is_fresh start (lookup k s) ≡ true
      → is_fresh start (lookup k (refresh_all usage clock i infos s)) ≡ true
  unfolding refresh_all
  refresh_all-is_fresh [] start i s h mono f = f
  refresh_all-is_fresh (info ∷ rest) start i s h mono f =
      refresh_all-is_fresh rest start (suc i) _ (refresh-IsKeyed usage info (clock i) s h) mono
        (refresh-is_fresh usage k start info (clock i) s h (mono i) f)

  refresh_all_used :
      (infos : List Info) (start i : ℕ) (s : SnapshotStore) (u : Usage)
      → IsKeyed s
      → ((j : ℕ) → start ≤ clock j)
      → usage k ≡ ok u
      → Named k infos
      → is_fresh start (lookup k (refresh_all usage clock i infos s)) ≡ true
  unfolding refresh_all
  refresh_all_used [] start i s u h mono q n = absurd n
  refresh_all_used (info ∷ rest) start i s u h mono q (inl e) =
      refresh_all-is_fresh rest start (suc i) _ (refresh-IsKeyed usage info (clock i) s h) mono
        (refresh_used usage k start info (clock i) s u h (mono i) e q)
  refresh_all_used (info ∷ rest) start i s u h mono q (inr n) =
      refresh_all_used rest start (suc i) _ u (refresh-IsKeyed usage info (clock i) s h) mono q n

  -- Sweeping drops exactly the entries that the walk has not updated.
  lookup-sync :
      (infos : List Info) (s : SnapshotStore)
      → IsKeyed s
      → Distinct s
      → lookup k (sync usage (ok infos) clock s).0 ≡ (
          if is_fresh (clock 0) (lookup k (refresh_all usage clock 1 infos s))
          then lookup k (refresh_all usage clock 1 infos s)
          else none)
  unfolding sync list
  lookup-sync infos s h d = ground (
    arith,
    lookup-sweep (clock 0) k (values (refresh_all usage clock 1 infos s))
        (refresh_all usage clock 1 infos s),
    any_stale-values (clock 0) k (refresh_all usage clock 1 infos s)
        (refresh_all-IsKeyed infos 1 s h) (refresh_all-Distinct infos 1 s h d),
  )

  -- On a store that is keyed by its snapshots' keys, where what is stored under a key is older than the
  -- start of a synchronisation whose walk succeeds, a snapshot that it leaves under the key was named
  -- by the walk and is not older than the start.
  pub sync_walked :
      (infos : List Info) (s : SnapshotStore) (sn : Snapshot)
      → IsKeyed s
      → Distinct s
      → is_fresh (clock 0) (lookup k s) ≡ false
      → lookup k (sync usage (ok infos) clock s).0 ≡ some sn
      → Named k infos × (clock 0 ≤ sn.timestamp)
  sync_walked infos s sn h d old e =
      ground (arith, lookup-sync infos s h d, refresh_all_walked infos 1 s sn h)

  -- With a clock that does not fall below its first reading, a synchronisation whose walk names a key
  -- whose usage can be read leaves a snapshot under the key.
  pub sync_kept :
      (infos : List Info) (s : SnapshotStore) (u : Usage)
      → IsKeyed s
      → Distinct s
      → ((j : ℕ) → clock 0 ≤ clock j)
      → usage k ≡ ok u
      → Named k infos
      → (sn : Snapshot) × (lookup k (sync usage (ok infos) clock s).0 ≡ some sn)
  sync_kept infos s u h d mono q n =
      let fresh = refresh_all_used infos (clock 0) 1 s u h mono q n in
      let found = is_fresh-some (clock 0) (lookup k (refresh_all usage clock 1 infos s)) fresh in
      (found.0, lookup-sync infos s h d ∙ rw fresh found.1)

-- ===== src/Recovery/Directories.antt =====
-- Which directories `cleanupOrphanedIDDirs` removes.
use mathlib.Core.List.{Memᴰ}
use cri.Base.{
  String, ◌≡◌, ◌↔◌, refl, sym, ap, ◌∙◌, subst, inl, inr, Bool, true, false, List, [], ◌∷◌, map,
  arith, eq_iff, str_eq, is_some, Bool-cases,
}
use cri.Base.Members.{mem-keep}
use cri.Base.GoMap.{lookup, lookup-insert}
use cri.Base.Errors.{Result, ok, err}
use cri.Recovery.{entries, ids_map, is_orphan, entry_name, cleanup_orphaned_id_dirs}

mem-ids_map :
    (id : String) (ids : List String) → Memᴰ id ids → is_some (lookup id (ids_map ids)) ≡ true
unfolding ids_map
mem-ids_map id [] m = elim m [ ]
mem-ids_map id (i ∷ ids) (Memᴰ.head q) =
    ground (arith, lookup-insert i id true (ids_map ids), eq_iff i id, q)
mem-ids_map id (i ∷ ids) (Memᴰ.tail m) =
    ground (arith, lookup-insert i id true (ids_map ids), mem-ids_map id ids m)

ids_map-mem :
    (id : String) (ids : List String) → is_some (lookup id (ids_map ids)) ≡ true → Memᴰ id ids
unfolding ids_map lookup
ids_map-mem id [] h = absurd cc
ids_map-mem id (i ∷ ids) h = elim (Bool-cases (str_eq i id)) [
  | inl q ↦ Memᴰ.head (grind (arith, eq_iff i id))
  | inr q ↦ Memᴰ.tail (ids_map-mem id ids (ground (arith, lookup-insert i id true (ids_map ids))))
]

mem-map_names :
    (name : String) (ds : List (String × Bool))
    → Memᴰ name (map entry_name ds)
    → (d : String × Bool) × Memᴰ d ds × (name ≡ d.0)
mem-map_names name [] m = elim m [ ]
mem-map_names name (d ∷ ds) (Memᴰ.head q) = (d, Memᴰ.head refl, q)
mem-map_names name (d ∷ ds) (Memᴰ.tail m) =
    let (d', m', q) = mem-map_names name ds m in (d', Memᴰ.tail m', q)

map_names-mem :
    (d : String × Bool) (ds : List (String × Bool)) → Memᴰ d ds → Memᴰ d.0 (map entry_name ds)
map_names-mem d [] m = elim m [ ]
map_names-mem d (d' ∷ ds) (Memᴰ.head q) = Memᴰ.head (ap entry_name q)
map_names-mem d (d' ∷ ds) (Memᴰ.tail m) = Memᴰ.tail (map_names-mem d ds m)

abbrev pub removed : Result (List String) → List String
removed (ok names) = names
removed (err x) = []

orphan-cases :
    (ids : List String) (d : String × Bool)
    → (is_orphan ids d ≡ true) ↔ ((d.1 ≡ true) × (is_some (lookup d.0 (ids_map ids)) ≡ false))
unfolding is_orphan
orphan-cases ids d = (ground arith, ground arith)

true_not_false : ◌≡◌ {A = Bool} true false → ⊥
true_not_false q = absurd cc

not_known :
    (ids : List String) (name : String)
    → (Memᴰ name ids → ⊥)
    → is_some (lookup name (ids_map ids)) ≡ false
not_known ids name unknown = elim (Bool-cases (is_some (lookup name (ids_map ids)))) [
  | inl h ↦ absurd (unknown (ids_map-mem name ids h))
  | inr h ↦ h
]

true_name : (d : String × Bool) (name : String) → name ≡ d.0 → d.1 ≡ true → d ≡ (name, true)
true_name d name q h = cc

-- In a base directory that can be read, the cleanup removes the directories that bear the id of no
-- container of the list, and nothing else: no file, and no directory of a container.
pub cleanup_orphaned_id_dirs_lem :
    (ids : List String) (ds : List (String × Bool)) (name : String)
    → Memᴰ name (removed (cleanup_orphaned_id_dirs ids (entries ds)))
      ↔ (Memᴰ (name, true) ds × (Memᴰ name ids → ⊥))
unfolding cleanup_orphaned_id_dirs
cleanup_orphaned_id_dirs_lem ids ds name = (
  (λ m.
      let (d, kept, q) = mem-map_names name _ m in
      let (here, orphan) = (mem-keep (is_orphan ids) d ds).0 kept in
      let (is_dir, unknown) = (orphan-cases ids d).0 orphan in
      (
        subst (λ x. Memᴰ x ds) (true_name d name q is_dir) here,
        λ known. true_not_false (sym (mem-ids_map name ids known) ∙ rw q unknown),
      )),
  λ (here, unknown).
      map_names-mem (name, true) _
        ((mem-keep (is_orphan ids) (name, true) ds).1
          (here, (orphan-cases ids (name, true)).1 (refl, not_known ids name unknown))),
)

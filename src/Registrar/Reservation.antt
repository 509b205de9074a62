-- ===== src/Registrar/Reservation.antt =====
-- What a client of the registrar sees: when `Reserve` succeeds, and what it and the releases change.
use cri.Base.{
  inl, inr, Option-cases, String, ◌≡◌, ◌≢◌, ◌↔◌, ◌⊎◌, none, some, arith, eq_iff, str_eq,
  if◌then◌else◌,
}
use cri.Base.GoMap.{lookup, insert, lookup-insert, lookup-delete, lookup-insert_self, str_eq_refl}
use cri.Base.Errors.{Error}
use cri.Registrar.{Registrar, reserve, release_by_key, release_by_name}
use cri.Registrar.Bijection.{IsBijection}

-- The pair is held already, or the name and the key are both free.
abbrev pub IsFree : String → String → Registrar → Type 0
IsFree name key r =
    (lookup name r.name_to_key ≡ some key)
    ⊎ ((lookup name r.name_to_key ≡ none) × (lookup key r.key_to_name ≡ none))

-- On a registrar whose maps are inverse, `Reserve` succeeds exactly for a non-empty name and a
-- non-empty key that are held for each other already or are both free.
pub reserve_succeeds :
    (name key : String) (r : Registrar)
    → IsBijection r
    → ((reserve name key r).1 ≡ none) ↔ ((name ≢ "") × (key ≢ "") × IsFree name key r)
unfolding reserve
reserve_succeeds name key r b = (grind (arith, eq_iff, b.back), grind (arith, eq_iff, b.back))

-- The reservation was made, and every other name and key is as it was.
abbrev pub IsReserved : String → String → String → String → Registrar → Registrar → Type 0
IsReserved name key n k r r' =
    (lookup n r'.name_to_key ≡ (if str_eq name n then some key else lookup n r.name_to_key))
    × (lookup k r'.key_to_name ≡ (if str_eq key k then some name else lookup k r.key_to_name))

-- The reservation was released, and every other name and key is as it was.
abbrev pub IsReleased : String → String → String → String → Registrar → Registrar → Type 0
IsReleased name key n k r r' =
    (lookup n r'.name_to_key ≡ (if str_eq name n then none else lookup n r.name_to_key))
    × (lookup k r'.key_to_name ≡ (if str_eq key k then none else lookup k r.key_to_name))

-- On a registrar whose maps are inverse, `Reserve` either returns no error, and then the pair is held
-- both ways and every other name and key is as it was; or it returns an error and changes nothing.
pub reserve_effect :
    (name key n k : String) (r : Registrar)
    → IsBijection r
    → (((reserve name key r).1 ≡ none) × IsReserved name key n k r (reserve name key r).0)
      ⊎ ((e : Error) × (reserve name key r ≡ (r, some e)))
unfolding reserve
reserve_effect name key n k r b = elim (Option-cases (reserve name key r).1) [
  | inl h ↦ inl (
    h,
    (
      grind (arith, eq_iff, lookup-insert name n key r.name_to_key),
      grind (arith, eq_iff, b.forth name key, lookup-insert key k name r.key_to_name),
    ),
  )
  | inr (e, h) ↦ inr (e, grind (arith, eq_iff))
]

-- On a registrar whose maps are inverse, both releases end the same reservation: a release by a key
-- that is held frees the key and its name and nothing else, and so does a release by that name; a
-- release by a key that is not held changes nothing.
pub release_effect :
    (key n k : String) (r : Registrar)
    → IsBijection r
    → ((lookup key r.key_to_name ≡ none) × (release_by_key key r ≡ r))
      ⊎ ((name : String) × (lookup key r.key_to_name ≡ some name)
          × (release_by_name name r ≡ release_by_key key r)
          × IsReleased name key n k r (release_by_key key r))
unfolding release_by_key release_by_name
release_effect key n k r b = elim (Option-cases (lookup key r.key_to_name)) [
  | inl e ↦ inl (e, rw (e, release_by_key))
  | inr (name, e) ↦ inr (
    name,
    e,
    rw (b.back name key e, e, release_by_name, release_by_key),
    rw (e, release_by_key) (lookup-delete name n r.name_to_key, lookup-delete key k r.key_to_name),
  )
]

-- A reservation for a key that held none, ended by its name, leaves every name and key as it was.
pub release-reserve :
    (name key n k : String) (r : Registrar)
    → IsBijection r
    → lookup key r.key_to_name ≡ none
    → (reserve name key r).1 ≡ none
    → let r' = release_by_name name (reserve name key r).0 in
      (lookup n r'.name_to_key ≡ lookup n r.name_to_key)
      × (lookup k r'.key_to_name ≡ lookup k r.key_to_name)
unfolding reserve release_by_name
release-reserve name key n k r b fresh h = (
  grind (
    arith,
    eq_iff,
    str_eq_refl,
    b.forth,
    lookup-insert_self name key r.name_to_key,
    lookup-insert name n key r.name_to_key,
    lookup-delete name n (insert name key r.name_to_key),
  ),
  grind (
    arith,
    eq_iff,
    str_eq_refl,
    b.forth,
    lookup-insert_self name key r.name_to_key,
    lookup-insert key k name r.key_to_name,
    lookup-delete key k (insert key name r.key_to_name),
  ),
)

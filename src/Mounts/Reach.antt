-- ===== src/Mounts/Reach.antt =====
-- When the source of a mount can pass its mounts on: `ensureShared` and `ensureSharedOrSlave`.
use mathlib.Core.List.{Memᴰ}
use text.Mathlib.TextBridge.{IsPrefix}
use text.Mathlib.TextEquality.{starts_with_iff}
use text.Mathlib.Text.{starts_with}
use cri.Base.{
  String, ◌≡◌, refl, sym, ap, ◌∙◌, ◌⊎◌, inl, inr, none, some, List, [], ◌∷◌, Bool, true, ◌↔◌,
  if◌then◌else◌, str_eq, arith, Bool-cases,
}
use cri.Base.Errors.{Error, Result, ok, err, failure, Result-cases}
use cri.Mounts.{
  split, Propagation, private, host_to_container, bidirectional, unknown_mode, MountInfo, Paths, Os,
  has_option, is_shared, is_shared_or_slave, ensure, propagate, when_ensured,
}

-- The optional fields of a mount that is shared, and of one that is a slave.
abbrev pub IsShared : String → Type 0
IsShared o = IsPrefix "shared:" o

abbrev pub IsSharedOrSlave : String → Type 0
IsSharedOrSlave o = IsPrefix "shared:" o ⊎ IsPrefix "master:" o

module _ (x : Paths) where
  has_option-mem :
      (p : String → Bool) (l : List String)
      → has_option x p l ≡ true
      → (o : String) × Memᴰ o l × (p o ≡ true)
  unfolding has_option
  has_option-mem p [] h = absurd cc
  has_option-mem p (o ∷ l) h = elim (Bool-cases (p o)) [
    | inl q ↦ (o, Memᴰ.head refl, q)
    | inr q ↦ let (o', m, q') = has_option-mem p l (ground (arith, q, h)) in (o', Memᴰ.tail m, q')
  ]

  mem-has_option :
      (p : String → Bool) (l : List String) (o : String)
      → Memᴰ o l
      → p o ≡ true
      → has_option x p l ≡ true
  unfolding has_option
  mem-has_option p [] o m h = elim m [ ]
  mem-has_option p (a ∷ l) o (Memᴰ.head q) h = rw⁻¹ q (rw h refl)
  mem-has_option p (a ∷ l) o (Memᴰ.tail m) h =
      let rest = mem-has_option p l o m h in ground (arith, rest)

  is_shared-IsShared : (o : String) → (is_shared x o ≡ true) ↔ IsShared o
  is_shared-IsShared o = starts_with_iff o "shared:"

  is_shared-IsSharedOrSlave : (o : String) → (is_shared_or_slave x o ≡ true) ↔ IsSharedOrSlave o
  is_shared-IsSharedOrSlave o = (
    (λ h. elim (Bool-cases (starts_with o "shared:")) [
      | inl q ↦ inl ((starts_with_iff o "shared:").0 q)
      | inr q ↦ inr ((starts_with_iff o "master:").0 (ground (arith, q, h)))
    ]),
    (λ h. elim h [
      | inl p ↦ let q = (starts_with_iff o "shared:").1 p in rw q refl
      | inr p ↦ let q = (starts_with_iff o "master:").1 p in ground (arith, q)
    ]),
  )

module _ (x : Paths) (os : Os) (mount_label : String) where
  -- One of the optional fields of the mount that the source is on is as asked.
  abbrev pub HasField : (String → Type 0) → String → os.State → Type 0
  HasField Q src st =
      (i : MountInfo) × (os.lookup_mount src st ≡ ok i)
      × (o : String) × Memᴰ o (split i.optional)
      × Q o

  -- The source can pass its mounts on as the propagation asks.
  abbrev pub Reaches : Propagation → String → os.State → Type 0
  Reaches private src st = Unit
  Reaches bidirectional src st = HasField IsShared src st
  Reaches host_to_container src st = HasField IsSharedOrSlave src st
  Reaches unknown_mode src st = Unit

  abbrev pub propagation_option : Propagation → String
  propagation_option private = "rprivate"
  propagation_option bidirectional = "rshared"
  propagation_option host_to_container = "rslave"
  propagation_option unknown_mode = "rprivate"

  -- The propagation of the root file system after a mount: shared is above slave.
  abbrev pub root_after : Propagation → String → String
  root_after private root = root
  root_after bidirectional root = "rshared"
  root_after host_to_container root =
      if str_eq root "rshared" then root else if str_eq root "rslave" then root else "rslave"
  root_after unknown_mode root = root

  ensure_cases :
      (p : String → Bool) (Q : String → Type 0) (src : String) (st : os.State)
      → ((o : String) → (p o ≡ true) ↔ Q o)
      → ((ensure x p (os.lookup_mount src st) ≡ none) × HasField Q src st)
        ⊎ ((e : Error) × (ensure x p (os.lookup_mount src st) ≡ some e) × ¬ HasField Q src st)
  unfolding ensure
  ensure_cases p Q src st same = elim (Result-cases (os.lookup_mount src st)) [
    | inr (e, q) ↦ inr (e, rw q refl, λ (i, r, _, _, _). cc)
    | inl (i, q) ↦ elim (Bool-cases (has_option x p (split i.optional))) [
      | inl h ↦
          let (o, m, t) = has_option-mem x p (split i.optional) h in
          inl (rw (q, h) refl, (i, q, o, m, (same o).0 t))
      | inr h ↦ inr (
        failure "path is mounted but it is not a shared mount",
        rw (q, h) refl,
        λ (i', r, o, m, t).
            let here : ok i ≡ ok i' = sym q ∙ r in
            let fields : split i.optional ≡ split i'.optional =
              ap (λ (u : Result MountInfo). elim u [ ok v ↦ split v.optional | err e ↦ [] ]) here in
            let set = mem-has_option x p (split i.optional) o (rw fields m) ((same o).1 t) in cc,
      )
    ]
  ]

  pub propagate_cases :
      (p : Propagation) (src root : String) (st : os.State)
      → ((e : Error) × (propagate x os mount_label p src root st ≡ err e) × ¬ Reaches p src st)
        ⊎ ((propagate x os mount_label p src root st ≡ ok (propagation_option p, root_after p root))
            × Reaches p src st)
  unfolding propagate when_ensured
  propagate_cases private src root st = inr (refl, tt)
  propagate_cases unknown_mode src root st = inr (refl, tt)
  propagate_cases bidirectional src root st =
      elim (ensure_cases (is_shared x) IsShared src st (is_shared-IsShared x)) [
        | inl (q, r) ↦ inr (rw q refl, r)
        | inr (e, q, n) ↦ inl (e, rw q refl, n)
      ]
  propagate_cases host_to_container src root st =
      elim (ensure_cases (is_shared_or_slave x) IsSharedOrSlave src st
        (is_shared-IsSharedOrSlave x)) [
          | inl (q, r) ↦ inr (rw q refl, r)
          | inr (e, q, n) ↦ inl (e, rw q refl, n)
        ]

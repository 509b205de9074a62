-- ===== src/Label.antt =====
-- pkg/store/label/label.go: reference counts for SELinux levels. `selinux.NewContext(label)["level"]`
-- is the parameter `level_of`; the callbacks `Reserver` and `Releaser` are logged, newest first.
-- A count is an `int` that starts at 1 and falls only from above 1, so it is a natural number here.
pub mod Counts
use cri.Base.{
  ℕ, ◌+◌, ◌-◌, String, ◌≡◌, refl, inl, inr, arith, Bool-cases, Option, none, some, List, [], ◌∷◌,
  if◌then◌else◌, str_eq, ltb, ◌==◌,
}
use cri.Base.GoMap.{Map, lookup, insert, delete}
use cri.Base.Errors.{Error, Result, ok, err}

-- A call of `Reserver` or of `Releaser`.
pub data Callback : Type 0 where
  reserver releaser : String → Callback

-- Store
pub record LabelStore : Type 0 where
  pub levels : Map ℕ
  pub callbacks : List Callback

-- NewStore
unfoldable pub new_label_store : LabelStore
new_label_store = record { levels = []; callbacks = [] }

-- `if _, ok := s.levels[level]; !ok { s.Reserver(label) }; s.levels[level]++`
count_up : String → String → Option ℕ → LabelStore → LabelStore
count_up label level none s = record {
  levels = insert level 1 s.levels;
  callbacks = reserver label ∷ s.callbacks;
}
count_up label level (some n) s = record s { levels = insert level (n + 1) s.levels }

-- The `switch` of `Release`.
count_down : String → String → Option ℕ → LabelStore → LabelStore
count_down label level none s = s
count_down label level (some count) s =
    if count == 1
    then record { levels = delete level s.levels; callbacks = releaser label ∷ s.callbacks }
    else if ltb count 1
    then record s { levels = delete level s.levels }
    else record s { levels = insert level (count - 1) s.levels }

reserve_level : String → Result String → LabelStore → LabelStore × Option Error
unfolding count_up
reserve_level label (err e) s = (s, some e)
reserve_level label (ok level) s =
    if str_eq level "" then (s, none) else (count_up label level (lookup level s.levels) s, none)

release_level : String → Result String → LabelStore → LabelStore
unfolding count_down
release_level label (err e) s = s
release_level label (ok level) s =
    if str_eq level "" then s else count_down label level (lookup level s.levels) s

-- One call of a client.
pub data Call : Type 0 where
  reserves releases : String → Call

module _ (level_of : String → Result String) where
  -- Reserve
  unfoldable pub reserve : String → LabelStore → LabelStore × Option Error
  unfolding reserve_level
  reserve label s = reserve_level label (level_of label) s

  -- Release
  unfoldable pub release : String → LabelStore → LabelStore
  unfolding release_level
  release label s = release_level label (level_of label) s

  reserve_level-err :
      (label : String) (q : Result String) (s : LabelStore) (x : Error)
      → (reserve_level label q s).1 ≡ some x
      → (reserve_level label q s).0 ≡ s
  unfolding reserve_level
  reserve_level-err label (err e) s x h = refl
  reserve_level-err label (ok level) s x h = elim (Bool-cases (str_eq level "")) [
    | inl q ↦ rw q refl
    | inr q ↦ absurd (ground (arith, q, h))
  ]

  -- A label that cannot be reserved changes nothing.
  pub reserve-err :
      (label : String) (s : LabelStore) (x : Error)
      → (reserve label s).1 ≡ some x
      → (reserve label s).0 ≡ s
  unfolding reserve
  reserve-err label s x h = reserve_level-err label (level_of label) s x h

  pub step : LabelStore → Call → LabelStore
  step s (reserves label) = (reserve label s).0
  step s (releases label) = release label s

  pub run : LabelStore → List Call → LabelStore
  run s [] = s
  run s (c ∷ cs) = run (step s c) cs

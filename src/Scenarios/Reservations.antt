-- ===== src/Scenarios/Reservations.antt =====
-- Runs of the registrar and of the label store.
use cri.Base.{String, ◌≡◌, ◌≢◌, ◌↔◌, ◌⊎◌, none, some, List, [], ◌∷◌}
use cri.Base.GoMap.{lookup}
use cri.Base.Errors.{Error, Result, ok}
use cri.Registrar
use cri.Registrar.{
  Registrar, new_registrar, reserve, release_by_key, release_by_name, reserves, releases_key,
}
use cri.Registrar.Bijection.{IsBijection, run-IsBijection}
use cri.Registrar.Reservation.{
  IsFree, IsReserved, IsReleased, reserve_succeeds, reserve_effect, release_effect,
}
use cri.Label
use cri.Label.{new_label_store, releases}
use cri.Label.Counts.{Inv, outstanding, run_counts}

abbrev two_calls : List Registrar.Call
two_calls = reserves "web" "c1" ∷ reserves "db" "c2" ∷ []

abbrev two_names : Registrar
two_names = Registrar.run new_registrar two_calls

run-IsBijection_example : IsBijection two_names
run-IsBijection_example = run-IsBijection two_calls

reserve_succeeds_example :
    ((reserve "cache" "c3" two_names).1 ≡ none)
    ↔ ((◌≢◌ {A = String} "cache" "") × (◌≢◌ {A = String} "c3" "") × IsFree "cache" "c3" two_names)
reserve_succeeds_example = reserve_succeeds "cache" "c3" two_names (run-IsBijection two_calls)

reserve_effect_example :
    (((reserve "web" "c3" two_names).1 ≡ none)
      × IsReserved "web" "c3" "db" "c1" two_names (reserve "web" "c3" two_names).0)
    ⊎ ((e : Error) × (reserve "web" "c3" two_names ≡ (two_names, some e)))
reserve_effect_example = reserve_effect "web" "c3" "db" "c1" two_names (run-IsBijection two_calls)

release_effect_example :
    ((lookup "c1" two_names.key_to_name ≡ none) × (release_by_key "c1" two_names ≡ two_names))
    ⊎ ((name : String) × (lookup "c1" two_names.key_to_name ≡ some name)
        × (release_by_name name two_names ≡ release_by_key "c1" two_names)
        × IsReleased name "c1" "web" "c2" two_names (release_by_key "c1" two_names))
release_effect_example = release_effect "c1" "web" "c2" two_names (run-IsBijection two_calls)

-- The level of a label that is its own level.
abbrev pub own_level : String → Result String
own_level label = ok label

abbrev label_calls : List Label.Call
label_calls = Label.reserves "s0:c1" ∷ Label.reserves "s0:c1" ∷ Label.releases "s0:c1" ∷ []

run_counts_example :
    Inv own_level "s0:c1"
      (outstanding own_level "s0:c1" 0 label_calls)
      (Label.run own_level new_label_store label_calls)
run_counts_example = run_counts own_level "s0:c1" label_calls

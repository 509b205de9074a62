-- ===== src/Scenarios/Updates.antt =====
-- Runs of the update of a container's resources.
use cri.Base.{ℕ, ◌≡◌, refl, none, some}
use cri.Base.Errors.{Result, ok, failure}
use cri.Container.Status.{Status}
use cri.Container.Create.{created_status}
use cri.Container.Update.{UpdateWorld, Limits, update_resources}
use cri.Container.Update.Effect.{UpdateOutcome, update_resources_effect}

-- The specification holds a limit, and a request sets it.
abbrev set_limit : ℕ → ℕ → Result ℕ
set_limit limit spec = ok limit

abbrev limit_of : ℕ → ℕ
limit_of spec = spec

abbrev limits : Limits ℕ ℕ ℕ set_limit limit_of
limits = record { spec = 100; applied = 100 }

abbrev pub running_status : Status
running_status = record (created_status 5) {
  fields = record (created_status 5).fields { started_at = 6 };
}

abbrev refused_update : UpdateWorld
refused_update = record {
  spec = none;
  marshal = none;
  write = none;
  marshal_old = none;
  write_old = none;
  task = none;
  update = some (failure "cgroup is busy");
}

restores_limits :
    (update_resources ℕ ℕ ℕ set_limit limit_of refused_update 200 running_status limits).1 ≡ limits
unfolding update_resources cri.Container.Status.state
restores_limits = refl

update_resources_effect_example :
    let (s, l, e) =
      update_resources ℕ ℕ ℕ set_limit limit_of refused_update 200 running_status limits in
    (s ≡ running_status)
    × UpdateOutcome ℕ ℕ ℕ set_limit limit_of refused_update 200 running_status limits (l, e)
update_resources_effect_example =
    update_resources_effect ℕ ℕ ℕ set_limit limit_of refused_update 200 running_status limits

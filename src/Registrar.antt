-- ===== src/Registrar.antt =====
-- pkg/registrar/registrar.go: one-to-one reservations of names for keys. The lock makes each
-- method one atomic step, so a method is a function from the registrar to the next one.
pub mod Bijection
pub mod Reservation
use cri.Base.{String, ◌||◌, Option, none, some, if◌then◌else◌, str_eq, List, [], ◌∷◌}
use cri.Base.GoMap.{Map, lookup, insert, delete}
use cri.Base.Errors.{Error, failure}

pub record Registrar : Type 0 where
  pub name_to_key : Map String
  pub key_to_name : Map String

-- NewRegistrar
unfoldable pub new_registrar : Registrar
new_registrar = record { name_to_key = []; key_to_name = [] }

-- The second test of `Reserve` and what follows it, for a name that is not reserved.
reserve_key : String → String → Option String → Registrar → Registrar × Option Error
reserve_key name key (some n) r =
    if str_eq n name then (r, none) else (r, some (failure "key is reserved"))
reserve_key name key none r = (
  record {
    name_to_key = insert name key r.name_to_key;
    key_to_name = insert key name r.key_to_name;
  },
  none,
)

reserve_name : String → String → Option String → Registrar → Registrar × Option Error
unfolding reserve_key
reserve_name name key (some k) r =
    if str_eq k key then (r, none) else (r, some (failure "name is reserved"))
reserve_name name key none r = reserve_key name key (lookup key r.key_to_name) r

-- Reserve
unfoldable pub reserve : String → String → Registrar → Registrar × Option Error
unfolding reserve_name
reserve name key r =
    if str_eq name "" || str_eq key ""
    then (r, some (failure "invalid name or key"))
    else reserve_name name key (lookup name r.name_to_key) r

-- The two `delete` calls that end both release methods.
unlink : String → String → Registrar → Registrar
unlink name key r = record {
  name_to_key = delete name r.name_to_key;
  key_to_name = delete key r.key_to_name;
}

-- ReleaseByName
unfoldable pub release_by_name : String → Registrar → Registrar
unfolding unlink
release_by_name name r = elim (lookup name r.name_to_key) [
  | none ↦ r
  | some key ↦ unlink name key r
]

-- ReleaseByKey
unfoldable pub release_by_key : String → Registrar → Registrar
unfolding unlink
release_by_key key r = elim (lookup key r.key_to_name) [ none ↦ r | some name ↦ unlink name key r ]

-- One call of a client.
pub data Call : Type 0 where
  reserves : String → String → Call
  releases_name releases_key : String → Call

pub step : Registrar → Call → Registrar
step r (reserves name key) = (reserve name key r).0
step r (releases_name name) = release_by_name name r
step r (releases_key key) = release_by_key key r

pub run : Registrar → List Call → Registrar
run r [] = r
run r (c ∷ cs) = run (step r c) cs

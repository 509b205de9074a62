-- ===== src/Registrar/Bijection.antt =====
-- The two maps of a registrar stay inverse to each other, through every method.
use cri.Base.{String, ◌≡◌, List, [], ◌∷◌, some, arith, eq_iff, Option-cases, inl, inr}
use cri.Base.GoMap.{lookup, lookup-insert, lookup-delete}
use cri.Registrar.{
  Registrar, new_registrar, reserve, unlink, release_by_name, release_by_key, Call, reserves,
  releases_name, releases_key, step, run,
}

-- Names and keys map to each other, and neither is empty.
pub record IsBijection (r : Registrar) : Type 0 where
  pub forth : (n k : String) → lookup n r.name_to_key ≡ some k → lookup k r.key_to_name ≡ some n
  pub back : (n k : String) → lookup k r.key_to_name ≡ some n → lookup n r.name_to_key ≡ some k

pub new_registrar-IsBijection : IsBijection new_registrar
unfolding new_registrar lookup
new_registrar-IsBijection = record { forth = λ n k h. cc; back = λ n k h. cc }

pub reserve-IsBijection :
    (name key : String) (r : Registrar) → IsBijection r → IsBijection (reserve name key r).0
unfolding reserve
reserve-IsBijection name key r b = record {
  forth = λ n k. ground (
    arith,
    lookup-insert name n key r.name_to_key,
    lookup-insert key k name r.key_to_name,
    eq_iff name n,
    eq_iff key k,
    b.forth n k,
    b.back name key,
  );
  back = λ n k. ground (
    arith,
    lookup-insert name n key r.name_to_key,
    lookup-insert key k name r.key_to_name,
    eq_iff name n,
    eq_iff key k,
    b.back n k,
    b.forth name key,
  );
}

unlink-IsBijection :
    (name key : String) (r : Registrar)
    → IsBijection r
    → lookup name r.name_to_key ≡ some key
    → IsBijection (unlink name key r)
unfolding unlink
unlink-IsBijection name key r b held = record {
  forth = λ n k. ground (
    arith,
    lookup-delete name n r.name_to_key,
    lookup-delete key k r.key_to_name,
    eq_iff name n,
    eq_iff key k,
    b.forth n k,
    b.forth name key,
  );
  back = λ n k. ground (
    arith,
    lookup-delete name n r.name_to_key,
    lookup-delete key k r.key_to_name,
    eq_iff name n,
    eq_iff key k,
    b.back n k,
    b.forth name key,
  );
}

release_by_name-IsBijection :
    (name : String) (r : Registrar) → IsBijection r → IsBijection (release_by_name name r)
unfolding release_by_name
release_by_name-IsBijection name r b = elim (Option-cases (lookup name r.name_to_key)) [
  | inl e ↦ rw (e, release_by_name) b
  | inr (key, e) ↦ rw (e, release_by_name) (unlink-IsBijection name key r b e)
]

release_by_key-IsBijection :
    (key : String) (r : Registrar) → IsBijection r → IsBijection (release_by_key key r)
unfolding release_by_key
release_by_key-IsBijection key r b = elim (Option-cases (lookup key r.key_to_name)) [
  | inl e ↦ rw (e, release_by_key) b
  | inr (name, e) ↦ rw (e, release_by_key) (unlink-IsBijection name key r b (b.back name key e))
]

step-IsBijection : (r : Registrar) (c : Call) → IsBijection r → IsBijection (step r c)
unfolding step
step-IsBijection r (reserves name key) b = reserve-IsBijection name key r b
step-IsBijection r (releases_name name) b = release_by_name-IsBijection name r b
step-IsBijection r (releases_key key) b = release_by_key-IsBijection key r b

run_from-IsBijection : (r : Registrar) (cs : List Call) → IsBijection r → IsBijection (run r cs)
unfolding run
run_from-IsBijection r [] b = b
run_from-IsBijection r (c ∷ cs) b = run_from-IsBijection (step r c) cs (step-IsBijection r c b)

-- After any sequence of calls on a new registrar, successful or refused, a name is reserved for a
-- key exactly when the key is reserved for the name.
pub run-IsBijection : (cs : List Call) → IsBijection (run new_registrar cs)
run-IsBijection cs = run_from-IsBijection new_registrar cs new_registrar-IsBijection

-- ===== src/Sandbox/Remove.antt =====
-- `RemovePodSandbox` of pkg/server/sandbox_remove.go, with the store of sandboxes and the registrar
-- of their names. The stop of the sandbox and the removal of a container are arguments; `S` is the
-- rest of the service, which they change.
use cri.Base.{
  String, ◌≡◌, refl, ap, subst, ◌≢◌, ◌⊎◌, inl, inr, Bool, true, false, arith, Option, none, some,
  List, if◌then◌else◌,
}
use cri.Base.Errors.{
  Error, Result, ok, err, is_not_found, is_not_exist, wrap, failure, not_exist, already_exist,
}
use cri.IdStore.{Stored, Store, get, remove}
use cri.IdStore.Index.{TruncIndex}
use cri.Registrar.{Registrar, release_by_key}
use cri.Sandbox.{State, ready, not_ready, unknown}
use cri.Sandbox.Stop.{check, must_stop, for_sandbox, ActedOn, for_sandbox-ActedOn}

pub record RemoveWorld : Type 0 where
  pub closed : Option (Result Bool)  -- `sandbox.NetNS.Closed`, where there is a namespace
  pub remove_root : Option Error  -- `ensureRemoveAll` of the root directory
  pub remove_volatile : Option Error  -- `ensureRemoveAll` of the volatile root directory
  pub delete : Option Error  -- `sandbox.Container.Delete` with its snapshot

-- Only a namespace that is closed may go.
abbrev network_error : Option (Result Bool) → Option Error
network_error none = none
network_error (some (err e)) = some (wrap "failed to check sandbox network namespace closed" e)
network_error (some (ok closed)) =
    if closed then none else some (failure "sandbox network namespace is not fully closed")

abbrev ignore_not_found : Option Error → Option Error
ignore_not_found none = none
ignore_not_found (some e) = if is_not_found e then none else some e

-- The steps after the containers are removed.
unfoldable pub clean_up : RemoveWorld → Option Error
clean_up w = check "failed to remove sandbox root directory" w.remove_root (
    check "failed to remove volatile sandbox root directory" w.remove_volatile
      (check "failed to delete sandbox container" (ignore_not_found w.delete) none))

-- Containerd has no such container any more.
abbrev pub Gone : Option Error → Type 0
Gone o = (o ≡ none) ⊎ ((e : Error) × (o ≡ some e) × (is_not_found e ≡ true))

ignored-Gone : (o : Option Error) → ignore_not_found o ≡ none → Gone o
ignored-Gone none h = inl refl
ignored-Gone (some e) h = inr (e, refl, ground (arith, h))

clean_up-Gone :
    (w : RemoveWorld)
    → clean_up w ≡ none
    → (w.remove_root ≡ none) × (w.remove_volatile ≡ none) × Gone w.delete
unfolding clean_up
clean_up-Gone w h =
    (ground (arith, h), ground (arith, h), ignored-Gone w.delete (ground (arith, h)))

network_error-Closed :
    (o : Option (Result Bool)) → network_error o ≡ none → (o ≡ none) ⊎ (o ≡ some (ok true))
network_error-Closed none h = inl refl
network_error-Closed (some (err e)) h = absurd cc
network_error-Closed (some (ok true)) h = inr refl
network_error-Closed (some (ok false)) h = absurd cc

module _ (t : TruncIndex) (level_of : String → Result String) {A : Type 0} (e : Stored A)
    {S C : Type 0} (sandbox_id : C → String) (remove_container : C → S → S × Option Error)
    (stop : A → S → S × Option Error) (state_of : A → S → State) (list : S → List C) where
  pub record Service : Type 0 where
    pub sandboxes : Store t level_of e
    pub names : Registrar
    pub rest : S

  -- `c.sandboxStore.Delete(id)` and `c.sandboxNameIndex.ReleaseByKey(id)`
  forget : A → Service → Service
  forget a s = record s {
    sandboxes = remove t level_of e (e.id a) s.sandboxes;
    names = release_by_key (e.id a) s.names;
  }

  after_clean_up : A → Option Error → Service → Service × Option Error
  unfolding forget
  after_clean_up a (some x) s = (s, some x)
  after_clean_up a none s = (forget a s, none)

  after_containers : RemoveWorld → A → S × Option Error → Service → Service × Option Error
  unfolding after_clean_up
  after_containers w a (rest, some x) s = (record s { rest = rest }, some x)
  after_containers w a (rest, none) s = after_clean_up a (clean_up w) (record s { rest = rest })

  after_network : RemoveWorld → A → Option Error → Service → Service × Option Error
  unfolding after_containers
  after_network w a (some x) s = (s, some x)
  after_network w a none s =
      after_containers w a
        (for_sandbox sandbox_id remove_container "failed to remove container" (e.id a) (list s.rest)
          s.rest)
        s

  after_stop : RemoveWorld → A → S × Option Error → Service → Service × Option Error
  unfolding after_network
  after_stop w a (rest, some x) s =
      (record s { rest = rest }, some (wrap "failed to forcibly stop sandbox" x))
  after_stop w a (rest, none) s =
      after_network w a (network_error w.closed) (record s { rest = rest })

  abbrev pub stop_if_needed : A → S → S × Option Error
  stop_if_needed a rest = if must_stop (state_of a rest) then stop a rest else (rest, none)

  remove_found : RemoveWorld → Result A → Service → Service × Option Error
  unfolding after_stop
  remove_found w (err x) s = (
    s,
    if is_not_exist x then none else some (wrap "an error occurred when try to find sandbox" x),
  )
  remove_found w (ok a) s = after_stop w a (stop_if_needed a s.rest) s

  -- RemovePodSandbox
  unfoldable pub remove_pod_sandbox : RemoveWorld → String → Service → Service × Option Error
  unfolding remove_found
  remove_pod_sandbox w id s = remove_found w (get t level_of e id s.sandboxes) s

  -- A sandbox that is ready or unknown was stopped, which left `rest`; one that is not ready was not.
  abbrev pub Stopped : A → S → S → Type 0
  Stopped a s rest =
      ((state_of a s ≢ not_ready) × (stop a s ≡ (rest, none)))
      ⊎ ((state_of a s ≡ not_ready) × (rest ≡ s))

  -- The sandbox was forgotten after all that it holds was removed.
  pub record Removed (w : RemoveWorld) (a : A) (s s' : Service) : Type 0 where
    pub after_stop : S
    pub stopped : Stopped a s.rest after_stop
    pub network_closed : (w.closed ≡ none) ⊎ (w.closed ≡ some (ok true))
    pub containers_removed :
        ActedOn sandbox_id remove_container (e.id a) (list after_stop) after_stop s'.rest
    pub root : w.remove_root ≡ none
    pub volatile : w.remove_volatile ≡ none
    pub deleted : Gone w.delete
    pub store : s'.sandboxes ≡ remove t level_of e (e.id a) s.sandboxes
    pub names : s'.names ≡ release_by_key (e.id a) s.names

  -- The sandbox is still known, with its name.
  abbrev pub Kept : Service → Service × Option Error → Type 0
  Kept s r = (r.1 ≢ none) × (r.0.sandboxes ≡ s.sandboxes) × (r.0.names ≡ s.names)

  stopped_in :
      {a : A} {s : S} (x : State)
      → state_of a s ≡ x
      → (if must_stop x then stop a s else (s, none)).1 ≡ none
      → Stopped a s (if must_stop x then stop a s else (s, none)).0
  stopped_in {a} {s} ready q h = inl (rw q (λ n. cc), ap (λ o. ((stop a s).0, o)) h)
  stopped_in {a} {s} unknown q h = inl (rw q (λ n. cc), ap (λ o. ((stop a s).0, o)) h)
  stopped_in not_ready q h = inr (q, refl)

  stop_if_needed-Stopped :
      (a : A) (s : S) → (stop_if_needed a s).1 ≡ none → Stopped a s (stop_if_needed a s).0
  stop_if_needed-Stopped a s h = stopped_in (state_of a s) refl h

  -- The last steps are given a state after the first ones.
  module _ (w : RemoveWorld) (a : A) (s : Service) (stopped : (stop_if_needed a s.rest).1 ≡ none)
      (closed : network_error w.closed ≡ none) where
    after_clean_up_cases :
        (rest : S) (o : Option Error)
        → ActedOn sandbox_id remove_container
            (e.id a)
            (list (stop_if_needed a s.rest).0)
            (stop_if_needed a s.rest).0
            rest
        → clean_up w ≡ o
        → let r = after_clean_up a o (record s { rest = rest }) in
          ((r.1 ≡ none) × Removed w a s r.0) ⊎ Kept s r
    unfolding after_clean_up forget
    after_clean_up_cases rest (some x) acted q = inr ((λ n. cc), refl, refl)
    after_clean_up_cases rest none acted q = inl (
      refl,
      record {
        after_stop = (stop_if_needed a s.rest).0;
        stopped = stop_if_needed-Stopped a s.rest stopped;
        network_closed = network_error-Closed w.closed closed;
        containers_removed = acted;
        root = (clean_up-Gone w q).0;
        volatile = (clean_up-Gone w q).1;
        deleted = (clean_up-Gone w q).2;
        store = refl;
        names = refl;
      },
    )

    after_containers_cases :
        (r : S × Option Error)
        → for_sandbox sandbox_id remove_container "failed to remove container"
            (e.id a)
            (list (stop_if_needed a s.rest).0)
            (stop_if_needed a s.rest).0
          ≡ r
        → let p = after_containers w a r (record s { rest = (stop_if_needed a s.rest).0 }) in
          ((p.1 ≡ none) × Removed w a s p.0) ⊎ Kept s p
    unfolding after_containers
    after_containers_cases (rest, some x) q = inr ((λ n. cc), refl, refl)
    after_containers_cases (rest, none) q =
        after_clean_up_cases rest (clean_up w)
          (for_sandbox-ActedOn sandbox_id remove_container "failed to remove container" (e.id a)
            (stop_if_needed a s.rest).0 rest (list (stop_if_needed a s.rest).0) q)
          refl

  after_network_cases :
      (w : RemoveWorld) (a : A) (s : Service) (o : Option Error)
      → (stop_if_needed a s.rest).1 ≡ none
      → network_error w.closed ≡ o
      → let p = after_network w a o (record s { rest = (stop_if_needed a s.rest).0 }) in
        ((p.1 ≡ none) × Removed w a s p.0) ⊎ Kept s p
  unfolding after_network
  after_network_cases w a s (some x) h q = inr ((λ n. cc), refl, refl)
  after_network_cases w a s none h q = after_containers_cases w a s h q _ refl

  after_stop_cases :
      (w : RemoveWorld) (a : A) (s : Service) (r : S × Option Error)
      → stop_if_needed a s.rest ≡ r
      → ((after_stop w a r s).1 ≡ none) × Removed w a s (after_stop w a r s).0
        ⊎ Kept s (after_stop w a r s)
  unfolding after_stop
  after_stop_cases w a s (rest, some x) q = inr ((λ n. cc), refl, refl)
  after_stop_cases w a s (rest, none) q =
      subst
        (λ u.
          ((after_network w a (network_error w.closed) (record s { rest = u })).1 ≡ none)
            × Removed w a s (after_network w a (network_error w.closed) (record s { rest = u })).0
          ⊎ Kept s (after_network w a (network_error w.closed) (record s { rest = u })))
        (ap (λ (p : S × Option Error). p.0) q)
        (after_network_cases w a s (network_error w.closed) (ap (λ (p : S × Option Error). p.1) q)
          refl)

  remove_found_cases :
      (w : RemoveWorld) (s : Service) (r : Result A)
      → ((r ≡ err not_exist) × (remove_found w r s ≡ (s, none)))
        ⊎ ((a : A) × (r ≡ ok a)
            × ((remove_found w r s).1 ≡ none)
            × Removed w a s (remove_found w r s).0)
        ⊎ Kept s (remove_found w r s)
  unfolding remove_found
  remove_found_cases w s (err not_exist) = inl (refl, refl)
  remove_found_cases w s (err already_exist) = inr (inr ((λ n. cc), refl, refl))
  remove_found_cases w s (err (failure x)) = inr (inr ((λ n. cc), refl, refl))
  remove_found_cases w s (err (wrap x y)) = inr (inr ((λ n. cc), refl, refl))
  remove_found_cases w s (ok a) = elim (after_stop_cases w a s (stop_if_needed a s.rest) refl) [
    | inl (h, v) ↦ inr (inl (a, refl, h, v))
    | inr k ↦ inr (inr k)
  ]

  -- The removal of a sandbox succeeds for an id that the store does not know, with nothing changed;
  -- or it succeeds after the sandbox's stop if it was ready or unknown, with its network namespace
  -- closed if it has one, each of its containers removed, both of its directories removed and its
  -- containerd container deleted or not found, and only then `Delete` of the store and the release of
  -- the name are called with its id; or it returns an error, and the sandboxes and the names are as they
  -- were.
  pub remove_pod_sandbox_cases :
      (w : RemoveWorld) (id : String) (s : Service)
      → ((get t level_of e id s.sandboxes ≡ err not_exist)
          × (remove_pod_sandbox w id s ≡ (s, none)))
        ⊎ ((a : A) × (get t level_of e id s.sandboxes ≡ ok a)
            × ((remove_pod_sandbox w id s).1 ≡ none)
            × Removed w a s (remove_pod_sandbox w id s).0)
        ⊎ Kept s (remove_pod_sandbox w id s)
  unfolding remove_pod_sandbox
  remove_pod_sandbox_cases w id s = remove_found_cases w s (get t level_of e id s.sandboxes)

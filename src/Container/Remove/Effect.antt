-- ===== src/Container/Remove/Effect.antt =====
-- What `RemoveContainer` leaves of a container.
use cri.Base.{
  ◌≡◌, refl, ap, ◌≢◌, ◌⊎◌, inl, inr, true, false, Option, none, some, arith, if◌then◌else◌,
}
use cri.Base.Errors.{Error, ok, is_not_found}
use cri.Container.Status.{Status, state, Json, update}
use cri.Container.Status.Checkpointing.{update_cases}
use cri.Container.Transitions.{set_removing, reset_removing}
use cri.Container.Exit.{Live}
use cri.Container.Remove.{
  RemoveWorld, Removal, must_stop, clean_up, ignore_not_found, finish_removal, set_flag, after_stop,
  remove_container,
}

-- Containerd has no such container any more.
abbrev pub Gone : Option Error → Type 0
Gone o = (o ≡ none) ⊎ ((e : Error) × (o ≡ some e) × (is_not_found e ≡ true))

ignored-Gone : (o : Option Error) → ignore_not_found o ≡ none → Gone o
ignored-Gone none h = inl refl
ignored-Gone (some e) h = inr (e, refl, ground (arith, h))

clean_up-Gone :
    (w : RemoveWorld)
    → clean_up w ≡ none
    → Gone w.delete
      × (w.delete_checkpoint ≡ none)
      × (w.remove_root ≡ none)
      × (w.remove_volatile ≡ none)
unfolding clean_up
clean_up-Gone w h = (
  ignored-Gone w.delete (ground (arith, h)),
  ground (arith, h),
  ground (arith, h),
  ground (arith, h),
)

module _ (j : Json) where
  -- What the forced stop leaves, where one is made.
  abbrev pub stopped : (Live j → Removal j) → Live j → Removal j
  stopped stop c = if must_stop (state c.storage.status) then stop c else (c, none)

  -- The removal was made; the container neither runs nor starts, and is flagged from now on.
  pub record Removed (w : RemoveWorld) (r : Removal j) : Type 0 where
    pub success : r.1 ≡ none
    pub deleted : Gone w.delete
    pub checkpoint : w.delete_checkpoint ≡ none
    pub root : w.remove_root ≡ none
    pub volatile : w.remove_volatile ≡ none
    pub flagged : r.0.storage.status.removing ≡ true
    pub idle : r.0.storage.status.starting ≡ false
    pub ended : must_stop (state r.0.storage.status) ≡ false

  -- The removal failed, and nothing but the stop has changed the container.
  abbrev pub NotRemoved : Live j → Removal j → Type 0
  NotRemoved c r = (r.1 ≢ none) × (r.0 ≡ c)

  set_removing_facts :
      (s t : Status)
      → set_removing s ≡ ok t
      → (t.removing ≡ true)
        × (t.starting ≡ false)
        × (must_stop (state t) ≡ false)
        × (record t { removing = false } ≡ s)
  unfolding set_removing state
  set_removing_facts s t e = ground arith

  finish_cases :
      (w : RemoveWorld) (c : Live j) (t : Status) (r : Option Error)
      → set_removing c.storage.status ≡ ok t
      → clean_up w ≡ r
      → let d : Live j = record c { storage = record (c.storage) { status = t } } in
        Removed w (finish_removal j r d) ⊎ NotRemoved c (finish_removal j r d)
  unfolding finish_removal update reset_removing
  finish_cases w c t none e q =
      let facts = set_removing_facts c.storage.status t e in
      let (deleted, checkpoint, root, volatile) = clean_up-Gone w q in
      inl (record {
        success = refl;
        deleted = deleted;
        checkpoint = checkpoint;
        root = root;
        volatile = volatile;
        flagged = facts.0;
        idle = facts.1;
        ended = facts.2;
      })
  finish_cases w c t (some x) e q =
      let facts = set_removing_facts c.storage.status t e in
      inr (
        (λ n. cc),
        ap (λ (s : Status). record c { storage = record (c.storage) { status = s } }) facts.3,
      )

  set_flag_cases :
      (w : RemoveWorld) (c : Live j)
      → let r = set_flag j w (update j set_removing c.storage) c in Removed w r ⊎ NotRemoved c r
  unfolding set_flag
  set_flag_cases w c = elim (update_cases j set_removing c.storage) [
    | inl (e, q, r) ↦ rw r (inr ((λ n. cc), refl))
    | inr (t, q, r) ↦ rw r (finish_cases w c t (clean_up w) q refl)
  ]

  after_stop_cases :
      (w : RemoveWorld) (r : Removal j)
      → Removed w (after_stop j w r) ⊎ NotRemoved r.0 (after_stop j w r)
  unfolding after_stop
  after_stop_cases w (c, some e) = inr ((λ n. cc), refl)
  after_stop_cases w (c, none) = set_flag_cases w c

  -- A removal succeeds only if all that containerd and the file system hold of the container could
  -- be removed, and then the container is neither running, unknown nor starting, and its `Removing`
  -- flag stays; if it fails, the container is as it was, or as the forced stop left it where it
  -- was running or unknown.
  pub remove_container_effect :
      (stop : Live j → Removal j) (w : RemoveWorld) (c : Live j)
      → Removed w (remove_container j stop w c)
        ⊎ NotRemoved (stopped stop c).0 (remove_container j stop w c)
  unfolding remove_container
  remove_container_effect stop w c = after_stop_cases w (stopped stop c)

-- ===== src/Container/Update/Effect.antt =====
-- What `UpdateContainerResources` changes where it succeeds, and what it leaves where it fails.
use cri.Base.{
  String, ◌≡◌, ◌≢◌, refl, ◌∙◌, ◌⊎◌, inl, inr, Bool, true, false, Option, none, some, if◌then◌else◌,
}
use cri.Base.Errors.{Error, Result, ok, err, failure, is_not_found}
use cri.Container.Status.{Status, state}
use cri.Container.Update.{
  UpdateWorld, Limits, is_running, unless_not_found, update_container_spec, update_task, reset_spec,
  after_write, after_change, after_spec, update_container_resources, commit, update_resources,
}

module _ (Spec Request Resources : Type 0) (set_resources : Request → Spec → Result Spec)
    (resources_of : Spec → Resources) where
  -- A task that is not found has exited already.
  abbrev pub Exited : Option Error → Option Error → Type 0
  Exited task update = (e : Error) × (is_not_found e ≡ true) × ((task ≡ some e) ⊎ (update ≡ some e))

  -- The update took effect: the container is not being removed, its specification is the changed one,
  -- and so are the resources of its task, where it runs and its task is found.
  pub record Updated (w : UpdateWorld) (r : Request) (s : Status)
      (l : Limits Spec Request Resources set_resources resources_of)
      (y : Limits Spec Request Resources set_resources resources_of) : Type 0 where
    pub not_removing : s.removing ≡ false
    pub spec : Spec
    pub changed : set_resources r l.spec ≡ ok spec
    pub written : y.spec ≡ spec
    pub applied :
        (y.applied ≡ resources_of spec)
        ⊎ ((y.applied ≡ l.applied) × ((is_running (state s) ≡ false) ⊎ Exited w.task w.update))

  abbrev pub Failed :
      UpdateWorld
      → Limits Spec Request Resources set_resources resources_of
      → Limits Spec Request Resources set_resources resources_of × Option Error
      → Type 0
  Failed w l p =
      (p.1 ≢ none)
      × (p.0.applied ≡ l.applied)
      × (w.marshal_old ≡ none → w.write_old ≡ none → p.0.spec ≡ l.spec)

  abbrev pub UpdateOutcome :
      UpdateWorld
      → Request
      → Status
      → Limits Spec Request Resources set_resources resources_of
      → Limits Spec Request Resources set_resources resources_of × Option Error
      → Type 0
  UpdateOutcome w r s l p = ((p.1 ≡ none) × Updated w r s l p.0) ⊎ Failed w l p

  abbrev TaskUpdated :
      Option Error
      → Option Error
      → Spec
      → Limits Spec Request Resources set_resources resources_of
      → Limits Spec Request Resources set_resources resources_of × Option Error
      → Type 0
  TaskUpdated task update new l p =
      (p.0.spec ≡ l.spec)
      × (((p.1 ≡ none) × (p.0.applied ≡ resources_of new))
          ⊎ ((p.1 ≡ none) × (p.0.applied ≡ l.applied) × Exited task update)
          ⊎ ((p.1 ≢ none) × (p.0.applied ≡ l.applied)))

  spec_written :
      (marshal write : Option Error) (spec : Spec)
      (l : Limits Spec Request Resources set_resources resources_of)
      → let y =
          (update_container_spec Spec Request Resources set_resources resources_of marshal write
            spec l).0 in
        (y.applied ≡ l.applied) × (marshal ≡ none → write ≡ none → y.spec ≡ spec)
  unfolding update_container_spec
  spec_written (some e) write spec l = (refl, λ a b. absurd cc)
  spec_written none (some e) spec l = (refl, λ a b. absurd cc)
  spec_written none none spec l = (refl, λ a b. refl)

  unless_not_found-cases :
      (message : String) (e : Error) (b : Bool)
      → is_not_found e ≡ b
      → ((unless_not_found message e ≡ none) × (is_not_found e ≡ true))
        ⊎ (unless_not_found message e ≢ none)
  unless_not_found-cases message e true h = inl (rw h, h)
  unless_not_found-cases message e false h = inr (rw h (λ n. cc))

  update_task-cases :
      (task update : Option Error) (new : Spec)
      (l : Limits Spec Request Resources set_resources resources_of)
      → TaskUpdated task update new l
          (update_task Spec Request Resources set_resources resources_of task update new l)
  unfolding update_task
  update_task-cases (some e) update new l =
      elim (unless_not_found-cases "failed to get task" e _ refl) [
        | inl (n, f) ↦ (refl, inr (inl (n, refl, (e, f, inl refl))))
        | inr n ↦ (refl, inr (inr (n, refl)))
      ]
  update_task-cases none (some e) new l =
      elim (unless_not_found-cases "failed to update resources" e _ refl) [
        | inl (n, f) ↦ (refl, inr (inl (n, refl, (e, f, inr refl))))
        | inr n ↦ (refl, inr (inr (n, refl)))
      ]
  update_task-cases none none new l = (refl, inl (refl, refl))

  module _ (w : UpdateWorld) (r : Request) (s : Status)
      (l : Limits Spec Request Resources set_resources resources_of)
      (open_status : s.removing ≡ false) where
    reset_spec-Failed :
        (l' : Limits Spec Request Resources set_resources resources_of) (e : Error)
        → l'.applied ≡ l.applied
        → Failed w l
            (reset_spec Spec Request Resources set_resources resources_of w l.spec (l', some e))
    unfolding reset_spec update_container_spec
    reset_spec-Failed l' e h =
        let (a, b) = spec_written w.marshal_old w.write_old l.spec l' in ((λ n. cc), a ∙ h, b)

    -- `l'` has the specification that was written.
    task_effect :
        (new : Spec) (l' : Limits Spec Request Resources set_resources resources_of)
        (p : Limits Spec Request Resources set_resources resources_of × Option Error)
        → set_resources r l.spec ≡ ok new
        → l'.spec ≡ new
        → l'.applied ≡ l.applied
        → TaskUpdated w.task w.update new l' p
        → UpdateOutcome w r s l
            (reset_spec Spec Request Resources set_resources resources_of w l.spec p)
    unfolding reset_spec
    task_effect new l' (y, none) c h a (q, inl (n, f)) = inl (
      refl,
      record {
        not_removing = open_status;
        spec = new;
        changed = c;
        written = q ∙ h;
        applied = inl f;
      },
    )
    task_effect new l' (y, none) c h a (q, inr (inl (n, f, x))) = inl (
      refl,
      record {
        not_removing = open_status;
        spec = new;
        changed = c;
        written = q ∙ h;
        applied = inr (f ∙ a, inr x);
      },
    )
    task_effect new l' (y, none) c h a (q, inr (inr (n, f))) = absurd (n refl)
    task_effect new l' (y, some e) c h a (q, inl (n, f)) = absurd cc
    task_effect new l' (y, some e) c h a (q, inr (inl (n, f, x))) = absurd cc
    task_effect new l' (y, some e) c h a (q, inr (inr (n, f))) = inr (reset_spec-Failed y e (f ∙ a))

    running_effect :
        (new : Spec) (l' : Limits Spec Request Resources set_resources resources_of) (b : Bool)
        → is_running (state s) ≡ b
        → set_resources r l.spec ≡ ok new
        → l'.spec ≡ new
        → l'.applied ≡ l.applied
        → UpdateOutcome w r s l (
            reset_spec Spec Request Resources set_resources resources_of w l.spec (
              if b
              then update_task Spec Request Resources set_resources resources_of w.task w.update new
                  l'
              else (l', none)))
    unfolding reset_spec
    running_effect new l' true b c h a =
        task_effect new l' _ c h a (update_task-cases w.task w.update new l')
    running_effect new l' false b c h a = inl (
      refl,
      record {
        not_removing = open_status;
        spec = new;
        changed = c;
        written = h;
        applied = inr (a, inl b);
      },
    )

    write_effect :
        (new : Spec) (marshal write : Option Error)
        → set_resources r l.spec ≡ ok new
        → UpdateOutcome w r s l (
            after_write Spec Request Resources set_resources resources_of w l.spec new s (
              update_container_spec Spec Request Resources set_resources resources_of marshal write
                new l))
    unfolding after_write update_container_spec
    write_effect new (some e) write c = inr ((λ n. cc), refl, λ a b. refl)
    write_effect new none (some e) c = inr ((λ n. cc), refl, λ a b. refl)
    write_effect new none none c = running_effect new (record l { spec = new }) _ refl c refl refl

    change_effect :
        (q : Result Spec)
        → set_resources r l.spec ≡ q
        → UpdateOutcome w r s l
            (after_change Spec Request Resources set_resources resources_of w s q l)
    unfolding after_change
    change_effect (err e) c = inr ((λ n. cc), refl, λ a b. refl)
    change_effect (ok new) c = write_effect new w.marshal w.write c

    spec_effect :
        (o : Option Error)
        → UpdateOutcome w r s l
            (after_spec Spec Request Resources set_resources resources_of w r s o l)
    unfolding after_spec
    spec_effect (some e) = inr ((λ n. cc), refl, λ a b. refl)
    spec_effect none = change_effect _ refl

  removing_effect :
      (w : UpdateWorld) (r : Request) (s : Status)
      (l : Limits Spec Request Resources set_resources resources_of) (b : Bool)
      → s.removing ≡ b
      → UpdateOutcome w r s l (
          if b
          then (l, some (failure "container is in removing state"))
          else after_spec Spec Request Resources set_resources resources_of w r s w.spec l)
  removing_effect w r s l true h = inr ((λ n. cc), refl, λ a b. refl)
  removing_effect w r s l false h = spec_effect w r s l h w.spec

  container_resources_effect :
      (w : UpdateWorld) (r : Request) (s : Status)
      (l : Limits Spec Request Resources set_resources resources_of)
      → UpdateOutcome w r s l
          (update_container_resources Spec Request Resources set_resources resources_of w r s l)
  unfolding update_container_resources
  container_resources_effect w r s l = removing_effect w r s l s.removing refl

  commit_effect :
      (w : UpdateWorld) (r : Request) (s : Status)
      (l : Limits Spec Request Resources set_resources resources_of)
      (p : Limits Spec Request Resources set_resources resources_of × Option Error)
      → UpdateOutcome w r s l p
      → let (s', l', e) = commit Spec Request Resources set_resources resources_of s p in
        (s' ≡ s) × UpdateOutcome w r s l (l', e)
  commit_effect w r s l (y, none) h = (refl, h)
  commit_effect w r s l (y, some e) (inl (n, u)) = absurd cc
  commit_effect w r s l (y, some e) (inr (n, a, b)) = (refl, inr ((λ m. cc), a, b))

  -- The status of the container stays as it is. An update that returns no error took effect on a
  -- container that is not being removed. One that fails leaves the resources of the task, and the
  -- specification too, unless the write of the old one fails.
  pub update_resources_effect :
      (w : UpdateWorld) (r : Request) (s : Status)
      (l : Limits Spec Request Resources set_resources resources_of)
      → let (s', l', e) =
          update_resources Spec Request Resources set_resources resources_of w r s l in
        (s' ≡ s) × UpdateOutcome w r s l (l', e)
  unfolding update_resources
  update_resources_effect w r s l = commit_effect w r s l _ (container_resources_effect w r s l)

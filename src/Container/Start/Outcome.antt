-- ===== src/Container/Start/Outcome.antt =====
-- How `StartContainer` ends.
use cri.Base.{
  ◌≡◌, refl, ap, ◌≢◌, ◌⊎◌, inl, inr, Bool, true, false, Option, none, some, List, [], ◌∷◌, arith,
  Option-cases,
}
use cri.Base.Errors.{Error, Result, ok, err, wrap}
use cri.Container.Status.{
  Status, state, container_running, container_exited, Json, VersionedStatus, status_version, encode,
  Storage, update,
}
use cri.Container.Status.Checkpointing.{
  Written, update_sync_atomic, update_cases, update_sync_succeeds,
}
use cri.Container.Transitions.{
  set_starting, reset_starting, set_started, set_start_failed, error_start_exit_code,
  error_start_reason,
}
use cri.Container.Start.{
  StartWorld, TaskAction, creates, starts, deletes, monitors, Progress, start_container,
  start_in_sandbox, finish_start, after_starting, create_task, run_task, mark_started,
}

module _ (j : Json) where
  -- The handler refused the container before it did anything.
  abbrev pub Refused : Storage j → Progress j → Type 0
  Refused st p = (p.0 ≡ st) × (p.1 ≡ []) × (p.2 ≢ none)

  -- The task runs and is monitored, and the container is running.
  pub record Running (w : StartWorld) (p : Progress j) : Type 0 where
    pub success : p.2 ≡ none
    pub actions : p.1 ≡ creates ∷ starts ∷ monitors ∷ []
    pub running : state p.0.status ≡ container_running
    pub pid : p.0.status.pid ≡ w.pid
    pub settled : p.0.status.starting ≡ false

  -- No task is left behind: one that was created is deleted at the end.
  abbrev pub NoTaskLeft : List TaskAction → Type 0
  NoTaskLeft actions =
      (actions ≡ [])
      ⊎ (actions ≡ creates ∷ deletes ∷ [])
      ⊎ (actions ≡ creates ∷ starts ∷ deletes ∷ [])

  -- The start failed: no task is left, and the container is exited with the code and the reason of a
  -- failed start, and no longer starting.
  pub record Failed (p : Progress j) : Type 0 where
    pub failed : p.2 ≢ none
    pub actions : NoTaskLeft p.1
    pub exited : state p.0.status ≡ container_exited
    pub exit_code : p.0.status.exit_code ≡ error_start_exit_code
    pub reason : p.0.status.reason ≡ error_start_reason
    pub settled : p.0.status.starting ≡ false

  -- What the body of the handler leaves to its deferred function.
  abbrev BodyFailed : Storage j → Progress j → Type 0
  BodyFailed st p = (e : Error) × (p.0 ≡ st) × (p.2 ≡ some e) × NoTaskLeft p.1

  abbrev started : StartWorld → Status → Status
  started w s = record s { fields = record (s.fields) { pid = w.pid; started_at = w.started_at } }

  abbrev BodyStarted : StartWorld → Storage j → Progress j → Type 0
  BodyStarted w st p =
      (p.2 ≡ none) × (p.1 ≡ creates ∷ starts ∷ monitors ∷ []) × (p.0.status ≡ started w st.status)

  mark_started_cases :
      (w : StartWorld) (st : Storage j) (r : Storage j × Option Error)
      → ((e : Error) × (r ≡ (st, some e)))
        ⊎ ((s : Status) × (set_started w.pid w.started_at st.status ≡ ok s)
            × (r.1 ≡ none)
            × Written j s r.0)
      → BodyFailed st (mark_started j r) ⊎ BodyStarted w st (mark_started j r)
  unfolding mark_started set_started
  mark_started_cases w st (st', some e) (inl (d, q)) =
      inl (wrap "failed to update container state" e, ground arith, refl, inr (inr refl))
  mark_started_cases w st (st', none) (inl (d, q)) = cc
  mark_started_cases w st (st', some e) (inr (s, u, n, v)) = cc
  mark_started_cases w st (st', none) (inr (s, u, n, v)) = inr (refl, refl, ground arith)

  run_task_cases :
      (w : StartWorld) (st : Storage j)
      → BodyFailed st (run_task j w st) ⊎ BodyStarted w st (run_task j w st)
  unfolding run_task
  run_task_cases w st = elim (Option-cases w.wait) [
    | inr (e, q) ↦ rw (q, run_task) (inl (_, refl, refl, inr (inl refl)))
    | inl q ↦ elim (Option-cases w.start) [
      | inr (e, r) ↦ rw (q, r, run_task) (inl (_, refl, refl, inr (inl refl)))
      | inl r ↦
          rw (q, r, run_task)
            (mark_started_cases w st _
              (update_sync_atomic j w.write_started (set_started w.pid w.started_at) st))
    ]
  ]

  create_task_cases :
      (w : StartWorld) (st : Storage j)
      → BodyFailed st (create_task j w st) ⊎ BodyStarted w st (create_task j w st)
  unfolding create_task
  create_task_cases w st = elim (Option-cases w.info) [
    | inr (e, q) ↦ rw (q, create_task) (inl (_, refl, refl, inl refl))
    | inl q ↦ elim (Option-cases w.new_task) [
      | inr (e, r) ↦ rw (q, r, create_task) (inl (_, refl, refl, inl refl))
      | inl r ↦ rw (q, r, create_task) (run_task_cases w st)
    ]
  ]

  body_cases :
      (sandbox : Result Bool) (w : StartWorld) (st : Storage j)
      → BodyFailed st (start_in_sandbox j sandbox w st)
        ⊎ BodyStarted w st (start_in_sandbox j sandbox w st)
  unfolding start_in_sandbox
  body_cases (err e) w st = inl (_, refl, refl, inl refl)
  body_cases (ok false) w st = inl (_, refl, refl, inl refl)
  body_cases (ok true) w st = create_task_cases w st

  -- The state of a container that may be started.
  abbrev Startable : Status → Type 0
  Startable s = (s.unknown ≡ false) × (s.finished_at ≡ 0)

  finish_started :
      (w : StartWorld) (st : Storage j) (p : Progress j)
      → w.started_at ≢ 0
      → Startable st.status
      → BodyStarted w st p
      → Running w (finish_start j w p)
  unfolding finish_start update reset_starting
  finish_started w st (st', actions, some e) h v (a, b, c) = cc
  finish_started w st (st', actions, none) h v (a, b, c) = record {
    success = refl;
    actions = b;
    running = unfold state in ground arith;
    pid = ground arith;
    settled = refl;
  }

  -- The status after a failed start.
  abbrev start_failed : StartWorld → Error → Status → Status
  start_failed w e s = record s {
    fields = record (s.fields) {
      pid = 0;
      finished_at = w.failed_at;
      exit_code = error_start_exit_code;
      reason = error_start_reason;
      message = w.text e;
    };
  }

  module _ (w : StartWorld)
      (marshals : (v : VersionedStatus) → (b : j.Bytes) × (j.marshal v ≡ ok b))
      (writes : w.write_failed ≡ none) where
    finish_failure :
        (st : Storage j) (actions : List TaskAction) (e : Error)
        → (finish_start j w (st, actions, some e)).0.status
          ≡ record (start_failed w e st.status) { starting = false }
    unfolding finish_start update reset_starting
    finish_failure st actions e =
        let t : Status = start_failed w e st.status in
        let written = marshals (record { version = status_version; status = t.fields }) in
        rw (
          writes,
          update_sync_succeeds j (set_start_failed w.failed_at (w.text e)) st t written.0
              (unfold set_start_failed in refl) (unfold encode in written.1),
        )

    finish-Failed :
        (st : Storage j) (p : Progress j)
        → w.failed_at ≢ 0
        → Startable st.status
        → BodyFailed st p
        → Failed (finish_start j w p)
    finish-Failed st (st', actions, none) h v (e, a, b, c) = cc
    finish-Failed st (st', actions, some x) h v (e, a, b, c) =
        let now = finish_failure st' actions x in
        record {
          failed = unfold finish_start in λ n. cc;
          actions = unfold finish_start in c;
          exited = rw now (unfold state in ground arith);
          exit_code = ap (λ (s : Status). s.exit_code) now;
          reason = ap (λ (s : Status). s.reason) now;
          settled = ap (λ (s : Status). s.starting) now;
        }

    after_starting_outcome :
        (st : Storage j) (r : Storage j × Option Error)
        → w.started_at ≢ 0
        → w.failed_at ≢ 0
        → ((e : Error) × (r ≡ (st, some e))) ⊎ ((r.1 ≡ none) × Startable r.0.status)
        → Refused st (after_starting j w r)
          ⊎ Running w (after_starting j w r)
          ⊎ Failed (after_starting j w r)
    unfolding after_starting
    after_starting_outcome st (st', some x) h g (inl (e, q)) = inl (ground arith, refl, λ n. cc)
    after_starting_outcome st (st', none) h g (inl (e, q)) = cc
    after_starting_outcome st (st', some x) h g (inr (n, v)) = cc
    after_starting_outcome st (st', none) h g (inr (n, v)) =
        elim (body_cases w.sandbox_ready w st') [
          | inl failed ↦ inr (inr (finish-Failed st' _ g v failed))
          | inr ran ↦ inr (inl (finish_started w st' _ h v ran))
        ]

    set_starting-Startable : (s t : Status) → set_starting s ≡ ok t → Startable t
    unfolding set_starting state
    set_starting-Startable s t e = ground arith

    set_starting_cases :
        (st : Storage j)
        → ((e : Error) × (update j set_starting st ≡ (st, some e)))
          ⊎ (((update j set_starting st).1 ≡ none) × Startable (update j set_starting st).0.status)
    set_starting_cases st = elim (update_cases j set_starting st) [
      | inl (e, q, r) ↦ inl (e, r)
      | inr (s, q, r) ↦ inr (rw r (refl, set_starting-Startable st.status s q))
    ]

    -- When times are not the epoch and checkpoints can be written, a start ends in one of three
    -- ways: it is refused with nothing changed; or it succeeds, the task being created, started and
    -- monitored, and the container running under the task's pid and no longer starting; or it
    -- fails, any task created being deleted, and the container is exited with exit code 128 and
    -- reason StartError and no longer starting.
    pub start_container_outcome :
        (st : Storage j)
        → w.started_at ≢ 0
        → w.failed_at ≢ 0
        → Refused st (start_container j w st)
          ⊎ Running w (start_container j w st)
          ⊎ Failed (start_container j w st)
    unfolding start_container
    start_container_outcome st h g =
        after_starting_outcome st (update j set_starting st) h g (set_starting_cases st)

-- ===== src/Container/Stop/Signals.antt =====
-- Which signals a stop sends, and what its success means.
use cri.Base.{
  ℕ, zero, suc, ◌<◌, ap, ◌∙◌, str_eq, eq_iff, ◌≡◌, refl, sym, subst, ◌≢◌, ◌⊎◌, inl, inr, String,
  true, false, Option, none, some, List, [], ◌∷◌, ◌++◌, arith, Option-cases, Bool-cases,
}
use cri.Base.Errors.{
  Error, Result, ok, err, wrap, not_exist, already_exist, failure, is_not_exist, Result-cases,
  ◌>>=◌,
}
use cri.Container.Status.{
  state, container_running, container_created, container_exited, container_unknown, ContainerState,
  Json,
}
use cri.Container.Exit.{Live}
use cri.Container.Stop.{
  StopWorld, StopAction, kills, monitors, sigkill, choose_signal, image_stop_signal, parse_error,
  force, kill_task, after_signal, signal_task, kill_error, stop_container, stop_in_state,
}

-- The error is set, or the last wait has seen the container stop.
abbrev pub StopSeen : StopWorld → Option Error → Type 0
StopSeen w e = (e ≢ none) ⊎ (w.wait_forced ≡ none)

force_cases :
    (w : StopWorld) (done : List StopAction)
    → ((force w done).0 ≡ done ++ kills sigkill ∷ []) × StopSeen w (force w done).1
unfolding force
force_cases w done = elim (Option-cases (kill_error w.kill_forced)) [
  | inr (e, q) ↦ rw (q, force) (refl, inl (λ n. cc))
  | inl q ↦ elim (Option-cases w.wait_forced) [
    | inr (e, r) ↦ rw (q, r, force) (refl, inl (λ n. cc))
    | inl r ↦ (rw (q, r, force), inr r)
  ]
]

-- The name of the stop signal: that of the container; where it has none that of its image; and SIGTERM
-- where the image has none either, or is not there.
pub data Names (w : StopWorld) (stop_signal : String) : String → Type 0 where
  of_container : stop_signal ≢ "" → Names w stop_signal stop_signal
  of_image :
      {name : String}
      → stop_signal ≡ ""
      → w.image_signal ≡ ok name
      → name ≢ ""
      → Names w stop_signal name
  of_nothing : stop_signal ≡ "" → w.image_signal ≡ ok "" → Names w stop_signal "SIGTERM"
  without_image :
      {e : Error}
      → stop_signal ≡ ""
      → w.image_signal ≡ err e
      → e ≡ not_exist
      → Names w stop_signal "SIGTERM"

-- The signal that the name stands for.
abbrev pub Chosen : StopWorld → String → String → Type 0
Chosen w stop_signal sig =
    (name : String) × Names w stop_signal name × (w.parse_signal name ≡ ok sig)

-- There is no signal: the name stands for none, or the image store failed.
abbrev pub NoSignal : StopWorld → String → Type 0
NoSignal w stop_signal =
    ((name : String) × (e : Error) × Names w stop_signal name × (w.parse_signal name ≡ err e))
    ⊎ ((e : Error) × (stop_signal ≡ "") × (w.image_signal ≡ err e) × (e ≢ not_exist))

parse_cases :
    (w : StopWorld) (stop_signal name : String)
    → Names w stop_signal name
    → ((sig : String) × (parse_error (w.parse_signal name) ≡ ok sig) × Chosen w stop_signal sig)
      ⊎ ((e : Error) × (parse_error (w.parse_signal name) ≡ err e) × NoSignal w stop_signal)
unfolding parse_error
parse_cases w stop_signal name n = elim (Result-cases (w.parse_signal name)) [
  | inl (sig, q) ↦ inl (sig, rw q refl, (name, n, q))
  | inr (e, q) ↦ inr (wrap "failed to parse stop signal" e, rw q refl, inl (name, e, n, q))
]

not_exist_cases : (e : Error) → (e ≡ not_exist) ⊎ ((e ≢ not_exist) × (is_not_exist e ≡ false))
not_exist_cases not_exist = inl refl
not_exist_cases already_exist = inr ((λ h. cc), refl)
not_exist_cases (failure s) = inr ((λ h. cc), refl)
not_exist_cases (wrap s e) = inr ((λ h. cc), refl)

from_image :
    (w : StopWorld) (stop_signal : String) (r : Result String)
    → w.image_signal ≡ r
    → stop_signal ≡ ""
    → let k = image_stop_signal r >>= λ name. parse_error (w.parse_signal name) in
      ((sig : String) × (k ≡ ok sig) × Chosen w stop_signal sig)
      ⊎ ((e : Error) × (k ≡ err e) × NoSignal w stop_signal)
unfolding image_stop_signal
from_image w stop_signal (err e) r absent = elim (not_exist_cases e) [
  | inl n ↦ rw n (parse_cases w stop_signal "SIGTERM" (without_image absent r n))
  | inr (n, f) ↦ rw f (inr (wrap "failed to get image" e, refl, inr (e, absent, r, n)))
]
from_image w stop_signal (ok name) r absent = elim (Bool-cases (str_eq name "")) [
  | inl z ↦
      rw z
        (parse_cases w stop_signal "SIGTERM" (of_nothing absent (r ∙ ap ok ((eq_iff name "").0 z))))
  | inr z ↦
      rw z (parse_cases w stop_signal name (of_image absent r (ground (arith, z, eq_iff name ""))))
]

choose_signal_cases :
    (w : StopWorld) (stop_signal : String)
    → ((sig : String) × (choose_signal w stop_signal ≡ ok sig) × Chosen w stop_signal sig)
      ⊎ ((e : Error) × (choose_signal w stop_signal ≡ err e) × NoSignal w stop_signal)
unfolding choose_signal
choose_signal_cases w stop_signal = elim (Bool-cases (str_eq stop_signal "")) [
  | inr q ↦ rw q (
      parse_cases w stop_signal stop_signal
        (of_container (ground (arith, q, eq_iff stop_signal ""))))
  | inl q ↦ rw q (from_image w stop_signal w.image_signal refl ((eq_iff stop_signal "").0 q))
]

module _ (w : StopWorld) (stop_signal : String) (timeout : ℕ) where
  -- How the signals went, from those before to those after.
  pub data Escalation (before : List StopAction) (r : List StopAction × Option Error) : Type 0 where
    -- No signal could be chosen.
    no_signal :
        0 < timeout → NoSignal w stop_signal → r.0 ≡ before → r.1 ≢ none → Escalation before r
    -- The stop signal was sent and either seen to work, or it could not be sent to the task, or it did
    -- not work before the caller gave up.
    graceful :
        (sig : String)
        → 0 < timeout
        → Chosen w stop_signal sig
        → r.0 ≡ before ++ kills sig ∷ []
        → ((r.1 ≢ none) × ((w.kill ≢ none) ⊎ (w.cancelled ≢ none)))
          ⊎ ((r.1 ≡ none) × (w.stopped_in_time ≡ true))
        → Escalation before r
    -- The stop signal did not work in time, and SIGKILL followed.
    escalated :
        (sig : String)
        → 0 < timeout
        → Chosen w stop_signal sig
        → w.stopped_in_time ≡ false
        → w.cancelled ≡ none
        → r.0 ≡ (before ++ kills sig ∷ []) ++ kills sigkill ∷ []
        → StopSeen w r.1
        → Escalation before r
    -- Without a grace period SIGKILL is the only signal.
    forced : timeout ≡ 0 → r.0 ≡ before ++ kills sigkill ∷ [] → StopSeen w r.1 → Escalation before r

  at :
      {before : List StopAction} {r s : List StopAction × Option Error}
      → r ≡ s
      → Escalation before s
      → Escalation before r
  at {before} e h = subst (Escalation before) (sym e) h

  kill_failed : (o : Option Error) (e : Error) → kill_error o ≡ some e → o ≢ none
  kill_failed none e h n = cc
  kill_failed (some x) e h n = cc

  after_signal_cases :
      (before : List StopAction) (sig : String)
      → 0 < timeout
      → Chosen w stop_signal sig
      → Escalation before (after_signal w (before ++ kills sig ∷ []))
  unfolding after_signal
  after_signal_cases before sig t c = elim (Bool-cases w.stopped_in_time) [
    | inl q ↦
        at {s = (before ++ kills sig ∷ [], none)} (rw (q, after_signal))
          (graceful sig t c refl (inr (refl, q)))
    | inr q ↦ elim (Option-cases w.cancelled) [
      | inr (e, r) ↦
          at {s = (before ++ kills sig ∷ [], some e)} (rw (q, r, after_signal))
            (graceful sig t c refl (inl ((λ n. cc), inr (λ n. cc))))
      | inl r ↦
          let f = force_cases w (before ++ kills sig ∷ []) in
          at {s = force w (before ++ kills sig ∷ [])} (rw (q, r, after_signal))
            (escalated sig t c q r f.0 f.1)
    ]
  ]

  signal_task_cases :
      (before : List StopAction) (s : Result String)
      → 0 < timeout
      → ((sig : String) × (s ≡ ok sig) × Chosen w stop_signal sig)
        ⊎ ((e : Error) × (s ≡ err e) × NoSignal w stop_signal)
      → Escalation before (signal_task w before s)
  unfolding signal_task
  signal_task_cases before s t (inr (e, q, n)) = rw q (no_signal t n refl (λ n. cc))
  signal_task_cases before s t (inl (sig, h, c)) = rw h (elim (Option-cases (kill_error w.kill)) [
    | inr (e, q) ↦
        rw (q, signal_task) (graceful sig t c refl (inl ((λ n. cc), inl (kill_failed w.kill e q))))
    | inl q ↦ rw (q, signal_task) (after_signal_cases before sig t c)
  ])

kill_task_cases :
    (w : StopWorld) (stop_signal : String) (timeout : ℕ) (before : List StopAction)
    → Escalation w stop_signal timeout before (kill_task w stop_signal timeout before)
unfolding kill_task
kill_task_cases w stop_signal zero before = let f = force_cases w before in forced refl f.0 f.1
kill_task_cases w stop_signal (suc t) before = at w stop_signal (suc t) (ground arith) (
    signal_task_cases w stop_signal (suc t) before (choose_signal w stop_signal) (omega arith)
      (choose_signal_cases w stop_signal))

module _ (j : Json) (w : StopWorld) (stop_signal : String) (timeout : ℕ) (later c : Live j) where
  -- The cases of a stop, by the state of the container.
  abbrev pub StopCases : ContainerState → Live j × List StopAction × Option Error → Type 0
  StopCases container_running r = Escalation w stop_signal timeout [] (r.1, r.2) × (r.0 ≡ later)
  StopCases container_unknown r =
      Escalation w stop_signal timeout (monitors ∷ []) (r.1, r.2) × (r.0 ≡ later)
  StopCases _ r = r ≡ (c, [], none)

  running_found :
      w.task ≡ none
      → stop_in_state j container_running w stop_signal timeout later c
        ≡ (later, (kill_task w stop_signal timeout []).0, (kill_task w stop_signal timeout []).1)
  unfolding stop_in_state
  running_found found = rw (found, stop_in_state)

  unknown_found :
      w.task ≡ none
      → w.wait ≡ none
      → let p = kill_task w stop_signal timeout (monitors ∷ []) in
        stop_in_state j container_unknown w stop_signal timeout later c ≡ (later, p.0, p.1)
  unfolding stop_in_state choose_signal
  unknown_found found waits = rw (found, waits, stop_in_state)

  stop_in_state_cases :
      (s : ContainerState)
      → w.task ≡ none
      → w.wait ≡ none
      → StopCases s (stop_in_state j s w stop_signal timeout later c)
  unfolding stop_in_state
  stop_in_state_cases container_created found waits = refl
  stop_in_state_cases container_exited found waits = refl
  stop_in_state_cases container_running found waits =
      subst (StopCases container_running) (sym (running_found found))
        (kill_task_cases w stop_signal timeout [], refl)
  stop_in_state_cases container_unknown found waits =
      subst (StopCases container_unknown) (sym (unknown_found found waits))
        (kill_task_cases w stop_signal timeout (monitors ∷ []), refl)

-- A container that is created or exited is left alone. Of a running container, or one in the unknown
-- state, whose task is found and can be waited for: with a grace period the stop signal of the
-- container is sent first, where it has none that of its image, and SIGTERM where the image has none
-- or is not there, with an error and no signal only where the name stands for no signal or the image
-- store fails; SIGKILL follows only when that did not stop it in time and the caller has not given up.
-- Without a grace period SIGKILL alone is sent. The handler succeeds only when it has seen the
-- container stop. In the unknown state a monitor is started first.
pub stop_container_signals :
    (j : Json) (w : StopWorld) (stop_signal : String) (timeout : ℕ) (later c : Live j)
    → w.task ≡ none
    → w.wait ≡ none
    → StopCases j w stop_signal timeout later c
        (state c.storage.status)
        (stop_container j w stop_signal timeout later c)
unfolding stop_container
stop_container_signals j w stop_signal timeout later c found waits =
    stop_in_state_cases j w stop_signal timeout later c (state c.storage.status) found waits

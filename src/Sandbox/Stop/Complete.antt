-- ===== src/Sandbox/Stop/Complete.antt =====
-- What a stop of a sandbox that returns no error has done.
use cri.Base.{
  String, ◌≡◌, refl, sym, ◌∙◌, ap, Bool-cases, ◌≢◌, ◌⊎◌, inl, inr, Bool, true, false, Option, none,
  some, List, if◌then◌else◌, arith,
}
use cri.Base.Errors.{Error, Result, ok, err, is_not_found, wrap}
use cri.Sandbox.Exit.{handle_sandbox_exit_effect}
use cri.Sandbox.{Live, State, ready, not_ready, unknown, ExitWorld, handle_sandbox_exit}
use cri.Sandbox.Stop.{
  StopWorld, kill_sandbox, stop_unknown, stop_found, stop_missing, stop_by_task,
  stop_sandbox_container, NetworkWorld, check, tear_down_open, tear_down, must_stop, for_sandbox,
  ActedOn, for_sandbox-ActedOn, PodWorld, stop_if_needed, network_after, files_then_stop,
  after_containers, stop_pod_sandbox,
}

-- No error but that there is nothing left to act on.
abbrev pub Gone : Option Error → Type 0
Gone o = (o ≡ none) ⊎ ((e : Error) × (o ≡ some e) × (is_not_found e ≡ true))

abbrev pub IsMissing : Option Error → Type 0
IsMissing o = (e : Error) × (o ≡ some e) × (is_not_found e ≡ true)

-- How the stop of a sandbox in a state succeeded, and what the sandbox is then.
pub data Ended (w : StopWorld) (later c d : Live) : Type 0 where
  -- It was not ready.
  needless : c.status.state ≡ not_ready → d ≡ c → Ended w later c d
  -- It was ready, and its task is gone.
  missing : c.status.state ≡ ready → IsMissing w.task → d ≡ c → Ended w later c d
  -- It was unknown, and its task is gone or cannot be waited for: the handler of an exit is called.
  cleaned :
      c.status.state ≡ unknown
      → IsMissing w.task ⊎ ((w.task ≡ none) × IsMissing w.wait)
      → d.status.state ≡ not_ready
      → d.stopped ≡ true
      → Ended w later c d
  -- Its task was killed or gone, and the stop of the sandbox was seen; an unknown one was monitored.
  killed :
      c.status.state ≢ not_ready
      → w.task ≡ none
      → (c.status.state ≡ unknown → w.wait ≡ none)
      → Gone w.kill
      → w.stopped ≡ none
      → d ≡ later
      → Ended w later c d

-- There is no network namespace, or its network was torn down and it was removed.
abbrev pub NoNetwork : Option NetworkWorld → String → Type 0
NoNetwork o path =
    (o ≡ none)
    ⊎ ((n : NetworkWorld) × (o ≡ some n)
        × (((n.closed ≡ ok true) × (n.teardown "" ≡ none))
            ⊎ ((n.closed ≡ ok false) × (n.teardown path ≡ none)))
        × (n.remove ≡ none))

checked :
    (message : String) (o rest : Option Error)
    → check message o rest ≡ none
    → (o ≡ none) × (rest ≡ none)
checked message none rest h = (refl, h)
checked message (some e) rest h = absurd cc

tear_down-NoNetwork :
    (o : Option NetworkWorld) (path : String) → tear_down o path ≡ none → NoNetwork o path
unfolding tear_down tear_down_open
tear_down-NoNetwork none path h = inl refl
tear_down-NoNetwork (some n) path h = let (t, r) = torn_down n.closed refl h in inr (n, refl, t, r)
  where
    torn_down :
        (q : Result Bool)
        → n.closed ≡ q
        → (elim q [
          | err e ↦ some (wrap "failed to check network namespace closed" e)
          | ok closed ↦ tear_down_open n (if closed then "" else path)
        ])
          ≡ none
        → (((n.closed ≡ ok true) × (n.teardown "" ≡ none))
            ⊎ ((n.closed ≡ ok false) × (n.teardown path ≡ none)))
          × (n.remove ≡ none)
    torn_down (err e) q h = absurd cc
    torn_down (ok true) q h =
        let (t, r) = checked _ (n.teardown "") _ h in (inl (q, t), (checked _ n.remove none r).0)
    torn_down (ok false) q h =
        let (t, r) = checked _ (n.teardown path) _ h in (inr (q, t), (checked _ n.remove none r).0)

kill_sandbox-Gone :
    (w : StopWorld) (o : Option Error) → kill_sandbox w o ≡ none → Gone o × (w.stopped ≡ none)
unfolding kill_sandbox
kill_sandbox-Gone w none h = (inl refl, h)
kill_sandbox-Gone w (some e) h = elim (Bool-cases (is_not_found e)) [
  | inl q ↦ (inr (e, refl, q), ground (arith, q, h))
  | inr q ↦ absurd (ground (arith, q, h))
]

-- What the handler of an exit leaves where it succeeds.
exit_ended :
    (w : ExitWorld) (c d : Live)
    → handle_sandbox_exit w c ≡ (d, none)
    → (d.status.state ≡ not_ready) × (d.stopped ≡ true)
exit_ended w c d h = elim (handle_sandbox_exit_effect w c) [
  | inl (r, x) ↦
      let same : (handle_sandbox_exit w c).0 ≡ d = ap (λ (p : Live × Option Error). p.0) h in
      (
        ap (λ (l : Live). l.status.state) (sym same) ∙ x.state,
        ap (λ (l : Live). l.stopped) (sym same) ∙ x.stopped,
      )
  | inr (e, r, q) ↦ absurd cc
]

module _ (w : StopWorld) (later c d : Live) where
  ended_killed :
      (x : State)
      → c.status.state ≡ x
      → x ≢ not_ready
      → w.task ≡ none
      → (x ≡ unknown → w.wait ≡ none)
      → ◌≡◌ {A = Live × Option Error} (later, kill_sandbox w w.kill) (d, none)
      → Ended w later c d
  ended_killed x q n t f h =
      let (gone, seen) = kill_sandbox-Gone w w.kill (ap (λ (p : Live × Option Error). p.1) h) in
      killed (λ e. n (sym q ∙ e)) t (λ e. f (sym q ∙ e)) gone seen
        (sym (ap (λ (p : Live × Option Error). p.0) h))

  ended_wait :
      (o : Option Error)
      → w.wait ≡ o
      → c.status.state ≡ unknown
      → w.task ≡ none
      → stop_unknown w o later c ≡ (d, none)
      → Ended w later c d
  unfolding stop_unknown
  ended_wait none q u t h = ended_killed unknown u (λ n. cc) t (λ n. q) h
  ended_wait (some e) q u t h = elim (Bool-cases (is_not_found e)) [
    | inl p ↦
        let (state, stopped) = exit_ended w.exit c d (ground (arith, p, h)) in
        cleaned u (inr (t, (e, q, p))) state stopped
    | inr p ↦ absurd (ground (arith, p, h))
  ]

  ended_found :
      (x : State)
      → c.status.state ≡ x
      → x ≢ not_ready
      → w.task ≡ none
      → stop_found w x later c ≡ (d, none)
      → Ended w later c d
  unfolding stop_found
  ended_found ready q n t h = ended_killed ready q n t (λ e. cc) h
  ended_found unknown q n t h = ended_wait w.wait refl q t h
  ended_found not_ready q n t h = absurd (n refl)

  ended_missing :
      (x : State)
      → c.status.state ≡ x
      → x ≢ not_ready
      → IsMissing w.task
      → stop_missing w x c ≡ (d, none)
      → Ended w later c d
  unfolding stop_missing
  ended_missing ready q n m h = missing q m (sym (ap (λ (p : Live × Option Error). p.0) h))
  ended_missing unknown q n m h =
      let (state, stopped) = exit_ended w.exit c d h in cleaned q (inl m) state stopped
  ended_missing not_ready q n m h = absurd (n refl)

  ended_task :
      (o : Option Error)
      → w.task ≡ o
      → c.status.state ≢ not_ready
      → stop_by_task w o later c ≡ (d, none)
      → Ended w later c d
  unfolding stop_by_task
  ended_task none t n h = ended_found c.status.state refl n t h
  ended_task (some e) t n h = elim (Bool-cases (is_not_found e)) [
    | inl p ↦ ended_missing c.status.state refl n (e, t, p) (ground (arith, p, h))
    | inr p ↦ absurd (ground (arith, p, h))
  ]

  ended_in :
      (x : State)
      → c.status.state ≡ x
      → (if must_stop x then stop_sandbox_container w later c else (c, none)) ≡ (d, none)
      → Ended w later c d
  unfolding stop_sandbox_container
  ended_in ready q h = ended_task w.task refl (λ n. cc) h
  ended_in unknown q h = ended_task w.task refl (λ n. cc) h
  ended_in not_ready q h = needless q (sym (ap (λ (p : Live × Option Error). p.0) h))

module _ {S C : Type 0} (sandbox_id : C → String) (stop : C → S → S × Option Error) where
  -- All that a stop of a sandbox must do was done.
  pub record Stopped (w : PodWorld) (id : String) (containers : List C) (c : Live) (s : S)
      (r : S × Live × Option Error) : Type 0 where
    pub containers_stopped : ActedOn sandbox_id stop id containers s r.0
    pub files_removed : w.files ≡ none
    pub sandbox_stopped : Ended w.stop w.later c r.1
    pub network_removed : NoNetwork w.network w.path

  network_after-Ended :
      (w : PodWorld) (c : Live) (r : Live × Option Error)
      → (network_after w r).1 ≡ none
      → (r ≡ ((network_after w r).0, none)) × NoNetwork w.network w.path
  unfolding network_after
  network_after-Ended w c (d, some e) h = cc
  network_after-Ended w c (d, none) h = (refl, tear_down-NoNetwork w.network w.path h)

  stop_if_needed-Ended :
      (w : PodWorld) (c d : Live) → stop_if_needed w c ≡ (d, none) → Ended w.stop w.later c d
  unfolding stop_if_needed
  stop_if_needed-Ended w c d e = ended_in w.stop w.later c d c.status.state refl e

  files_then_stop-Ended :
      (w : PodWorld) (c : Live) (f : Option Error)
      → (files_then_stop w f c).1 ≡ none
      → (f ≡ none) × Ended w.stop w.later c (files_then_stop w f c).0 × NoNetwork w.network w.path
  unfolding files_then_stop
  files_then_stop-Ended w c (some e) h = cc
  files_then_stop-Ended w c none h =
      let facts = network_after-Ended w c (stop_if_needed w c) h in
      (refl, stop_if_needed-Ended w c _ facts.0, facts.1)

  after_containers-Stopped :
      (w : PodWorld) (id : String) (containers : List C) (c : Live) (s : S) (r : S × Option Error)
      → for_sandbox sandbox_id stop "failed to stop container" id containers s ≡ r
      → (after_containers sandbox_id stop w r c).2 ≡ none
      → Stopped w id containers c s (after_containers sandbox_id stop w r c)
  unfolding after_containers
  after_containers-Stopped w id containers c s (t, some e) q h = cc
  after_containers-Stopped w id containers c s (t, none) q h =
      let facts = files_then_stop-Ended w c w.files h in
      record {
        containers_stopped =
            for_sandbox-ActedOn sandbox_id stop "failed to stop container" id s t containers q;
        files_removed = facts.0;
        sandbox_stopped = facts.1;
        network_removed = facts.2;
      }

  -- A stop of a sandbox that returns no error has stopped every container of the sandbox, in the
  -- order of the list, and has removed the sandbox's files. If the sandbox was ready or unknown, its
  -- task was killed, or gone, and then the sandbox was seen to stop; without a task a ready sandbox is
  -- left and an unknown one cleaned up to not ready. If it has a network namespace, the network was torn
  -- down, by the namespace's path where it is open, and the namespace removed.
  pub stop_pod_sandbox_complete :
      (w : PodWorld) (id : String) (containers : List C) (c : Live) (s : S)
      → (stop_pod_sandbox sandbox_id stop w id containers c s).2 ≡ none
      → Stopped w id containers c s (stop_pod_sandbox sandbox_id stop w id containers c s)
  unfolding stop_pod_sandbox
  stop_pod_sandbox_complete w id containers c s h =
      after_containers-Stopped w id containers c s _ refl h

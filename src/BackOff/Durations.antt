-- ===== src/BackOff/Durations.antt =====
-- How long an event waits: the durations of the back-off queues stay between the two constants.
use cri.Base.{
  ℕ, ◌≤◌, String, ◌≡◌, refl, Option, none, some, List, [], ◌∷◌, ◌++◌, arith, Bool-cases, inl, inr,
}
use cri.Base.GoMap.{lookup, insert, delete, lookup-insert, lookup-delete}
use cri.Base.Errors.{Error}
use cri.BackOff.{
  Queue, BackOff, Monitor, Input, event, tick, en_back_off, enqueue, de_back_off, re_back_off,
  new_queue, new_back_off, on_event, handle_or_back_off, is_in_back_off, retry, retry_result,
  retry_queue, retry_all, on_tick, expired_ids, step, run, new_monitor, back_off_init_duration,
  back_off_max_duration,
}

-- The durations that a queue may have.
abbrev pub InRange : ℕ → Type 0
InRange d = (back_off_init_duration ≤ d) × (d ≤ back_off_max_duration)

pub record Bounded {E : Type 0} (b : BackOff E) : Type 0 where
  pub min : b.min_duration ≡ back_off_init_duration
  pub max : b.max_duration ≡ back_off_max_duration
  pub durations :
      (key : String) (q : Queue E) → lookup key b.queue_pool ≡ some q → InRange q.duration

module _ {E : Type 0} where
  insert-Bounded :
      (key : String) (q : Queue E) (b : BackOff E)
      → InRange q.duration
      → Bounded b
      → Bounded (record b { queue_pool = insert key q b.queue_pool })
  insert-Bounded key q b (lo, hi) v = record {
    min = v.min;
    max = v.max;
    durations = λ k p h. grind (arith, lookup-insert key k q b.queue_pool, v.durations k p);
  }

  enqueue-Bounded :
      (key : String) (e : E) (now : ℕ) (o : Option (Queue E)) (b : BackOff E)
      → lookup key b.queue_pool ≡ o
      → Bounded b
      → Bounded (enqueue E key e now o b)
  unfolding enqueue
  enqueue-Bounded key e now (some q) b h v =
      insert-Bounded key (record q { events = q.events ++ e ∷ [] }) b (v.durations key q h) v
  enqueue-Bounded key e now none b h v =
      insert-Bounded key (new_queue E (e ∷ []) b.min_duration now) b
        (omega (arith, v.min), omega (arith, v.min)) v

  en_back_off-Bounded :
      (key : String) (e : E) (now : ℕ) (b : BackOff E)
      → Bounded b
      → Bounded (en_back_off E key e now b)
  unfolding en_back_off
  en_back_off-Bounded key e now b v = enqueue-Bounded key e now _ b refl v

  re_back_off-Bounded :
      (key : String) (events : List E) (old now : ℕ) (b : BackOff E)
      → InRange old
      → Bounded b
      → Bounded (re_back_off E key events old now b)
  unfolding re_back_off
  re_back_off-Bounded key events old now b (lo, hi) v =
      insert-Bounded key _ b (ground (arith, v.max), ground (arith, v.max)) v

  delete-Bounded :
      (key : String) (b : BackOff E)
      → Bounded b
      → Bounded (record b { queue_pool = delete key b.queue_pool })
  delete-Bounded key b v = record {
    min = v.min;
    max = v.max;
    durations = λ k p h. grind (arith, lookup-delete key k b.queue_pool, v.durations k p);
  }

  new_back_off-Bounded : Bounded (new_back_off E)
  unfolding new_back_off lookup
  new_back_off-Bounded = record { min = refl; max = refl; durations = λ k q h. absurd cc }

module _ {S E : Type 0} (id_of : E → String) (handle : E → S → S × Option Error) where
  handled-Bounded :
      (e : E) (now : ℕ) (r : S × Option Error) (m : Monitor S E)
      → Bounded m.back_off
      → Bounded (handle_or_back_off id_of handle e now r m).back_off
  unfolding handle_or_back_off
  handled-Bounded e now (service, none) m v = v
  handled-Bounded e now (service, some x) m v = en_back_off-Bounded (id_of e) e now m.back_off v

  on_event-Bounded :
      (e : E) (now : ℕ) (m : Monitor S E)
      → Bounded m.back_off
      → Bounded (on_event id_of handle e now m).back_off
  unfolding on_event
  on_event-Bounded e now m v = elim (Bool-cases (is_in_back_off E (id_of e) m.back_off)) [
    | inl h ↦ rw h (en_back_off-Bounded (id_of e) e now m.back_off v)
    | inr h ↦ rw h (handled-Bounded e now (handle e m.service) m v)
  ]

  retry_result-Bounded :
      (id : String) (duration now : ℕ) (e : E) (rest : List E) (r : S × Option Error)
      (next : Monitor S E → Monitor S E) (m : Monitor S E)
      → InRange duration
      → ((m' : Monitor S E) → Bounded m'.back_off → Bounded (next m').back_off)
      → Bounded m.back_off
      → Bounded (retry_result id_of handle id duration now e rest r next m).back_off
  unfolding retry_result
  retry_result-Bounded id duration now e rest (service, none) next m d hn v = hn _ v
  retry_result-Bounded id duration now e rest (service, some x) next m d hn v =
      re_back_off-Bounded id (e ∷ rest) duration now m.back_off d v

  retry-Bounded :
      (id : String) (duration now : ℕ) (events : List E) (m : Monitor S E)
      → InRange duration
      → Bounded m.back_off
      → Bounded (retry id_of handle id duration now events m).back_off
  unfolding retry
  retry-Bounded id duration now [] m d v = v
  retry-Bounded id duration now (e ∷ rest) m d v =
      retry_result-Bounded id duration now e rest (handle e m.service) _ m d
        (λ m' h. retry-Bounded id duration now rest m' d h) v

  retry_queue-Bounded :
      (id : String) (now : ℕ) (o : Option (Queue E)) (m : Monitor S E)
      → lookup id m.back_off.queue_pool ≡ o
      → Bounded m.back_off
      → Bounded
          (retry_queue id_of handle id now
            (o, record m.back_off { queue_pool = delete id m.back_off.queue_pool })
            m).back_off
  unfolding retry_queue
  retry_queue-Bounded id now none m h v = v
  retry_queue-Bounded id now (some q) m h v =
      retry-Bounded id q.duration now q.events _ (v.durations id q h)
        (delete-Bounded id m.back_off v)

  retry_all-Bounded :
      (now : ℕ) (ids : List String) (m : Monitor S E)
      → Bounded m.back_off
      → Bounded (retry_all id_of handle now ids m).back_off
  unfolding retry_all de_back_off
  retry_all-Bounded now [] m v = v
  retry_all-Bounded now (id ∷ ids) m v =
      retry_all-Bounded now ids _ (retry_queue-Bounded id now _ m refl v)

  step-Bounded :
      (i : Input E) (m : Monitor S E)
      → Bounded m.back_off
      → Bounded (step id_of handle m i).back_off
  unfolding step on_tick
  step-Bounded (event e now) m v = on_event-Bounded e now m v
  step-Bounded (tick now) m v = retry_all-Bounded now (expired_ids E now m.back_off.queue_pool) m v

  run_from-Bounded :
      (inputs : List (Input E)) (m : Monitor S E)
      → Bounded m.back_off
      → Bounded (run id_of handle m inputs).back_off
  unfolding run
  run_from-Bounded [] m v = v
  run_from-Bounded (i ∷ inputs) m v = run_from-Bounded inputs _ (step-Bounded i m v)

  -- In every run of a new monitor, however often the handling of events fails, the duration of each
  -- back-off queue is at least the initial one and at most the maximal one.
  pub run-Bounded :
      (service : S) (inputs : List (Input E))
      → Bounded (run id_of handle (new_monitor id_of handle service) inputs).back_off
  unfolding new_monitor
  run-Bounded service inputs = run_from-Bounded inputs _ new_back_off-Bounded

-- ===== src/BackOff.antt =====
-- The back-off queues and the event loop of pkg/server/events.go. The handler of an event is a
-- parameter (Container/Exit models the part for a container's exit); the service that it changes is
-- a state `S`. Times are nanoseconds; each branch reads the clock once.
pub mod Durations
pub mod Account
pub mod Delivery
use cri.Base.{
  ℕ, ◌+◌, ◌*◌, ◌^◌, String, Bool, true, false, not, Option, none, some, List, [], ◌∷◌, ◌++◌,
  if◌then◌else◌, ltb, is_some,
}
use cri.Base.GoMap.{Map, lookup, insert, delete}
use cri.Base.Errors.{Error}

-- 1s and 5m
abbrev pub back_off_init_duration : ℕ
back_off_init_duration = 10 ^ 9

abbrev pub back_off_max_duration : ℕ
back_off_max_duration = 300 * 10 ^ 9

module _ (E : Type 0) where
  -- backOffQueue
  pub record Queue : Type 0 where
    pub events : List E
    pub expire_time : ℕ
    pub duration : ℕ

  -- backOff, without its ticker
  pub record BackOff : Type 0 where
    pub queue_pool : Map Queue
    pub min_duration : ℕ
    pub max_duration : ℕ

  -- newBackOff
  pub new_back_off : BackOff
  new_back_off = record {
    queue_pool = [];
    min_duration = back_off_init_duration;
    max_duration = back_off_max_duration;
  }

  -- newBackOffQueue
  abbrev pub new_queue : List E → ℕ → ℕ → Queue
  new_queue events init now = record { events = events; expire_time = now + init; duration = init }

  -- isExpire
  abbrev pub is_expire : ℕ → Queue → Bool
  is_expire now q = not (ltb now q.expire_time)

  -- getExpiredIDs
  unfoldable pub expired_ids : ℕ → Map Queue → List String
  expired_ids now [] = []
  expired_ids now ((id, q) ∷ pool) =
      if is_expire now q then id ∷ expired_ids now pool else expired_ids now pool

  -- isInBackOff
  unfoldable pub is_in_back_off : String → BackOff → Bool
  is_in_back_off key b = is_some (lookup key b.queue_pool)

  enqueue : String → E → ℕ → Option Queue → BackOff → BackOff
  enqueue key evt now (some q) b = record b {
    queue_pool = insert key (record q { events = q.events ++ evt ∷ [] }) b.queue_pool;
  }
  enqueue key evt now none b = record b {
    queue_pool = insert key (new_queue (evt ∷ []) b.min_duration now) b.queue_pool;
  }

  -- enBackOff
  unfoldable pub en_back_off : String → E → ℕ → BackOff → BackOff
  unfolding enqueue
  en_back_off key evt now b = enqueue key evt now (lookup key b.queue_pool) b

  -- deBackOff: the queue, or nil, and the pool without it
  unfoldable pub de_back_off : String → BackOff → Option Queue × BackOff
  de_back_off key b = (lookup key b.queue_pool, record b { queue_pool = delete key b.queue_pool })

  -- reBackOff
  unfoldable pub re_back_off : String → List E → ℕ → ℕ → BackOff → BackOff
  re_back_off key events old_duration now b =
      let duration =
        if ltb b.max_duration (2 * old_duration) then b.max_duration else 2 * old_duration in
      record b { queue_pool = insert key (new_queue events duration now) b.queue_pool }

-- The event monitor: its queues, the state of the service, and for the proofs the events that were
-- handled without error, in order.
pub record Monitor (S E : Type 0) : Type 0 where
  pub back_off : BackOff E
  pub service : S
  pub handled : List E

-- What the loop of `start` receives: an event at a time, or a tick.
pub data Input (E : Type 0) : Type 0 where
  event : E → ℕ → Input E
  tick : ℕ → Input E

module _ {S E : Type 0} (id_of : E → String) (handle : E → S → S × Option Error) where
  -- The end of the branch for an event whose id is not in back-off.
  handle_or_back_off : E → ℕ → S × Option Error → Monitor S E → Monitor S E
  handle_or_back_off e now (service, none) m = record m {
    service = service;
    handled = m.handled ++ e ∷ [];
  }
  handle_or_back_off e now (service, some x) m = record m {
    service = service;
    back_off = en_back_off E (id_of e) e now m.back_off;
  }

  -- The branches of the loop for an event, which are the same for `exitCh` and `ch`.
  unfoldable pub on_event : E → ℕ → Monitor S E → Monitor S E
  unfolding handle_or_back_off
  on_event e now m =
      if is_in_back_off E (id_of e) m.back_off
      then record m { back_off = en_back_off E (id_of e) e now m.back_off }
      else handle_or_back_off e now (handle e m.service) m

  -- One round of the loop over `queue.events`: a failure puts the event and the rest back.
  retry_result :
      String
      → ℕ
      → ℕ
      → E
      → List E
      → S × Option Error
      → (Monitor S E → Monitor S E)
      → Monitor S E
      → Monitor S E
  retry_result id duration now e rest (service, none) next m =
      next (record m { service = service; handled = m.handled ++ e ∷ [] })
  retry_result id duration now e rest (service, some x) next m = record m {
    service = service;
    back_off = re_back_off E id (e ∷ rest) duration now m.back_off;
  }

  unfoldable pub retry : String → ℕ → ℕ → List E → Monitor S E → Monitor S E
  unfolding retry_result
  retry id duration now [] m = m
  retry id duration now (e ∷ rest) m =
      retry_result id duration now e rest (handle e m.service) (retry id duration now rest) m

  -- The body of the loop over the expired ids. Each of them has a queue, as the ids are those of the
  -- pool and distinct.
  retry_queue : String → ℕ → Option (Queue E) × BackOff E → Monitor S E → Monitor S E
  retry_queue id now (none, b) m = m
  retry_queue id now (some q, b) m = retry id q.duration now q.events (record m { back_off = b })

  retry_all : ℕ → List String → Monitor S E → Monitor S E
  unfolding retry_queue
  retry_all now [] m = m
  retry_all now (id ∷ ids) m =
      retry_all now ids (retry_queue id now (de_back_off E id m.back_off) m)

  -- The branch for the ticker.
  unfoldable pub on_tick : ℕ → Monitor S E → Monitor S E
  unfolding retry_all
  on_tick now m = retry_all now (expired_ids E now m.back_off.queue_pool) m

  pub step : Monitor S E → Input E → Monitor S E
  step m (event e now) = on_event e now m
  step m (tick now) = on_tick now m

  pub run : Monitor S E → List (Input E) → Monitor S E
  run m [] = m
  run m (i ∷ inputs) = run (step m i) inputs

  -- newEventMonitor over a service
  pub new_monitor : S → Monitor S E
  new_monitor service = record { back_off = new_back_off E; service = service; handled = [] }

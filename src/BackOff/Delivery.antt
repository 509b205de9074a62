-- ===== src/BackOff/Delivery.antt =====
-- No event is lost, handled twice or overtaken by a later event of its container, sandbox or image.
use cri.Base.{
  ℕ, String, ◌≡◌, subst, refl, sym, ap, Option, none, some, List, [], ◌∷◌, ◌++◌, arith,
  if◌then◌else◌, eq_iff, str_eq, keep, All,
}
use mathlib.Core.List.{append_assoc, append-nil}
use cri.Base.GoMap.{lookup}
use cri.Base.Errors.{Error}
use cri.BackOff.{
  Queue, Monitor, Input, event, tick, de_back_off, re_back_off, on_event, retry, retry_result,
  retry_queue, retry_all, on_tick, expired_ids, step, run, new_monitor, new_back_off,
}
use cri.BackOff.Account.{
  events_of, own-if, of_id, of_id-snoc, pending, pending-re_back_off, pending-de_back_off,
  Accounted, on_event-Accounted,
}

module _ {S E : Type 0} (id_of : E → String) (handle : E → S → S × Option Error) where
  -- While the events `left` of the id `key` are out of its queue.
  record Retrying (arrived : List E) (key : String) (left : List E) (m : Monitor S E) : Type 0 where
    own : (id : String) → All (λ e. id_of e ≡ id) (pending m.back_off id)
    left_own : All (λ e. id_of e ≡ key) left
    in_order :
        (id : String)
        → of_id id_of id m.handled ++ (if str_eq key id then left else pending m.back_off id)
          ≡ of_id id_of id arrived

  module _ (arrived : List E) (key : String) where
    put_back-Accounted :
        (left : List E) (duration now : ℕ) (m : Monitor S E) (service : S)
        → Retrying arrived key left m
        → Accounted id_of arrived (record m {
          service = service;
          back_off = re_back_off E key left duration now m.back_off;
        })
    put_back-Accounted left duration now m service v = record {
      own = λ id.
          own-if id_of key id _ _ _ (pending-re_back_off key id left duration now m.back_off)
            (λ h. subst (λ k. All (λ e. id_of e ≡ k) left) h v.left_own) (v.own id);
      in_order = λ id.
          ground (arith, v.in_order id, pending-re_back_off key id left duration now m.back_off);
    }

    handle_next-Retrying :
        (e : E) (left : List E) (m : Monitor S E) (service : S)
        → Retrying arrived key (e ∷ left) m
        → Retrying arrived key left (record m { service = service; handled = m.handled ++ e ∷ [] })
    handle_next-Retrying e left m service v = record {
      own = v.own;
      left_own = v.left_own.1;
      in_order = λ id. ground (
        arith,
        v.in_order id,
        v.left_own.0,
        of_id-snoc id_of id m.handled e,
        append_assoc (of_id id_of id m.handled) (e ∷ []) left,
        eq_iff key id,
        eq_iff (id_of e) id,
      );
    }

    retry_result-Accounted :
        (duration now : ℕ) (e : E) (left : List E) (m : Monitor S E) (r : S × Option Error)
        → (next : Monitor S E → Monitor S E) → Retrying arrived key (e ∷ left) m
        → pending m.back_off key ≡ []
        → ((n : Monitor S E)
            → Retrying arrived key left n
            → pending n.back_off key ≡ []
            → Accounted id_of arrived (next n))
        → Accounted id_of arrived (retry_result id_of handle key duration now e left r next m)
    unfolding retry_result
    retry_result-Accounted duration now e left m (service, none) next v h rest =
        rest _ (handle_next-Retrying e left m service v) h
    retry_result-Accounted duration now e left m (service, some x) next v h rest =
        put_back-Accounted (e ∷ left) duration now m service v

    retry-Accounted :
        (duration now : ℕ) (left : List E) (m : Monitor S E)
        → Retrying arrived key left m
        → pending m.back_off key ≡ []
        → Accounted id_of arrived (retry id_of handle key duration now left m)
    unfolding retry
    retry-Accounted duration now [] m v h = record {
      own = v.own;
      in_order = λ id. ground (arith, v.in_order id, eq_iff key id, ap (pending m.back_off));
    }
    retry-Accounted duration now (e ∷ left) m v h =
        retry_result-Accounted duration now e left m (handle e m.service)
          (retry id_of handle key duration now left) v h (retry-Accounted duration now left)

    start_retry-Retrying :
        (q : Queue E) (m : Monitor S E)
        → Accounted id_of arrived m
        → lookup key m.back_off.queue_pool ≡ some q
        → Retrying arrived key q.events (record m { back_off = (de_back_off E key m.back_off).1 })
    start_retry-Retrying q m v h = record {
      own = λ id.
          own-if id_of key id _ _ _ (pending-de_back_off key id m.back_off) (λ _. tt) (v.own id);
      left_own = subst (All (λ e. id_of e ≡ key)) (ap events_of h) (v.own key);
      in_order = λ id. ground (
        arith,
        v.in_order id,
        pending-de_back_off key id m.back_off,
        eq_iff key id,
        ap events_of h,
      );
    }

    retry_found-Accounted :
        (now : ℕ) (m : Monitor S E)
        → Accounted id_of arrived m
        → (o : Option (Queue E)) → lookup key m.back_off.queue_pool ≡ o
        → Accounted id_of arrived
            (retry_queue id_of handle key now (o, (de_back_off E key m.back_off).1) m)
    unfolding retry_queue
    retry_found-Accounted now m v none h = v
    retry_found-Accounted now m v (some q) h =
        retry-Accounted q.duration now q.events _ (start_retry-Retrying q m v h)
          (ground (arith, pending-de_back_off key key m.back_off, eq_iff key key))

    retry_queue-Accounted :
        (now : ℕ) (m : Monitor S E)
        → Accounted id_of arrived m
        → Accounted id_of arrived
            (retry_queue id_of handle key now (de_back_off E key m.back_off) m)
    unfolding de_back_off
    retry_queue-Accounted now m v = retry_found-Accounted now m v _ refl

  retry_all-Accounted :
      (arrived : List E) (now : ℕ) (ids : List String) (m : Monitor S E)
      → Accounted id_of arrived m
      → Accounted id_of arrived (retry_all id_of handle now ids m)
  unfolding retry_all
  retry_all-Accounted arrived now [] m v = v
  retry_all-Accounted arrived now (id ∷ ids) m v =
      retry_all-Accounted arrived now ids _ (retry_queue-Accounted arrived id now m v)

  on_tick-Accounted :
      (arrived : List E) (now : ℕ) (m : Monitor S E)
      → Accounted id_of arrived m
      → Accounted id_of arrived (on_tick id_of handle now m)
  unfolding on_tick
  on_tick-Accounted arrived now m v =
      retry_all-Accounted arrived now (expired_ids E now m.back_off.queue_pool) m v

  -- The events that arrive in a sequence of inputs.
  abbrev pub arrivals : List (Input E) → List E
  arrivals [] = []
  arrivals (event e now ∷ inputs) = e ∷ arrivals inputs
  arrivals (tick now ∷ inputs) = arrivals inputs

  run-Accounted :
      (arrived : List E) (m : Monitor S E) (inputs : List (Input E))
      → Accounted id_of arrived m
      → Accounted id_of (arrived ++ arrivals inputs) (run id_of handle m inputs)
  unfolding run step
  run-Accounted arrived m [] v = subst (λ l. Accounted id_of l m) (sym (append-nil arrived)) v
  run-Accounted arrived m (event e now ∷ inputs) v =
      subst (λ l. Accounted id_of l (run id_of handle (on_event id_of handle e now m) inputs))
        (append_assoc arrived (e ∷ []) (arrivals inputs))
        (run-Accounted (arrived ++ e ∷ []) _ inputs
          (on_event-Accounted id_of handle arrived e now m v))
  run-Accounted arrived m (tick now ∷ inputs) v =
      run-Accounted arrived _ inputs (on_tick-Accounted arrived now m v)

  -- Whatever the handler does, after any inputs of the event loop, the events that arrived for an
  -- id are, in the order of their arrival and once each, those handled without error followed by
  -- those in the id's queue.
  pub run_in_order :
      (service : S) (inputs : List (Input E)) (id : String)
      → let m = run id_of handle (new_monitor id_of handle service) inputs in
        of_id id_of id m.handled ++ pending m.back_off id ≡ of_id id_of id (arrivals inputs)
  unfolding new_monitor new_back_off lookup keep
  run_in_order service inputs id =
      (run-Accounted [] _ inputs record { own = λ _. tt; in_order = λ _. refl }).in_order id

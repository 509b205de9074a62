-- ===== src/BackOff/Account.antt =====
-- What the event monitor has handled and what is in its queues, against the events that arrived.
use cri.Base.{
  ℕ, String, ◌≡◌, subst, ◌*◌, refl, sym, ap, ◌∙◌, Bool, true, false, Option, none, some, List, [],
  ◌∷◌, ◌++◌, arith, if◌then◌else◌, eq_iff, str_eq, is_some, keep, All, All-append, ltb,
}
use mathlib.Core.List.{append_assoc, append-nil}
use cri.Base.GoMap.{lookup, lookup-insert, lookup-delete}
use cri.Base.Errors.{Error}
use cri.BackOff.{
  Queue, BackOff, Monitor, is_in_back_off, en_back_off, enqueue, de_back_off, re_back_off,
  new_queue, on_event, handle_or_back_off,
}

abbrev pub events_of : {E : Type 0} → Option (Queue E) → List E
events_of none = []
events_of (some q) = q.events

events_of-if :
    {E : Type 0} (c : Bool) (q : Queue E) (o : Option (Queue E))
    → events_of (if c then some q else o) ≡ (if c then q.events else events_of o)
events_of-if true q o = refl
events_of-if false q o = refl

own-cases :
    {A : Type 0} (P : A → Type 0) (c : Bool) (xs ys : List A)
    → (c ≡ true → All P xs)
    → All P ys
    → All P (if c then xs else ys)
own-cases P true xs ys hx hy = hx refl
own-cases P false xs ys hx hy = hy

-- The events of an id, in order.
abbrev pub of_id : {E : Type 0} → (E → String) → String → List E → List E
of_id id_of id l = keep (λ e. str_eq (id_of e) id) l

abbrev pub pending : {E : Type 0} → BackOff E → String → List E
pending b id = events_of (lookup id b.queue_pool)

module _ {E : Type 0} where
  pending-enqueue :
      (key id : String) (e : E) (now : ℕ) (b : BackOff E) (o : Option (Queue E))
      → lookup key b.queue_pool ≡ o
      → pending (enqueue E key e now o b) id
        ≡ (if str_eq key id then pending b id ++ e ∷ [] else pending b id)
  unfolding enqueue
  pending-enqueue key id e now b (some q) h = ground (
    arith,
    lookup-insert key id (record q { events = q.events ++ e ∷ [] }) b.queue_pool,
    eq_iff key id,
  )
  pending-enqueue key id e now b none h = ground (
    arith,
    lookup-insert key id (new_queue E (e ∷ []) b.min_duration now) b.queue_pool,
    eq_iff key id,
  )

  pending-en_back_off :
      (key id : String) (e : E) (now : ℕ) (b : BackOff E)
      → pending (en_back_off E key e now b) id
        ≡ (if str_eq key id then pending b id ++ e ∷ [] else pending b id)
  unfolding en_back_off
  pending-en_back_off key id e now b = pending-enqueue key id e now b _ refl

  pub pending-re_back_off :
      (key id : String) (events : List E) (old now : ℕ) (b : BackOff E)
      → pending (re_back_off E key events old now b) id
        ≡ (if str_eq key id then events else pending b id)
  unfolding re_back_off
  pending-re_back_off key id events old now b =
      let duration = if ltb b.max_duration (2 * old) then b.max_duration else 2 * old in
      ap events_of (lookup-insert key id (new_queue E events duration now) b.queue_pool)
      ∙ events_of-if (str_eq key id) (new_queue E events duration now) (lookup id b.queue_pool)

  pub pending-de_back_off :
      (key id : String) (b : BackOff E)
      → pending ((de_back_off E key b).1) id ≡ (if str_eq key id then [] else pending b id)
  unfolding de_back_off
  pending-de_back_off key id b = ground (arith, lookup-delete key id b.queue_pool, eq_iff key id)

module _ {E : Type 0} (id_of : E → String) where
  pub of_id-snoc :
      (id : String) (l : List E) (e : E)
      → of_id id_of id (l ++ e ∷ [])
        ≡ (if str_eq (id_of e) id then of_id id_of id l ++ e ∷ [] else of_id id_of id l)
  unfolding keep
  of_id-snoc id [] e = refl
  of_id-snoc id (x ∷ l) e = ground (arith, of_id-snoc id l e)

  pub own-if :
      (key id : String) (xs ys zs : List E)
      → xs ≡ (if str_eq key id then ys else zs)
      → (key ≡ id → All (λ e. id_of e ≡ id) ys)
      → All (λ e. id_of e ≡ id) zs
      → All (λ e. id_of e ≡ id) xs
  own-if key id xs ys zs h hy hz =
      subst (All (λ e. id_of e ≡ id)) (sym h)
        (own-cases (λ e. id_of e ≡ id) (str_eq key id) ys zs (λ c. hy ((eq_iff key id).0 c)) hz)

module _ {S E : Type 0} (id_of : E → String) where
  -- The events of `arrived` with this id are those handled and then those in its queue, in order.
  pub record Accounted (arrived : List E) (m : Monitor S E) : Type 0 where
    pub own : (id : String) → All (λ e. id_of e ≡ id) (pending m.back_off id)
    pub in_order :
        (id : String) → of_id id_of id m.handled ++ pending m.back_off id ≡ of_id id_of id arrived

  module _ (arrived : List E) (e : E) (now : ℕ) (m : Monitor S E) (v : Accounted arrived m) where
    -- An event that joins its queue.
    queue_event-Accounted :
        (service : S)
        → Accounted
            (arrived ++ e ∷ [])
            (record m { service = service; back_off = en_back_off E (id_of e) e now m.back_off })
    queue_event-Accounted service = record {
      own = λ id.
          own-if id_of (id_of e) id _ _ _ (pending-en_back_off (id_of e) id e now m.back_off)
            (λ h.
              All-append (λ x. id_of x ≡ id) (pending m.back_off id) (e ∷ []) (v.own id) (h, tt))
            (v.own id);
      in_order = λ id. ground (
        arith,
        v.in_order id,
        of_id-snoc id_of id arrived e,
        pending-en_back_off (id_of e) id e now m.back_off,
        append_assoc (of_id id_of id m.handled) (pending m.back_off id) (e ∷ []),
      );
    }

    -- An event that is handled while its queue is empty.
    handled_event-Accounted :
        (service : S)
        → pending m.back_off (id_of e) ≡ []
        → Accounted
            (arrived ++ e ∷ [])
            (record m { service = service; handled = m.handled ++ e ∷ [] })
    handled_event-Accounted service h = record {
      own = v.own;
      in_order = λ id. ground (
        arith,
        v.in_order id,
        of_id-snoc id_of id arrived e,
        of_id-snoc id_of id m.handled e,
        append-nil (of_id id_of id m.handled),
        append-nil (of_id id_of id m.handled ++ e ∷ []),
        eq_iff (id_of e) id,
        ap (pending m.back_off),
      );
    }

module _ {S E : Type 0} (id_of : E → String) (handle : E → S → S × Option Error) where
  by_result-Accounted :
      (arrived : List E) (e : E) (now : ℕ) (m : Monitor S E)
      → Accounted id_of arrived m
      → (o : Option (Queue E)) (r : S × Option Error) → lookup (id_of e) m.back_off.queue_pool ≡ o
      → Accounted id_of (arrived ++ e ∷ []) (
          if is_some o
          then record m { back_off = en_back_off E (id_of e) e now m.back_off }
          else handle_or_back_off id_of handle e now r m)
  unfolding handle_or_back_off
  by_result-Accounted arrived e now m v (some q) r h =
      queue_event-Accounted id_of arrived e now m v m.service
  by_result-Accounted arrived e now m v none (service, none) h =
      handled_event-Accounted id_of arrived e now m v service (ap events_of h)
  by_result-Accounted arrived e now m v none (service, some x) h =
      queue_event-Accounted id_of arrived e now m v service

  pub on_event-Accounted :
      (arrived : List E) (e : E) (now : ℕ) (m : Monitor S E)
      → Accounted id_of arrived m
      → Accounted id_of (arrived ++ e ∷ []) (on_event id_of handle e now m)
  unfolding on_event is_in_back_off
  on_event-Accounted arrived e now m v = by_result-Accounted arrived e now m v _ _ refl

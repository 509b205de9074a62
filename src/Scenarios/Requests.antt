-- ===== src/Scenarios/Requests.antt =====
-- Runs of the cache of streaming requests and of the event monitor.
use Prim.Native.String.{slice}
use cri.Base.GoMap.{lookup}
use cri.Base.{
  ℕ, ◌+◌, String, ◌≡◌, refl, subst, Option, none, some, List, [], ◌∷◌, ◌++◌, arith, if◌then◌else◌,
  ltb,
}
use cri.Base.Errors.{Error, Result, ok, failure}
use cri.RequestCache.{new_request_cache, gc, unique_token, insert_request, consume, cache_ttl}
use cri.RequestCache.Links.{IsValid, new_request_cache-IsValid}
use cri.RequestCache.Use
use cri.RequestCache.Use.{inserts, consumes, run-IsValid, consume_once, insert_consume}
use cri.BackOff
use cri.BackOff.{Input, event, tick, new_monitor}
use cri.BackOff.Account.{of_id, pending}
use cri.BackOff.Durations.{Bounded, run-Bounded}
use cri.BackOff.Delivery.{arrivals, run_in_order}

abbrev draws : ℕ → Result String
draws i = ok "abcdefgh"

the_text : (s : String) → ok "abcdefgh" ≡ ok s → "abcdefgh" ≡ s
the_text s e = ground (arith, e)

draws_whole : (k : ℕ) (s : String) → draws k ≡ ok s → slice s 0 8 ≡ s
draws_whole k s e = subst (λ t. slice t 0 8 ≡ t) (the_text s e) refl

abbrev requests : List (Use.Call String)
requests = inserts "exec" 5 6 draws ∷ consumes "abcdefgh" 9 ∷ []

run-IsValid_example : IsValid String (Use.run String (new_request_cache String) requests)
run-IsValid_example = run-IsValid String requests (draws_whole, tt)

consume_once_example :
    let c = (insert_request String "exec" 5 6 draws (new_request_cache String)).0 in
    consume String "abcdefgh" 9 (consume String "abcdefgh" 8 c).0
    ≡ ((consume String "abcdefgh" 8 c).0, none)
consume_once_example =
    consume_once String "abcdefgh" 8 9
      ((insert_request String "exec" 5 6 draws (new_request_cache String)).0)

inserted : (insert_request String "exec" 5 6 draws (new_request_cache String)).1 ≡ ok "abcdefgh"
unfolding insert_request new_request_cache gc unique_token lookup
inserted = refl

insert_consume_example :
    (consume String "abcdefgh" 9
      (insert_request String "exec" 5 6 draws (new_request_cache String)).0).1
    ≡ (if ltb (6 + cache_ttl) 9 then none else some "exec")
insert_consume_example =
    insert_consume String "exec" 5 6 9 draws "abcdefgh" (new_request_cache String)
      (new_request_cache-IsValid String) inserted

-- Events are ids with a payload; the handler fails until its service has counted to 2.
abbrev Exit : Type 0
Exit = String × ℕ

handle : Exit → ℕ → ℕ × Option Error
handle e tries = (tries + 1, if ltb tries 2 then some (failure "busy") else none)

abbrev inputs : List (Input Exit)
inputs =
    event ("c1", 1) 0
    ∷ event ("c1", 2) 1
    ∷ event ("c2", 1) 2
    ∷ tick 3000000000
    ∷ tick 9000000000
    ∷ []

run-Bounded_example :
    Bounded
      (BackOff.run
        (λ (e : Exit). e.0)
        handle
        (new_monitor (λ (e : Exit). e.0) handle 0)
        inputs).back_off
run-Bounded_example = run-Bounded (λ e. e.0) handle 0 inputs

run_in_order_example :
    let m =
      BackOff.run (λ (e : Exit). e.0) handle (new_monitor (λ (e : Exit). e.0) handle 0) inputs in
    of_id (λ e. e.0) "c1" m.handled ++ pending m.back_off "c1"
    ≡ of_id (λ e. e.0) "c1" (arrivals (λ (e : Exit). e.0) handle inputs)
run_in_order_example = run_in_order (λ e. e.0) handle 0 inputs "c1"

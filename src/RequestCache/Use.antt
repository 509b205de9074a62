-- ===== src/RequestCache/Use.antt =====
-- What the clients of a request cache see.
use Prim.Native.String.{slice}
use cri.Base.{
  ℕ, ◌+◌, String, ◌≡◌, refl, subst, ◌∙◌, Option, none, some, List, [], ◌∷◌, arith, if◌then◌else◌,
  ltb, ◌==◌, length, Bool-cases, inl, inr,
}
use cri.Base.GoMap.{lookup, lookup-insert_self, lookup-delete_self}
use cri.Base.Errors.{Result, ok, err}
use cri.RequestCache.Elements.{Element, find, find-append}
use cri.RequestCache.{
  RequestCache, new_request_cache, max_in_flight, cache_ttl, token_len, gc, unique_token, push,
  insert_collected, insert_request, consume, consume_element,
}
use cri.RequestCache.Links.{
  IsValid, new_request_cache-IsValid, insert_request-IsValid, consume-IsValid, LinkedCache,
  gc-Linked,
}

pub data Call (R : Type 0) : Type 0 where
  inserts : R → ℕ → ℕ → (ℕ → Result String) → Call R
  consumes : String → ℕ → Call R

-- What is encoded has the length of a token.
abbrev pub IsWhole : (ℕ → Result String) → Type 0
IsWhole draws = (k : ℕ) (s : String) → draws k ≡ ok s → slice s 0 token_len ≡ s

abbrev pub AllWhole : {R : Type 0} → List (Call R) → Type 0
AllWhole [] = Unit
AllWhole (inserts req gc_now now draws ∷ cs) = IsWhole draws × AllWhole cs
AllWhole (consumes token now ∷ cs) = AllWhole cs

module _ (R : Type 0) where
  pub step : RequestCache R → Call R → RequestCache R
  step c (inserts req gc_now now draws) = (insert_request R req gc_now now draws c).0
  step c (consumes token now) = (consume R token now c).0

  pub run : RequestCache R → List (Call R) → RequestCache R
  run c [] = c
  run c (call ∷ calls) = run (step c call) calls

  run_from-IsValid :
      (calls : List (Call R)) (c : RequestCache R)
      → AllWhole calls
      → IsValid R c
      → IsValid R (run c calls)
  unfolding run step
  run_from-IsValid [] c w v = v
  run_from-IsValid (inserts req gc_now now draws ∷ calls) c w v =
      run_from-IsValid calls _ w.1 (insert_request-IsValid R req gc_now now draws c w.0 v)
  run_from-IsValid (consumes token now ∷ calls) c w v =
      run_from-IsValid calls _ w (consume-IsValid R token now c v)

  -- After any calls on a new cache, where what is encoded has the length of a token, the tokens of
  -- the map lead to the elements of the list with these tokens and each element is led to, and the
  -- list has at most `maxInFlight` elements.
  pub run-IsValid :
      (calls : List (Call R)) → AllWhole calls → IsValid R (run (new_request_cache R) calls)
  run-IsValid calls w = run_from-IsValid calls _ w (new_request_cache-IsValid R)

  consume_element_gone :
      (token : String) (now : ℕ) (o : Option ℕ) (c : RequestCache R)
      → lookup token c.tokens ≡ o
      → lookup token (consume_element R token now o c).0.tokens ≡ none
  unfolding consume_element
  consume_element_gone token now none c e = e
  consume_element_gone token now (some p) c e = lookup-delete_self token c.tokens

  consume_absent :
      (token : String) (now : ℕ) (c : RequestCache R)
      → lookup token c.tokens ≡ none
      → consume R token now c ≡ (c, none)
  unfolding consume
  consume_absent token now c e = rw (e, consume)

  -- A token is good for one Consume: whatever the first returned, a second one of the same token
  -- returns nothing and changes nothing.
  pub consume_once :
      (token : String) (now later : ℕ) (c : RequestCache R)
      → consume R token later (consume R token now c).0 ≡ ((consume R token now c).0, none)
  consume_once token now later c =
      consume_absent token later (consume R token now c).0
        (unfold consume in consume_element_gone token now (lookup token c.tokens) c refl)

  consume_present :
      (token : String) (now p : ℕ) (x : Element R) (c : RequestCache R)
      → lookup token c.tokens ≡ some p
      → find p c.ll ≡ some x
      → (consume R token now c).1 ≡ (if ltb x.expire_time now then none else some x.req)
  unfolding consume
  consume_present token now p x c e f = rw (e, consume, f)

  push-consume :
      (req : R) (now later : ℕ) (r : Result String) (token : String) (c : RequestCache R)
      → LinkedCache R c
      → (push R req now r c).1 ≡ ok token
      → (consume R token later (push R req now r c).0).1
        ≡ (if ltb (now + cache_ttl) later then none else some req)
  unfolding push
  push-consume req now later (err e) token c v h = cc
  push-consume req now later (ok t) token c v h =
      let x : Element R = record {
        pointer = c.next;
        token = t;
        req = req;
        expire_time = now + cache_ttl;
      } in
      let same : t ≡ token = cc in
      subst
        (λ k.
          (consume R k later (push R req now (ok t) c).0).1
          ≡ (if ltb (now + cache_ttl) later then none else some req))
        same
        (consume_present t later c.next x (push R req now (ok t) c).0
          (lookup-insert_self t c.next c.tokens)
          (find-append c.next 0 c.next c.ll x v.ordered refl ∙ ground arith))

  insert_collected-consume :
      (req : R) (now later : ℕ) (draws : ℕ → Result String) (token : String) (c : RequestCache R)
      → LinkedCache R c
      → (insert_collected R req now draws c).1 ≡ ok token
      → (consume R token later (insert_collected R req now draws c).0).1
        ≡ (if ltb (now + cache_ttl) later then none else some req)
  unfolding insert_collected
  insert_collected-consume req now later draws token c v =
      elim (Bool-cases (length c.ll == max_in_flight)) [
        | inl full ↦ rw full (λ h. cc)
        | inr room ↦ rw room (push-consume req now later (unique_token R draws c) token c v)
      ]

  -- On a valid cache, a token that Insert returned for a request gives that request back until its
  -- expiry, one minute after the time of the insertion, and nothing after that.
  pub insert_consume :
      (req : R) (gc_now now later : ℕ) (draws : ℕ → Result String) (token : String)
      (c : RequestCache R)
      → IsValid R c
      → (insert_request R req gc_now now draws c).1 ≡ ok token
      → (consume R token later (insert_request R req gc_now now draws c).0).1
        ≡ (if ltb (now + cache_ttl) later then none else some req)
  unfolding insert_request
  insert_consume req gc_now now later draws token c v =
      insert_collected-consume req now later draws token (gc R gc_now c)
        (gc-Linked R gc_now c v.linked)

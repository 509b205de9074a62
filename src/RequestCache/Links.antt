-- ===== src/RequestCache/Links.antt =====
-- The token map and the list of a request cache point at each other, through every call.
use Prim.Native.String.{slice}
use cri.Base.{
  ℕ, zero, suc, ◌≤◌, ◌<◌, String, ◌≡◌, refl, subst, Option, none, some, List, [], ◌∷◌, ◌++◌, arith,
  if◌then◌else◌, ◌==◌, eq_iff, length, length-append, Option-cases, Bool-cases, inl, inr,
}
use cri.Base.GoMap.{Map, lookup, insert, delete, lookup-insert, lookup-delete}
use cri.Base.Errors.{Result, ok, err}
use cri.RequestCache.Elements.{
  Element, find, unlink, Within, Within-weaken, find_below, find_above, find-unlink, unlink-Within,
  append-Within, find-append,
}
use cri.RequestCache.{
  RequestCache, token_len, max_tries, accept, new_request_cache, max_in_flight, gc, gc_from,
  unique_token, try_tokens, push, insert_collected, insert_request, consume, consume_element,
}

abbrev pub token_at : {R : Type 0} → Option (Element R) → Option String
token_at none = none
token_at (some x) = some x.token

module _ (R : Type 0) where
  -- A token leads to the pointer of an element with this token, and each element is led to.
  pub record Linked (tokens : Map ℕ) (ll : List (Element R)) (next : ℕ) : Type 0 where
    pub ordered : Within 0 next ll
    pub forth :
        (token : String) (p : ℕ) → lookup token tokens ≡ some p → token_at (find p ll) ≡ some token
    pub back : (p : ℕ) (x : Element R) → find p ll ≡ some x → lookup x.token tokens ≡ some p

  -- Taking one element out of both keeps them linked.
  drop-Linked :
      (tokens : Map ℕ) (ll ll' : List (Element R)) (next p : ℕ) (x : Element R)
      → Linked tokens ll next
      → find p ll ≡ some x
      → ((q : ℕ) → find q ll' ≡ (if p == q then none else find q ll))
      → Within 0 next ll'
      → Linked (delete x.token tokens) ll' next
  drop-Linked tokens ll ll' next p x v here gone within = record {
    ordered = within;
    forth = λ token q.
        ground (
          arith,
          lookup-delete x.token token tokens,
          gone q,
          v.forth token q,
          eq_iff x.token token,
        );
    back = λ q y. ground (
      arith,
      lookup-delete x.token y.token tokens,
      gone q,
      v.back q y,
      v.back p x,
      eq_iff x.token y.token,
    );
  }

  find_tail :
      (q next : ℕ) (x : Element R) (rest : List (Element R))
      → Within (suc x.pointer) next rest
      → find q rest ≡ (if x.pointer == q then none else find q (x ∷ rest))
  unfolding find
  find_tail q next x rest w = ground (arith, find_below q (suc x.pointer) next rest w)

  find_head : (x : Element R) (rest : List (Element R)) → find x.pointer (x ∷ rest) ≡ some x
  unfolding find
  find_head x rest = ground arith

  abbrev pub LinkedCache : RequestCache R → Type 0
  LinkedCache c = Linked c.tokens c.ll c.next

  gc_from-Linked :
      (now : ℕ) (ll : List (Element R)) (tokens : Map ℕ) (next : ℕ)
      → Linked tokens ll next
      → LinkedCache (gc_from R now ll tokens next)
  unfolding gc_from
  gc_from-Linked now [] tokens next v = v
  gc_from-Linked now (x ∷ rest) tokens next v =
      ground (arith, gc_from-Linked now rest (delete x.token tokens) next popped)
    where
      popped : Linked (delete x.token tokens) rest next
      popped =
          drop-Linked tokens (x ∷ rest) rest next x.pointer x v (find_head x rest)
            (λ q. find_tail q next x rest v.ordered.1)
            (Within-weaken (suc x.pointer) 0 next rest (omega arith) v.ordered.1)

  pub gc-Linked : (now : ℕ) (c : RequestCache R) → LinkedCache c → LinkedCache (gc R now c)
  unfolding gc
  gc-Linked now c v = gc_from-Linked now c.ll c.tokens c.next v

  gc_from-length :
      (now : ℕ) (ll : List (Element R)) (tokens : Map ℕ) (next : ℕ)
      → length (gc_from R now ll tokens next).ll ≤ length ll
  unfolding gc_from
  gc_from-length now [] tokens next = omega arith
  gc_from-length now (x ∷ rest) tokens next =
      ground (arith, gc_from-length now rest (delete x.token tokens) next)

  -- A new element under a token that is not in use.
  push-Linked :
      (tokens : Map ℕ) (ll : List (Element R)) (next : ℕ) (x : Element R)
      → Linked tokens ll next
      → x.pointer ≡ next
      → lookup x.token tokens ≡ none
      → Linked (insert x.token next tokens) (ll ++ x ∷ []) (suc next)
  push-Linked tokens ll next x v e free = record {
    ordered = append-Within 0 next ll x v.ordered e;
    forth = λ token q. ground (
      arith,
      lookup-insert x.token token next tokens,
      find-append q 0 next ll x v.ordered e,
      find_above next 0 next ll v.ordered,
      v.forth token q,
      eq_iff x.token token,
    );
    back = λ q y. ground (
      arith,
      lookup-insert x.token y.token next tokens,
      find-append q 0 next ll x v.ordered e,
      v.back q y,
      eq_iff x.token y.token,
    );
  }

  accept_fresh :
      (d retry : Result String) (tokens : Map ℕ) (token : String)
      → ((s : String) → d ≡ ok s → slice s 0 token_len ≡ s)
      → (retry ≡ ok token → lookup token tokens ≡ none)
      → accept d retry tokens ≡ ok token
      → lookup token tokens ≡ none
  unfolding accept
  accept_fresh (err e) retry tokens token whole later h = cc
  accept_fresh (ok s) retry tokens token whole later h = elim (Option-cases (lookup s tokens)) [
    | inl n ↦ ground (arith, whole s refl, n)
    | inr (p, n) ↦ ground (arith, n, later)
  ]

  -- What `uniqueToken` returns is not in use, if an encoded token has its full length.
  try_tokens_fresh :
      (tries i : ℕ) (draws : ℕ → Result String) (tokens : Map ℕ) (token : String)
      → ((k : ℕ) (s : String) → draws k ≡ ok s → slice s 0 token_len ≡ s)
      → try_tokens R tries i draws tokens ≡ ok token
      → lookup token tokens ≡ none
  unfolding try_tokens
  try_tokens_fresh zero i draws tokens token whole e = cc
  try_tokens_fresh (suc tries) i draws tokens token whole e =
      accept_fresh (draws i) (try_tokens R tries (suc i) draws tokens) tokens token (whole i)
        (try_tokens_fresh tries (suc i) draws tokens token whole) e

  -- The token map and the list are linked, and the list is no longer than the limit.
  pub record IsValid (c : RequestCache R) : Type 0 where
    pub linked : LinkedCache c
    pub bounded : length c.ll ≤ max_in_flight

  pub new_request_cache-IsValid : IsValid (new_request_cache R)
  unfolding new_request_cache lookup find
  new_request_cache-IsValid = record {
    linked = record { ordered = omega arith; forth = λ t p h. cc; back = λ p x h. cc };
    bounded = omega arith;
  }

  push-IsValid :
      (req : R) (now : ℕ) (r : Result String) (c : RequestCache R)
      → ((token : String) → r ≡ ok token → lookup token c.tokens ≡ none)
      → LinkedCache c
      → length c.ll < max_in_flight
      → IsValid (push R req now r c).0
  unfolding push
  push-IsValid req now (err e) c fresh v b = record { linked = v; bounded = omega arith }
  push-IsValid req now (ok token) c fresh v b = record {
    linked = push-Linked c.tokens c.ll c.next _ v refl (fresh token refl);
    bounded = omega (arith, length-append {0} c.ll);
  }

  insert_collected-IsValid :
      (req : R) (now : ℕ) (draws : ℕ → Result String) (c : RequestCache R)
      → ((k : ℕ) (s : String) → draws k ≡ ok s → slice s 0 token_len ≡ s)
      → IsValid c
      → IsValid (insert_collected R req now draws c).0
  unfolding insert_collected unique_token
  insert_collected-IsValid req now draws c whole v =
      elim (Bool-cases (length c.ll == max_in_flight)) [
        | inl full ↦ rw full v
        | inr room ↦ rw room (
            push-IsValid req now (unique_token R draws c) c
              (λ token. try_tokens_fresh max_tries 0 draws c.tokens token whole) v.linked
              (ground (arith, v.bounded)))
      ]

  pub insert_request-IsValid :
      (req : R) (gc_now now : ℕ) (draws : ℕ → Result String) (c : RequestCache R)
      → ((k : ℕ) (s : String) → draws k ≡ ok s → slice s 0 token_len ≡ s)
      → IsValid c
      → IsValid (insert_request R req gc_now now draws c).0
  unfolding insert_request
  insert_request-IsValid req gc_now now draws c whole v =
      insert_collected-IsValid req now draws (gc R gc_now c) whole (record {
        linked = gc-Linked gc_now c v.linked;
        bounded = unfold gc in omega (arith, gc_from-length gc_now c.ll c.tokens c.next);
      })

  length-unlink : (p : ℕ) (ll : List (Element R)) → length (unlink p ll) ≤ length ll
  unfolding unlink
  length-unlink p [] = omega arith
  length-unlink p (x ∷ rest) = ground (arith, length-unlink p rest)

  token_at-some :
      (o : Option (Element R)) (token : String)
      → token_at o ≡ some token
      → (x : Element R) × (o ≡ some x) × (x.token ≡ token)
  token_at-some none token e = cc
  token_at-some (some x) token e = (x, refl, cc)

  consume_element-IsValid :
      (token : String) (now : ℕ) (o : Option ℕ) (c : RequestCache R)
      → lookup token c.tokens ≡ o
      → IsValid c
      → IsValid (consume_element R token now o c).0
  unfolding consume_element
  consume_element-IsValid token now none c e v = v
  consume_element-IsValid token now (some p) c e v =
      let found = token_at-some (find p c.ll) token (v.linked.forth token p e) in
      record {
        linked =
            subst (λ t. Linked (delete t c.tokens) (unlink p c.ll) c.next) found.2
              (drop-Linked c.tokens c.ll (unlink p c.ll) c.next p found.0 v.linked found.1
                (λ q. find-unlink p q 0 c.next c.ll v.linked.ordered)
                (unlink-Within p 0 c.next c.ll v.linked.ordered));
        bounded = omega (arith, length-unlink p c.ll, v.bounded);
      }

  pub consume-IsValid :
      (token : String) (now : ℕ) (c : RequestCache R)
      → IsValid c
      → IsValid (consume R token now c).0
  unfolding consume
  consume-IsValid token now c v = consume_element-IsValid token now _ c refl v

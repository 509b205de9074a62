-- ===== src/RequestCache.antt =====
-- pkg/streaming/request_cache.go: the cache of streaming requests behind single-use tokens.
-- The linked list is kept from its back (the oldest) to its front; an element is a pointer, and
-- `next` is the pointer of the next element that is allocated. Times are nanoseconds. Randomness is
-- what each round of `uniqueToken` encodes, or the error of `rand.Read`.
pub mod Elements
pub mod Links
pub mod Use
use Prim.Native.String.{slice}
use cri.Base.{
  ℕ, zero, suc, ◌+◌, ◌*◌, ◌^◌, String, Bool, true, false, Option, none, some, List, [], ◌∷◌, ◌++◌,
  if◌then◌else◌, ltb, ◌==◌, is_some, length,
}
use cri.Base.GoMap.{Map, lookup, insert, delete}
use cri.Base.Errors.{Error, Result, ok, err, failure}
use Elements.{Element, find, unlink}

-- One minute.
abbrev pub cache_ttl : ℕ
cache_ttl = 60 * 10 ^ 9

abbrev pub max_in_flight : ℕ
max_in_flight = 1000

abbrev pub max_tries : ℕ
max_tries = 10

abbrev pub token_len : ℕ
token_len = 8

-- One round of the loop of uniqueToken: an error of `rand.Read`, a token in use, or a new token.
accept : Result String → Result String → Map ℕ → Result String
accept (err e) retry tokens = err e
accept (ok encoded) retry tokens =
    if is_some (lookup encoded tokens) then retry else ok (slice encoded 0 token_len)

module _ (R : Type 0) where
  -- requestCache
  pub record RequestCache : Type 0 where
    pub tokens : Map ℕ
    pub ll : List (Element R)
    pub next : ℕ

  -- newRequestCache
  unfoldable pub new_request_cache : RequestCache
  new_request_cache = record { tokens = []; ll = []; next = 0 }

  -- gc: the oldest elements go while they are expired.
  gc_from : ℕ → List (Element R) → Map ℕ → ℕ → RequestCache
  gc_from now [] tokens next = record { tokens = tokens; ll = []; next = next }
  gc_from now (oldest ∷ rest) tokens next =
      let collected = gc_from now rest (delete oldest.token tokens) next in
      if ltb oldest.expire_time now
      then collected
      else record { tokens = tokens; ll = oldest ∷ rest; next = next }

  unfoldable pub gc : ℕ → RequestCache → RequestCache
  unfolding gc_from
  gc now c = gc_from now c.ll c.tokens c.next

  -- The loop of uniqueToken from its round `i` on; `draws` is what each round encodes.
  try_tokens : ℕ → ℕ → (ℕ → Result String) → Map ℕ → Result String
  try_tokens zero i draws tokens = err (failure "failed to generate unique token")
  try_tokens (suc tries) i draws tokens =
      let retry = try_tokens tries (suc i) draws tokens in accept (draws i) retry tokens

  -- uniqueToken
  unfoldable pub unique_token : (ℕ → Result String) → RequestCache → Result String
  unfolding try_tokens accept
  unique_token draws c = try_tokens max_tries 0 draws c.tokens

  -- The end of Insert, at the time `now` that sets the expiry.
  push : R → ℕ → Result String → RequestCache → RequestCache × Result String
  push req now (err e) c = (c, err e)
  push req now (ok token) c = (
    record {
      tokens = insert token c.next c.tokens;
      ll =
          c.ll
          ++ record { pointer = c.next; token = token; req = req; expire_time = now + cache_ttl }
            ∷ [];
      next = suc c.next;
    },
    ok token,
  )

  insert_collected : R → ℕ → (ℕ → Result String) → RequestCache → RequestCache × Result String
  unfolding push unique_token
  insert_collected req now draws c =
      if length c.ll == max_in_flight
      then (c, err (failure "maximum number of in-flight requests exceeded"))
      else push req now (unique_token draws c) c

  -- Insert: gc reads the clock first, and the expiry reads it again.
  unfoldable pub insert_request :
      R → ℕ → ℕ → (ℕ → Result String) → RequestCache → RequestCache × Result String
  unfolding insert_collected gc
  insert_request req gc_now now draws c = insert_collected req now draws (gc gc_now c)

  -- `ele.Value` and the expiry test of Consume
  deliver : ℕ → Option (Element R) → Option R
  deliver now none = none
  deliver now (some x) = if ltb x.expire_time now then none else some x.req

  consume_element : String → ℕ → Option ℕ → RequestCache → RequestCache × Option R
  unfolding deliver
  consume_element token now none c = (c, none)
  consume_element token now (some ele) c = (
    record c { tokens = delete token c.tokens; ll = unlink ele c.ll },
    deliver now (find ele c.ll),
  )

  -- Consume
  unfoldable pub consume : String → ℕ → RequestCache → RequestCache × Option R
  unfolding consume_element
  consume token now c = consume_element token now (lookup token c.tokens) c

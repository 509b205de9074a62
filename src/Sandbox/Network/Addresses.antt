-- ===== src/Sandbox/Network/Addresses.antt =====
-- The address that `selectPodIPs` reports, against a search for the first IPv4 address.
use cri.Base.{
  String, ◌≡◌, refl, ap, ◌∙◌, Bool, true, false, Option, none, some, List, [], ◌∷◌, ◌++◌, map, All,
  if◌then◌else◌, str_eq, arith,
}
use cri.Sandbox.Network.{IpConfig, select_pod_ips, place_all, choose, place}
use mathlib.Core.List.{append_assoc, append-nil}

put_before : String → Option (String × List String) → Option (String × List String)
put_before x none = none
put_before x (some (ip, more)) = some (ip, x ∷ more)

texts : List IpConfig → List String
texts = map (λ (c : IpConfig). c.text)

-- The first IPv4 address, and all the other addresses in their order.
unfoldable pub first_ipv4 : List IpConfig → Option (String × List String)
unfolding put_before texts
first_ipv4 [] = none
first_ipv4 (c ∷ cs) =
    let rest = put_before c.text (first_ipv4 cs) in
    if c.is_ipv4 then some (c.text, texts cs) else rest

or_first : IpConfig → List IpConfig → Option (String × List String) → Option (String × List String)
unfolding texts
or_first c cs none = some (c.text, texts cs)
or_first c cs (some found) = some found

-- The address to report: the first IPv4 one, or else the first one.
unfoldable pub preferred : List IpConfig → Option (String × List String)
unfolding or_first
preferred [] = none
preferred (c ∷ cs) = or_first c cs (first_ipv4 (c ∷ cs))

place-chosen :
    (c : IpConfig) (ip : String) (more : List String)
    → str_eq ip "" ≡ false
    → place c (ip, more) ≡ (ip, more ++ (c.text ∷ []))
unfolding place
place-chosen c ip more h = ground arith

-- Once an address is chosen, the rest is appended.
place_all-chosen :
    (cs : List IpConfig) (ip : String) (more : List String)
    → str_eq ip "" ≡ false
    → place_all cs (ip, more) ≡ (ip, more ++ texts cs)
unfolding place_all place texts
place_all-chosen [] ip more h = rw (append-nil more)
place_all-chosen (c ∷ cs) ip more h =
    ap (place_all cs) (place-chosen c ip more h)
    ∙ place_all-chosen cs ip (more ++ (c.text ∷ [])) h
    ∙ rw (append_assoc more (c.text ∷ []) (texts cs))

after : List String → Option (String × List String) → List IpConfig → String × List String
unfolding texts
after more none cs = ("", more ++ texts cs)
after more (some (ip, rest)) cs = (ip, more ++ rest)

after-put_before :
    (c : IpConfig) (cs : List IpConfig) (more : List String) (o : Option (String × List String))
    → after (more ++ (c.text ∷ [])) o cs ≡ after more (put_before c.text o) (c ∷ cs)
unfolding after texts put_before
after-put_before c cs more none = rw (append_assoc more (c.text ∷ []) (texts cs))
after-put_before c cs more (some (ip, rest)) = rw (append_assoc more (c.text ∷ []) rest)

place-first :
    (v4 : Bool) (text : String) (cs : List IpConfig) (more : List String)
    → str_eq text "" ≡ false
    → place_all cs ("", more ++ (text ∷ [])) ≡ after (more ++ (text ∷ [])) (first_ipv4 cs) cs
    → let c : IpConfig = record { is_ipv4 = v4; text = text } in
      place_all (c ∷ cs) ("", more) ≡ after more (first_ipv4 (c ∷ cs)) (c ∷ cs)
unfolding place_all place first_ipv4 after texts
place-first true text cs more h e = place_all-chosen cs text more h
place-first false text cs more h e =
    e ∙ after-put_before (record { is_ipv4 = false; text = text }) cs more (first_ipv4 cs)

place_all-first :
    (cs : List IpConfig) (more : List String)
    → All (λ (c : IpConfig). str_eq c.text "" ≡ false) cs
    → place_all cs ("", more) ≡ after more (first_ipv4 cs) cs
unfolding place_all place first_ipv4 after texts
place_all-first [] more h = rw (append-nil more)
place_all-first (c ∷ cs) more (h, hs) =
    place-first c.is_ipv4 c.text cs more h (place_all-first cs (more ++ (c.text ∷ [])) hs)

-- The first IPv4 address has a text.
IsNamed : Option (String × List String) → Type 0
IsNamed none = Unit
IsNamed (some (ip, more)) = str_eq ip "" ≡ false

put_before-IsNamed :
    (x : String) (o : Option (String × List String)) → IsNamed o → IsNamed (put_before x o)
unfolding put_before IsNamed
put_before-IsNamed x none h = tt
put_before-IsNamed x (some f) h = h

first-IsNamed :
    (v4 : Bool) (text : String) (cs : List IpConfig)
    → str_eq text "" ≡ false
    → IsNamed (first_ipv4 cs)
    → IsNamed (first_ipv4 (record { is_ipv4 = v4; text = text } ∷ cs))
unfolding first_ipv4 IsNamed
first-IsNamed true text cs h n = h
first-IsNamed false text cs h n = put_before-IsNamed text (first_ipv4 cs) n

first_ipv4-IsNamed :
    (cs : List IpConfig)
    → All (λ (c : IpConfig). str_eq c.text "" ≡ false) cs
    → IsNamed (first_ipv4 cs)
unfolding first_ipv4 IsNamed
first_ipv4-IsNamed [] h = tt
first_ipv4-IsNamed (c ∷ cs) (h, hs) = first-IsNamed c.is_ipv4 c.text cs h (first_ipv4-IsNamed cs hs)

choose-named :
    (ip : String) (more : List String) → str_eq ip "" ≡ false → choose (ip, more) ≡ some (ip, more)
unfolding choose
choose-named ip [] h = rw h
choose-named ip (x ∷ more) h = rw h

choose-after :
    (c : IpConfig) (cs : List IpConfig) (o : Option (String × List String))
    → IsNamed o
    → choose (after [] o (c ∷ cs)) ≡ or_first c cs o
unfolding after texts or_first IsNamed choose
choose-after c cs none h = refl
choose-after c cs (some (ip, rest)) h = choose-named ip rest h

-- For addresses with a text, `selectPodIPs` returns the first IPv4 address, or the first address
-- where there is none, with all the others in their order; it runs out of range on no address only.
pub select_pod_ips-eq-preferred :
    (cs : List IpConfig)
    → All (λ (c : IpConfig). str_eq c.text "" ≡ false) cs
    → select_pod_ips cs ≡ preferred cs
unfolding select_pod_ips preferred place_all choose
select_pod_ips-eq-preferred [] h = refl
select_pod_ips-eq-preferred (c ∷ cs) h =
    ap choose (place_all-first (c ∷ cs) [] h)
    ∙ choose-after c cs (first_ipv4 (c ∷ cs)) (first_ipv4-IsNamed (c ∷ cs) h)

-- ===== src/Names/Unique.antt =====
-- When two sandboxes or two containers have one name: the fields that hold no delimiter are determined.
use Prim.Native.String.{◌++◌ as str_append}
use Prim.Native.String.append
use Prim.Native.Char.{Char, code}
use cri.Base.{
  String, ◌≡◌, ◌≢◌, refl, sym, ap, ◌∙◌, ℕ, List, [], ◌∷◌, length, Bool, true, not, ◌&&◌, ◌==◌,
  arith,
}
use cri.Names.{join, PodMetadata, ContainerMetadata, make_sandbox_name, make_container_name}

first_code : String → ℕ
first_code String.[] = 0
first_code (String.◌∷◌ c s) = code c

abbrev pub is_plain : String → Bool
is_plain String.[] = true
is_plain (String.◌∷◌ c s) = not (code c == b'_') && is_plain s

-- No character is the delimiter.
abbrev pub HasNoDelimiter : String → Type 0
HasNoDelimiter s = is_plain s ≡ true

plain_parts :
    (c : Char) (s : String) → HasNoDelimiter (String.◌∷◌ c s) → (code c ≢ b'_') × HasNoDelimiter s
plain_parts c s h = ground arith

-- A text with a first character.
abbrev put : Char → String → String
put c s = String.◌∷◌ c s

-- What stands before the first delimiter is determined by the whole.
cut :
    (a b x y : String)
    → HasNoDelimiter a
    → HasNoDelimiter b
    → str_append a (put "_" x) ≡ str_append b (put "_" y)
    → (a ≡ b) × (x ≡ y)
unfolding first_code
cut String.[] String.[] x y h k e =
    let e' : put "_" x ≡ put "_" y = sym (append.nil _) ∙ e ∙ append.nil _ in (refl, cc)
cut String.[] (String.◌∷◌ d t) x y h k e =
    let e' : put "_" x ≡ put d (str_append t (put "_" y)) =
      sym (append.nil _) ∙ e ∙ append.cons d t _ in
    absurd ((plain_parts d t k).0 (sym (ap first_code e')))
cut (String.◌∷◌ c s) String.[] x y h k e =
    let e' : put c (str_append s (put "_" x)) ≡ put "_" y =
      sym (append.cons c s _) ∙ e ∙ append.nil _ in
    absurd ((plain_parts c s h).0 (ap first_code e'))
cut (String.◌∷◌ c s) (String.◌∷◌ d t) x y h k e =
    let e' : put c (str_append s (put "_" x)) ≡ put d (str_append t (put "_" y)) =
      sym (append.cons c s _) ∙ e ∙ append.cons d t _ in
    let (p, q) = cut s t x y (plain_parts c s h).1 (plain_parts d t k).1 cc in (cc, q)

-- All but the last of the parts hold no delimiter.
abbrev pub PartsHaveNoDelimiter : List String → Type 0
PartsHaveNoDelimiter [] = Unit
PartsHaveNoDelimiter (s ∷ []) = Unit
PartsHaveNoDelimiter (s ∷ t ∷ ts) = HasNoDelimiter s × PartsHaveNoDelimiter (t ∷ ts)

join-put :
    (s t : String) (ts : List String)
    → join (s ∷ t ∷ ts) "_" ≡ str_append s (put "_" (join (t ∷ ts) "_"))
unfolding join
join-put s t ts = ap (str_append s) (append.cons "_" "" _ ∙ ap (put "_") (append.nil _))

-- `strings.Join` with the delimiter loses nothing on parts of which all but the last hold none.
join-injective :
    (xs ys : List String)
    → length xs ≡ length ys
    → PartsHaveNoDelimiter xs
    → PartsHaveNoDelimiter ys
    → join xs "_" ≡ join ys "_"
    → xs ≡ ys
unfolding join
join-injective [] [] n h k e = refl
join-injective [] (y ∷ ys) n h k e = absurd cc
join-injective (x ∷ xs) [] n h k e = absurd cc
join-injective (x ∷ []) (y ∷ []) n h k e = cc
join-injective (x ∷ []) (y ∷ y' ∷ ys) n h k e = absurd cc
join-injective (x ∷ x' ∷ xs) (y ∷ []) n h k e = absurd cc
join-injective (x ∷ x' ∷ xs) (y ∷ y' ∷ ys) n h k e =
    let (p, q) = cut x y _ _ h.0 k.0 (sym (join-put x x' xs) ∙ e ∙ join-put y y' ys) in
    let rest = join-injective (x' ∷ xs) (y' ∷ ys) (cc) h.1 k.1 q in cc

-- No field but the attempt is free to hold a delimiter.
abbrev pub IsPlain : PodMetadata → Type 0
IsPlain s = HasNoDelimiter s.name × HasNoDelimiter s.namespace × HasNoDelimiter s.uid

module _ (show : ℕ → String) (show-injective : (m n : ℕ) → show m ≡ show n → m ≡ n) where
  -- Two sandboxes of one name have the same metadata, if no name, namespace or uid holds the
  -- delimiter and different numbers are written differently.
  pub make_sandbox_name-injective :
      (s t : PodMetadata)
      → IsPlain s
      → IsPlain t
      → make_sandbox_name show s ≡ make_sandbox_name show t
      → s ≡ t
  unfolding make_sandbox_name
  make_sandbox_name-injective s t (h1, h2, h3) (k1, k2, k3) e =
      let h : PartsHaveNoDelimiter (s.name ∷ s.namespace ∷ s.uid ∷ show s.attempt ∷ []) =
        (h1, (h2, (h3, tt))) in
      let k : PartsHaveNoDelimiter (t.name ∷ t.namespace ∷ t.uid ∷ show t.attempt ∷ []) =
        (k1, (k2, (k3, tt))) in
      let parts = join-injective _ _ refl h k e in
      let last = show-injective s.attempt t.attempt (cc) in
      let p : s.name ≡ t.name = cc in
      let q : s.namespace ≡ t.namespace = cc in
      let r : s.uid ≡ t.uid = cc in
      λ i. record { name = p i; namespace = q i; uid = r i; attempt = last i }

  -- Two sandboxes of different metadata have different names, if no name, namespace or uid holds the
  -- delimiter and different numbers are written differently.
  pub make_sandbox_name-distinct :
      (s t : PodMetadata)
      → IsPlain s
      → IsPlain t
      → s ≢ t
      → make_sandbox_name show s ≢ make_sandbox_name show t
  make_sandbox_name-distinct s t h k n e = n (make_sandbox_name-injective s t h k e)

  -- Two containers of one name have the same metadata, and so have their sandboxes up to the attempt,
  -- if no name, namespace or uid holds the delimiter and different numbers are written differently.
  pub make_container_name-injective :
      (c d : ContainerMetadata) (s t : PodMetadata)
      → HasNoDelimiter c.name
      → HasNoDelimiter d.name
      → IsPlain s
      → IsPlain t
      → make_container_name show c s ≡ make_container_name show d t
      → (c ≡ d) × (s.name ≡ t.name) × (s.namespace ≡ t.namespace) × (s.uid ≡ t.uid)
  unfolding make_container_name
  make_container_name-injective c d s t hc hd (h1, h2, h3) (k1, k2, k3) e =
      let h : PartsHaveNoDelimiter (c.name ∷ s.name ∷ s.namespace ∷ s.uid ∷ show c.attempt ∷ []) =
        (hc, (h1, (h2, (h3, tt)))) in
      let k : PartsHaveNoDelimiter (d.name ∷ t.name ∷ t.namespace ∷ t.uid ∷ show d.attempt ∷ []) =
        (hd, (k1, (k2, (k3, tt)))) in
      let parts = join-injective _ _ refl h k e in
      let last = show-injective c.attempt d.attempt (cc) in
      let p : c.name ≡ d.name = cc in ((λ i. record { name = p i; attempt = last i }), cc, cc, cc)

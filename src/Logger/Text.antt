-- ===== src/Logger/Text.antt =====
-- The text of a log, and what a slice is of the input that it is read from.
use cri.Base.{
  ℕ, zero, suc, ◌≤◌, ◌<◌, ◌≡◌, ◌≢◌, refl, ap, sym, ◌∙◌, length-append, subst, Bool, true, false,
  List, [], ◌∷◌, ◌++◌, if◌then◌else◌, ◌==◌, ◌&&◌, length, arith, All, Bool-cases, inl, inr,
}
use mathlib.Core.List.{append_assoc}
use cri.Logger.{
  eol, carriage_return, Slice, newline, full, ended, put_before, read_slice, Line, prefix, complete,
  final, line_of, read_line, ends_in_return, drop_last, Entry, partial_line, full_line,
}

abbrev pub starts_with_eol : List ℕ → Bool
starts_with_eol [] = false
starts_with_eol (x ∷ l) = x == eol

-- The text with each "\r\n" made "\n".
unfoldable pub normalized : List ℕ → List ℕ
normalized [] = []
normalized (x ∷ l) =
    let rest = normalized l in
    if (x == carriage_return) && starts_with_eol l then rest else x ∷ rest

-- The text that entries of a log stand for.
unfoldable pub text : List Entry → List ℕ
text [] = []
text (partial_line l ∷ entries) = l ++ text entries
text (full_line l ∷ entries) = l ++ eol ∷ text entries

abbrev pub HasNoEol : List ℕ → Type 0
HasNoEol l = All (λ x. x ≢ eol) l

-- What a slice of at most `size` bytes is of the input.
abbrev pub Reads : ℕ → List ℕ → Slice → Type 0
Reads size input (newline body rest) =
    (input ≡ body ++ eol ∷ rest) × HasNoEol body × (length body ≤ size)
Reads size input (full body rest) = (input ≡ body ++ rest) × HasNoEol body × (length body ≡ size)
Reads size input (ended body) = (input ≡ body) × HasNoEol body × (length body ≤ size)

put_before-Reads :
    (x n : ℕ) (input : List ℕ) (s : Slice)
    → x ≢ eol
    → Reads n input s
    → Reads (suc n) (x ∷ input) (put_before x s)
put_before-Reads x n input (newline body rest) h r = ground (arith, r)
put_before-Reads x n input (full body rest) h r = ground (arith, r)
put_before-Reads x n input (ended body) h r = ground (arith, r)

pub read_slice-Reads : (size : ℕ) (input : List ℕ) → Reads size input (read_slice size input)
unfolding read_slice
read_slice-Reads zero input = (refl, tt, refl)
read_slice-Reads (suc n) [] = (refl, tt, omega arith)
read_slice-Reads (suc n) (x ∷ input) = elim (Bool-cases (x == eol)) [
  | inl q ↦ rw q (ground (arith, q), tt, omega arith)
  | inr q ↦ rw q (
      put_before-Reads x n input (read_slice n input) (ground (arith, q))
        (read_slice-Reads n input))
]

-- Text without a newline stands as it is before what does not start with one.
pub normalized-prefix :
    (xs ys : List ℕ)
    → HasNoEol xs
    → (ends_in_return xs && starts_with_eol ys) ≡ false
    → normalized (xs ++ ys) ≡ xs ++ normalized ys
unfolding normalized
normalized-prefix [] ys h e = refl
normalized-prefix (x ∷ []) ys h e = ground (arith, e)
normalized-prefix (x ∷ y ∷ l) ys h e = ground (arith, h, normalized-prefix (y ∷ l) ys h.1 e)

-- A line loses a carriage return at its end.
pub normalized-line :
    (xs ys : List ℕ)
    → HasNoEol xs
    → normalized (xs ++ eol ∷ ys)
      ≡ (if ends_in_return xs then drop_last xs else xs) ++ eol ∷ normalized ys
unfolding normalized
normalized-line [] ys h = refl
normalized-line (x ∷ []) ys h = ground (arith, h)
normalized-line (x ∷ y ∷ l) ys h = ground (arith, h, normalized-line (y ∷ l) ys h.1)

-- What a call of `readLine` makes of the input.
abbrev pub Advances : ℕ → List ℕ → Line → Type 0
Advances size input (prefix line rest) =
    (normalized input ≡ line ++ normalized rest)
    × (length rest < length input)
    × (length line ≤ size)
Advances size input (complete line rest) =
    (normalized input ≡ line ++ eol ∷ normalized rest)
    × (length rest < length input)
    × (length line ≤ size)
Advances size input (final line) = (normalized input ≡ line) × (length line ≤ size)

drop_last_lem :
    (l : List ℕ)
    → ends_in_return l ≡ true
    → (l ≡ drop_last l ++ carriage_return ∷ []) × (length l ≡ suc (length (drop_last l)))
drop_last_lem [] e = cc
drop_last_lem (x ∷ []) e = ground (arith, e)
drop_last_lem (x ∷ y ∷ l) e = ground (arith, drop_last_lem (y ∷ l) e)

drop_last-HasNoEol : (l : List ℕ) → HasNoEol l → HasNoEol (drop_last l)
drop_last-HasNoEol [] h = tt
drop_last-HasNoEol (x ∷ []) h = tt
drop_last-HasNoEol (x ∷ y ∷ l) h = (h.0, drop_last-HasNoEol (y ∷ l) h.1)

all_normalized : (l : List ℕ) → HasNoEol l → normalized l ≡ l
unfolding normalized
all_normalized [] h = refl
all_normalized (x ∷ []) h = ground arith
all_normalized (x ∷ y ∷ l) h = ground (arith, h, all_normalized (y ∷ l) h.1)

full-Advances :
    (size : ℕ) (line rest : List ℕ)
    → 2 ≤ size
    → HasNoEol line
    → length line ≡ size
    → Advances size (line ++ rest) (line_of (full line rest))
unfolding line_of
full-Advances size line rest h n len =
    let sizes = length-append line rest in
    elim (Bool-cases (ends_in_return line)) [
      | inl q ↦
          let facts = drop_last_lem line q in
          rw q (
            ap (λ l. normalized (l ++ rest)) facts.0
                ∙ ap normalized (append_assoc (drop_last line) (carriage_return ∷ []) rest)
                ∙ normalized-prefix (drop_last line) (carriage_return ∷ rest)
                    (drop_last-HasNoEol line n) (ground arith),
            omega (arith, sizes),
            omega (arith, facts.1),
          )
      | inr q ↦ rw q (normalized-prefix line rest n (rw q), omega (arith, sizes), omega arith)
    ]

newline-Advances :
    (size : ℕ) (line rest : List ℕ)
    → HasNoEol line
    → length line ≤ size
    → Advances size (line ++ eol ∷ rest) (line_of (newline line rest))
unfolding line_of
newline-Advances size line rest n le =
    let sizes = length-append line (eol ∷ rest) in
    elim (Bool-cases (ends_in_return line)) [
      | inl q ↦ rw q (
        normalized-line line rest n ∙ rw q,
        omega (arith, sizes),
        omega (arith, (drop_last_lem line q).1),
      )
      | inr q ↦ rw q (normalized-line line rest n ∙ rw q, omega (arith, sizes), le)
    ]

line_of-Advances :
    (size : ℕ) (input : List ℕ) (s : Slice)
    → 2 ≤ size
    → Reads size input s
    → Advances size input (line_of s)
unfolding line_of
line_of-Advances size input (newline line rest) h r =
    subst (λ i. Advances size i (line_of (newline line rest))) (sym r.0)
      (newline-Advances size line rest r.1 r.2)
line_of-Advances size input (full line rest) h r =
    subst (λ i. Advances size i (line_of (full line rest))) (sym r.0)
      (full-Advances size line rest h r.1 r.2)
line_of-Advances size input (ended line) h r =
    subst (λ i. Advances size i (final line)) (sym r.0) (all_normalized line r.1, r.2)

pub read_line-Advances :
    (size : ℕ) (input : List ℕ) → 2 ≤ size → Advances size input (read_line size input)
unfolding read_line
read_line-Advances size input h =
    line_of-Advances size input (read_slice size input) h (read_slice-Reads size input)

-- ===== src/Logger/Faithful.antt =====
-- The log holds the output of the container, in lines of at most the maximal length.
use cri.Base.{
  ℕ, zero, suc, ◌-◌, ◌≤◌, ◌<◌, ◌≡◌, ◌≢◌, refl, ap, sym, ◌∙◌, subst, ◌⊎◌, inl, inr, true, false,
  List, [], ◌∷◌, ◌++◌, ltb, ◌==◌, ◌&&◌, length, length-append, length-take, length-drop, take, drop,
  take-append-drop, arith, All, Bool-cases,
}
use mathlib.Core.List.{append_assoc, append-nil}
use cri.Logger.{
  eol, Line, prefix, complete, final, read_line, Entry, partial_line, full_line, Outcome, written,
  panicked, out_of_fuel, write_line, Buffer, join, empty, append, cut, after_line, redirect,
  redirect_logs, buf_size,
}
use cri.Logger.Text.{normalized, text, Advances, read_line-Advances}

-- A length within the maximum, where there is one.
abbrev pub Within : ℕ → ℕ → Type 0
Within max_len n = (max_len ≡ 0) ⊎ (n ≤ max_len)

abbrev pub content : Entry → List ℕ
content (partial_line l) = l
content (full_line l) = l

-- Entries were written; they stand for the text, and none is longer than the maximum.
abbrev pub Good : ℕ → List ℕ → Outcome → Type 0
Good max_len t (written l) = (text l ≡ t) × All (λ e. Within max_len (length (content e))) l
Good max_len t panicked = ⊥
Good max_len t out_of_fuel = ⊥

write_partial-Good :
    (max_len : ℕ) (l t : List ℕ) (o : Outcome)
    → Within max_len (length l)
    → Good max_len t o
    → Good max_len (l ++ t) (write_line (partial_line l) o)
unfolding text
write_partial-Good max_len l t (written es) f g = (ap (λ x. l ++ x) g.0, (f, g.1))
write_partial-Good max_len l t panicked f g = g
write_partial-Good max_len l t out_of_fuel f g = g

write_full-Good :
    (max_len : ℕ) (l t : List ℕ) (o : Outcome)
    → Within max_len (length l)
    → Good max_len t o
    → Good max_len (l ++ eol ∷ t) (write_line (full_line l) o)
unfolding text
write_full-Good max_len l t (written es) f g = (ap (λ x. l ++ eol ∷ x) g.0, (f, g.1))
write_full-Good max_len l t panicked f g = g
write_full-Good max_len l t out_of_fuel f g = g

-- What the cut is given: neither part of the buffer exceeds the maximum.
record Small (max_len : ℕ) (b : Buffer) : Type 0 where
  before : Within max_len (length b.before)
  last : Within max_len (length b.last)

append-Small :
    (max_len : ℕ) (line : List ℕ) (b : Buffer)
    → Within max_len (length (join b))
    → Within max_len (length line)
    → Small max_len (append line b)
append-Small max_len [] b w l = record {
  before = ground (arith, length-append b.before b.last);
  last = ground (arith, length-append b.before b.last);
}
append-Small max_len (x ∷ line) b w l = record { before = w; last = l }

join-append : (line : List ℕ) (b : Buffer) → join (append line b) ≡ join b ++ line
join-append [] b = sym (append-nil (join b))
join-append (x ∷ line) b = refl

module _ (max_len : ℕ) (t : List ℕ) (b : Buffer) (next : Buffer → Outcome) (small : Small max_len b)
    (good : (c : Buffer)
      → Within max_len (length (join c))
      → Good max_len (join c ++ t) (next c)) where
  cut_text : (keep : ℕ) → (b.before ++ take keep b.last) ++ (drop keep b.last ++ t) ≡ join b ++ t
  cut_text keep =
      append_assoc b.before (take keep b.last) (drop keep b.last ++ t)
      ∙ ap (λ x. b.before ++ x) (sym (append_assoc (take keep b.last) (drop keep b.last) t))
      ∙ ap (λ x. b.before ++ (x ++ t)) (take-append-drop keep b.last)
      ∙ sym (append_assoc b.before b.last t)

  -- A buffer that exceeds the maximum.
  cut_long-Good :
      max_len ≢ 0 → max_len < length (join b) → Good max_len (join b ++ t) (cut max_len b next)
  unfolding cut
  cut_long-Good pos long =
      let sizes = length-append b.before b.last in
      let exceed = length (join b) - max_len in
      let keep = length b.last - exceed in
      let over : (ltb 0 max_len && ltb max_len (length (join b))) ≡ true = ground arith in
      let room : ltb (length b.last) exceed ≡ false = ground (arith, sizes, small.before) in
      rw (over, room)
        (subst
          (λ x. Good max_len x (
            write_line (partial_line (b.before ++ take keep b.last))
              (next (record { before = []; last = drop keep b.last }))))
          (cut_text keep)
          (write_partial-Good max_len (b.before ++ take keep b.last) (drop keep b.last ++ t) _
            (ground (
              arith,
              sizes,
              small.before,
              length-append b.before (take keep b.last),
              length-take keep b.last,
            ))
            (good (record { before = []; last = drop keep b.last })
              (ground (arith, small.last, length-drop keep b.last)))))

  cut-Good : Good max_len (join b ++ t) (cut max_len b next)
  unfolding cut
  cut-Good = elim (Bool-cases (ltb 0 max_len && ltb max_len (length (join b)))) [
    | inl q ↦ cut_long-Good (ground (arith, q)) (ground (arith, q))
    | inr q ↦ rw q (good b (ground (arith, q)))
  ]

moved :
    (line : List ℕ) (b : Buffer) (input t : List ℕ)
    → normalized input ≡ line ++ t
    → join (append line b) ++ t ≡ join b ++ normalized input
moved line b input t e =
    ap (λ x. x ++ t) (join-append line b)
    ∙ append_assoc (join b) line t
    ∙ ap (λ x. join b ++ x) (sym e)

nothing : (l : List ℕ) → length l ≡ 0 → l ≡ []
nothing [] e = refl
nothing (x ∷ l) e = cc

module _ (size max_len : ℕ) (fits : Within max_len size) where
  short : (line : List ℕ) → length line ≤ size → Within max_len (length line)
  short line h = ground (arith, fits)

  after_line-Good :
      (b : Buffer) (input : List ℕ) (next : Buffer → List ℕ → Outcome) (l : Line)
      → Within max_len (length (join b))
      → Advances size input l
      → ((c : Buffer) (rest : List ℕ)
          → length rest < length input
          → Within max_len (length (join c))
          → Good max_len (join c ++ normalized rest) (next c rest))
      → Good max_len (join b ++ normalized input) (after_line max_len l b next)
  unfolding after_line text
  after_line-Good b input next (prefix line rest) w a good =
      subst (λ x. Good max_len x (cut max_len (append line b) (λ c. next c rest)))
        (moved line b input (normalized rest) a.0)
        (cut-Good max_len (normalized rest) (append line b) (λ c. next c rest)
          (append-Small max_len line b w (short line a.2)) (λ c v. good c rest a.1 v))
  after_line-Good b input next (complete line rest) w a good =
      let after : Buffer → Outcome = λ c. write_line (full_line (join c)) (next empty rest) in
      subst (λ x. Good max_len x (cut max_len (append line b) after))
        (moved line b input (eol ∷ normalized rest) a.0)
        (cut-Good max_len (eol ∷ normalized rest) (append line b) after
          (append-Small max_len line b w (short line a.2))
          (λ c v.
            write_full-Good max_len (join c) (normalized rest) (next empty rest) v
              (good empty rest a.1 (inr (omega arith)))))
  after_line-Good b input next (final line) w a good =
      let after : Buffer → Outcome = λ c. write_line (partial_line (join c)) (written []) in
      let whole = moved line b input [] (a.0 ∙ sym (append-nil line)) in
      elim (Bool-cases (length (join (append line b)) == 0)) [
        | inl q ↦ rw q (
          ap (λ x. x ++ []) (sym (nothing (join (append line b)) (ground (arith, q)))) ∙ whole,
          tt,
        )
        | inr q ↦ rw q (
            subst (λ x. Good max_len x (cut max_len (append line b) after)) whole
              (cut-Good max_len [] (append line b) after
                (append-Small max_len line b w (short line a.1))
                (λ c v. write_partial-Good max_len (join c) [] (written []) v (refl, tt))))
      ]

  redirect-Good :
      (fuel : ℕ) (b : Buffer) (input : List ℕ)
      → 2 ≤ size
      → length input < fuel
      → Within max_len (length (join b))
      → Good max_len (join b ++ normalized input) (redirect fuel size max_len b input)
  unfolding redirect
  redirect-Good zero b input two enough w = absurd (omega arith)
  redirect-Good (suc fuel) b input two enough w =
      after_line-Good b input (redirect fuel size max_len) (read_line size input) w
        (read_line-Advances size input two)
        (λ c rest less v. redirect-Good fuel c rest two (omega arith) v)

-- With no maximum, or with one of at least 16 bytes, the loop neither panics nor ends early: with a
-- number of rounds that exceeds the bytes of the output it writes entries that stand for the output
-- with each "\r\n" made "\n", a partial line without and a full line with its newline, and no entry
-- is longer than the maximum.
pub redirect_logs-Good :
    (max_len : ℕ) (input : List ℕ)
    → (max_len ≡ 0) ⊎ (16 ≤ max_len)
    → Good max_len (normalized input) (redirect_logs max_len input)
unfolding redirect_logs
redirect_logs-Good max_len input h =
    redirect-Good (buf_size max_len) max_len (ground (arith, h)) (suc (length input)) empty input
      (ground arith) (omega arith) (ground (arith, h))

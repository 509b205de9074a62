-- ===== src/Logger.antt =====
-- pkg/server/io/logger.go: a container's output is cut into the lines of its log. `bufio.Reader` is
-- modelled over the bytes that are left to read, with the size of its buffer; a byte is a number. The
-- time stamp and the stream, which are the same for each line, are left out, and an error of the
-- reader other than the end of the input is treated by the source as the end.
pub mod Text
pub mod Faithful
use cri.Base.{
  ℕ, zero, suc, ◌-◌, Bool, true, false, not, ◌&&◌, List, [], ◌∷◌, ◌++◌, if◌then◌else◌, ltb, ◌==◌,
  length, take, drop,
}

-- '\n' and '\r'
abbrev pub eol : ℕ
eol = 10

abbrev pub carriage_return : ℕ
carriage_return = 13

abbrev pub default_buf_size : ℕ
default_buf_size = 4096

-- What `ReadSlice('\n')` returns: bytes before a newline, a full buffer, or the bytes before the end
-- of the input.
pub data Slice : Type 0 where
  newline full : List ℕ → List ℕ → Slice
  ended : List ℕ → Slice

abbrev pub put_before : ℕ → Slice → Slice
put_before x (newline body rest) = newline (x ∷ body) rest
put_before x (full body rest) = full (x ∷ body) rest
put_before x (ended body) = ended (x ∷ body)

unfoldable pub read_slice : ℕ → List ℕ → Slice
read_slice zero input = full [] input
read_slice (suc n) [] = ended []
read_slice (suc n) (x ∷ input) =
    let more = read_slice n input in if x == eol then newline [] input else put_before x more

abbrev pub ends_in_return : List ℕ → Bool
ends_in_return [] = false
ends_in_return (x ∷ []) = x == carriage_return
ends_in_return (x ∷ y ∷ l) = ends_in_return (y ∷ l)

-- `line[:len(line)-1]`
abbrev pub drop_last : List ℕ → List ℕ
drop_last [] = []
drop_last (x ∷ []) = []
drop_last (x ∷ y ∷ l) = x ∷ drop_last (y ∷ l)

-- What readLine returns: the line, and whether it is a prefix, complete, or at the end of the input.
pub data Line : Type 0 where
  prefix complete : List ℕ → List ℕ → Line
  final : List ℕ → Line

-- readLine
unfoldable pub line_of : Slice → Line
line_of (full line rest) =
    if ends_in_return line
    then prefix (drop_last line) (carriage_return ∷ rest)
    else prefix line rest
line_of (newline line rest) =
    if ends_in_return line then complete (drop_last line) rest else complete line rest
line_of (ended line) = final line

unfoldable pub read_line : ℕ → List ℕ → Line
unfolding line_of
read_line size input = line_of (read_slice size input)

-- A line of the log, by its tag.
pub data Entry : Type 0 where
  partial_line full_line : List ℕ → Entry

pub data Outcome : Type 0 where
  written : List Entry → Outcome
  panicked out_of_fuel : Outcome

abbrev pub write_line : Entry → Outcome → Outcome
write_line e (written l) = written (e ∷ l)
write_line e panicked = panicked
write_line e out_of_fuel = out_of_fuel

-- `buf`, as its last slice and the join of those before; `length` is the length of the whole.
pub record Buffer : Type 0 where
  pub before : List ℕ
  pub last : List ℕ

abbrev pub empty : Buffer
empty = record { before = []; last = [] }

abbrev pub join : Buffer → List ℕ
join b = b.before ++ b.last

abbrev pub append : List ℕ → Buffer → Buffer
append [] b = b
append (x ∷ l) b = record { before = join b; last = x ∷ l }

-- The cut of a buffer that exceeds the maximum, and what follows it.
unfoldable pub cut : ℕ → Buffer → (Buffer → Outcome) → Outcome
cut max_len b next =
    let exceed_len = length (join b) - max_len in
    let keep = length b.last - exceed_len in
    if ltb 0 max_len && ltb max_len (length (join b))
    then (if ltb (length b.last) exceed_len
        then panicked
        else write_line (partial_line (b.before ++ take keep b.last))
            (next (record { before = []; last = drop keep b.last })))
    else next b

after_line : ℕ → Line → Buffer → (Buffer → List ℕ → Outcome) → Outcome
unfolding cut
after_line max_len (prefix line rest) b next = cut max_len (append line b) (λ c. next c rest)
after_line max_len (complete line rest) b next =
    cut max_len (append line b) (λ c. write_line (full_line (join c)) (next empty rest))
after_line max_len (final line) b next =
    if length (join (append line b)) == 0
    then written []
    else cut max_len (append line b) (λ c. write_line (partial_line (join c)) (written []))

-- The loop of redirectLogs; each round but the last reads a byte at least.
unfoldable pub redirect : ℕ → ℕ → ℕ → Buffer → List ℕ → Outcome
unfolding after_line
redirect zero size max_len b input = out_of_fuel
redirect (suc fuel) size max_len b input =
    after_line max_len (read_line size input) b (redirect fuel size max_len)

-- `bufio.NewReaderSize` has at least 16 bytes.
abbrev pub buf_size : ℕ → ℕ
buf_size max_len =
    let size =
      if ltb 0 max_len && ltb max_len default_buf_size then max_len else default_buf_size in
    if ltb size 16 then 16 else size

-- redirectLogs
unfoldable pub redirect_logs : ℕ → List ℕ → Outcome
redirect_logs max_len input = redirect (suc (length input)) (buf_size max_len) max_len empty input

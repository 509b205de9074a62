-- ===== src/Scenarios/Logs.antt =====
-- Runs of the log writer.
use cri.Base.{ℕ, suc, zero, ◌≡◌, refl, inr, List, [], ◌∷◌, arith}
use cri.Logger.{
  written, panicked, full_line, partial_line, read_slice, read_line, cut, redirect, redirect_logs,
}
use cri.Logger.Text.{normalized}
use cri.Logger.Faithful.{Good, redirect_logs-Good}

-- "hi\r\nok"
abbrev two_lines : List ℕ
two_lines = 104 ∷ 105 ∷ 13 ∷ 10 ∷ 111 ∷ 107 ∷ []

two_lines_written :
    redirect_logs 16 two_lines
    ≡ written (full_line (104 ∷ 105 ∷ []) ∷ partial_line (111 ∷ 107 ∷ []) ∷ [])
unfolding redirect_logs redirect read_line read_slice cut
two_lines_written = refl

repeated : ℕ → List ℕ
repeated zero = []
repeated (suc n) = 97 ∷ repeated n

-- The buffer of the reader has 16 bytes even where the maximum is less.
short_maximum_panics : redirect_logs 4 (repeated 32) ≡ panicked
unfolding redirect_logs redirect read_line read_slice cut repeated
short_maximum_panics = refl

redirect_logs-Good_example : Good 16 (normalized two_lines) (redirect_logs 16 two_lines)
redirect_logs-Good_example = redirect_logs-Good 16 two_lines (inr (omega arith))

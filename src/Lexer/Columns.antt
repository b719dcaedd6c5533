-- ===== src/Lexer/Columns.antt =====
-- The lines and columns that `advance` of internal/lexer/lexer.go counts.
use jennifer.Common.{suc, List, ℕ, [], ◌∷◌, ◌≡◌, ◌+◌, ◌==◌, if◌then◌else◌, length, arith}
use jennifer.Lexer.Position.{Place, next_place}
use jennifer.Lexer.Moves.{place_after}

abbrev pub newlines : List ℕ → ℕ
newlines [] = 0
newlines (c ∷ s) = if c == b'\n' then suc (newlines s) else newlines s

-- The runes behind the last newline, or all of them.
abbrev pub last_line : List ℕ → List ℕ
last_line [] = []
last_line (c ∷ s) = if newlines s == 0 then (if c == b'\n' then s else c ∷ s) else last_line s

-- Behind a text, the line has grown by its newlines; the column is one more than the runes behind the
-- last of them, or, if there is none, has grown by the runes of the text.
pub place_after-closed :
    (s : List ℕ) (p : Place)
    → ((place_after s p).line ≡ p.line + newlines s)
      × ((place_after s p).col
          ≡ (if newlines s == 0 then p.col + length s else 1 + length (last_line s)))
unfolding place_after next_place
place_after-closed [] p = (omega arith, omega arith)
place_after-closed (c ∷ s) p = ground (arith, place_after-closed s (next_place c p))

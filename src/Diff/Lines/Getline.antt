-- ===== src/Diff/Lines/Getline.antt =====
-- To read a text line by line undoes to write it line by line.
use cppkg.Base.{
  ◌≡◌, refl, ap, ◌∙◌, arith, List, [], ◌∷◌, ◌++◌, Bool, true, false, ◌&&◌, if◌then◌else◌, ◌==◌,
  Bool-cases, inl, inr,
}
use cppkg.Diff.Message.{Text, newline}
use cppkg.Diff.Lines.{getlines, process_lines, consider}

unfoldable pub write_lines : List Text → Text
write_lines [] = []
write_lines (line ∷ lines) = line ++ newline ∷ write_lines lines

-- Has no line a newline in it?
unfoldable pub one_line : Text → Bool
one_line [] = true
one_line (c ∷ line) = if c == newline then false else one_line line

unfoldable pub all_one_line : List Text → Bool
unfolding one_line
all_one_line [] = true
all_one_line (line ∷ lines) = one_line line && all_one_line lines

getlines_line :
    (line str : Text)
    → one_line line ≡ true
    → getlines (line ++ newline ∷ str) ≡ line ∷ getlines str
unfolding getlines one_line
getlines_line [] str h = refl
getlines_line (c ∷ line) str h = elim (Bool-cases (c == newline)) [
  | inl ends ↦ let wrong : false ≡ true = rw ends at h in cc
  | inr goes_on ↦ let rest = rw goes_on at h in rw (goes_on, getlines_line line str rest) refl
]

getlines-write_lines :
    (lines : List Text) → all_one_line lines ≡ true → getlines (write_lines lines) ≡ lines
unfolding write_lines all_one_line getlines
getlines-write_lines [] h = refl
getlines-write_lines (line ∷ lines) h =
    let first : one_line line ≡ true = ground (arith, h) in
    let rest : all_one_line lines ≡ true = ground (arith, h) in
    getlines_line line (write_lines lines) first
    ∙ ap (λ l. line ∷ l) (getlines-write_lines lines rest)

consider_all : (trim : Text → Text) (lines : List Text) → consider trim false false lines ≡ lines
unfolding consider
consider_all trim [] = refl
consider_all trim (line ∷ lines) = ap (λ l. line ∷ l) (consider_all trim lines)

-- If no line has a newline in it, then to write each line with a newline behind it, and to read the
-- result without leaving out empty lines and without trimming, gives the lines again.
pub process_lines-write_lines :
    (trim : Text → Text) (lines : List Text)
    → all_one_line lines ≡ true
    → process_lines trim (write_lines lines) false false ≡ lines
unfolding process_lines
process_lines-write_lines trim lines h = rw (getlines-write_lines lines h) (consider_all trim lines)

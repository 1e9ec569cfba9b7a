-- ===== src/Common/Breaks.antt =====
-- The lines of a text.
use Prim.Native.Nat.{ℕ}
use mathlib.Core.Path.{◌≡◌, refl, ap, ◌∙◌}
use mathlib.Core.Bool.{Bool, true, false}
use mathlib.Core.List.{List, [], ◌∷◌, ◌++◌}
use snell_sh.Common.Tests.{Text, ◌==◌, if◌then◌else◌}

abbrev pub line_break : ℕ
line_break = b'\n'

-- The lines of a text as `bufio.ScanLines` splits it, with their carriage returns.
abbrev pub prepend : ℕ → List Text → List Text
prepend c [] = (c ∷ []) ∷ []
prepend c (l ∷ ls) = (c ∷ l) ∷ ls

abbrev pub cut : ℕ → List Text → List Text
cut c rest = if c == line_break then [] ∷ rest else prepend c rest

unfoldable pub split_lines : Text → List Text
split_lines [] = []
split_lines (c ∷ s) = cut c (split_lines s)

-- A text that is empty or ends with a line break.
unfoldable pub complete : Text → Bool
complete [] = true
complete (c ∷ []) = c == line_break
complete (c ∷ d ∷ s) = complete (d ∷ s)

cut-append : (c d : ℕ) (rest ls : List Text) → cut c (cut d rest ++ ls) ≡ cut c (cut d rest) ++ ls
cut-append c d rest ls = by_parts (c == line_break) (d == line_break) rest
  where
    by_parts :
        (b e : Bool) (r : List Text)
        → (if b
            then [] ∷ ((if e then [] ∷ r else prepend d r) ++ ls)
            else prepend c ((if e then [] ∷ r else prepend d r) ++ ls))
          ≡ (if b
              then [] ∷ (if e then [] ∷ r else prepend d r)
              else prepend c (if e then [] ∷ r else prepend d r))
            ++ ls
    by_parts true e r = refl
    by_parts false true r = refl
    by_parts false false [] = refl
    by_parts false false (l ∷ r) = refl

pub split_lines-append :
    (s t : Text) → complete s ≡ true → split_lines (s ++ t) ≡ split_lines s ++ split_lines t
unfolding split_lines complete
split_lines-append [] t h = refl
split_lines-append (c ∷ []) t h = rw h refl
split_lines-append (c ∷ d ∷ s) t h =
    ap (cut c) (split_lines-append (d ∷ s) t h) ∙ cut-append c d (split_lines s) (split_lines t)

pub complete-append :
    (s : Text) (d : ℕ) (t : Text) → complete (d ∷ t) ≡ true → complete (s ++ d ∷ t) ≡ true
unfolding complete
complete-append [] d t h = h
complete-append (c ∷ []) d t h = h
complete-append (c ∷ e ∷ s) d t h = complete-append (e ∷ s) d t h

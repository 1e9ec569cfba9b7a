-- ===== src/Agent/Journal.antt =====
-- The log files of a node as one list of lines, of which old ones are forgotten, and what `Logs` shows of
-- it (internal/agent/manager.go).
use snell_sh.Common.{
  ◌≡◌, refl, sym, ap, ◌∙◌, ℕ, zero, suc, ◌-◌, ◌+◌, ◌≤◌, false, Option, none, some, List, [], ◌∷◌,
  ◌++◌, ltb, leb, any, length, length-append, drop, map, Text, arith, if-cases,
}
use mathlib.Core.List.{append_assoc, append-nil}
use snell_sh.Common.Int.{ℤ}
use snell_sh.Common.Breaks.{split_lines}
use snell_sh.Common.Dict.{Dict, lookup}
use snell_sh.Agent.Logs.{
  first_archive, second_archive, content, drop_return, max_line, scan_lines, push_line, push_lines,
  read_file, scanned_into, and_then, read_files, tail_of, logs,
}

-- The last lines of a list.
abbrev pub last_lines : ℕ → List Text → List Text
last_lines n ls = drop (length ls - n) ls

pub drop-append : (n : ℕ) (xs ys : List Text) → n ≤ length xs → drop n (xs ++ ys) ≡ drop n xs ++ ys
drop-append zero xs ys h = refl
drop-append (suc n) [] ys h = absurd (omega (arith, h))
drop-append (suc n) (x ∷ xs) ys h = drop-append n xs ys (omega (arith, h))

pub length-drop : (n : ℕ) (xs : List Text) → length (drop n xs) ≡ length xs - n
length-drop zero xs = omega arith
length-drop (suc n) [] = omega arith
length-drop (suc n) (x ∷ xs) = omega (arith, length-drop n xs)

drop-drop : (n : ℕ) (xs : List Text) → drop 1 (drop n xs) ≡ drop (suc n) xs
drop-drop zero xs = refl
drop-drop (suc n) [] = refl
drop-drop (suc n) (x ∷ xs) = drop-drop n xs

push_line-last :
    (tail : ℕ) (seen : List Text) (l : Text)
    → push_line tail (last_lines tail seen) l ≡ last_lines tail (seen ++ l ∷ [])
push_line-last tail seen l =
    let k = length seen - tail in
    let joined : last_lines tail seen ++ l ∷ [] ≡ drop k (seen ++ l ∷ []) =
      sym (drop-append k seen (l ∷ []) (omega arith)) in
    let many : length (last_lines tail seen ++ l ∷ []) ≡ (length seen - k) + 1 =
      length-append (last_lines tail seen) (l ∷ []) ∙ ap (λ n. n + 1) (length-drop k seen) in
    let whole : length (seen ++ l ∷ []) ≡ length seen + 1 = length-append seen (l ∷ []) in
    let size = length (last_lines tail seen ++ l ∷ []) in
    if-cases (λ (ls : List Text). ls ≡ last_lines tail (seen ++ l ∷ [])) (ltb tail size)
      (λ more.
        let next : suc k ≡ length (seen ++ l ∷ []) - tail = ground (arith, more, many, whole) in
        ap (drop 1) joined ∙ drop-drop k (seen ++ l ∷ []) ∙ ap (λ n. drop n (seen ++ l ∷ [])) next)
      (λ few.
        let same : k ≡ length (seen ++ l ∷ []) - tail = ground (arith, few, many, whole) in
        joined ∙ ap (λ n. drop n (seen ++ l ∷ [])) same)

-- The loop of the scanner keeps the last lines.
push_lines-last :
    (tail : ℕ) (seen ls : List Text)
    → push_lines tail (last_lines tail seen) ls ≡ last_lines tail (seen ++ ls)
unfolding push_lines
push_lines-last tail seen [] = ap (last_lines tail) (sym (append-nil seen))
push_lines-last tail seen (l ∷ ls) =
    ap (λ r. push_lines tail r ls) (push_line-last tail seen l)
    ∙ push_lines-last tail (seen ++ l ∷ []) ls
    ∙ ap (last_lines tail) (append_assoc seen (l ∷ []) ls)

-- The lines of a file, the oldest first.
abbrev pub lines_of : Text → List Text
lines_of s = map drop_return (split_lines s)

-- All lines of the log, the oldest first.
abbrev pub file_lines : Text → Dict Text → List Text
file_lines path files = lines_of (content (lookup path files))

abbrev pub journal : Text → Dict Text → List Text
journal path files =
    file_lines (second_archive path) files
    ++ (file_lines (first_archive path) files ++ file_lines path files)

-- No line of a text fills the scanner's buffer.
abbrev pub IsShort : Text → Type 0
IsShort s = any (λ l. leb max_line (length l)) (split_lines s) ≡ false

read_file-last :
    (tail : ℕ) (seen : List Text) (o : Option Text)
    → IsShort (content o)
    → read_file tail (last_lines tail seen) o
      ≡ some (last_lines tail (seen ++ lines_of (content o)))
unfolding scan_lines split_lines
read_file-last tail seen none h = ap (λ ls. some (last_lines tail ls)) (sym (append-nil seen))
read_file-last tail seen (some s) h =
    ap (scanned_into tail (last_lines tail seen)) (scanned s h)
    ∙ ap some (push_lines-last tail seen (lines_of s))
  where
    scanned : (s : Text) → IsShort s → scan_lines s ≡ some (lines_of s)
    scanned s h = rw h refl

pub drop_nothing : (n : ℕ) → drop {A = Text} n [] ≡ []
drop_nothing zero = refl
drop_nothing (suc n) = refl

-- `Logs` shows the last lines of the whole log, as many as asked for or 200, if no line of a file is
-- as long as the scanner's buffer.
pub logs-last :
    (path : Text) (tail : ℤ) (files : Dict Text)
    → IsShort (content (lookup (second_archive path) files))
    → IsShort (content (lookup (first_archive path) files))
    → IsShort (content (lookup path files))
    → logs path tail files ≡ some (last_lines (tail_of tail) (journal path files))
unfolding logs read_files
logs-last path tail files h2 h1 h0 =
    let n = tail_of tail in
    let l2 = file_lines (second_archive path) files in
    let l1 = file_lines (first_archive path) files in
    let l0 = file_lines path files in
    let rest = and_then (λ ls. read_files n files (first_archive path ∷ path ∷ []) ls) in
    ap (λ ls. rest (read_file n ls (lookup (second_archive path) files)))
      (sym (drop_nothing (0 - n)))
    ∙ ap rest (read_file-last n [] (lookup (second_archive path) files) h2)
    ∙ ap (and_then (λ ls. read_files n files (path ∷ []) ls))
        (read_file-last n l2 (lookup (first_archive path) files) h1)
    ∙ ap (and_then (λ ls. read_files n files [] ls))
        (read_file-last n (l2 ++ l1) (lookup path files) h0)
    ∙ ap (λ ls. some (last_lines n ls)) (append_assoc l2 l1 l0)

-- ===== src/Agent/Forgotten.antt =====
-- A run of `appendLog` on the files of a node and the list of lines that it stands for
-- (internal/agent/manager.go): each call adds its lines at the end, and may forget the oldest ones.
use mathlib.Core.Path.{subst}
use mathlib.Core.List.{append_assoc, append-nil}
use snell_sh.Common.{
  ◌≡◌, refl, sym, ap, ◌∙◌, ℕ, ◌≤◌, Bool, true, false, Option, none, some, List, [], ◌∷◌, ◌++◌, ltb,
  length, length-append, drop, map, Text, text_eq, text_eq_self, arith, if◌then◌else◌, if-cases,
}
use snell_sh.Common.Breaks.{line_break, split_lines, complete, split_lines-append, complete-append}
use snell_sh.Common.Dict.{Dict, lookup, insert, lookup-insert}
use snell_sh.Agent.Logs.{
  first_archive, second_archive, content, rotate, file_limit, is_full, log_entry, without_returns,
  Write, rotated, append_log, drop_return,
}
use snell_sh.Agent.Rotated.{longer_lem, or_else, rotate_lem}
use snell_sh.Agent.Journal.{lines_of, file_lines, journal}

-- An entry after any text ends with a line break.
complete-log_entry : (s stamp line : Text) → complete (s ++ log_entry stamp line) ≡ true
unfolding log_entry complete
complete-log_entry s stamp line =
    let text = stamp ++ b' ' ∷ without_returns line in
    ap complete (sym (append_assoc s text (line_break ∷ [])))
    ∙ complete-append (s ++ text) line_break [] refl

lines_of-append : (s t : Text) → complete s ≡ true → lines_of (s ++ t) ≡ lines_of s ++ lines_of t
lines_of-append s t h =
    ap (map drop_return) (split_lines-append s t h) ∙ both (split_lines s) (split_lines t)
  where
    both :
        (xs ys : List Text) → map drop_return (xs ++ ys) ≡ map drop_return xs ++ map drop_return ys
    both [] ys = refl
    both (x ∷ xs) ys = ap (λ l. drop_return x ∷ l) (both xs ys)

-- Each of the three files is empty or ends with a line break.
pub record IsWhole (path : Text) (files : Dict Text) : Type 0 where
  pub current : complete (content (lookup path files)) ≡ true
  pub first : complete (content (lookup (first_archive path) files)) ≡ true
  pub second : complete (content (lookup (second_archive path) files)) ≡ true

-- What a call adds to the log.
abbrev pub written : Write → List Text
written w = if w.enabled then if w.writable then lines_of (log_entry w.stamp w.line) else [] else []

-- What stays of some lines when the oldest go, no more than there are.
abbrev pub Forgets : List Text → List Text → Type 0
Forgets old new = (k : ℕ) × (k ≤ length old) × (new ≡ drop k old)

drop_all : (xs ys : List Text) → drop (length xs) (xs ++ ys) ≡ ys
drop_all [] ys = refl
drop_all (x ∷ xs) ys = drop_all xs ys

-- The log of three files by their contents, the oldest first.
abbrev three : Text → Text → Text → List Text
three a b c = lines_of a ++ (lines_of b ++ lines_of c)

three_same : {a b c a' b' c' : Text} → a' ≡ a → b' ≡ b → c' ≡ c → three a' b' c' ≡ three a b c
three_same ea eb ec = rw (ea, eb, ec) refl

-- The archives after a rotation, by whether there was a first one.
shifted :
    (s second : Text) (o : Option Text) (archive : Option Text)
    → content archive ≡ second
    → Forgets (three second (content o) s) (three (content (or_else o archive)) s [])
unfolding split_lines
shifted s second none archive e = (
  0,
  omega arith,
  three_same {b = s} {c = []} e refl refl
      ∙ ap (λ l. lines_of second ++ l) (append-nil (lines_of s)),
)
shifted s second (some v) archive e = (
  length (lines_of second),
  omega (arith, length-append (lines_of second) (lines_of v ++ lines_of s)),
  ap (λ l. lines_of v ++ l) (append-nil (lines_of s))
      ∙ sym (drop_all (lines_of second) (lines_of v ++ lines_of s)),
)

kept_whole :
    (o archive : Option Text)
    → complete (content o) ≡ true
    → complete (content archive) ≡ true
    → complete (content (or_else o archive)) ≡ true
kept_whole none archive h k = k
kept_whole (some v) archive h k = h

-- The current file, rotated.
full_lem :
    (path s : Text) (files : Dict Text)
    → lookup path files ≡ some s
    → IsWhole path files
    → IsWhole path (rotate path files)
      × Forgets (journal path files) (journal path (rotate path files))
unfolding complete
full_lem path s files there whole =
    let (e0, e1, e2) = rotate_lem path s files there in
    let c0 = ap content e0 in
    let c1 = ap content e1 in
    let c2 = ap content e2 in
    let current = ap content there in
    let o = lookup (first_archive path) files in
    let archive = lookup (second_archive path) files in
    let (k, few, moved_on) = shifted s (content archive) o archive refl in
    let before : journal path files ≡ three (content archive) (content o) s =
      three_same refl refl current in
    (
      record {
        current = ap complete c0;
        first = ap complete c1 ∙ ap complete (sym current) ∙ whole.current;
        second = ap complete c2 ∙ kept_whole o archive whole.first whole.second;
      },
      (
        k,
        subst (λ l. k ≤ length l) (sym before) few,
        three_same c2 c1 c0 ∙ moved_on ∙ ap (drop k) (sym before),
      ),
    )

pub full_there :
    (limit : ℕ) (o : Option Text)
    → ltb limit (length (content o)) ≡ true
    → (s : Text) × (o ≡ some s)
full_there limit none h = absurd (ground (arith, h))
full_there limit (some s) h = (s, refl)

rotated_lem :
    (w : Write) (path : Text) (files : Dict Text)
    → IsWhole path files
    → IsWhole path (rotated w path files)
      × Forgets (journal path files) (journal path (rotated w path files))
unfolding is_full
rotated_lem w path files whole =
    if-cases (λ (f : Dict Text). IsWhole path f × Forgets (journal path files) (journal path f))
      (is_full w.limit path files)
      (λ full.
        let (s, there) = full_there (file_limit w.limit) (lookup path files) full in
        full_lem path s files there whole)
      (λ _. (whole, (0, omega arith, refl)))

-- An entry at the end of the current file.
entered :
    (path stamp line : Text) (files : Dict Text)
    → IsWhole path files
    → IsWhole path (insert path (content (lookup path files) ++ log_entry stamp line) files)
      × (journal path (insert path (content (lookup path files) ++ log_entry stamp line) files)
          ≡ journal path files ++ lines_of (log_entry stamp line))
entered path stamp line files whole =
    let s = content (lookup path files) in
    let text = s ++ log_entry stamp line in
    let files' = insert path text files in
    let put : (x : Text)
        → lookup x files' ≡ (if text_eq path x then some text else lookup x files) =
      λ x. lookup-insert path x text files in
    let c0 : content (lookup path files') ≡ text = ground (arith, put path, text_eq_self path) in
    let c1 : lookup (first_archive path) files' ≡ lookup (first_archive path) files =
      ground (arith, put (first_archive path), longer_lem path b'.' (b'1' ∷ [])) in
    let c2 : lookup (second_archive path) files' ≡ lookup (second_archive path) files =
      ground (arith, put (second_archive path), longer_lem path b'.' (b'2' ∷ [])) in
    let l2 = file_lines (second_archive path) files in
    let l1 = file_lines (first_archive path) files in
    (
      record {
        current = ap complete c0 ∙ complete-log_entry s stamp line;
        first = ap (λ o. complete (content o)) c1 ∙ whole.first;
        second = ap (λ o. complete (content o)) c2 ∙ whole.second;
      },
      three_same (ap content c2) (ap content c1) c0
          ∙ ap (λ l. l2 ++ (l1 ++ l)) (lines_of-append s (log_entry stamp line) whole.current)
          ∙ ap (λ l. l2 ++ l) (sym (append_assoc l1 (lines_of s) (lines_of (log_entry stamp line))))
          ∙ sym (append_assoc l2 (l1 ++ lines_of s) (lines_of (log_entry stamp line))),
    )

-- One call: the log loses some of its oldest lines at most, and has the call's lines at its end.
abbrev pub Extends : List Text → List Text → List Text → Type 0
Extends old more new = (k : ℕ) × (k ≤ length old) × (new ≡ drop k old ++ more)

-- The three outcomes of a call by its switches.
pub by_switches :
    (P : Dict Text → List Text → Type 0) (enabled writable : Bool) (off closed done : Dict Text)
    (ls : List Text)
    → P off []
    → P closed []
    → P done ls
    → P
        (if enabled then if writable then done else closed else off)
        (if enabled then if writable then ls else [] else [])
by_switches P false c off closed done ls p q r = p
by_switches P true false off closed done ls p q r = q
by_switches P true true off closed done ls p q r = r

pub append_log-Extends :
    (w : Write) (path : Text) (files : Dict Text)
    → IsWhole path files
    → IsWhole path (append_log w path files)
      × Extends (journal path files) (written w) (journal path (append_log w path files))
unfolding append_log
append_log-Extends w path files whole =
    let (turned, (k, few, left)) = rotated_lem w path files whole in
    let (ended, longer) = entered path w.stamp w.line (rotated w path files) turned in
    by_switches (λ f ls. IsWhole path f × Extends (journal path files) ls (journal path f))
      w.enabled w.writable files (rotated w path files) _ (lines_of (log_entry w.stamp w.line))
      (whole, (0, omega arith, sym (append-nil (journal path files))))
      (turned, (k, few, left ∙ sym (append-nil (drop k (journal path files)))))
      (ended, (k, few, longer ∙ ap (λ l. l ++ lines_of (log_entry w.stamp w.line)) left))

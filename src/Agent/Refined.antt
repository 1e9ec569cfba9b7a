-- ===== src/Agent/Refined.antt =====
-- Runs of `appendLog` against one list of lines, and how large the files get (internal/agent/manager.go).
use mathlib.Core.List.{append_assoc, append-nil}
use snell_sh.Common.{
  ◌≡◌, sym, ap, ◌∙◌, ℕ, zero, suc, ◌+◌, ◌≤◌, Option, none, some, List, [], ◌∷◌, ◌++◌, length,
  length-append, drop, Text, text_eq_self, arith, if-cases, All,
}
use snell_sh.Common.Dict.{Dict, lookup, insert, lookup-insert}
use snell_sh.Agent.Logs.{
  first_archive, second_archive, content, file_limit, is_full, log_entry, Write, rotated,
  append_log,
}
use snell_sh.Agent.Rotated.{longer_lem, or_else, rotate_lem}
use snell_sh.Agent.Journal.{drop-append, length-drop, drop_nothing, journal}
use snell_sh.Agent.Forgotten.{
  IsWhole, full_there, by_switches, Forgets, Extends, written, append_log-Extends,
}

-- Calls one after another, and all the lines that they write.
unfoldable pub append_all : List Write → Text → Dict Text → Dict Text
append_all [] path files = files
append_all (w ∷ ws) path files = append_all ws path (append_log w path files)

unfoldable pub all_written : List Write → List Text
all_written [] = []
all_written (w ∷ ws) = written w ++ all_written ws

drop-twice : (k n : ℕ) (xs : List Text) → drop n (drop k xs) ≡ drop (k + n) xs
drop-twice zero n xs = ap (λ m. drop m xs) (omega arith)
drop-twice (suc k) n [] = drop_nothing n ∙ sym (drop_nothing (suc k + n))
drop-twice (suc k) n (x ∷ xs) =
    let shift : suc (k + n) ≡ suc k + n = omega arith in
    drop-twice k n xs ∙ ap (λ m. drop m (x ∷ xs)) shift

-- Any calls lose some of the oldest lines at most.
append_all-Forgets :
    (ws : List Write) (path : Text) (files : Dict Text)
    → IsWhole path files
    → IsWhole path (append_all ws path files)
      × Forgets (journal path files ++ all_written ws) (journal path (append_all ws path files))
unfolding append_all all_written
append_all-Forgets [] path files whole =
    (whole, (0, omega arith, sym (append-nil (journal path files))))
append_all-Forgets (w ∷ ws) path files whole =
    let (turned, (k, few, first)) = append_log-Extends w path files whole in
    let (ended, (n, less, last)) = append_all-Forgets ws path (append_log w path files) turned in
    let old = journal path files in
    let new = written w ++ all_written ws in
    let joined : journal path (append_log w path files) ++ all_written ws ≡ drop k (old ++ new) =
      ap (λ l. l ++ all_written ws) first
      ∙ append_assoc (drop k old) (written w) (all_written ws)
      ∙ sym (drop-append k old new few) in
    (
      ended,
      (
        k + n,
        omega
            (arith, few, less, ap length joined, length-drop k (old ++ new), length-append old new),
        last ∙ ap (drop n) joined ∙ drop-twice k n (old ++ new),
      ),
    )

-- Any calls of `appendLog` and one more, with any limits, switches and failures to open the file: if each
-- of the log's three files was empty or ended with a line break, then it is so afterwards, and the
-- lines of the three files, the oldest first, are those of before followed by all lines that the calls
-- wrote, in their order, without some of the oldest, but with what the last call wrote.
pub append_log-after-append_all :
    (ws : List Write) (w : Write) (path : Text) (files : Dict Text)
    → IsWhole path files
    → IsWhole path (append_log w path (append_all ws path files))
      × Extends
          (journal path files ++ all_written ws)
          (written w)
          (journal path (append_log w path (append_all ws path files)))
append_log-after-append_all ws w path files whole =
    let all = journal path files ++ all_written ws in
    let (before, (n, less, first)) = append_all-Forgets ws path files whole in
    let (after, (k, few, last)) = append_log-Extends w path (append_all ws path files) before in
    (
      after,
      (
        n + k,
        omega (arith, less, few, ap length first, length-drop n all),
        last
            ∙ ap (λ l. drop k l ++ written w) first
            ∙ ap (λ l. l ++ written w) (drop-twice n k all),
      ),
    )

-- No file of the log is longer than a bound.
pub record Within (bound : ℕ) (path : Text) (files : Dict Text) : Type 0 where
  pub current : length (content (lookup path files)) ≤ bound
  pub first : length (content (lookup (first_archive path) files)) ≤ bound
  pub second : length (content (lookup (second_archive path) files)) ≤ bound

or_else-Within :
    (bound : ℕ) (o archive : Option Text)
    → length (content o) ≤ bound
    → length (content archive) ≤ bound
    → length (content (or_else o archive)) ≤ bound
or_else-Within bound none archive h k = k
or_else-Within bound (some s) archive h k = h

-- After the rotation, the current file is not full.
rotated-Within :
    (w : Write) (bound : ℕ) (path : Text) (files : Dict Text)
    → Within bound path files
    → Within bound path (rotated w path files)
      × (length (content (lookup path (rotated w path files))) ≤ file_limit w.limit)
unfolding is_full
rotated-Within w bound path files small =
    if-cases
      (λ (f : Dict Text).
        Within bound path f × (length (content (lookup path f)) ≤ file_limit w.limit))
      (is_full w.limit path files)
      (λ full.
        let (s, there) = full_there (file_limit w.limit) (lookup path files) full in
        let (e0, e1, e2) = rotate_lem path s files there in
        let size = λ (o : Option Text). length (content o) in
        (
          record {
            current = omega (arith, ap size e0);
            first = omega (arith, ap size e1, ap size there, small.current);
            second = omega (
              arith,
              ap size e2,
              or_else-Within bound (lookup (first_archive path) files)
                  (lookup (second_archive path) files) small.first small.second,
            );
          },
          omega (arith, ap size e0),
        ))
      (λ spare. (small, ground (arith, spare)))

entered-Within :
    (bound : ℕ) (path text : Text) (files : Dict Text)
    → length text ≤ bound
    → Within bound path files
    → Within bound path (insert path text files)
entered-Within bound path text files fits small =
    let put = λ (x : Text). lookup-insert path x text files in
    record {
      current = ground (arith, put path, text_eq_self path, fits);
      first =
          ground (arith, put (first_archive path), longer_lem path b'.' (b'1' ∷ []), small.first);
      second =
          ground (arith, put (second_archive path), longer_lem path b'.' (b'2' ∷ []), small.second);
    }

append_log-Within :
    (w : Write) (bound : ℕ) (path : Text) (files : Dict Text)
    → file_limit w.limit + length (log_entry w.stamp w.line) ≤ bound
    → Within bound path files
    → Within bound path (append_log w path files)
unfolding append_log
append_log-Within w bound path files fits small =
    let (turned, room) = rotated-Within w bound path files small in
    let old = content (lookup path (rotated w path files)) in
    let text = old ++ log_entry w.stamp w.line in
    by_switches (λ f ls. Within bound path f) w.enabled w.writable files (rotated w path files)
      (insert path text (rotated w path files)) [] small turned
      (entered-Within bound path text (rotated w path files)
        (omega (arith, fits, room, length-append old (log_entry w.stamp w.line))) turned)

-- Any calls of `appendLog`: if no call's limit for a file and its entry are together more than a bound,
-- and none of the log's three files was longer than the bound, then none is longer afterwards.
pub append_all-Within :
    (ws : List Write) (bound : ℕ) (path : Text) (files : Dict Text)
    → All (λ w. file_limit w.limit + length (log_entry w.stamp w.line) ≤ bound) ws
    → Within bound path files
    → Within bound path (append_all ws path files)
unfolding append_all
append_all-Within [] bound path files fits small = small
append_all-Within (w ∷ ws) bound path files fits small =
    append_all-Within ws bound path (append_log w path files) fits.1
      (append_log-Within w bound path files fits.0 small)

-- ===== src/Agent/LogTests.antt =====
-- Runs on concrete input for the logs of internal/agent/manager.go.
use snell_sh.Common.{
  false, Option, ◌≡◌, refl, ◌+◌, ◌≤◌, true, some, List, [], ◌∷◌, ◌++◌, length, Text, codes, arith,
  text_eq,
}
use snell_sh.Common.Int.{pos}
use snell_sh.Common.Breaks.{split_lines, complete}
use snell_sh.Common.Dict.{Dict, lookup, insert, erase}
use snell_sh.Common.Int.{leb_ℤ}
use snell_sh.Common.Sort.{sort_by, insert_by}
use snell_sh.Common.Dict.{IsKeyed}
use snell_sh.Database.{Result, ok}
use snell_sh.Settings.Store.{Values}
use snell_sh.Agent.Sweep.{
  LogFile, LogState, LogReport, maintain_logs, regular_files, total_size, remove_oldest,
}
use snell_sh.Agent.Budget.{bytes_of, IsDirectory, maintain_logs-Within}
use snell_sh.Agent.Logs.{
  file_limit, read_files, scan_lines, push_lines, drop_return, is_full, without_returns, rotate,
  rename, log_entry, Write, append_log, logs, tail_of,
}
use snell_sh.Agent.Journal.{journal, last_lines, logs-last}
use snell_sh.Agent.Forgotten.{IsWhole, Extends, written}
use snell_sh.Agent.Refined.{
  append_all, all_written, append_log-after-append_all, Within, append_all-Within,
}

abbrev path : Text
path = codes "a.log"

abbrev files : Dict Text
files = (codes "a.log.1", codes "one\n") ∷ (codes "a.log", codes "two\nthree\n") ∷ []

abbrev logging : Text → Write
logging line = record {
  limit = 1000000;
  enabled = true;
  writable = true;
  stamp = codes "T";
  line = line;
}

shows_last : logs path (pos 2) files ≡ some (codes "two" ∷ codes "three" ∷ [])
unfolding logs read_files lookup text_eq scan_lines split_lines push_lines drop_return
shows_last = refl

logs-last_example :
    logs path (pos 2) files ≡ some (last_lines (tail_of (pos 2)) (journal path files))
unfolding split_lines lookup text_eq
logs-last_example = logs-last path (pos 2) files refl refl refl

files-IsWhole : IsWhole path files
unfolding complete lookup text_eq
files-IsWhole = record { current = refl; first = refl; second = refl }

abbrev writes : List Write
writes = logging (codes "four") ∷ logging (codes "five\r") ∷ []

append_log-after-append_all_example :
    IsWhole path (append_log (logging (codes "six")) path (append_all writes path files))
    × Extends
        (journal path files ++ all_written writes)
        (written (logging (codes "six")))
        (journal path (append_log (logging (codes "six")) path (append_all writes path files)))
append_log-after-append_all_example =
    append_log-after-append_all writes (logging (codes "six")) path files files-IsWhole

appends :
    journal path (append_all writes path files)
    ≡ codes "one" ∷ codes "two" ∷ codes "three" ∷ codes "T four" ∷ codes "T five" ∷ []
unfolding split_lines lookup append_all append_log insert is_full file_limit text_eq log_entry
    without_returns drop_return
appends = refl

-- A rotation drops the oldest file, and keeps the order.
rotates : journal path (rotate path files) ≡ codes "one" ∷ codes "two" ∷ codes "three" ∷ []
unfolding split_lines lookup insert erase rotate rename text_eq drop_return
rotates = refl

fits :
    (line : Text)
    → length (log_entry (codes "T") line) ≤ 100
    → file_limit 1000000 + length (log_entry (codes "T") line) ≤ 250100
unfolding file_limit
fits line h = omega (arith, h)

short_entry : length (log_entry (codes "T") (codes "four")) ≤ 100
unfolding log_entry without_returns
short_entry = omega arith

second_entry : length (log_entry (codes "T") (codes "five\r")) ≤ 100
unfolding log_entry without_returns
second_entry = omega arith

small : Within 250100 path files
unfolding lookup text_eq
small = record { current = omega arith; first = omega arith; second = omega arith }

append_all-Within_example : Within 250100 path (append_all writes path files)
append_all-Within_example =
    append_all-Within writes 250100 path files
      (fits (codes "four") short_entry, (fits (codes "five\r") second_entry, tt)) small

-- Two files and a directory under a budget of one MiB, which the older file goes to meet.
abbrev log_dir : Dict LogFile
log_dir =
    (codes "a.log", record { bytes = 900000; mod_time = 9; regular = true })
    ∷ (codes "b.log", record { bytes = 500000; mod_time = 4; regular = true })
    ∷ (codes "old", record { bytes = 4096; mod_time = 1; regular = false })
    ∷ []

abbrev answer : Option (Result Values)
answer = some (ok (record { log_max_mb = pos 1; log_enabled = true; updated_at = [] }))

abbrev state : LogState
state = record { limit = pos 0; enabled = true; dir = some log_dir }

abbrev report : LogReport
report = record { limit_bytes = pos 1048576; current_bytes = 900000; removed_files = 1 }

keyed : IsDirectory (some log_dir)
unfolding IsKeyed lookup text_eq
keyed = (refl, (refl, (refl, tt)))

answers : (maintain_logs false (λ name. false) answer state).0 ≡ ok report
unfolding maintain_logs regular_files total_size sort_by insert_by remove_oldest
answers = refl

maintain_logs-Within_example :
    (bytes_of (maintain_logs false (λ name. false) answer state).1.dir ≡ 900000)
    × (leb_ℤ (pos 900000) (pos 1048576) ≡ true)
maintain_logs-Within_example =
    maintain_logs-Within false (λ name. false) answer state report keyed answers refl

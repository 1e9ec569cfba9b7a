-- ===== src/Agent/Logs.antt =====
-- The log files of a node (`appendLog` and `Logs` of internal/agent/manager.go). A directory is the
-- content of its files by their paths; the time that opens a line is an argument, and so is whether the
-- current file can be opened. Renaming works whenever the file is there.
-- The sizes and the time in the answer of `Logs` are left out.
use snell_sh.Common.{
  ℕ, ◌*◌, ◌/◌, Bool, ◌&&◌, ◌||◌, ◌==◌, Option, none, some, List, [], ◌∷◌, ◌++◌, ltb, leb, any,
  length, drop, map, codes, Text, if◌then◌else◌,
}
use snell_sh.Common.Int.{ℤ, pos}
use snell_sh.Common.Breaks.{line_break, split_lines}
use snell_sh.Common.Dict.{Dict, lookup, insert, erase}

abbrev pub max_node_log_size : ℕ
max_node_log_size = 2 * 1024 * 1024

-- The files of a log: `path` and `maxNodeLogArchives` archives.
abbrev pub first_archive : Text → Text
first_archive path = path ++ codes ".1"

abbrev pub second_archive : Text → Text
second_archive path = path ++ codes ".2"

abbrev pub content : Option Text → Text
content none = []
content (some s) = s

-- `os.Rename`; a missing file is an error that the caller ignores.
abbrev pub moved_file : Text → Dict Text → Option Text → Text → Dict Text
moved_file from files none to = files
moved_file from files (some s) to = insert to s (erase from files)

unfoldable pub rename : Text → Text → Dict Text → Dict Text
rename from to files = moved_file from files (lookup from files) to

abbrev pub min_file_limit : ℕ
min_file_limit = 64 * 1024

-- The size from which a file is rotated.
unfoldable pub file_limit : ℕ → ℕ
file_limit limit =
    let share = limit / 4 in
    if ltb 0 limit && ltb share max_node_log_size
    then if ltb share min_file_limit then min_file_limit else share
    else max_node_log_size

-- The loop over the archives, and the current file.
unfoldable pub rotate : Text → Dict Text → Dict Text
rotate path files =
    rename path (first_archive path) (rename (first_archive path) (second_archive path) files)

unfoldable pub is_full : ℕ → Text → Dict Text → Bool
is_full limit path files = ltb (file_limit limit) (length (content (lookup path files)))

-- `strings.ReplaceAll(line, "\r", "")`
unfoldable pub without_returns : Text → Text
without_returns [] = []
without_returns (c ∷ s) = let rest = without_returns s in if c == b'\r' then rest else c ∷ rest

-- What `fmt.Fprintln` writes.
unfoldable pub log_entry : Text → Text → Text
log_entry stamp line = stamp ++ b' ' ∷ without_returns line ++ line_break ∷ []

-- One call: what it logs, when, and whether it could open the file.
pub record Write : Type 0 where
  pub limit : ℕ
  pub enabled : Bool
  pub writable : Bool
  pub stamp : Text
  pub line : Text

abbrev pub rotated : Write → Text → Dict Text → Dict Text
rotated w path files = if is_full w.limit path files then rotate path files else files

abbrev pub write_entry : Write → Text → Dict Text → Dict Text
write_entry w path files =
    if w.writable
    then insert path (content (lookup path files) ++ log_entry w.stamp w.line) files
    else files

-- `appendLog`
unfoldable pub append_log : Write → Text → Dict Text → Dict Text
append_log w path files = if w.enabled then write_entry w path (rotated w path files) else files

unfoldable pub drop_return : Text → Text
drop_return [] = []
drop_return (c ∷ []) = if c == b'\r' then [] else c ∷ []
drop_return (c ∷ d ∷ s) = c ∷ drop_return (d ∷ s)

-- The lines that `Scan` gives, if none is as long as the scanner's largest buffer.
abbrev pub max_line : ℕ
max_line = 1024 * 1024

unfoldable pub scan_lines : Text → Option (List Text)
scan_lines s =
    let lines = split_lines s in
    if any (λ l. leb max_line (length l)) lines then none else some (map drop_return lines)

-- The loop of `Scan`: a line more, and the first one goes if there are too many.
abbrev pub push_line : ℕ → List Text → Text → List Text
push_line tail lines l =
    let more = lines ++ l ∷ [] in if ltb tail (length more) then drop 1 more else more

unfoldable pub push_lines : ℕ → List Text → List Text → List Text
push_lines tail lines [] = lines
push_lines tail lines (l ∷ ls) = push_lines tail (push_line tail lines l) ls

abbrev pub scanned_into : ℕ → List Text → Option (List Text) → Option (List Text)
scanned_into tail lines none = none
scanned_into tail lines (some ls) = some (push_lines tail lines ls)

-- A file that is missing is skipped.
abbrev pub read_file : ℕ → List Text → Option Text → Option (List Text)
read_file tail lines none = some lines
read_file tail lines (some s) = scanned_into tail lines (scan_lines s)

abbrev pub and_then : (List Text → Option (List Text)) → Option (List Text) → Option (List Text)
and_then f none = none
and_then f (some lines) = f lines

unfoldable pub read_files : ℕ → Dict Text → List Text → List Text → Option (List Text)
read_files tail files [] lines = some lines
read_files tail files (path ∷ paths) lines =
    and_then (λ ls. read_files tail files paths ls) (read_file tail lines (lookup path files))

abbrev pub tail_of : ℤ → ℕ
tail_of (pos n) = if (n == 0) || ltb 1000 n then 200 else n
tail_of n = 200

abbrev pub log_paths : Text → List Text
log_paths path = second_archive path ∷ first_archive path ∷ path ∷ []

-- `Logs`: the lines of its result, or none for an error.
unfoldable pub logs : Text → ℤ → Dict Text → Option (List Text)
logs path tail files = read_files (tail_of tail) files (log_paths path) []

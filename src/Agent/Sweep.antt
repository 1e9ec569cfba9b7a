-- ===== src/Agent/Sweep.antt =====
-- `MaintainLogs` of internal/agent/manager.go: the files of the log directory and the budget for all of
-- them. What the settings store answers, whether the directory can be read, and which files cannot be
-- removed, are arguments. Files of one time go in the directory's order.
use snell_sh.Common.{
  true, false, ℕ, suc, ◌+◌, ◌-◌, ◌*◌, ◌^◌, Bool, Option, none, some, [], ◌∷◌, ltb, Text,
  if◌then◌else◌,
}
use snell_sh.Common.Int.{ℤ, pos, negsuc, leb_ℤ}
use snell_sh.Common.Dict.{Dict, erase}
use snell_sh.Common.Sort.{sort_by}
use snell_sh.Database.{Result, ok, err, failed}
use snell_sh.Settings.Store.{Values}

-- An entry of the directory: a directory or a special file is not regular.
pub record LogFile : Type 0 where
  pub bytes : ℕ
  pub mod_time : ℕ
  pub regular : Bool

-- The limit in bytes, whether logging is on, and the directory, if it is there.
pub record LogState : Type 0 where
  pub limit : ℤ
  pub enabled : Bool
  pub dir : Option (Dict LogFile)

-- `LogMaintenanceResult`
pub record LogReport : Type 0 where
  pub limit_bytes : ℤ
  pub current_bytes : ℕ
  pub removed_files : ℕ

abbrev pub megabyte : ℕ
megabyte = 2 ^ 20

-- The shift by 20 bits.
abbrev pub megabytes : ℤ → ℤ
megabytes (pos n) = pos (n * megabyte)
megabytes (negsuc n) = negsuc ((n + 1) * megabyte - 1)

abbrev pub with_values : Values → LogState → LogState
with_values v s = record s { limit = megabytes v.log_max_mb; enabled = v.log_enabled }

unfoldable pub regular_files : Dict LogFile → Dict LogFile
regular_files [] = []
regular_files ((name, f) ∷ dir) =
    let rest = regular_files dir in if f.regular then (name, f) ∷ rest else rest

unfoldable pub total_size : Dict LogFile → ℕ
total_size [] = 0
total_size ((name, f) ∷ dir) = f.bytes + total_size dir

abbrev pub is_older : Text × LogFile → Text × LogFile → Bool
is_older (_, f) (_, g) = ltb f.mod_time g.mod_time

-- The loop that removes files, with the bytes that are left and the files removed.
unfoldable pub remove_oldest :
    (Text → Bool) → ℤ → ℕ → ℕ → Dict LogFile → Dict LogFile → Result (ℕ × ℕ) × Dict LogFile
remove_oldest fails limit total removed [] dir = (ok (total, removed), dir)
remove_oldest fails limit total removed ((name, f) ∷ files) dir =
    let rest = remove_oldest fails limit (total - f.bytes) (suc removed) files (erase name dir) in
    if leb_ℤ (pos total) limit
    then (ok (total, removed), dir)
    else if fails name
    then (err failed, dir)
    else rest

abbrev pub reported : LogState → Result (ℕ × ℕ) × Dict LogFile → Result LogReport × LogState
reported s (ok (total, removed), dir) = (
  ok (record { limit_bytes = s.limit; current_bytes = total; removed_files = removed }),
  record s { dir = some dir },
)
reported s (err e, dir) = (err e, record s { dir = some dir })

abbrev pub swept : (Text → Bool) → LogState → Option (Dict LogFile) → Result LogReport × LogState
swept fails s none =
    (ok (record { limit_bytes = s.limit; current_bytes = 0; removed_files = 0 }), s)
swept fails s (some dir) =
    let files = regular_files dir in
    reported s (remove_oldest fails s.limit (total_size files) 0 (sort_by is_older files) dir)

-- The directory, or one of its entries, may be unreadable.
abbrev pub opened : Bool → (Text → Bool) → LogState → Result LogReport × LogState
opened true fails s = (err failed, s)
opened false fails s = swept fails s s.dir

-- `MaintainLogs`, without a settings store, or with its answer.
unfoldable pub maintain_logs :
    Bool → (Text → Bool) → Option (Result Values) → LogState → Result LogReport × LogState
maintain_logs unreadable fails none s = opened unreadable fails s
maintain_logs unreadable fails (some (err e)) s = (err e, s)
maintain_logs unreadable fails (some (ok v)) s = opened unreadable fails (with_values v s)

-- ===== src/Settings/Kept.antt =====
-- What the settings of internal/settings/store.go keep.
use snell_sh.Common.{◌≡◌, Bool, Option, none, some, Text, arith}
use snell_sh.Common.Int.{ℤ, ◌≤ℤ◌}
use snell_sh.Database.{World, ok, statement, query}
use snell_sh.Settings.Store.{
  Row, Values, min_log_max_mb, max_log_max_mb, bool_int, get_values, update_row, set_logs,
  set_log_max_mb,
}

-- A limit that the panel accepts.
abbrev pub InBounds : Option Row → Type 0
InBounds none = Unit
InBounds (some r) = (min_log_max_mb ≤ℤ r.log_max_mb) × (r.log_max_mb ≤ℤ max_log_max_mb)

-- Whatever value is asked for and whatever statement fails, a stored limit between 1 and 1024 MB is
-- between them afterwards.
pub set_log_max_mb-InBounds :
    (value : ℤ) (now : Text) (w : World (Option Row))
    → InBounds w.tables
    → InBounds (set_log_max_mb value now w).1.tables
unfolding set_log_max_mb set_logs get_values update_row query statement
set_log_max_mb-InBounds value now w b = ground (arith, b)

-- A call that returns no error returns what it stored: the limit and the switch that were asked for.
pub set_logs_lem :
    (value : ℤ) (enabled : Bool) (now : Text) (w : World (Option Row)) (v : Values)
    → (set_logs value enabled now w).0 ≡ ok v
    → (v ≡ record { log_max_mb = value; log_enabled = enabled; updated_at = now })
      × (min_log_max_mb ≤ℤ value)
      × (value ≤ℤ max_log_max_mb)
      × ((set_logs value enabled now w).1.tables
          ≡ some (record { log_max_mb = value; log_enabled = bool_int enabled; updated_at = now }))
unfolding set_logs get_values update_row query statement bool_int
set_logs_lem value enabled now w v h = ground (arith, h)

-- ===== src/Settings/Tests.antt =====
-- Runs on concrete input for internal/settings.
use snell_sh.Common.{◌≡◌, refl, false, Option, some, [], codes, arith}
use snell_sh.Common.Int.{pos}
use snell_sh.Database.{World, ok}
use snell_sh.Settings.Store.{Row, Values, set_logs, set_log_max_mb}
use snell_sh.Settings.Kept.{InBounds, set_log_max_mb-InBounds}

abbrev world : World (Option Row)
world = record {
  tables = some (record { log_max_mb = pos 10; log_enabled = pos 1; updated_at = codes "before" });
  faults = [];
}

set_log_max_mb-InBounds_example : InBounds (set_log_max_mb (pos 2048) (codes "now") world).1.tables
set_log_max_mb-InBounds_example =
    set_log_max_mb-InBounds (pos 2048) (codes "now") world (omega arith, omega arith)

abbrev wished : Values
wished = record { log_max_mb = pos 20; log_enabled = false; updated_at = codes "now" }

stored : (set_logs (pos 20) false (codes "now") world).0 ≡ ok wished
unfolding set_logs
stored = refl

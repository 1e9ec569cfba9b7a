-- ===== src/Settings/Store.antt =====
-- The operations of `settings.Store` (internal/settings/store.go), statement by statement.
use snell_sh.Common.{Bool, true, false, not, ◌||◌, Option, none, some, codes, Text}
use snell_sh.Common.Int.{ℤ, pos, ltb_ℤ, is_zero}
use snell_sh.Database.{
  Action, ok, err, no_rows, invalid, pure, raise_if, or_raise, ◌>>=◌, ◌>>◌, statement, query,
}

-- The row of `system_settings`: `log_enabled` is 0 or 1.
pub record Row : Type 0 where
  pub log_max_mb : ℤ
  pub log_enabled : ℤ
  pub updated_at : Text

-- `Values`
pub record Values : Type 0 where
  pub log_max_mb : ℤ
  pub log_enabled : Bool
  pub updated_at : Text

abbrev pub min_log_max_mb : ℤ
min_log_max_mb = pos 1

abbrev pub max_log_max_mb : ℤ
max_log_max_mb = pos 1024

-- `boolInt`
unfoldable pub bool_int : Bool → ℤ
bool_int true = pos 1
bool_int false = pos 0

abbrev pub values_of : Row → Values
values_of r = record {
  log_max_mb = r.log_max_mb;
  log_enabled = not (is_zero r.log_enabled);
  updated_at = r.updated_at;
}

unfoldable pub get_values : Action (Option Row) Values
unfolding query
get_values = do row ← query (λ t. t); r ← or_raise row no_rows; pure (values_of r)

-- The UPDATE and its `RowsAffected`: without a row nothing changes.
unfoldable pub update_row : Row → Action (Option Row) (Unit {0})
unfolding statement
update_row r = do
  statement
  λ w. elim (w.tables) [
    | none ↦ (err no_rows, w)
    | some old ↦ (ok tt, record w { tables = some r })
  ]

abbrev pub out_of_bounds : ℤ → Bool
out_of_bounds value = ltb_ℤ value min_log_max_mb || ltb_ℤ max_log_max_mb value

-- The code LOG_LIMIT stands for the message.
unfoldable pub set_logs : ℤ → Bool → Text → Action (Option Row) Values
unfolding update_row get_values bool_int
set_logs value enabled now = do
  raise_if (out_of_bounds value) (invalid (codes "LOG_LIMIT"))
  update_row (record { log_max_mb = value; log_enabled = bool_int enabled; updated_at = now })
  get_values

unfoldable pub set_log_max_mb : ℤ → Text → Action (Option Row) Values
unfolding get_values set_logs
set_log_max_mb value now = do current ← get_values; set_logs value current.log_enabled now

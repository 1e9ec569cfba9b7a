-- ===== src/Traffic/Store.antt =====
-- The operations of `traffic.Store` (internal/traffic/store.go) but the sampling, over the tables,
-- statement by statement. `now` stands for the calls of `time.Now` and `database.Now` in one operation.
use snell_sh.Common.{
  ℕ, zero, suc, Bool, false, not, ◌||◌, none, some, codes, Text, text_eq, any, if◌then◌else◌,
}
use snell_sh.Common.Int.{ℤ, pos, ◌+ℤ◌, ltb_ℤ, is_zero}
use snell_sh.Common.Dict.{lookup, insert, erase}
use snell_sh.Database.{
  ok, err, failed, no_rows, foreign_key, invalid, Action, pure, raise, raise_if, or_raise, ◌>>=◌,
  ◌>>◌, statement, query, exec, transaction,
}
use snell_sh.Traffic.Model.{Instant, Counter, Tables}
use snell_sh.Traffic.Period.{billing_period}

unfoldable pub get : Text → Action Tables Counter
unfolding query
get id = do c ← query (λ t. lookup id t.counters); or_raise c no_rows

unfoldable pub project : Action Tables Counter
unfolding query
project = do c ← query (λ t. t.project); or_raise c no_rows

-- A row that `INSERT OR IGNORE INTO anyconnect_user_traffic` adds, with the columns' defaults.
abbrev pub new_user : Instant → Counter
new_user now = record {
  period = billing_period now (pos 1);
  upload = pos 0;
  download = pos 0;
  quota = pos 0;
  reset_day = pos 1;
  paused = false;
  paused_by_quota = false;
  updated_at = now.stamp;
}

abbrev add_user : Text → Instant → Tables → Tables
add_user id now t = elim (lookup id t.users) [
  | none ↦ record t { users = insert id (new_user now) t.users }
  | some c ↦ t
]

-- The statement fails where no account has the id: the foreign keys are on.
unfoldable pub insert_user : Text → Instant → Action Tables (Unit {0})
unfolding statement
insert_user id now = do
  statement
  λ w.
      if any (text_eq id) w.tables.accounts
      then (ok tt, record w { tables = add_user id now w.tables })
      else (err foreign_key, w)

-- `GetUser` calls itself after its insert; the first argument is fuel, and 2 are enough.
unfoldable pub get_user_within : ℕ → Text → Instant → Action Tables Counter
unfolding query insert_user
get_user_within zero id now = raise failed
get_user_within (suc f) id now =
    let again : Action Tables Counter = (do insert_user id now; get_user_within f id now) in
    query (λ t. lookup id t.users) >>= λ row. elim row [ some c ↦ pure c | none ↦ again ]

unfoldable pub get_user : Text → Instant → Action Tables Counter
unfolding get_user_within
get_user = get_user_within 2

-- `UPDATE traffic_counters ... WHERE node_id=?` and `requireRow`.
unfoldable pub update_node : Text → (Counter → Counter) → Action Tables (Unit {0})
unfolding statement
update_node id f = do
  statement
  λ w. elim (lookup id w.tables.counters) [
    | none ↦ (err no_rows, w)
    | some c ↦ (
      ok tt,
      record w { tables = record (w.tables) { counters = insert id (f c) w.tables.counters } },
    )
  ]

-- `UPDATE anyconnect_user_traffic ... WHERE user_id=?` and `requireRow`.
unfoldable pub update_user : Text → (Counter → Counter) → Action Tables (Unit {0})
unfolding statement
update_user id f = do
  statement
  λ w. elim (lookup id w.tables.users) [
    | none ↦ (err no_rows, w)
    | some c ↦
        (ok tt, record w { tables = record (w.tables) { users = insert id (f c) w.tables.users } })
  ]

-- `UPDATE project_traffic ... WHERE id=1` and `requireRow`.
unfoldable pub update_project : (Counter → Counter) → Action Tables (Unit {0})
unfolding statement
update_project f = do
  statement
  λ w. elim w.tables.project [
    | none ↦ (err no_rows, w)
    | some c ↦ (ok tt, record w { tables = record (w.tables) { project = some (f c) } })
  ]

abbrev pub bad_quota : ℤ → ℤ → Bool
bad_quota quota reset_day =
    ltb_ℤ quota (pos 0) || ltb_ℤ reset_day (pos 1) || ltb_ℤ (pos 28) reset_day

-- The CASE of `SetUserQuota`. SQLite adds without wrapping.
abbrev pub over_quota : ℤ → Counter → Bool
over_quota quota c = not (is_zero quota || ltb_ℤ (c.upload +ℤ c.download) quota)

abbrev pub with_user_quota : ℤ → ℤ → Text → Counter → Counter
with_user_quota quota reset_day stamp c = record c {
  quota = quota;
  reset_day = reset_day;
  paused = over_quota quota c;
  paused_by_quota = over_quota quota c;
  updated_at = stamp;
}

unfoldable pub set_user_quota : Text → ℤ → ℤ → Instant → Action Tables (Unit {0})
unfolding get_user update_user ◌+ℤ◌
set_user_quota id quota reset_day now = do
  raise_if (bad_quota quota reset_day) (invalid (codes "invalid user quota or reset day"))
  get_user id now
  update_user id (with_user_quota quota reset_day now.stamp)

abbrev pub with_quota : ℤ → ℤ → Text → Counter → Counter
with_quota quota reset_day stamp c = record c {
  quota = quota;
  reset_day = reset_day;
  updated_at = stamp;
}

unfoldable pub set_quota : Text → ℤ → ℤ → Instant → Action Tables (Unit {0})
unfolding update_node
set_quota id quota reset_day now = do
  raise_if (bad_quota quota reset_day) (invalid (codes "invalid quota or reset day"))
  update_node id (with_quota quota reset_day now.stamp)

unfoldable pub set_project_quota : ℤ → ℤ → Instant → Action Tables (Unit {0})
unfolding update_project
set_project_quota quota reset_day now = do
  raise_if (bad_quota quota reset_day) (invalid (codes "invalid quota or reset day"))
  update_project (with_quota quota reset_day now.stamp)

abbrev pub with_pause : Bool → Text → Counter → Counter
with_pause paused stamp c = record c {
  paused = paused;
  paused_by_quota = false;
  updated_at = stamp;
}

unfoldable pub pause_node : Text → Bool → Instant → Action Tables (Unit {0})
unfolding update_node
pause_node id paused now = update_node id (with_pause paused now.stamp)

unfoldable pub pause_project : Bool → Instant → Action Tables (Unit {0})
unfolding update_project
pause_project paused now = update_project (with_pause paused now.stamp)

-- The columns that the three resets write.
abbrev pub cleared : Instant → ℤ → Counter → Counter
cleared now reset_day c = record c {
  period = billing_period now reset_day;
  upload = pos 0;
  download = pos 0;
  paused = false;
  paused_by_quota = false;
  updated_at = now.stamp;
}

-- The bodies of the transactions of `Reset` and `ResetUser`.
unfoldable pub reset_node_rows : Text → Instant → Action Tables (Unit {0})
unfolding get update_node exec
reset_node_rows id now = do
  c ← get id
  update_node id (cleared now c.reset_day)
  exec (λ t. record t { samples = erase id t.samples })

unfoldable pub reset_user_rows : Text → Instant → Action Tables (Unit {0})
unfolding query update_user exec
reset_user_rows id now = do
  row ← query (λ t. lookup id t.users)
  c ← or_raise row no_rows
  update_user id (cleared now c.reset_day)
  exec (λ t. record t { user_samples = erase id t.user_samples })

unfoldable pub reset_node : Text → Instant → Action Tables (Unit {0})
unfolding reset_node_rows
reset_node id now = transaction (reset_node_rows id now)

unfoldable pub reset_user : Text → Instant → Action Tables (Unit {0})
unfolding reset_user_rows
reset_user id now = transaction (reset_user_rows id now)

unfoldable pub reset_project : Instant → Action Tables (Unit {0})
unfolding project update_project
reset_project now = do c ← project; update_project (cleared now c.reset_day)

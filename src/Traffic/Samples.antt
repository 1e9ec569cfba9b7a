-- ===== src/Traffic/Samples.antt =====
-- The four sampling operations of `traffic.Store` (internal/traffic/store.go) over the tables. `now`
-- stands for the calls of `time.Now` and `database.Now` in one operation.
use snell_sh.Common.{Bool, some, codes, ◌||◌, Text}
use snell_sh.Common.Int.{ℤ, pos, ltb_ℤ}
use snell_sh.Common.Dict.{lookup, insert}
use snell_sh.Database.{
  no_rows, invalid, Action, pure, raise_if, or_raise, ◌>>=◌, ◌>>◌, query, exec, transaction,
}
use snell_sh.Traffic.Model.{
  Instant, Counter, Baseline, Tables, Totals, SampleResult, UserSampleResult,
}
use snell_sh.Traffic.Sampling.{node_delta, user_delta, sample_with, sample_deltas}
use snell_sh.Traffic.Store.{project, get_user}

abbrev pub stamped : Instant → Counter → Counter
stamped now c = record c { updated_at = now.stamp }

abbrev pub baseline_of : ℤ → ℤ → Instant → Baseline
baseline_of upload download now = record {
  raw_upload = upload;
  raw_download = download;
  sampled_at = now.stamp;
}

abbrev pub is_negative : ℤ → ℤ → Bool
is_negative upload download = ltb_ℤ upload (pos 0) || ltb_ℤ download (pos 0)

-- The body of the transaction of `SampleProject`.
unfoldable pub sample_project_rows : ℤ → ℤ → Instant → Action Tables Totals
unfolding project exec
sample_project_rows upload download now = do
  c ← project
  let done = sample_deltas now c upload download
  exec (λ t. record t { project = some (stamped now done.0) })
  pure done.1

unfoldable pub sample_project : ℤ → ℤ → Instant → Action Tables Totals
unfolding sample_project_rows
sample_project upload download now = do
  raise_if (is_negative upload download)
      (invalid (codes "project traffic deltas cannot be negative"))
  transaction (sample_project_rows upload download now)

-- The body of the transaction of `Sample`.
unfoldable pub sample_rows : Text → ℤ → ℤ → Instant → Action Tables SampleResult
unfolding query exec
sample_rows id upload download now = do
  (row, last) ← query (λ t. (lookup id t.counters, lookup id t.samples))
  c ← or_raise row no_rows
  let done = sample_with node_delta now c last upload download
  exec (λ t. record t { samples = insert id (baseline_of upload download now) t.samples })
  exec (λ t. record t { counters = insert id (stamped now done.0) t.counters })
  pure (record { node_id = id; totals = done.1 })

unfoldable pub sample : Text → ℤ → ℤ → Instant → Action Tables SampleResult
unfolding sample_rows
sample id upload download now = do
  raise_if (is_negative upload download) (invalid (codes "raw traffic counters cannot be negative"))
  transaction (sample_rows id upload download now)

unfoldable pub sample_user : Text → ℤ → ℤ → Instant → Action Tables UserSampleResult
unfolding get_user query exec
sample_user id upload download now = do
  raise_if (is_negative upload download)
      (invalid (codes "raw user traffic counters cannot be negative"))
  get_user id now
  transaction (do
    (row, last) ← query (λ t. (lookup id t.users, lookup id t.user_samples))
    c ← or_raise row no_rows
    let done = sample_with user_delta now c last upload download
    exec (λ t. record t {
      user_samples = insert id (baseline_of upload download now) t.user_samples;
    })
    exec (λ t. record t { users = insert id (stamped now done.0) t.users })
    pure (record { user_id = id; totals = done.1; quota_bytes = done.0.quota }))

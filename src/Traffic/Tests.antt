-- ===== src/Traffic/Tests.antt =====
-- Runs of the traffic store, and the theorems about it at concrete rows.
use snell_sh.Common.{
  ℕ, ◌+◌, ◌≡◌, refl, ◌↔◌, false, some, List, [], ◌∷◌, arith, Text, codes, text_eq,
}
use snell_sh.Common.Int.{pos, add64, sub64}
use snell_sh.Common.Dict.{lookup}
use snell_sh.Database.{World, ok, ◌>>◌}
use snell_sh.Traffic.Model.{Instant, Counter, Baseline, Tables, SampleResult, pause}
use snell_sh.Traffic.Period.{clamp_day, format_date, billing_period, InPeriod, billing_period_iff}
use snell_sh.Traffic.Sampling.{node_delta, sample_with}
use snell_sh.Traffic.Samples.{sample}
use snell_sh.Traffic.Quota.{Enforced, sample_with-Enforced}
use snell_sh.Traffic.Ticks.{grow, restart, Interval, total_up, total_down}
use snell_sh.Traffic.Flow.{sample_all, Holds, sample_all-Holds}
use snell_sh.Traffic.Effects.{sample-after-reset_node}
use snell_sh.Traffic.Store.{reset_node}

abbrev july : Instant
july = record { year = 2026; month = 7; day = 3; stamp = codes "2026-07-03T00:00:00Z" }

abbrev august : Instant
august = record { year = 2026; month = 8; day = 20; stamp = codes "2026-08-20T00:00:00Z" }

july_period : billing_period july (pos 15) ≡ codes "2026-06-15"
unfolding billing_period
july_period = refl

new_year_period : billing_period (record july { month = 1 }) (pos 31) ≡ codes "2026-01-01"
unfolding billing_period
new_year_period = refl

abbrev row : Counter
row = record {
  period = codes "2026-06-15";
  upload = pos 100;
  download = pos 50;
  quota = pos 200;
  reset_day = pos 15;
  paused = false;
  paused_by_quota = false;
  updated_at = codes "2026-07-01T00:00:00Z";
}

abbrev base : Baseline
base = record {
  raw_upload = pos 40;
  raw_download = pos 10;
  sampled_at = codes "2026-07-01T00:00:00Z";
}

abbrev id : Text
id = codes "snell-main"

abbrev tables : Tables
tables = record {
  counters = (id, row) ∷ [];
  samples = (id, base) ∷ [];
  project = some row;
  users = (id, row) ∷ [];
  user_samples = [];
  accounts = id ∷ [];
}

abbrev world : World Tables
world = record { tables = tables; faults = [] }

-- 60 more bytes each way: the quota of 200 is passed.
sample_pauses : (sample_with node_delta july row (some base) (pos 100) (pos 70)).1.firewall ≡ pause
unfolding sample_with billing_period node_delta text_eq add64 sub64
sample_pauses = refl

billing_period_iff_example :
    (billing_period july (pos 15) ≡ format_date 2026 6 (clamp_day (pos 15)))
    ↔ InPeriod july 2026 6 (clamp_day (pos 15))
billing_period_iff_example = billing_period_iff july (pos 15) 2026 6 (omega arith)

sample_with-Enforced_example :
    let (after, r) = sample_with node_delta july row (some base) (pos 100) (pos 70) in
    Enforced row after r
sample_with-Enforced_example =
    sample_with-Enforced node_delta july row (some base) (pos 100) (pos 70) (ground arith)

-- The upload counter restarts, and later both grow.
abbrev intervals : List Interval
intervals =
    record { up = restart 7; down = grow 5; now = july }
    ∷ record { up = grow 20; down = grow 0; now = july }
    ∷ []

world-Holds : Holds id (codes "2026-06-15") (pos 15) 100 50 40 10 world
unfolding lookup text_eq
world-Holds = record {
  row = row;
  found = refl;
  in_period = refl;
  resets = refl;
  upload = refl;
  download = refl;
  last = base;
  based = refl;
  last_up = refl;
  last_down = refl;
  no_faults = refl;
}

sample_all-Holds_example :
    (w' : World Tables) × (a b : ℕ) × (sample_all id intervals 40 10 world ≡ (ok tt, w'))
    × Holds id
        (codes "2026-06-15")
        (pos 15)
        (100 + total_up intervals)
        (50 + total_down intervals)
        a
        b
        w'
sample_all-Holds_example =
    sample_all-Holds id (codes "2026-06-15") (pos 15) intervals 100 50 40 10 world world-Holds
      (omega arith) (omega arith)
      (
        july_period,
        omega arith,
        tt,
        omega arith,
        omega arith,
        (july_period, tt, tt, omega arith, omega arith, tt),
      )
      (omega arith) (omega arith)

sample-after-reset_node_example :
    (w' : World Tables) × (r : SampleResult) × ((reset_node id july
          >> sample id (pos 100) (pos 70) august)
        world
      ≡ (ok r, w'))
    × (r.totals.delta_upload ≡ pos 0)
    × (r.totals.delta_download ≡ pos 0)
    × (r.totals.total_upload ≡ pos 0)
    × (r.totals.total_download ≡ pos 0)
unfolding lookup text_eq
sample-after-reset_node_example = sample-after-reset_node id 100 70 july august world row refl refl

-- ===== src/Traffic/Ticks.antt =====
-- What the kernel's counters do between samples, and what the differences of
-- internal/traffic/store.go make of it.
use snell_sh.Common.{ℕ, ◌+◌, ◌<◌, ◌≡◌, List, [], ◌∷◌, arith, Text}
use snell_sh.Common.Int.{ℤ, pos, half64, add64, add64-pos, sub64-pos, sub64_neg}
use snell_sh.Traffic.Model.{Instant}
use snell_sh.Traffic.Period.{billing_period}
use snell_sh.Traffic.Sampling.{node_delta}

-- What a kernel counter does between two samples: it grows, or it starts again from 0 and grows.
pub data Tick : Type 0 where
  grow : ℕ → Tick
  restart : ℕ → Tick

abbrev pub raw_after : ℕ → Tick → ℕ
raw_after previous (grow n) = previous + n
raw_after previous (restart n) = n

abbrev pub moved : Tick → ℕ
moved (grow n) = n
moved (restart n) = n

-- A restart shows if the counter has not yet passed its old value again.
abbrev pub IsVisible : ℕ → Tick → Type 0
IsVisible previous (grow n) = Unit
IsVisible previous (restart n) = n < previous

pub node_delta-moved :
    (previous : ℕ) (t : Tick)
    → previous < half64
    → raw_after previous t < half64
    → IsVisible previous t
    → node_delta (pos (raw_after previous t)) (pos previous) ≡ pos (moved t)
unfolding node_delta
node_delta-moved previous (grow n) low high v =
    rw (sub64-pos (previous + n) previous high (omega arith)) (ground arith)
node_delta-moved previous (restart n) low high v = rw (sub64_neg n previous low v) (ground arith)

-- A total grows by what its counter moved.
pub gained :
    (n previous : ℕ) (total last : ℤ) (t : Tick)
    → total ≡ pos n
    → last ≡ pos previous
    → previous < half64
    → raw_after previous t < half64
    → IsVisible previous t
    → n + moved t < half64
    → add64 total (node_delta (pos (raw_after previous t)) last) ≡ pos (n + moved t)
gained n previous total last t total_eq last_eq low high v fits =
    rw (total_eq, last_eq, node_delta-moved previous t low high v) (add64-pos n (moved t) fits)

-- Between two samples: what each counter did, and the moment of the later sample.
pub record Interval : Type 0 where
  pub up : Tick
  pub down : Tick
  pub now : Instant

abbrev pub total_up : List Interval → ℕ
total_up [] = 0
total_up (e ∷ es) = moved e.up + total_up es

abbrev pub total_down : List Interval → ℕ
total_down [] = 0
total_down (e ∷ es) = moved e.down + total_down es

-- Every sample lies in one billing period, every restart shows, and no raw counter reaches 2^63.
abbrev pub IsSteady : Text → ℤ → List Interval → ℕ → ℕ → Type 0
IsSteady period reset_day [] up down = Unit
IsSteady period reset_day (e ∷ es) up down =
    (billing_period e.now reset_day ≡ period)
    × IsVisible up e.up
    × IsVisible down e.down
    × (raw_after up e.up < half64)
    × (raw_after down e.down < half64)
    × IsSteady period reset_day es (raw_after up e.up) (raw_after down e.down)

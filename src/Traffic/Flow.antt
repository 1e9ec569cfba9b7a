-- ===== src/Traffic/Flow.antt =====
-- Bytes are counted once: what a run of samples adds to a node's row, against what the kernel's
-- counters did in between.
use mathlib.Core.Path.{subst₂}
use snell_sh.Common.{ℕ, ◌+◌, ◌<◌, ◌≡◌, refl, ◌∙◌, some, List, [], ◌∷◌, arith, Text, text_eq_self}
use snell_sh.Common.Int.{ℤ, pos, half64, add64}
use snell_sh.Common.Dict.{Dict, lookup, insert, lookup-insert}
use snell_sh.Database.{World, ok, Action, pure, ◌>>◌, >>=-of-ok, transaction}
use snell_sh.Traffic.Model.{Instant, Counter, Baseline, Tables, keep, SampleResult}
use snell_sh.Traffic.Period.{billing_period}
use snell_sh.Traffic.Sampling.{roll_over, node_delta, add_bytes, enforce, sample_with}
use snell_sh.Traffic.Samples.{sample, stamped, baseline_of}
use snell_sh.Traffic.Ticks.{
  raw_after, moved, IsVisible, Interval, total_up, total_down, IsSteady, gained,
}

module _ (id : Text) where
  -- The sampler's runs, one after another, from given raw counters.
  pub sample_all : List Interval → ℕ → ℕ → Action Tables (Unit {0})
  sample_all [] up down = pure tt
  sample_all (e ∷ es) up down = do
    sample id (pos (raw_after up e.up)) (pos (raw_after down e.down)) e.now
    sample_all es (raw_after up e.up) (raw_after down e.down)

-- The row and the baseline of a node, as far as the counting goes.
pub record Holds (id period : Text) (reset_day : ℤ) (up down raw_up raw_down : ℕ) (w : World Tables)
    : Type 0 where
  pub row : Counter
  pub found : lookup id w.tables.counters ≡ some row
  pub in_period : row.period ≡ period
  pub resets : row.reset_day ≡ reset_day
  pub upload : row.upload ≡ pos up
  pub download : row.download ≡ pos down
  pub last : Baseline
  pub based : lookup id w.tables.samples ≡ some last
  pub last_up : last.raw_upload ≡ pos raw_up
  pub last_down : last.raw_download ≡ pos raw_down
  pub no_faults : w.faults ≡ []

enforce_keeps :
    (c : Counter)
    → let after = (enforce c keep).0 in
      (after.period ≡ c.period)
      × (after.reset_day ≡ c.reset_day)
      × (after.upload ≡ c.upload)
      × (after.download ≡ c.download)
unfolding enforce
enforce_keeps c = ground arith

-- Inside its period a row gains the bytes of the two counters.
sample_with_inside :
    (now : Instant) (c : Counter) (b : Baseline) (up down : ℤ)
    → billing_period now c.reset_day ≡ c.period
    → let after = (sample_with node_delta now c (some b) up down).0 in
      (after.period ≡ c.period)
      × (after.reset_day ≡ c.reset_day)
      × (after.upload ≡ add64 c.upload (node_delta up b.raw_upload))
      × (after.download ≡ add64 c.download (node_delta down b.raw_download))
unfolding sample_with roll_over add_bytes
sample_with_inside now c b up down e =
    rw (e, text_eq_self c.period)
      (enforce_keeps (add_bytes (node_delta up b.raw_upload) (node_delta down b.raw_download) c))

-- The world after a sample of a node that has a row and a baseline.
abbrev world_after : Text → ℤ → ℤ → Instant → Counter → Tables → World Tables
world_after id up down now after t = record {
  tables = record t {
    samples = insert id (baseline_of up down now) t.samples;
    counters = insert id (stamped now after) t.counters;
  };
  faults = [];
}

sample_lem :
    (id : Text) (up down : ℕ) (now : Instant) (w : World Tables) (c : Counter) (b : Baseline)
    → w.faults ≡ []
    → lookup id w.tables.counters ≡ some c
    → lookup id w.tables.samples ≡ some b
    → let (after, r) = sample_with node_delta now c (some b) (pos up) (pos down) in
      sample id (pos up) (pos down) now w ≡ (
        ok (record { node_id = id; totals = r }),
        world_after id (pos up) (pos down) now after w.tables,
      )
unfolding sample transaction
sample_lem id up down now w c b none_left row last = ground arith

lookup-insert_self : {V : Type 0} (k : Text) (v : V) (m : Dict V) → lookup k (insert k v m) ≡ some v
lookup-insert_self k v m = rw (lookup-insert, text_eq_self k)

-- One sample inside the period moves the row on by what the counters moved, and the baseline along.
sample-Holds :
    (id period : Text) (reset_day : ℤ) (u d raw_up raw_down : ℕ) (e : Interval) (w : World Tables)
    → Holds id period reset_day u d raw_up raw_down w
    → raw_up < half64
    → raw_down < half64
    → billing_period e.now reset_day ≡ period
    → IsVisible raw_up e.up
    → IsVisible raw_down e.down
    → raw_after raw_up e.up < half64
    → raw_after raw_down e.down < half64
    → u + moved e.up < half64
    → d + moved e.down < half64
    → let up' = raw_after raw_up e.up in
      let down' = raw_after raw_down e.down in
      (w' : World Tables) × (r : SampleResult) × (sample id (pos up') (pos down') e.now w
        ≡ (ok r, w'))
      × Holds id period reset_day (u + moved e.up) (d + moved e.down) up' down' w'
sample-Holds id period reset_day u d raw_up raw_down e w h lu ld p vu vd au ad su sd = (
  world_after id (pos up') (pos down') e.now after w.tables,
  record {
    node_id = id;
    totals = (sample_with node_delta e.now h.row (some h.last) (pos up') (pos down')).1;
  },
  sample_lem id up' down' e.now w h.row h.last h.no_faults h.found h.based,
  record {
    row = stamped e.now after;
    found = lookup-insert_self id (stamped e.now after) w.tables.counters;
    in_period = inside.0 ∙ h.in_period;
    resets = inside.1 ∙ h.resets;
    upload =
        inside.2
        ∙ gained u raw_up h.row.upload h.last.raw_upload e.up h.upload h.last_up lu au vu su;
    download =
        inside.3
        ∙ gained d raw_down h.row.download h.last.raw_download e.down h.download h.last_down ld ad
            vd sd;
    last = baseline_of (pos up') (pos down') e.now;
    based = lookup-insert_self id (baseline_of (pos up') (pos down') e.now) w.tables.samples;
    last_up = refl;
    last_down = refl;
    no_faults = refl;
  },
)
  where
    up' : ℕ
    up' = raw_after raw_up e.up

    down' : ℕ
    down' = raw_after raw_down e.down

    after : Counter
    after = (sample_with node_delta e.now h.row (some h.last) (pos up') (pos down')).0

    inside :
        (after.period ≡ h.row.period)
        × (after.reset_day ≡ h.row.reset_day)
        × (after.upload ≡ add64 h.row.upload (node_delta (pos up') h.last.raw_upload))
        × (after.download ≡ add64 h.row.download (node_delta (pos down') h.last.raw_download))
    inside =
        sample_with_inside e.now h.row h.last (pos up') (pos down') (rw (h.resets, h.in_period) p)

-- Bytes are neither lost nor counted twice: after any run of samples of a node, with the store
-- sound and every sample inside the billing period of the row, the row's totals have grown by
-- exactly what the kernel's two counters moved, across every restart of a counter that shows as a
-- fall. The totals and the raw counters stay below 2^63.
pub sample_all-Holds :
    (id period : Text) (reset_day : ℤ) (es : List Interval) (u d raw_up raw_down : ℕ)
    (w : World Tables)
    → Holds id period reset_day u d raw_up raw_down w
    → raw_up < half64
    → raw_down < half64
    → IsSteady period reset_day es raw_up raw_down
    → u + total_up es < half64
    → d + total_down es < half64
    → (w' : World Tables) × (a b : ℕ) × (sample_all id es raw_up raw_down w ≡ (ok tt, w'))
      × Holds id period reset_day (u + total_up es) (d + total_down es) a b w'
unfolding sample_all
sample_all-Holds id period reset_day [] u d a b w h lu ld s su sd = (
  w,
  a,
  b,
  refl,
  subst₂ (λ m n. Holds id period reset_day m n a b w) (omega arith) (omega arith) h,
)
sample_all-Holds id period reset_day (e ∷ es) u d a b w h lu ld (p, vu, vd, au, ad, s) su sd =
    let (w', r, run, h') =
      sample-Holds id period reset_day u d a b e w h lu ld p vu vd au ad (omega arith)
        (omega arith) in
    let (w'', a', b', rest, h'') =
      sample_all-Holds id period reset_day es (u + moved e.up) (d + moved e.down) (raw_after a e.up)
        (raw_after b e.down) w' h' au ad s (omega arith) (omega arith) in
    (
      w'',
      a',
      b',
      >>=-of-ok (sample id (pos (raw_after a e.up)) (pos (raw_after b e.down)) e.now)
            (λ _. sample_all id es (raw_after a e.up) (raw_after b e.down)) w run
          ∙ rest,
      subst₂ (λ m n. Holds id period reset_day m n a' b' w'') (omega arith) (omega arith) h'',
    )

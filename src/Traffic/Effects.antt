-- ===== src/Traffic/Effects.antt =====
-- What the operations of the traffic store (internal/traffic/store.go) do to the tables: resets, the
-- turn of a period, and the quota of a user.
use snell_sh.Common.{
  ℕ, ◌+◌, ◌≤◌, ◌<◌, ◌≡◌, refl, ◌∙◌, ◌↔◌, ◌&&◌, not, true, false, Option, none, some, [], arith,
  Text, text_eq, text_eq_self, if◌then◌else◌,
}
use snell_sh.Common.Int.{ℤ, pos, ◌≤ℤ◌, ◌+ℤ◌, add64}
use snell_sh.Common.Dict.{lookup, insert, erase, lookup-insert, lookup-erase}
use snell_sh.Database.{World, ok, ◌>>◌, >>=-of-ok, transaction}
use snell_sh.Traffic.Model.{Instant, Counter, Baseline, Tables, keep, resume, SampleResult}
use snell_sh.Traffic.Period.{billing_period}
use snell_sh.Traffic.Sampling.{roll_over, node_delta, add_bytes, enforce, used, sample_with}
use snell_sh.Traffic.Store.{set_user_quota, with_user_quota, cleared, reset_node}
use snell_sh.Traffic.Samples.{stamped, baseline_of, sample}

-- The first sample of a new billing period starts the row afresh: both totals are 0, a pause by
-- quota is lifted and reported, a pause by hand stays, and the bytes since the last baseline are
-- not counted. The quota is not negative.
pub sample_with_new_period :
    (delta : ℤ → ℤ → ℤ) (now : Instant) (c : Counter) (b : Option Baseline) (up down : ℤ)
    → pos 0 ≤ℤ c.quota
    → text_eq c.period (billing_period now c.reset_day) ≡ false
    → let (after, r) = sample_with delta now c b up down in
      (after.period ≡ billing_period now c.reset_day)
      × (after.upload ≡ pos 0)
      × (after.download ≡ pos 0)
      × (after.paused ≡ (c.paused && not c.paused_by_quota))
      × (after.paused_by_quota ≡ false)
      × (r.firewall ≡ (if c.paused_by_quota then resume else keep))
      × (r.delta_upload ≡ pos 0)
      × (r.delta_download ≡ pos 0)
unfolding sample_with roll_over add_bytes enforce used add64
sample_with_new_period delta now c b up down q e = ground arith

reset_node_lem :
    (id : Text) (now : Instant) (w : World Tables) (c : Counter)
    → w.faults ≡ []
    → lookup id w.tables.counters ≡ some c
    → reset_node id now w ≡ (
      ok tt,
      record {
        tables = record (w.tables) {
          counters = insert id (cleared now c.reset_day c) w.tables.counters;
          samples = erase id w.tables.samples;
        };
        faults = [];
      },
    )
unfolding reset_node transaction
reset_node_lem id now w c none_left row = ground arith

-- The first sample of a node that has no baseline.
sample_first :
    (id : Text) (up down : ℕ) (now : Instant) (w : World Tables) (c : Counter)
    → w.faults ≡ []
    → lookup id w.tables.counters ≡ some c
    → lookup id w.tables.samples ≡ none
    → let (after, r) = sample_with node_delta now c none (pos up) (pos down) in
      sample id (pos up) (pos down) now w ≡ (
        ok (record { node_id = id; totals = r }),
        record {
          tables = record (w.tables) {
            samples = insert id (baseline_of (pos up) (pos down) now) w.tables.samples;
            counters = insert id (stamped now after) w.tables.counters;
          };
          faults = [];
        },
      )
unfolding sample transaction
sample_first id up down now w c none_left row fresh = ground arith

sample_with-fresh :
    (now : Instant) (c : Counter) (up down : ℤ)
    → c.upload ≡ pos 0
    → c.download ≡ pos 0
    → let r = (sample_with node_delta now c none up down).1 in
      (r.delta_upload ≡ pos 0)
      × (r.delta_download ≡ pos 0)
      × (r.total_upload ≡ pos 0)
      × (r.total_download ≡ pos 0)
unfolding sample_with roll_over add_bytes enforce used add64
sample_with-fresh now c up down u d = ground arith

-- A manual reset of a node never brings back bytes that nftables had already counted: where the
-- node has a row, the reset succeeds, and the next sample, whatever it reads and whenever it is
-- taken, counts nothing and leaves both totals at 0. (No statement fails, and the raw counters are
-- not negative.)
pub sample-after-reset_node :
    (id : Text) (up down : ℕ) (now later : Instant) (w : World Tables) (c : Counter)
    → w.faults ≡ []
    → lookup id w.tables.counters ≡ some c
    → (w' : World Tables) × (r : SampleResult) × ((reset_node id now
            >> sample id (pos up) (pos down) later)
          w
        ≡ (ok r, w'))
      × (r.totals.delta_upload ≡ pos 0)
      × (r.totals.delta_download ≡ pos 0)
      × (r.totals.total_upload ≡ pos 0)
      × (r.totals.total_download ≡ pos 0)
sample-after-reset_node id up down now later w c none_left row =
    let c' : Counter = cleared now c.reset_day c in
    let t : Tables = record (w.tables) {
      counters = insert id c' w.tables.counters;
      samples = erase id w.tables.samples;
    } in
    let w' : World Tables = record { tables = t; faults = [] } in
    let (du, dd, tu, td) = sample_with-fresh later c' (pos up) (pos down) refl refl in
    (
      _,
      _,
      >>=-of-ok (reset_node id now) (λ _. sample id (pos up) (pos down) later) w
            (reset_node_lem id now w c none_left row)
          ∙ sample_first id up down later w' c' refl (rw (lookup-insert, text_eq_self id))
              (rw (lookup-erase, text_eq_self id)),
      du,
      dd,
      tu,
      td,
    )

-- Setting a user's quota sets the pause too: where no statement fails and the account has a row,
-- the row afterwards has the new quota and reset day, and is paused, by quota, exactly if the quota
-- is not 0 and the bytes used reach it.
pub set_user_quota_lem :
    (id : Text) (quota : ℕ) (day : ℕ) (now : Instant) (w : World Tables) (c : Counter) (up down : ℕ)
    → w.faults ≡ []
    → lookup id w.tables.users ≡ some c
    → c.upload ≡ pos up
    → c.download ≡ pos down
    → 1 ≤ day
    → day ≤ 28
    → (w' : World Tables) × (c' : Counter) × (set_user_quota id (pos quota) (pos day) now w
        ≡ (ok tt, w'))
      × (lookup id w'.tables.users ≡ some c')
      × (c'.quota ≡ pos quota)
      × (c'.reset_day ≡ pos day)
      × (c'.upload ≡ c.upload)
      × (c'.download ≡ c.download)
      × (c'.paused_by_quota ≡ c'.paused)
      × ((c'.paused ≡ true) ↔ ((0 < quota) × (quota ≤ up + down)))
unfolding set_user_quota ◌+ℤ◌
set_user_quota_lem id quota day now w c up down none_left row u d low high =
    let c' : Counter = with_user_quota (pos quota) (pos day) now.stamp c in
    (
      record { tables = record (w.tables) { users = insert id c' w.tables.users }; faults = [] },
      c',
      ground arith,
      rw (lookup-insert, text_eq_self id),
      refl,
      refl,
      refl,
      refl,
      refl,
      ground arith,
    )

-- ===== src/Traffic/Quota.antt =====
-- The quota: what one sample does to the pause, and what it tells the firewall.
use snell_sh.Common.{◌≡◌, refl, Bool, true, false, Option, none, arith}
use snell_sh.Common.Int.{ℤ, pos, ◌≤ℤ◌, ◌<ℤ◌}
use snell_sh.Traffic.Model.{Instant, Counter, Baseline, Firewall, keep, pause, resume, Totals}
use snell_sh.Traffic.Sampling.{
  Account, roll_over, add_bytes, enforce, used, deltas, sample_with, sample_deltas,
}

-- A pause by quota is a pause, and the quota is not negative, which the setters see to.
pub record IsCoherent (c : Counter) : Type 0 where
  pub quota_pause : c.paused_by_quota ≡ true → c.paused ≡ true
  pub quota_nonneg : pos 0 ≤ℤ c.quota

-- What the field `Firewall` of a result says of the stored pause.
abbrev pub Tells : Firewall → Bool → Bool → Type 0
Tells keep before after = after ≡ before
Tells pause before after = after ≡ true
Tells resume before after = after ≡ false

-- The effect of one sample on the pause, from the row before to the row after.
pub record Enforced (before after : Counter) (r : Totals) : Type 0 where
  pub coherent : IsCoherent after
  pub due : after.paused_by_quota ≡ true → (pos 0 <ℤ after.quota) × (after.quota ≤ℤ used after)
  pub over : pos 0 <ℤ after.quota → after.quota ≤ℤ used after → after.paused ≡ true
  pub manual :
      before.paused ≡ true
      → before.paused_by_quota ≡ false
      → (after.paused ≡ true) × (after.paused_by_quota ≡ false) × (r.firewall ≡ keep)
  pub told : Tells r.firewall before.paused after.paused
  pub shown : r.is_paused ≡ after.paused
  pub settings : (after.quota ≡ before.quota) × (after.reset_day ≡ before.reset_day)

-- What the accounting keeps of the row, up to the quota check.
record Rolled (c : Counter) (a : Account) : Type 0 where
  coherent : IsCoherent a.counter
  manual :
      c.paused ≡ true
      → c.paused_by_quota ≡ false
      → (a.counter.paused ≡ true) × (a.counter.paused_by_quota ≡ false) × (a.firewall ≡ keep)
  told : Tells a.firewall c.paused a.counter.paused
  settings : (a.counter.quota ≡ c.quota) × (a.counter.reset_day ≡ c.reset_day)

roll_over-Rolled :
    (now : Instant) (c : Counter) (b : Option Baseline)
    → IsCoherent c
    → Rolled c (roll_over now (record { counter = c; baseline = b; firewall = keep }))
unfolding roll_over
roll_over-Rolled now c b h = ground arith

enforce-Enforced :
    (c : Counter) (a : Account) (upload download : ℤ)
    → Rolled c a
    → let (after, f) = enforce (add_bytes upload download a.counter) a.firewall in
      (r : Totals) → r.firewall ≡ f → r.is_paused ≡ after.paused → Enforced c after r
unfolding enforce add_bytes used
enforce-Enforced c a upload download h r f p = ground arith

-- One sample of raw counters, of a node or of a user, keeps the pause and the quota in step. From a
-- row whose pause by quota is a pause and whose quota is not negative, afterwards the same holds, and: a pause by quota means that a quota is set and
-- used up; a quota that is used up means a pause; a pause set by hand stays and is not taken over;
-- the firewall is told to pause, to resume or nothing just as the row is paused, open or unchanged;
-- and quota and reset day stay.
pub sample_with-Enforced :
    (delta : ℤ → ℤ → ℤ) (now : Instant) (c : Counter) (b : Option Baseline) (upload download : ℤ)
    → IsCoherent c
    → let (after, r) = sample_with delta now c b upload download in Enforced c after r
unfolding sample_with
sample_with-Enforced delta now c b upload download h =
    let a = roll_over now (record { counter = c; baseline = b; firewall = keep }) in
    let (up, down) = deltas delta a.baseline upload download in
    enforce-Enforced c a up down (roll_over-Rolled now c b h)
      (sample_with delta now c b upload download).1 refl refl

-- The same of the project's counter, which is given the bytes that the nodes moved.
pub sample_deltas-Enforced :
    (now : Instant) (c : Counter) (upload download : ℤ)
    → IsCoherent c
    → let (after, r) = sample_deltas now c upload download in Enforced c after r
unfolding sample_deltas
sample_deltas-Enforced now c upload download h =
    let a = roll_over now (record { counter = c; baseline = none; firewall = keep }) in
    enforce-Enforced c a upload download (roll_over-Rolled now c none h)
      (sample_deltas now c upload download).1 refl refl

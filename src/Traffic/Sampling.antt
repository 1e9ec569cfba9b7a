-- ===== src/Traffic/Sampling.antt =====
-- The accounting inside `Sample`, `SampleProject` and `SampleUser` of internal/traffic/store.go: the
-- turn of the billing period, the bytes since the last sample, and the quota.
use snell_sh.Common.{true, false, not, ◌&&◌, ◌||◌, Option, none, some, text_eq, if◌then◌else◌}
use snell_sh.Common.Int.{ℤ, pos, ltb_ℤ, leb_ℤ, is_zero, add64, sub64}
use snell_sh.Traffic.Model.{Instant, Counter, Baseline, Firewall, keep, pause, resume, Totals}
use snell_sh.Traffic.Period.{billing_period}

-- The counter in hand, the baseline of the raw counters if it still holds, and the field `Firewall`.
pub record Account : Type 0 where
  pub counter : Counter
  pub baseline : Option Baseline
  pub firewall : Firewall

abbrev lift_quota_pause : Account → Account
lift_quota_pause a =
    if a.counter.paused_by_quota
    then record a {
      counter = record (a.counter) { paused = false; paused_by_quota = false };
      firewall = resume;
    }
    else a

-- `if counter.Period != period`
unfoldable pub roll_over : Instant → Account → Account
roll_over now a =
    let period = billing_period now a.counter.reset_day in
    if text_eq a.counter.period period
    then a
    else lift_quota_pause (record a {
      counter = record (a.counter) { period = period; upload = pos 0; download = pos 0 };
      baseline = none;
    })

-- A node's bytes since the baseline; a raw counter that fell has started again from 0.
unfoldable pub node_delta : ℤ → ℤ → ℤ
node_delta raw previous =
    let delta = sub64 raw previous in if ltb_ℤ delta (pos 0) then raw else delta

-- A user's: where the raw counter fell nothing is counted.
unfoldable pub user_delta : ℤ → ℤ → ℤ
user_delta raw previous = if leb_ℤ previous raw then sub64 raw previous else pos 0

-- `counter.UploadBytes += ...` and the same for the download.
unfoldable pub add_bytes : ℤ → ℤ → Counter → Counter
add_bytes upload download c = record c {
  upload = add64 c.upload upload;
  download = add64 c.download download;
}

-- `counter.UploadBytes+counter.DownloadBytes`
unfoldable pub used : Counter → ℤ
used c = add64 c.upload c.download

-- The two branches on the quota.
unfoldable pub enforce : Counter → Firewall → Counter × Firewall
enforce c f =
    if c.paused_by_quota && (is_zero c.quota || ltb_ℤ (used c) c.quota)
    then (record c { paused = false; paused_by_quota = false }, resume)
    else if ltb_ℤ (pos 0) c.quota && leb_ℤ c.quota (used c) && not c.paused
    then (record c { paused = true; paused_by_quota = true }, pause)
    else (c, f)

abbrev pub totals_of : ℤ → ℤ → Counter × Firewall → Totals
totals_of upload download (c, f) = record {
  delta_upload = upload;
  delta_download = download;
  total_upload = c.upload;
  total_download = c.download;
  firewall = f;
  is_paused = c.paused;
}

-- The deltas against the baseline, where there is one.
abbrev pub deltas : (ℤ → ℤ → ℤ) → Option Baseline → ℤ → ℤ → ℤ × ℤ
deltas delta none upload download = (pos 0, pos 0)
deltas delta (some b) upload download = (delta upload b.raw_upload, delta download b.raw_download)

-- One sample of cumulative counters: the new row (its stamp aside) and the result.
unfoldable pub sample_with :
    (ℤ → ℤ → ℤ) → Instant → Counter → Option Baseline → ℤ → ℤ → Counter × Totals
unfolding roll_over add_bytes enforce used
sample_with delta now c baseline raw_upload raw_download =
    let a = roll_over now (record { counter = c; baseline = baseline; firewall = keep }) in
    let (upload, download) = deltas delta a.baseline raw_upload raw_download in
    let (c', f) = enforce (add_bytes upload download a.counter) a.firewall in
    (c', totals_of upload download (c', f))

-- One sample of deltas that are known: the project's.
unfoldable pub sample_deltas : Instant → Counter → ℤ → ℤ → Counter × Totals
unfolding roll_over add_bytes enforce used
sample_deltas now c upload download =
    let a = roll_over now (record { counter = c; baseline = none; firewall = keep }) in
    let (c', f) = enforce (add_bytes upload download a.counter) a.firewall in
    (c', totals_of upload download (c', f))

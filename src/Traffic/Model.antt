-- ===== src/Traffic/Model.antt =====
-- The records of internal/traffic/store.go, and its tables.
use snell_sh.Common.{ℕ, Bool, Option, List, Text}
use snell_sh.Common.Int.{ℤ}
use snell_sh.Common.Dict.{Dict}

-- `time.Time` as the store reads it: the UTC date, and the text it is stored as.
pub record Instant : Type 0 where
  pub year : ℕ
  pub month : ℕ
  pub day : ℕ
  pub stamp : Text

-- `Counter`, `ProjectCounter` and `UserCounter` without their key; the bytes are int64. (The column
-- last_sample is written by the source and read by nothing; it is left out.)
pub record Counter : Type 0 where
  pub period : Text
  pub upload : ℤ
  pub download : ℤ
  pub quota : ℤ
  pub reset_day : ℤ
  pub paused : Bool
  pub paused_by_quota : Bool
  pub updated_at : Text

-- A row of traffic_samples or anyconnect_user_samples: the last raw counters.
pub record Baseline : Type 0 where
  pub raw_upload : ℤ
  pub raw_download : ℤ
  pub sampled_at : Text

-- The field `Firewall` of a result: empty, "pause" or "resume".
pub data Firewall : Type 0 where
  keep pause resume : Firewall

-- What the three results of sampling have in common; it is `ProjectSampleResult`.
pub record Totals : Type 0 where
  pub delta_upload : ℤ
  pub delta_download : ℤ
  pub total_upload : ℤ
  pub total_download : ℤ
  pub firewall : Firewall
  pub is_paused : Bool

pub record SampleResult : Type 0 where
  pub node_id : Text
  pub totals : Totals

pub record UserSampleResult : Type 0 where
  pub user_id : Text
  pub totals : Totals
  pub quota_bytes : ℤ

-- The tables of the store. `accounts` are the ids in anyconnect_users, which the foreign keys of
-- the two user tables name.
pub record Tables : Type 0 where
  pub counters : Dict Counter
  pub samples : Dict Baseline
  pub project : Option Counter
  pub users : Dict Counter
  pub user_samples : Dict Baseline
  pub accounts : List Text

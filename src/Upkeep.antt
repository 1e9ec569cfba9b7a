-- ===== src/Upkeep.antt =====
-- The daily upkeep of the panel's tables (`Maintain` of internal/database/database.go), over the tables
-- of the nodes, the sessions, the audit log and the jobs. The two readings of the clock are arguments,
-- in seconds; the time of a job's last change is its `updated_at`.
pub mod Trimmed
pub mod Readable
mod Tests
use snell_sh.Common.{
  ℕ, ◌-◌, ◌*◌, Bool, not, ◌&&◌, ◌||◌, List, [], ◌∷◌, Text, text_eq, codes, ltb, leb, ◌==◌, any,
  take, if◌then◌else◌,
}
use snell_sh.Common.Sort.{sort_by}
use snell_sh.Common.Count.{filter, count_if}
use snell_sh.Common.Dict.{Dict, prune}
use snell_sh.Auth.Model.{Row}
use snell_sh.Database.{Result, ok, World, Action, ◌>>=◌, ◌>>◌, statement, exec, transaction}
use snell_sh.Nodes.Model.{ConfigRow, RevisionRow, UserRow, Secret, Tables}

-- A row of `audit_logs`: what the deletion reads of it, and its action.
pub record Audit : Type 0 where
  pub id : ℕ
  pub action : Text

-- A row of `jobs`: what the deletion reads of it.
pub record Job : Type 0 where
  pub status : Text
  pub updated_at : ℕ

-- The tables that Maintain touches, with those of the nodes beside them.
pub record Whole : Type 0 where
  pub core : Tables
  pub sessions : Dict Row
  pub audits : List Audit
  pub jobs : Dict Job

module _ {ℓ} {A : Type ℓ} where
  -- Every row whose key passes the test goes.
  unfoldable pub prune_keys : (Text → Bool) → Dict A → Dict A
  prune_keys old [] = []
  prune_keys old ((k, v) ∷ m) = let rest = prune_keys old m in if old k then rest else (k, v) ∷ rest

-- `DELETE FROM sessions WHERE expires_at < ?`
abbrev pub expire : ℕ → Whole → Whole
expire now t = record t { sessions = prune (λ r. ltb r.expires_at now) t.sessions }

abbrev pub audit_rows : ℕ
audit_rows = 500

-- The ids that `ORDER BY id DESC LIMIT 500` gives.
unfoldable pub newest_audits : List Audit → List Audit
newest_audits rows = take audit_rows (sort_by (λ a b. ltb b.id a.id) rows)

abbrev pub trim_audits : Whole → Whole
trim_audits t =
    let kept = newest_audits t.audits in
    record t { audits = filter (λ a. any (λ b. b.id == a.id) kept) t.audits }

abbrev pub kept_revisions : ℕ
kept_revisions = 20

-- `newer.node_id=older.node_id AND newer.revision>older.revision`
abbrev pub is_newer : RevisionRow → RevisionRow → Bool
is_newer older newer = text_eq newer.node_id older.node_id && ltb older.revision newer.revision

abbrev pub is_recent : List RevisionRow → RevisionRow → Bool
is_recent rows r = ltb (count_if (is_newer r) rows) kept_revisions

abbrev pub trim_revisions : Whole → Whole
trim_revisions t = record t {
  core = record (t.core) { revisions = filter (is_recent t.core.revisions) t.core.revisions };
}

abbrev pub config_refers : Text → Dict ConfigRow → Bool
config_refers id rows = any (λ (_, c). text_eq c.secret_ref id) rows

abbrev pub user_refers : Text → Dict UserRow → Bool
user_refers id rows = any (λ (_, u). text_eq u.password_ref id) rows

abbrev pub is_orphan : Tables → Text → Bool
is_orphan t id = not (config_refers id t.configs || user_refers id t.users)

abbrev pub drop_secrets : Whole → Whole
drop_secrets t = record t {
  core = record (t.core) { secrets = prune_keys (is_orphan t.core) t.core.secrets };
}

abbrev is_finished : Job → Bool
is_finished j =
    text_eq j.status (codes "succeeded")
    || text_eq j.status (codes "failed")
    || text_eq j.status (codes "completed")
    || text_eq j.status (codes "cancelled")

abbrev pub month_seconds : ℕ
month_seconds = 30 * 24 * 3600

abbrev pub drop_jobs : ℕ → Whole → Whole
drop_jobs cutoff t = record t {
  jobs = prune (λ j. ltb j.updated_at cutoff && is_finished j) t.jobs;
}

-- The five statements of the transaction.
unfoldable pub maintain_all : ℕ → ℕ → Action Whole (Unit {0})
maintain_all cutoff now = do
  exec (expire now)
  exec trim_audits
  exec trim_revisions
  exec drop_secrets
  exec (drop_jobs cutoff)

-- A statement whose error is ignored.
abbrev pub attempt : Action Whole (Unit {0})
attempt w = (ok tt, (statement w).1)

-- `Maintain`; the checkpoint at its end changes no row.
unfoldable pub maintain : ℕ → ℕ → Action Whole (Unit {0})
maintain began now = do transaction (maintain_all (began - month_seconds) now); attempt

-- ===== src/Upkeep/Trimmed.antt =====
-- What Maintain (internal/database/database.go) leaves: nothing changes, or all five deletions were
-- made, and how many rows remain.
use mathlib.Core.Path.{subst}
use snell_sh.Common.{
  All, ◌≡◌, refl, sym, ap, ◌∙◌, ◌⊎◌, inl, inr, ℕ, ◌-◌, ◌≤◌, true, false, ◌&&◌, ◌||◌, List, [], ◌∷◌,
  Text, text_eq, text_eq_iff, ltb, ◌==◌, any, length, length-take, arith,
}
use snell_sh.Common.Sort.{Differ, sort_by}
use snell_sh.Common.Count.{
  filter, count_if, length-filter, count_if-filter, count_if-cover, count_if-same, count_if-rank,
}
use snell_sh.Database.{World, Action, ok, statement, exec, ◌>>=◌, transaction}
use snell_sh.Database.Steps.{>>=-Went, >>=-Ran, transaction_ok}
use snell_sh.Database.Reads.{transaction_either}
use snell_sh.Nodes.Model.{RevisionRow}
use snell_sh.Nodes.Rows.{same_revision}
use snell_sh.Upkeep.{
  Whole, Audit, expire, audit_rows, newest_audits, trim_audits, kept_revisions, is_newer, is_recent,
  trim_revisions, drop_secrets, month_seconds, drop_jobs, maintain_all, attempt, maintain,
}

-- All five deletions.
abbrev pub upkept : ℕ → ℕ → Whole → Whole
upkept cutoff now t = drop_jobs cutoff (drop_secrets (trim_revisions (trim_audits (expire now t))))

exec_ok : (f : Whole → Whole) (w v : World Whole) → exec f w ≡ (ok tt, v) → v.tables ≡ f w.tables
unfolding exec statement
exec_ok f w v h = ground (arith, h)

maintain_all_ok :
    (cutoff now : ℕ) (w v : World Whole)
    → maintain_all cutoff now w ≡ (ok tt, v)
    → v.tables ≡ upkept cutoff now w.tables
unfolding maintain_all
maintain_all_ok cutoff now w v h =
    let a = >>=-Ran (exec (expire now)) _ w h in
    let b = >>=-Ran (exec trim_audits) _ a.world a.second in
    let c = >>=-Ran (exec trim_revisions) _ b.world b.second in
    let d = >>=-Ran (exec drop_secrets) _ c.world c.second in
    exec_ok (drop_jobs cutoff) d.world v d.second
    ∙ ap (drop_jobs cutoff) (
        exec_ok drop_secrets c.world d.world d.first
        ∙ ap drop_secrets (
            exec_ok trim_revisions b.world c.world c.first
            ∙ ap trim_revisions (
                exec_ok trim_audits a.world b.world b.first
                ∙ ap trim_audits (exec_ok (expire now) w a.world a.first))))

attempt_tables :
    (m : Action Whole (Unit {0})) (w : World Whole)
    → ((m >>= λ _. attempt) w).1.tables ≡ (m w).1.tables
unfolding statement
attempt_tables m w = ground arith

-- The tables after Maintain: as before, or after all five deletions.
pub maintain_outcome :
    (began now : ℕ) (w : World Whole)
    → ((maintain began now w).1.tables ≡ w.tables)
      ⊎ ((maintain began now w).1.tables ≡ upkept (began - month_seconds) now w.tables)
unfolding maintain
maintain_outcome began now w =
    let Q = λ (t : Whole). (t ≡ w.tables) ⊎ (t ≡ upkept (began - month_seconds) now w.tables) in
    let body = maintain_all (began - month_seconds) now in
    subst Q (sym (attempt_tables (transaction body) w)) (
      transaction_either Q body w (inl refl) (λ a u v same h. inr (
        maintain_all_ok (began - month_seconds) now u v h
        ∙ ap (upkept (began - month_seconds) now) same)))

maintain_ok :
    (began now : ℕ) (w : World Whole)
    → (maintain began now w).0 ≡ ok tt
    → (maintain began now w).1.tables ≡ upkept (began - month_seconds) now w.tables
unfolding maintain
maintain_ok began now w h =
    let body = maintain_all (began - month_seconds) now in
    let first = >>=-Went (transaction body) (λ _. attempt) w h in
    let done = transaction_ok body w (ap (λ p. p.0) first.first) in
    attempt_tables (transaction body) w
    ∙ done.kept
    ∙ maintain_all_ok (began - month_seconds) now done.before done.after done.body
    ∙ ap (upkept (began - month_seconds) now) done.same

-- No two rows of the audit log have one id.
abbrev pub AuditsDiffer : List Audit → Type 0
AuditsDiffer rows = Differ (λ a b. a.id == b.id) rows

-- No two revisions have one node and one number.
abbrev pub RevisionsDiffer : List RevisionRow → Type 0
RevisionsDiffer rows = Differ same_revision rows

among_length :
    (kept rows : List Audit)
    → AuditsDiffer rows
    → count_if (λ a. any (λ b. b.id == a.id) kept) rows ≤ length kept
unfolding count_if
among_length [] rows d = omega (arith, never rows)
  where
    never : (xs : List Audit) → count_if (λ a. false) xs ≡ 0
    never [] = refl
    never (x ∷ xs) = never xs
among_length (k ∷ kept) rows d = omega (
  arith,
  among_length kept rows d,
  count_if-same (λ a b. a.id == b.id) (λ m x y. ground arith) k rows d,
  count_if-cover (λ a. any (λ b. b.id == a.id) (k ∷ kept)) (λ a. k.id == a.id)
      (λ a. any (λ b. b.id == a.id) kept) rows (All-true rows),
)
  where
    All-true :
        (xs : List Audit)
        → All
            (λ a.
              any (λ b. b.id == a.id) (k ∷ kept) ≡ true
              → ((k.id == a.id) || any (λ b. b.id == a.id) kept) ≡ true)
            xs
    All-true [] = tt
    All-true (x ∷ xs) = ((λ h. h), All-true xs)

trim_audits-Bounded :
    (t : Whole) → AuditsDiffer t.audits → length (trim_audits t).audits ≤ audit_rows
unfolding newest_audits
trim_audits-Bounded t d =
    let kept = newest_audits t.audits in
    omega (
      arith,
      length-filter (λ a. any (λ b. b.id == a.id) kept) t.audits,
      among_length kept t.audits d,
      length-take audit_rows (sort_by (λ a b. ltb b.id a.id) t.audits),
    )

trim_revisions-Bounded :
    (rows : List RevisionRow) (id : Text)
    → RevisionsDiffer rows
    → count_if (λ r. text_eq r.node_id id) (filter (is_recent rows) rows) ≤ kept_revisions
trim_revisions-Bounded rows id d = omega (
  arith,
  count_if-filter (λ r. text_eq r.node_id id) (is_recent rows) rows,
  count_if-rank (λ r. text_eq r.node_id id && is_recent rows r) (λ r. r.revision) same_revision
      is_newer kept_revisions rows
      (λ m x y. ground (
        arith,
        text_eq_iff m.node_id x.node_id,
        text_eq_iff m.node_id y.node_id,
        text_eq_iff x.node_id y.node_id,
      ))
      d
      (λ m x. ground (
        arith,
        text_eq_iff m.node_id id,
        text_eq_iff x.node_id id,
        text_eq_iff m.node_id x.node_id,
        text_eq_iff x.node_id m.node_id,
      ))
      (λ m. ground arith),
)

-- After a call of Maintain that returns no error, the audit log has at most 500 rows and every node has
-- at most 20 revisions, if no two rows of the log had one id and no two revisions had one node and
-- one number.
pub maintain-Bounded :
    (began now : ℕ) (w : World Whole) (id : Text)
    → AuditsDiffer w.tables.audits
    → RevisionsDiffer w.tables.core.revisions
    → (maintain began now w).0 ≡ ok tt
    → (length (maintain began now w).1.tables.audits ≤ audit_rows)
      × (count_if (λ r. text_eq r.node_id id) (maintain began now w).1.tables.core.revisions
          ≤ kept_revisions)
maintain-Bounded began now w id da dr h =
    let t = maintain_ok began now w h in
    (
      subst (λ l. length l ≤ audit_rows) (sym (ap (λ x. x.audits) t))
          (trim_audits-Bounded (expire now w.tables) da),
      subst (λ l. count_if (λ r. text_eq r.node_id id) l ≤ kept_revisions)
          (sym (ap (λ x. x.core.revisions) t))
          (trim_revisions-Bounded w.tables.core.revisions id dr),
    )

-- ===== src/Agent/Budget.antt =====
-- What `MaintainLogs` leaves of the logs (internal/agent/manager.go).
use mathlib.Core.Path.{subst}
use snell_sh.Common.{
  false, ◌≡◌, refl, sym, ap, ℕ, suc, ◌-◌, Bool, true, Option, none, some, [], ◌∷◌, Text, arith,
  if-cases,
}
use snell_sh.Common.Int.{ℤ, pos, leb_ℤ}
use snell_sh.Common.Dict.{Dict, erase, IsKeyed, erase-IsKeyed}
use snell_sh.Common.Sort.{sort_by, All-sort_by}
use snell_sh.Database.{Result, ok, err}
use snell_sh.Settings.Store.{Values}
use snell_sh.Agent.Sweep.{
  LogFile, LogState, LogReport, with_values, regular_files, total_size, is_older, remove_oldest,
  reported, swept, opened, maintain_logs,
}
use snell_sh.Agent.Swept.{
  used_bytes, InDir, used_bytes-erase, InDir-erase, regular_files-InDir, Differ-sort_by,
  total_size-sort_by,
}

-- The loop leaves what it reports, and that is within the limit.
remove_oldest-Within :
    (fails : Text → Bool) (limit : ℤ) (total removed : ℕ) (files dir : Dict LogFile) {left gone : ℕ}
    → IsKeyed dir
    → InDir dir files
    → total ≡ used_bytes dir
    → total ≡ total_size files
    → leb_ℤ (pos 0) limit ≡ true
    → (remove_oldest fails limit total removed files dir).0 ≡ ok (left, gone)
    → (used_bytes (remove_oldest fails limit total removed files dir).1 ≡ left)
      × (leb_ℤ (pos left) limit ≡ true)
unfolding remove_oldest total_size InDir
remove_oldest-Within fails limit total removed [] dir k i used all nonneg =
    λ h. (ground (arith, h, used), ground (arith, h, all, nonneg))
remove_oldest-Within fails limit total removed ((name, f) ∷ files) dir {left} {gone} k i used all
      nonneg =
    if-cases
      (λ (p : Result (ℕ × ℕ) × Dict LogFile).
        p.0 ≡ ok (left, gone) → (used_bytes p.1 ≡ left) × (leb_ℤ (pos left) limit ≡ true))
      (leb_ℤ (pos total) limit) (λ within h. (ground (arith, h, used), ground (arith, h, within)))
      (λ _.
        if-cases
          (λ (p : Result (ℕ × ℕ) × Dict LogFile).
            p.0 ≡ ok (left, gone) → (used_bytes p.1 ≡ left) × (leb_ℤ (pos left) limit ≡ true))
          (fails name) (λ _ h. absurd (ground (arith, h)))
          (λ _.
            let less = used_bytes-erase name f dir k i.0.0.0 i.0.0.1 in
            remove_oldest-Within fails limit (total - f.bytes) (suc removed) files (erase name dir)
              (erase-IsKeyed name dir k) (InDir-erase name f files dir i)
              (omega (arith, used, less)) (omega (arith, all)) nonneg))

-- The bytes of the regular files of a directory that may be missing, and that no name stands twice.
abbrev pub bytes_of : Option (Dict LogFile) → ℕ
bytes_of none = 0
bytes_of (some dir) = used_bytes dir

abbrev pub IsDirectory : Option (Dict LogFile) → Type 0
IsDirectory none = Unit
IsDirectory (some dir) = IsKeyed dir

abbrev Fits : Option (Dict LogFile) → LogReport → Type 0
Fits dir r = (bytes_of dir ≡ r.current_bytes) × (leb_ℤ (pos r.current_bytes) r.limit_bytes ≡ true)

reported-Fits :
    (s : LogState) (p : Result (ℕ × ℕ) × Dict LogFile) (r : LogReport)
    → ((left gone : ℕ)
        → p.0 ≡ ok (left, gone)
        → leb_ℤ (pos 0) s.limit ≡ true
        → (used_bytes p.1 ≡ left) × (leb_ℤ (pos left) s.limit ≡ true))
    → (reported s p).0 ≡ ok r
    → leb_ℤ (pos 0) r.limit_bytes ≡ true
    → Fits (reported s p).1.dir r
reported-Fits s (ok (left, gone), dir) r k h nonneg =
    let same : record { limit_bytes = s.limit; current_bytes = left; removed_files = gone } ≡ r =
      ground (arith, h) in
    subst (λ x. leb_ℤ (pos 0) x.limit_bytes ≡ true → Fits (some dir) x) same (k left gone refl)
      nonneg
reported-Fits s (err e, dir) r k h nonneg = absurd (ground (arith, h))

swept-Fits :
    (fails : Text → Bool) (s : LogState) (r : LogReport) (dir : Option (Dict LogFile))
    → s.dir ≡ dir
    → IsDirectory dir
    → (swept fails s dir).0 ≡ ok r
    → leb_ℤ (pos 0) r.limit_bytes ≡ true
    → Fits (swept fails s dir).1.dir r
unfolding InDir
swept-Fits fails s r none e k h nonneg =
    let same : record { limit_bytes = s.limit; current_bytes = 0; removed_files = 0 } ≡ r =
      ground (arith, h) in
    subst (λ x. leb_ℤ (pos 0) x.limit_bytes ≡ true → Fits s.dir x) same (λ n. (ap bytes_of e, n))
      nonneg
swept-Fits fails s r (some dir) e k h nonneg =
    let files = regular_files dir in
    let (there, differ) = regular_files-InDir dir k in
    reported-Fits s (remove_oldest fails s.limit (total_size files) 0 (sort_by is_older files) dir)
      r
      (λ left gone. λ done n.
        remove_oldest-Within fails s.limit (total_size files) 0 (sort_by is_older files) dir k
          (All-sort_by is_older _ files there, Differ-sort_by files differ) refl
          (sym (total_size-sort_by files)) n done)
      h nonneg

opened-Fits :
    (unreadable : Bool) (fails : Text → Bool) (s : LogState) (r : LogReport)
    → IsDirectory s.dir
    → (opened unreadable fails s).0 ≡ ok r
    → leb_ℤ (pos 0) r.limit_bytes ≡ true
    → Fits (opened unreadable fails s).1.dir r
opened-Fits true fails s r k h nonneg = absurd (ground (arith, h))
opened-Fits false fails s r k h nonneg = swept-Fits fails s r s.dir refl k h nonneg

-- After a call of `MaintainLogs` that returns no error, whatever the settings store answers, the regular
-- files of the log directory have together the bytes that it reports, and no more than the limit that
-- it reports, if no name stands twice in the directory and this limit is not negative.
pub maintain_logs-Within :
    (unreadable : Bool) (fails : Text → Bool) (answer : Option (Result Values)) (s : LogState)
    (r : LogReport)
    → IsDirectory s.dir
    → (maintain_logs unreadable fails answer s).0 ≡ ok r
    → leb_ℤ (pos 0) r.limit_bytes ≡ true
    → (bytes_of (maintain_logs unreadable fails answer s).1.dir ≡ r.current_bytes)
      × (leb_ℤ (pos r.current_bytes) r.limit_bytes ≡ true)
unfolding maintain_logs
maintain_logs-Within unreadable fails none s r k = opened-Fits unreadable fails s r k
maintain_logs-Within unreadable fails (some (ok v)) s r k =
    opened-Fits unreadable fails (with_values v s) r k
maintain_logs-Within unreadable fails (some (err e)) s r k = λ h n. absurd (ground (arith, h))

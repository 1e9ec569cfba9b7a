-- ===== src/Traffic/Period.antt =====
-- `BillingPeriod` of internal/traffic/store.go: the first day of the billing month that a moment
-- lies in, as a text.
use mathlib.Core.List.{append-nil}
use mathlib.Core.Path.{ap₂, subst₂}
use snell_sh.Common.{
  ℕ, ◌+◌, ◌-◌, ◌*◌, ◌≤◌, ◌<◌, ◌≡◌, refl, ap, ◌∙◌, sym, ◌||◌, ◌↔◌, [], ◌∷◌, ◌++◌, arith, Text, ltb,
  if◌then◌else◌,
}
use snell_sh.Common.Int.{ℤ, pos, negsuc}
use snell_sh.Common.Decimal.{pad, read, read-pad, is_digit}
use snell_sh.Traffic.Model.{Instant}

-- A reset day outside 1 to 28 counts as 1.
unfoldable pub clamp_day : ℤ → ℕ
clamp_day (pos n) = if ltb n 1 || ltb 28 n then 1 else n
clamp_day (negsuc n) = 1

-- The year and month in which the period began. A year is at least 1, so `year--` is exact.
unfoldable pub period_month : Instant → ℕ → ℕ × ℕ
period_month now reset_day =
    if ltb now.day reset_day
    then (if ltb (now.month - 1) 1 then (now.year - 1, 12) else (now.year, now.month - 1))
    else (now.year, now.month)

-- `fmt.Sprintf("%04d-%02d-%02d", year, month, resetDay)`
unfoldable pub format_date : ℕ → ℕ → ℕ → Text
unfolding pad
format_date year month day = pad 4 year ++ b'-' ∷ (pad 2 month ++ b'-' ∷ pad 2 day)

unfoldable pub billing_period : Instant → ℤ → Text
unfolding clamp_day period_month format_date
billing_period now reset_day =
    let day = clamp_day reset_day in
    let (year, month) = period_month now day in format_date year month day

-- Reads a period back: three numbers between dashes.
abbrev skip : ℕ × Text → ℕ × Text
skip (n, []) = (n, [])
skip (n, c ∷ t) = (n, t)

abbrev parse_day : ℕ → ℕ × Text → ℕ × ℕ × ℕ
parse_day year (month, t) = (year, month, (read 0 t).0)

abbrev parse_month : ℕ × Text → ℕ × ℕ × ℕ
parse_month (year, t) = parse_day year (skip (read 0 t))

pub parse_date : Text → ℕ × ℕ × ℕ
parse_date t = parse_month (skip (read 0 t))

read_dash : (n : ℕ) (t : Text) → skip (read n (b'-' ∷ t)) ≡ (n, t)
unfolding read is_digit
read_dash n t = refl

read_field : (w n : ℕ) (t : Text) → skip (read 0 (pad w n ++ b'-' ∷ t)) ≡ (n, t)
read_field w n t = ap skip (read-pad w n (b'-' ∷ t)) ∙ read_dash n t

read_last : (w n : ℕ) → (read 0 (pad w n)).0 ≡ n
unfolding read
read_last w n =
    ap (λ (t : Text). (read 0 t).0) (sym (append-nil (pad w n)))
    ∙ ap (λ (r : ℕ × Text). r.0) (read-pad w n [])

format_date_lem : (y m d : ℕ) → format_date y m d ≡ pad 4 y ++ b'-' ∷ (pad 2 m ++ b'-' ∷ pad 2 d)
unfolding format_date
format_date_lem y m d = refl

parse_date-format_date : (y m d : ℕ) → parse_date (format_date y m d) ≡ (y, m, d)
unfolding parse_date
parse_date-format_date y m d =
    ap parse_date (format_date_lem y m d)
    ∙ ap parse_month (read_field 4 y (pad 2 m ++ b'-' ∷ pad 2 d))
    ∙ ap (parse_day y) (read_field 2 m (pad 2 d))
    ∙ ap (λ (n : ℕ). (y, m, n)) (read_last 2 d)

-- The moment lies in the billing month that begins on the given date.
pub record InPeriod (now : Instant) (year month day : ℕ) : Type 0 where
  pub from_january : 1 ≤ month
  pub to_december : month ≤ 12
  pub begun : (year * 12 + month) * 32 + day ≤ (now.year * 12 + now.month) * 32 + now.day
  pub not_over : (now.year * 12 + now.month) * 32 + now.day < (year * 12 + month + 1) * 32 + day

-- A date of the calendar, as far as the period depends on it.
pub record IsDate (now : Instant) : Type 0 where
  pub year_pos : 1 ≤ now.year
  pub month_pos : 1 ≤ now.month
  pub month_le : now.month ≤ 12
  pub day_pos : 1 ≤ now.day
  pub day_le : now.day ≤ 31

pub clamp_day_bounds : (d : ℤ) → (1 ≤ clamp_day d) × (clamp_day d ≤ 28)
unfolding clamp_day
clamp_day_bounds (pos n) = ground arith
clamp_day_bounds (negsuc n) = omega arith

InPeriod-period_month :
    (now : Instant) (d : ℕ)
    → IsDate now
    → 1 ≤ d
    → d ≤ 28
    → InPeriod now (period_month now d).0 (period_month now d).1 d
unfolding period_month
InPeriod-period_month now d date low high = ground arith

InPeriod-unique :
    (now : Instant) (y m y' m' d : ℕ)
    → InPeriod now y m d
    → InPeriod now y' m' d
    → (y ≡ y') × (m ≡ m')
InPeriod-unique now y m y' m' d p q = (omega arith, omega arith)

-- The period that is stored for a moment is the date of the billing month in which the moment
-- lies, and no other: the printed text is that of year, month and reset day exactly when the moment
-- is on or after that date and before the same day of the next month. This holds for every reset
-- day, those out of range being taken as 1.
pub billing_period_iff :
    (now : Instant) (reset_day : ℤ) (year month : ℕ)
    → IsDate now
    → (billing_period now reset_day ≡ format_date year month (clamp_day reset_day))
      ↔ InPeriod now year month (clamp_day reset_day)
unfolding billing_period
billing_period_iff now r y m date = (named, exact)
  where
    d : ℕ
    d = clamp_day r

    here : InPeriod now (period_month now d).0 (period_month now d).1 d
    here = InPeriod-period_month now d date (clamp_day_bounds r).0 (clamp_day_bounds r).1

    named :
        format_date (period_month now d).0 (period_month now d).1 d ≡ format_date y m d
        → InPeriod now y m d
    named e =
        let same =
          sym (parse_date-format_date _ _ d) ∙ ap parse_date e ∙ parse_date-format_date y m d in
        let y_eq : (period_month now d).0 ≡ y = ap (λ (t : ℕ × ℕ × ℕ). t.0) same in
        let m_eq : (period_month now d).1 ≡ m = ap (λ (t : ℕ × ℕ × ℕ). t.1) same in
        subst₂ (λ a b. InPeriod now a b d) y_eq m_eq here

    exact :
        InPeriod now y m d
        → format_date (period_month now d).0 (period_month now d).1 d ≡ format_date y m d
    exact p =
        let (y_eq, m_eq) = InPeriod-unique now _ _ y m d here p in
        ap₂ (λ (a b : ℕ). format_date a b d) y_eq m_eq

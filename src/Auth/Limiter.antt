-- ===== src/Auth/Limiter.antt =====
-- The limiter of failed logins (internal/auth/limiter.go). A moment is a number of nanoseconds since
-- Go's zero time, and `now` stands for the call of `time.Now` in one operation.
use snell_sh.Common.{
  ℕ, ◌+◌, ◌-◌, ◌*◌, ◌^◌, Bool, ◌&&◌, ◌||◌, none, some, [], ltb, leb, ◌==◌, length, Text,
  if◌then◌else◌,
}
use Prim.Native.Nat.{min}
use snell_sh.Common.Dict.{Dict, lookup, insert, erase, prune}

abbrev pub second : ℕ
second = 1000000000

abbrev pub minute : ℕ
minute = 60 * second

-- `attempt`; the zero time is 0.
pub record Attempt : Type 0 where
  pub window : ℕ
  pub failures : ℕ
  pub blocked_until : ℕ

pub record Limiter : Type 0 where
  pub entries : Dict Attempt
  pub last_sweep : ℕ

-- `NewLimiter`
unfoldable pub new_limiter : Limiter
new_limiter = record { entries = []; last_sweep = 0 }

-- A key that the map has not reads as the zero value.
abbrev pub fresh : ℕ → Attempt
fresh now = record { window = now; failures = 0; blocked_until = 0 }

abbrev pub entry : Limiter → Text → Attempt
entry l ip = elim (lookup ip l.entries) [ none ↦ fresh 0 | some a ↦ a ]

-- `now.Sub(value.window) >= 10*time.Minute && now.After(value.blockedUntil)`
abbrev pub outdated : ℕ → Attempt → Bool
outdated now a = leb (10 * minute) (now - a.window) && ltb a.blocked_until now

-- `sweepLocked`
unfoldable pub sweep : Limiter → ℕ → Limiter
sweep l now =
    if ltb (length l.entries) 256 && ltb (now - l.last_sweep) (5 * minute)
    then l
    else record { entries = prune (outdated now) l.entries; last_sweep = now }

-- The entry that `Allow` and that `Failure` go on with.
abbrev pub current : ℕ → Attempt → Attempt
current now a = if leb minute (now - a.window) then fresh now else a

abbrev pub current_or_first : ℕ → Attempt → Attempt
current_or_first now a = if (a.window == 0) || leb minute (now - a.window) then fresh now else a

-- `Allow`: the answer and the limiter after it.
unfoldable pub allow : Limiter → Text → ℕ → Bool × Limiter
unfolding sweep
allow l ip now =
    let swept = sweep l now in
    let a = current now (entry swept ip) in
    (
      ltb a.blocked_until now && ltb a.failures 5,
      record swept { entries = insert ip a swept.entries },
    )

-- One failure more, and the delay from the fifth on.
abbrev pub failed_once : ℕ → Attempt → Attempt
failed_once now a =
    let count = a.failures + 1 in
    let delay = second * 2 ^ min (count - 5) 6 in
    record a {
      failures = count;
      blocked_until = if leb 5 count then now + delay else a.blocked_until;
    }

unfoldable pub failure : Limiter → Text → ℕ → Limiter
unfolding sweep
failure l ip now =
    let swept = sweep l now in
    record swept {
      entries = insert ip (failed_once now (current_or_first now (entry swept ip))) swept.entries;
    }

unfoldable pub success : Limiter → Text → Limiter
success l ip = record l { entries = erase ip l.entries }

-- ===== src/Auth/Window.antt =====
-- A minute of logins through the limiter of internal/auth/limiter.go: how many failures shut an
-- address out.
use snell_sh.Common.{
  ℕ, ◌+◌, ◌-◌, ◌≤◌, ◌<◌, ◌≡◌, true, false, ◌||◌, List, [], ◌∷◌, ltb, leb, Text, text_eq,
  text_eq_iff, if◌then◌else◌, arith, All,
}
use snell_sh.Auth.Limiter.{minute, Limiter, entry, allow, failure, success}
use snell_sh.Auth.Limits.{
  Reachable, next, allows, fails, succeeds, IsSane, Reachable-IsSane, entry-sweep, entry-allow,
  entry-failure, entry-success, allow_iff,
}

-- An operation on some address, at some moment.
pub data Event : Type 0 where
  tried : Text → ℕ → Event
  missed : Text → ℕ → Event
  entered : Text → Event

abbrev pub apply_event : Limiter → Event → Limiter
apply_event l (tried ip now) = (allow l ip now).1
apply_event l (missed ip now) = failure l ip now
apply_event l (entered ip) = success l ip

unfoldable pub run : Limiter → List Event → Limiter
run l [] = l
run l (e ∷ es) = run (apply_event l e) es

abbrev pub failed_by : Text → Event → ℕ
failed_by ip (missed j now) = if text_eq j ip then 1 else 0
failed_by ip e = 0

unfoldable pub failures_of : Text → List Event → ℕ
failures_of ip [] = 0
failures_of ip (e ∷ es) = failed_by ip e + failures_of ip es

abbrev pub InMinute : ℕ → ℕ → Type 0
InMinute t now = (t ≤ now) × (now < t + minute)

-- An event of the minute from `t` on that is no success of the address.
abbrev pub Within : Text → ℕ → Event → Type 0
Within ip t (tried j now) = InMinute t now
Within ip t (missed j now) = InMinute t now
Within ip t (entered j) = text_eq j ip ≡ false

-- The entry of an address whose window began at `t`.
pub record Open (ip : Text) (t n : ℕ) (l : Limiter) : Type 0 where
  pub reachable : Reachable l
  pub began : (entry l ip).window ≡ t
  pub counted : (entry l ip).failures ≡ n

pub step_Open :
    (ip : Text) (t n : ℕ) (l : Limiter) (e : Event)
    → minute ≤ t
    → Within ip t e
    → Open ip t n l
    → Open ip t (n + failed_by ip e) (apply_event l e)
step_Open ip t n l (tried j now) m w o =
    let s : IsSane l = Reachable-IsSane (o.reachable) in
    record {
      reachable = next o.reachable (allows j now (omega arith));
      began = ground (
        arith,
        entry-allow l j ip now,
        text_eq_iff j ip,
        entry-sweep l ip now s.keyed,
        o.began,
        w,
      );
      counted = ground (
        arith,
        entry-allow l j ip now,
        text_eq_iff j ip,
        entry-sweep l ip now s.keyed,
        o.began,
        o.counted,
        w,
      );
    }
step_Open ip t n l (missed j now) m w o =
    let s : IsSane l = Reachable-IsSane (o.reachable) in
    record {
      reachable = next o.reachable (fails j now (omega arith));
      began = ground (
        arith,
        entry-failure l j ip now,
        text_eq_iff j ip,
        entry-sweep l ip now s.keyed,
        o.began,
        w,
      );
      counted = ground (
        arith,
        entry-failure l j ip now,
        text_eq_iff j ip,
        entry-sweep l ip now s.keyed,
        o.began,
        o.counted,
        w,
      );
    }
step_Open ip t n l (entered j) m w o = record {
  reachable = next o.reachable (succeeds j);
  began = ground (arith, entry-success l j ip, o.began, w);
  counted = ground (arith, entry-success l j ip, o.counted, w);
}

run-Open :
    (ip : Text) (t n : ℕ) (l : Limiter) (es : List Event)
    → minute ≤ t
    → All (Within ip t) es
    → Open ip t n l
    → Open ip t (n + failures_of ip es) (run l es)
unfolding run failures_of
run-Open ip t n l [] m w o = record {
  reachable = o.reachable;
  began = o.began;
  counted = omega (arith, o.counted);
}
run-Open ip t n l (e ∷ es) m w o =
    let rest : Open ip t (n + failed_by ip e + failures_of ip es) (run (apply_event l e) es) =
      run-Open ip t (n + failed_by ip e) (apply_event l e) es m w.1
        (step_Open ip t n l e m w.0 o) in
    record { reachable = rest.reachable; began = rest.began; counted = omega (arith, rest.counted) }

first_Open :
    (ip : Text) (t : ℕ) (l : Limiter)
    → Reachable l
    → minute ≤ t
    → leb minute (t - (entry l ip).window) ≡ true
    → Open ip t 1 (failure l ip t)
first_Open ip t l r m old =
    let s : IsSane l = Reachable-IsSane r in
    record {
      reachable = next r (fails ip t m);
      began =
          ground
            (arith, entry-failure l ip ip t, text_eq_iff ip ip, entry-sweep l ip t s.keyed, old);
      counted =
          ground
            (arith, entry-failure l ip ip t, text_eq_iff ip ip, entry-sweep l ip t s.keyed, old);
    }

-- In a limiter that a panel reaches, an address whose last window is a minute old fails at `t`, a
-- minute or more after Go's zero time, and then any addresses try, fail and enter in the minute from
-- `t` on, but this one does not enter. From `t` on it may try again exactly if it has failed less
-- than five times, whatever the others did, or the minute is over.
pub allow-after-failures :
    (l : Limiter) (ip : Text) (t now : ℕ) (es : List Event)
    → Reachable l
    → minute ≤ t
    → leb minute (t - (entry l ip).window) ≡ true
    → All (Within ip t) es
    → t ≤ now
    → (allow (run (failure l ip t) es) ip now).0
      ≡ (ltb (1 + failures_of ip es) 5 || leb (t + minute) now)
allow-after-failures l ip t now es r m old w le =
    let o : Open ip t (1 + failures_of ip es) (run (failure l ip t) es) =
      run-Open ip t 1 (failure l ip t) es m w (first_Open ip t l r m old) in
    ground (
      arith,
      allow_iff (run (failure l ip t) es) ip now o.reachable (omega arith),
      o.began,
      o.counted,
    )

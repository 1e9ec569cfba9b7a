-- ===== src/Auth/Limits.antt =====
-- What the limiter of internal/auth/limiter.go promises.
use snell_sh.Common.{
  ℕ, ◌-◌, ◌*◌, ◌≤◌, ◌≡◌, refl, true, ◌&&◌, ◌||◌, Option, none, some, ltb, leb, Text, text_eq,
  if◌then◌else◌, arith, if-cases, ◌⊎◌, inl, length,
}
use snell_sh.Common.Dict.{
  lookup, prune, IsKeyed, lookup-insert, lookup-erase, lookup-prune, insert-IsKeyed, erase-IsKeyed,
  prune-IsKeyed,
}
use snell_sh.Auth.Limiter.{
  minute, Attempt, Limiter, new_limiter, fresh, entry, outdated, sweep, current, current_or_first,
  allow, failed_once, failure, success,
}

-- One operation of the limiter, at a moment that is not Go's zero time.
pub data Step : Limiter → Limiter → Type 0 where
  allows : {l : Limiter} (ip : Text) (now : ℕ) → minute ≤ now → Step l (allow l ip now).1
  fails : {l : Limiter} (ip : Text) (now : ℕ) → minute ≤ now → Step l (failure l ip now)
  succeeds : {l : Limiter} (ip : Text) → Step l (success l ip)

-- The limiters that a panel reaches.
pub data Reachable : Limiter → Type 0 where
  start : Reachable new_limiter
  next : {l k : Limiter} → Reachable l → Step l k → Reachable k

-- Every key stands once, and no entry has a delay before its fifth failure.
pub record IsSane (l : Limiter) : Type 0 where
  pub keyed : IsKeyed l.entries
  pub delayed : (ip : Text) → ((entry l ip).blocked_until ≡ 0) ⊎ (5 ≤ (entry l ip).failures)

sweep-IsKeyed : (l : Limiter) (now : ℕ) → IsKeyed l.entries → IsKeyed (sweep l now).entries
unfolding sweep
sweep-IsKeyed l now h =
    if-cases (λ (k : Limiter). IsKeyed k.entries)
      (ltb (length l.entries) 256 && ltb (now - l.last_sweep) (5 * minute)) (λ _. h)
      (λ _. prune-IsKeyed (outdated now) l.entries h)

-- A sweep drops an entry or keeps it, and drops no entry that an operation would still read.
pub entry-sweep :
    (l : Limiter) (ip : Text) (now : ℕ)
    → IsKeyed l.entries
    → (entry (sweep l now) ip ≡ entry l ip)
      ⊎ ((entry (sweep l now) ip ≡ fresh 0) × (outdated now (entry l ip) ≡ true))
unfolding sweep
entry-sweep l ip now h =
    if-cases
      (λ (k : Limiter).
        (entry k ip ≡ entry l ip) ⊎ ((entry k ip ≡ fresh 0) × (outdated now (entry l ip) ≡ true)))
      (ltb (length l.entries) 256 && ltb (now - l.last_sweep) (5 * minute)) (λ _. inl refl)
      (λ _. pruned (lookup ip l.entries) refl)
  where
    pruned :
        (o : Option Attempt)
        → lookup ip l.entries ≡ o
        → ((elim (lookup ip (prune (outdated now) l.entries)) [ none ↦ fresh 0 | some a ↦ a ])
            ≡ entry l ip)
          ⊎ (((elim (lookup ip (prune (outdated now) l.entries)) [ none ↦ fresh 0 | some a ↦ a ])
                ≡ fresh 0)
              × (outdated now (entry l ip) ≡ true))
    pruned none e = ground (arith, e, lookup-prune (outdated now) ip l.entries h)
    pruned (some a) e = ground (arith, e, lookup-prune (outdated now) ip l.entries h)

-- The entries after each operation.
pub entry-allow :
    (l : Limiter) (ip j : Text) (now : ℕ)
    → entry (allow l ip now).1 j
      ≡ (if text_eq ip j then current now (entry (sweep l now) ip) else entry (sweep l now) j)
unfolding allow
entry-allow l ip j now =
    ground (arith, lookup-insert ip j (current now (entry (sweep l now) ip)) (sweep l now).entries)

pub entry-failure :
    (l : Limiter) (ip j : Text) (now : ℕ)
    → entry (failure l ip now) j ≡ (
        if text_eq ip j
        then failed_once now (current_or_first now (entry (sweep l now) ip))
        else entry (sweep l now) j)
unfolding failure
entry-failure l ip j now = ground (
  arith,
  lookup-insert ip j (failed_once now (current_or_first now (entry (sweep l now) ip)))
      (sweep l now).entries,
)

pub entry-success :
    (l : Limiter) (ip j : Text)
    → entry (success l ip) j ≡ (if text_eq ip j then fresh 0 else entry l j)
unfolding success
entry-success l ip j = ground (arith, lookup-erase ip j l.entries)

IsSane-Step : {l k : Limiter} → IsSane l → Step l k → IsSane k
unfolding allow failure success
IsSane-Step {l} s (allows ip now m) = record {
  keyed = insert-IsKeyed ip _ _ (sweep-IsKeyed l now s.keyed);
  delayed = λ j. ground (
    arith,
    entry-allow l ip j now,
    entry-sweep l ip now s.keyed,
    entry-sweep l j now s.keyed,
    s.delayed ip,
    s.delayed j,
  );
}
IsSane-Step {l} s (fails ip now m) = record {
  keyed = insert-IsKeyed ip _ _ (sweep-IsKeyed l now s.keyed);
  delayed = λ j. ground (
    arith,
    entry-failure l ip j now,
    entry-sweep l ip now s.keyed,
    entry-sweep l j now s.keyed,
    s.delayed ip,
    s.delayed j,
  );
}
IsSane-Step {l} s (succeeds ip) = record {
  keyed = erase-IsKeyed ip l.entries s.keyed;
  delayed = λ j. ground (arith, entry-success l ip j, s.delayed j);
}

pub Reachable-IsSane : {l : Limiter} → Reachable l → IsSane l
unfolding new_limiter IsKeyed
Reachable-IsSane start = record { keyed = tt; delayed = λ ip. inl refl }
Reachable-IsSane (next r s) = IsSane-Step (Reachable-IsSane r) s

-- In every limiter that a panel reaches, at a moment a minute or more after Go's zero time, an
-- address may try exactly if its window is a minute old or has less than five failures. The delay
-- from the fifth failure on never decides the answer.
pub allow_iff :
    (l : Limiter) (ip : Text) (now : ℕ)
    → Reachable l
    → minute ≤ now
    → (allow l ip now).0 ≡ (leb minute (now - (entry l ip).window) || ltb (entry l ip).failures 5)
unfolding allow
allow_iff l ip now r m =
    let s : IsSane l = Reachable-IsSane r in
    ground (arith, entry-sweep l ip now s.keyed, s.delayed ip)

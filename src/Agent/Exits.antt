-- ===== src/Agent/Exits.antt =====
-- Bounds of the restarts across exits and sleepers (internal/agent/manager.go).
use mathlib.Core.Path.{subst}
use snell_sh.Common.{
  ℕ, zero, suc, ◌+◌, ◌≤◌, ◌≡◌, refl, not, ◌||◌, Option, none, some, List, [], ◌∷◌, leb, Text, arith,
  All, if-cases,
}
use snell_sh.Common.Dict.{lookup}
use snell_sh.Agent.Lifecycle.{Host, Delayed, Manager, is_vpn, stop}
use snell_sh.Agent.Exit.{
  marked, is_current, is_wanted, wake_found, count_restarts, nth, restart_later, wait, wake,
  remove_nth, wake_nth, stop_all, schedule,
}
use snell_sh.Agent.Bounds.{
  FewRestarts, IsBounded, Bounded, write_process-FewRestarts, unless_server-IsBounded,
  start_with-Bounded, stop-IsBounded,
}

abbrev pub Settled : Option Manager → Type 0
Settled none = Unit
Settled (some m) = IsBounded m

schedule-Settled :
    (id : Text) (restarts now : ℕ) (m : Manager) (o : Option ℕ)
    → restarts ≤ 6
    → IsBounded m
    → Settled (schedule id restarts now m o)
schedule-Settled id restarts now m none le b = tt
schedule-Settled id restarts now m (some delay) le b = record {
  each = b.each;
  pending = (le, b.pending);
}

restart_later-Settled :
    (id : Text) (h now : ℕ) (message : Text) (m : Manager)
    → IsBounded m
    → Settled (restart_later id h now message m)
unfolding restart_later
restart_later-Settled id h now message m b =
    let restarts = count_restarts now (m.heap h) in
    if-cases Settled (leb 6 restarts)
      (λ e. record {
        each = λ k. write_process-FewRestarts h _ m.heap k (ground (arith, b.each h)) b.each;
        pending = b.pending;
      })
      (λ e. schedule-Settled id (restarts + 1) now _ _ (ground (arith, e)) (record {
        each = λ k. write_process-FewRestarts h _ m.heap k (ground (arith, e)) b.each;
        pending = b.pending;
      }))

pub wait-Settled :
    (host : Host) (id : Text) (h : ℕ) (message : Text) (m : Manager)
    → IsBounded m
    → Settled (wait host id h message m)
unfolding wait
wait-Settled host id h message m b =
    let exited : IsBounded (marked id h message m) = record {
      each = λ k. write_process-FewRestarts h _ m.heap k (b.each h) b.each;
      pending = b.pending;
    } in
    let quiet = unless_server-IsBounded (is_vpn (host.find id)) id _ exited in
    if-cases Settled (not (is_current h (lookup id m.processes)))
      (λ _. record {
        each = λ k. write_process-FewRestarts h _ m.heap k (b.each h) b.each;
        pending = b.pending;
      })
      (λ _.
        if-cases Settled ((m.heap h).stopping || m.closed || not (is_wanted (host.find id)))
          (λ _. quiet) (λ _. restart_later-Settled id h host.now message _ quiet))

wake-Bounded :
    (f : ℕ) (host : Host) (d : Delayed) (m : Manager)
    → d.restarts ≤ 6
    → IsBounded m
    → Bounded (wake f host d m)
unfolding wake
wake-Bounded f host d m le b =
    if-cases Bounded m.closed (λ _. b)
      (λ _.
        start_with-Bounded f host d.node d.restarts _ le
          (record { each = b.each; pending = b.pending }))

remove_nth-All :
    {A : Type 0} (P : A → Type 0) (i : ℕ) (xs : List A) → All P xs → All P (remove_nth i xs)
unfolding remove_nth
remove_nth-All P i [] h = tt
remove_nth-All P zero (x ∷ xs) h = h.1
remove_nth-All P (suc i) (x ∷ xs) h = (h.0, remove_nth-All P i xs h.1)

nth-FewRestarts :
    (i : ℕ) (xs : List Delayed) (d : Delayed)
    → All FewRestarts xs
    → nth i xs ≡ some d
    → d.restarts ≤ 6
unfolding nth
nth-FewRestarts i [] d h e = ground (arith, e)
nth-FewRestarts zero (x ∷ xs) d h e =
    let same : x ≡ d = ground (arith, e) in subst FewRestarts same h.0
nth-FewRestarts (suc i) (x ∷ xs) d h e = nth-FewRestarts i xs d h.1 e

pub wake_nth-Bounded :
    (f : ℕ) (host : Host) (i : ℕ) (m : Manager) → IsBounded m → Bounded (wake_nth f host i m)
unfolding wake_nth
wake_nth-Bounded f host i m b =
    found (nth i m.delayed) (λ d. nth-FewRestarts i m.delayed d b.pending)
  where
    found :
        (o : Option Delayed)
        → ((d : Delayed) → o ≡ some d → d.restarts ≤ 6)
        → Bounded (wake_found f host i m o)
    found none le = b
    found (some d) le =
        wake-Bounded f host d _ (le d refl)
          (record { each = b.each; pending = remove_nth-All FewRestarts i m.delayed b.pending })

pub stop_all-IsBounded :
    (host : Host) (ids : List Text) (m : Manager) → IsBounded m → IsBounded (stop_all host ids m)
unfolding stop_all
stop_all-IsBounded host [] m b = b
stop_all-IsBounded host (id ∷ ids) m b =
    stop_all-IsBounded host ids (stop host id m) (stop-IsBounded host id m b)

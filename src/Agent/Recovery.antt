-- ===== src/Agent/Recovery.antt =====
-- A process that ends by itself is replaced (internal/agent/manager.go).
use mathlib.Core.Path.{subst}
use snell_sh.Common.{
  ℕ, zero, suc, ◌+◌, ◌≤◌, ◌<◌, ◌≡◌, refl, sym, ap, ◌∙◌, Bool, true, false, Option, some, ◌∷◌, leb,
  Text, arith,
}
use snell_sh.Common.Dict.{lookup, erase}
use snell_sh.Agent.Lifecycle.{
  Info, Host, Manager, Delayed, write_process, is_running, is_vpn, unless_server, registered,
}
use snell_sh.Agent.Exit.{
  nth, delay_after, restart_later, wait, wake_nth, remove_nth, count_restarts, marked,
}
use snell_sh.Agent.Restarts.{CanRun, wake_nth_starts, registered-running}

-- The array has a delay for each of six restarts.
delay_found : (r : ℕ) → r < 6 → (delay : ℕ) × (delay_after (r + 1) ≡ some delay) × (delay ≤ 60)
unfolding delay_after nth
delay_found zero h = (1, refl, omega arith)
delay_found (suc zero) h = (2, refl, omega arith)
delay_found (suc (suc zero)) h = (5, refl, omega arith)
delay_found (suc (suc (suc zero))) h = (10, refl, omega arith)
delay_found (suc (suc (suc (suc zero)))) h = (30, refl, omega arith)
delay_found (suc (suc (suc (suc (suc zero))))) h = (60, refl, omega arith)
delay_found (suc (suc (suc (suc (suc (suc r)))))) h = (0, ground (arith, h), omega arith)

-- What is left of a manager by an exit that schedules a restart.
record Scheduled (id : Text) (now restarts : ℕ) (m : Manager) (o : Option Manager) : Type 0 where
  left : Manager
  sleeper : Delayed
  is : o ≡ some left
  first : left.delayed ≡ sleeper ∷ m.delayed
  still_up : left.closed ≡ m.closed
  of_node : sleeper.node ≡ id
  soon : sleeper.due ≤ now + 60

restart_later_lem :
    (id : Text) (h now : ℕ) (message : Text) (m : Manager)
    → count_restarts now (m.heap h) < 6
    → Scheduled id now (count_restarts now (m.heap h)) m (restart_later id h now message m)
unfolding restart_later
restart_later_lem id h now message m few =
    let r = count_restarts now (m.heap h) in
    let (delay, found, short) = delay_found r few in
    let v : Manager = record m {
      heap = write_process h (record (m.heap h) { restarts = r + 1 }) m.heap;
    } in
    let d : Delayed = record { node = id; restarts = r + 1; due = now + delay } in
    let test : leb 6 r ≡ false = ground (arith, few) in
    record {
      left = record v { delayed = d ∷ m.delayed };
      sleeper = d;
      is = rw (test, found) refl;
      first = refl;
      still_up = refl;
      of_node = refl;
      soon = omega (arith, short);
    }

unless_server-same :
    (c : Bool) (id : Text) (m : Manager)
    → ((unless_server c id m).closed ≡ m.closed) × ((unless_server c id m).heap ≡ m.heap)
unless_server-same true id m = (refl, refl)
unless_server-same false id m = (refl, refl)

-- A process that replaces another: the exit leaves a sleeper, and when that wakes a process runs.
pub record Replaced (id : Text) (now : ℕ) (o : Option Manager)
    (wakes : Manager → Option (Bool × Manager)) : Type 0 where
  pub waiting : Manager
  pub sleeper : Delayed
  pub after : Manager
  pub left : o ≡ some waiting
  pub asleep : nth 0 waiting.delayed ≡ some sleeper
  pub soon : sleeper.due ≤ now + 60
  pub woken : wakes waiting ≡ some (true, after)
  pub running : is_running id after ≡ true

-- A process that ends by itself is replaced: where it is the one in the map, the node's desired state
-- is running, nobody asked it to stop, the agent is not shut down, and it has fewer than 6 restarts
-- behind it or ran for 600 seconds, its exit puts a sleeper first that is due within 60 seconds, and
-- when that wakes on a host on which the node is there, has no backend, and its program runs when it is
-- launched, a process of the node runs.
pub wait-Replaced :
    (f : ℕ) (host later : Host) (id : Text) (h : ℕ) (message : Text) (m : Manager) (n : Info)
    → lookup id m.processes ≡ some h
    → host.find id ≡ some n
    → n.wanted ≡ true
    → (m.heap h).stopping ≡ false
    → m.closed ≡ false
    → count_restarts host.now (m.heap h) < 6
    → CanRun later id
    → Replaced id host.now (wait host id h message m) (wake_nth (suc f) later 0)
unfolding wait nth
wait-Replaced f host later id h message m n held found wanted going up few c =
    let m' = unless_server (is_vpn (host.find id)) id (marked id h message m) in
    let (same_up, same_heap) =
      unless_server-same (is_vpn (host.find id)) id (marked id h message m) in
    let same_count : count_restarts host.now (m'.heap h) ≡ count_restarts host.now (m.heap h) =
      ap (λ heap. count_restarts host.now (heap h)) same_heap ∙ ground arith in
    let s = restart_later_lem id h host.now message m' (subst (λ k. k < 6) (sym same_count) few) in
    let step : wait host id h message m ≡ restart_later id h host.now message m' =
      ground (arith, held, found, wanted, going, up) in
    let asleep : nth 0 s.left.delayed ≡ some s.sleeper = ap (nth 0) s.first in
    let can : CanRun later s.sleeper.node = subst (CanRun later) (sym s.of_node) c in
    let woke = wake_nth_starts f later 0 s.sleeper s.left can (s.still_up ∙ same_up ∙ up) asleep in
    let rest : Manager = record s.left {
      delayed = remove_nth 0 s.left.delayed;
      processes = erase s.sleeper.node s.left.processes;
    } in
    let after = registered s.sleeper.node later.now s.sleeper.restarts rest in
    record {
      waiting = s.left;
      sleeper = s.sleeper;
      after = after;
      left = step ∙ s.is;
      asleep = asleep;
      soon = s.soon;
      woken = woke;
      running =
          subst (λ i. is_running i after ≡ true) s.of_node
            (registered-running s.sleeper.node later.now s.sleeper.restarts rest);
    }

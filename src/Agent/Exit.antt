-- ===== src/Agent/Exit.antt =====
-- What follows the exit of a process: the goroutine that waits for it, the delayed restart, and
-- Shutdown (internal/agent/manager.go).
use snell_sh.Common.{
  ℕ, zero, suc, ◌+◌, ◌-◌, Bool, true, false, not, ◌||◌, Option, none, some, List, [], ◌∷◌, leb,
  ◌==◌, codes, Text, if◌then◌else◌,
}
use snell_sh.Common.Dict.{lookup, erase}
use snell_sh.Agent.Lifecycle.{
  Process, Info, Host, runtime, Delayed, Manager, write_process, unless_server, start_with, is_vpn,
  stop,
}

-- `stableRuntimeWindow`, and the delays before the restarts.
abbrev pub stable_window : ℕ
stable_window = 600

abbrev delays : List ℕ
delays = 1 ∷ 2 ∷ 5 ∷ 10 ∷ 30 ∷ 60 ∷ []

unfoldable pub nth {ℓ} : {A : Type ℓ} → ℕ → List A → Option A
nth i [] = none
nth zero (x ∷ xs) = some x
nth (suc i) (x ∷ xs) = nth i xs

-- The index into the array of delays; none is a panic.
unfoldable pub delay_after : ℕ → Option ℕ
delay_after restarts = nth (restarts - 1) delays

-- `wait`, from the test of the stable window on.
abbrev pub schedule : Text → ℕ → ℕ → Manager → Option ℕ → Option Manager
schedule id restarts now m none = none
schedule id restarts now m (some delay) = some (record m {
  delayed = record { node = id; restarts = restarts; due = now + delay } ∷ m.delayed;
})

abbrev pub count_restarts : ℕ → Process → ℕ
count_restarts now p = if leb stable_window (now - p.started) then 0 else p.restarts

unfoldable pub restart_later : Text → ℕ → ℕ → Text → Manager → Option Manager
restart_later id h now message m =
    let p = m.heap h in
    let restarts = count_restarts now p in
    if leb 6 restarts
    then some (record m {
      heap = write_process h (record p { restarts = restarts; state = codes "failed" }) m.heap;
      effects = runtime id (codes "failed") none message restarts ∷ m.effects;
    })
    else schedule id (restarts + 1) now
        (record m { heap = write_process h (record p { restarts = restarts + 1 }) m.heap })
        (delay_after (restarts + 1))

abbrev pub is_wanted : Option Info → Bool
is_wanted none = false
is_wanted (some n) = n.wanted

abbrev pub is_current : ℕ → Option ℕ → Bool
is_current h none = false
is_current h (some k) = k == h

-- The process as the exit leaves it.
abbrev pub marked : Text → ℕ → Text → Manager → Manager
marked id h message m =
    let p = m.heap h in
    record m {
      heap =
          write_process h
            (record p { exited = true; state = codes "stopped"; last_error = message }) m.heap;
      effects = runtime id (codes "stopped") none message p.restarts ∷ m.effects;
    }

-- `wait` after the process has ended with a message, the empty one for success.
unfoldable pub wait : Host → Text → ℕ → Text → Manager → Option Manager
wait host id h message m =
    if not (is_current h (lookup id m.processes))
    then some (record m { heap = write_process h (record (m.heap h) { exited = true }) m.heap })
    else let m' = unless_server (is_vpn (host.find id)) id (marked id h message m) in
      if (m.heap h).stopping || m.closed || not (is_wanted (host.find id))
      then some m'
      else restart_later id h host.now message m'

-- The goroutine that `wait` started, after its sleep. It removes whatever process the map holds.
unfoldable pub wake : ℕ → Host → Delayed → Manager → Option (Bool × Manager)
wake f host d m =
    if m.closed
    then some (false, m)
    else start_with f host d.node d.restarts (record m { processes = erase d.node m.processes })

unfoldable pub remove_nth {ℓ} : {A : Type ℓ} → ℕ → List A → List A
remove_nth i [] = []
remove_nth zero (x ∷ xs) = xs
remove_nth (suc i) (x ∷ xs) = x ∷ remove_nth i xs

abbrev pub wake_found : ℕ → Host → ℕ → Manager → Option Delayed → Option (Bool × Manager)
wake_found f host i m none = some (false, m)
wake_found f host i m (some d) = wake f host d (record m { delayed = remove_nth i m.delayed })

-- One of the sleeping goroutines wakes.
unfoldable pub wake_nth : ℕ → Host → ℕ → Manager → Option (Bool × Manager)
wake_nth f host i m = wake_found f host i m (nth i m.delayed)

-- `Shutdown`: the nodes come in the order of the kinds.
unfoldable pub stop_all : Host → List Text → Manager → Manager
stop_all host [] m = m
stop_all host (id ∷ ids) m = stop_all host ids (stop host id m)

unfoldable pub shutdown : Host → List Text → Manager → Manager
shutdown host ids m = stop_all host ids (record m { closed = true })

-- ===== src/Agent/Steps.antt =====
-- Everything that can happen to the manager (internal/agent/manager.go), one locked step after another.
use snell_sh.Common.{ℕ, Bool, true, false, Option, none, some, List, [], Text, arith, if-cases}
use snell_sh.Agent.Lifecycle.{Host, Manager, start, stop, stop_timer}
use snell_sh.Agent.Exit.{wait, wake_nth, shutdown}
use snell_sh.Agent.Bounds.{IsBounded, Bounded, start_with-Bounded, stop-IsBounded}
use snell_sh.Agent.Exits.{Settled, wait-Settled, wake_nth-Bounded, stop_all-IsBounded}

abbrev pub state_after : Option (Bool × Manager) → Option Manager
state_after none = none
state_after (some (b, m)) = some m

-- A step: a call, an exit, a timer or a sleeper, at any moment and on any host. A call that has not
-- returned and a panic give no state. An exit may be of any process under any id, which is more than
-- the program does.
pub data Step : Manager → Option Manager → Type 0 where
  starts :
      (f : ℕ) (host : Host) (id : Text) (m : Manager) → Step m (state_after (start f host id m))
  stops : (host : Host) (id : Text) (m : Manager) → Step m (some (stop host id m))
  times_out : (h : ℕ) (m : Manager) → Step m (some (stop_timer h m))
  exits :
      (host : Host) (id : Text) (h : ℕ) (message : Text) (m : Manager)
      → Step m (wait host id h message m)
  wakes : (f : ℕ) (host : Host) (i : ℕ) (m : Manager) → Step m (state_after (wake_nth f host i m))
  shuts_down : (host : Host) (ids : List Text) (m : Manager) → Step m (some (shutdown host ids m))

-- The manager of `NewManager`.
abbrev pub new_manager : Manager
new_manager = record {
  closed = false;
  heap = λ h. record {
    node = [];
    started = 0;
    restarts = 0;
    state = [];
    last_error = [];
    stopping = false;
    exited = true;
  };
  processes = [];
  next = 0;
  delayed = [];
  effects = [];
}

pub data Reached : Option Manager → Type 0 where
  fresh : Reached (some new_manager)
  then_step : {m : Manager} {o : Option Manager} → Reached (some m) → Step m o → Reached o

Bounded-Settled : (o : Option (Bool × Manager)) → Bounded o → Settled (state_after o)
Bounded-Settled none b = tt
Bounded-Settled (some (c, m)) b = b

times_out-IsBounded : (h : ℕ) (m : Manager) → IsBounded m → IsBounded (stop_timer h m)
unfolding stop_timer
times_out-IsBounded h m b =
    if-cases IsBounded (m.heap h).exited (λ _. b)
      (λ _. record { each = b.each; pending = b.pending })

Step-Settled : {m : Manager} {o : Option Manager} → Step m o → IsBounded m → Settled o
unfolding start shutdown
Step-Settled (starts f host id m) b =
    Bounded-Settled (start f host id m) (start_with-Bounded f host id 0 m (omega arith) b)
Step-Settled (stops host id m) b = stop-IsBounded host id m b
Step-Settled (times_out h m) b = times_out-IsBounded h m b
Step-Settled (exits host id h message m) b = wait-Settled host id h message m b
Step-Settled (wakes f host i m) b =
    Bounded-Settled (wake_nth f host i m) (wake_nth-Bounded f host i m b)
Step-Settled (shuts_down host ids m) b =
    stop_all-IsBounded host ids _ (record { each = b.each; pending = b.pending })

new_manager-IsBounded : IsBounded new_manager
new_manager-IsBounded = record { each = λ h. omega arith; pending = tt }

Reached-Settled : {o : Option Manager} → Reached o → Settled o
Reached-Settled fresh = new_manager-IsBounded
Reached-Settled (then_step r s) = Step-Settled s (Reached-Settled r)

-- Whatever the agent does, in whatever order calls, exits, timers and sleepers come: no process and no
-- sleeper counts more than 6 restarts.
pub Reached-IsBounded : (m : Manager) → Reached (some m) → IsBounded m
Reached-IsBounded m r = Reached-Settled r

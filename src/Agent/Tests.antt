-- ===== src/Agent/Tests.antt =====
-- Runs on concrete input for internal/agent.
use snell_sh.Common.{
  ◌≡◌, ◌≢◌, refl, true, false, ◌||◌, none, some, [], ◌∷◌, Text, codes, text_eq, arith,
}
use snell_sh.Common.Dict.{lookup, insert}
use snell_sh.Agent.Lifecycle.{
  Info, launched, Host, Delayed, Manager, is_running, registered, launch_node, start_with, start,
  stop,
}
use snell_sh.Agent.Exit.{nth, delay_after, restart_later, wait, wake_nth}
use snell_sh.Agent.Bounds.{IsBounded}
use snell_sh.Agent.Steps.{new_manager, Reached, fresh, then_step, starts, Reached-IsBounded}
use snell_sh.Agent.Restarts.{CanRun, TwoRun, wake_nth-after-stop, wake_nth-after-start}
use snell_sh.Agent.Recovery.{Replaced, wait-Replaced}
use snell_sh.Agent.Returns.{backend_of, start_returns, start_with_loops}

abbrev node : Text
node = codes "a"

abbrev info_behind : Text → Info
info_behind backend = record { is_server = false; wanted = true; backend = backend }

abbrev host_with : Text → Host
host_with backend = record {
  find = λ id. some (info_behind backend);
  launch = λ id. launched;
  now = 100;
}

abbrev host : Host
host = host_with []

able : CanRun host node
able = record { info = info_behind []; found = refl; alone = refl; runs = refl }

abbrev running_one : Manager
running_one = registered node 100 0 new_manager

one_reached : Reached (some running_one)
unfolding start start_with is_running launch_node text_eq lookup insert
one_reached = then_step fresh (starts 1 host node new_manager)

abbrev sleeper : Delayed
sleeper = record { node = node; restarts = 1; due = 101 }

-- The process of the node has crashed, and its restart is due in a second.
abbrev crashed : Manager
crashed = record {
  closed = false;
  heap = λ h. record {
    node = node;
    started = 100;
    restarts = 1;
    state = codes "stopped";
    last_error = codes "crash";
    stopping = false;
    exited = true;
  };
  processes = (node, 0) ∷ [];
  next = 1;
  delayed = sleeper ∷ [];
  effects = [];
}

crash : (m : Manager) × (wait host node 0 (codes "crash") running_one ≡ some m)
unfolding wait restart_later delay_after nth lookup insert text_eq
crash = (_, refl)

Reached-IsBounded_example : IsBounded running_one
Reached-IsBounded_example = Reached-IsBounded running_one one_reached

quiet : is_running node crashed ≡ false
unfolding is_running lookup text_eq
quiet = refl

asleep : nth 0 (crashed.delayed) ≡ some sleeper
unfolding nth
asleep = refl

wake_nth-after-stop_example :
    (v : Manager) × (wake_nth 1 host 0 (stop host node crashed) ≡ some (true, v))
    × (is_running node v ≡ true)
wake_nth-after-stop_example =
    wake_nth-after-stop 0 host host 0 sleeper crashed able refl quiet asleep

wake_nth-after-start_example :
    (v w : Manager) × (start 1 host node crashed ≡ some (true, v))
    × (wake_nth 1 host 0 v ≡ some (true, w))
    × TwoRun node w
wake_nth-after-start_example =
    wake_nth-after-start 0 0 host host 0 sleeper crashed able able refl quiet asleep

held : lookup node running_one.processes ≡ some 0
unfolding lookup insert text_eq
held = refl

wait-Replaced_example :
    Replaced node 100 (wait host node 0 (codes "crash") running_one) (wake_nth 1 host 0)
wait-Replaced_example =
    wait-Replaced 0 host host node 0 (codes "crash") running_one (info_behind []) held refl refl
      refl refl (omega arith) able

short :
    (text_eq (backend_of host node) [] || text_eq (backend_of host (backend_of host node)) [])
    ≡ true
unfolding text_eq
short = refl

start_returns_example : start 2 host node new_manager ≢ none
start_returns_example = start_returns 0 host node new_manager short

named : text_eq node [] ≡ false
unfolding text_eq
named = refl

not_yet : is_running node new_manager ≡ false
unfolding is_running lookup
not_yet = refl

start_with_loops_example : start_with 50 (host_with node) node 0 new_manager ≡ none
start_with_loops_example =
    start_with_loops 50 (host_with node) node 0 new_manager (info_behind node) refl refl named refl
      not_yet

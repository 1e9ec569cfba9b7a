-- ===== src/Agent/Lifecycle.antt =====
-- How the agent starts and stops the processes of the nodes: the state of the manager, Start and Stop
-- (internal/agent/manager.go). Moments are seconds. A call runs under the manager's lock, so calls and
-- goroutines interleave as whole steps.
use snell_sh.Common.{
  ℕ, zero, suc, Bool, true, false, not, Option, none, some, List, [], ◌∷◌, ◌==◌, codes, Text,
  text_eq, if◌then◌else◌,
}
use snell_sh.Common.Dict.{Dict, lookup, insert}

-- `process`, with the id of its node. A process lives until `wait` sets `exited`.
pub record Process : Type 0 where
  pub node : Text
  pub started : ℕ
  pub restarts : ℕ
  pub state : Text
  pub last_error : Text
  pub stopping : Bool
  pub exited : Bool

-- What the agent reads of a node, and how an attempt to launch its program goes: the program runs, or
-- a check before it or the start itself fails.
pub record Info : Type 0 where
  pub is_server : Bool
  pub wanted : Bool
  pub backend : Text

pub data Launch : Type 0 where
  launched no_config no_binary no_arguments no_network not_started : Launch

pub record Host : Type 0 where
  pub find : Text → Option Info
  pub launch : Text → Launch
  pub now : ℕ

-- The calls that leave the manager: `UpdateRuntime`, `firewall.RemoveVPN` and the signals.
pub data Effect : Type 0 where
  runtime : Text → Text → Option ℕ → Text → ℕ → Effect
  remove_vpn : Text → Effect
  terminate kill : ℕ → Effect

-- A goroutine that sleeps before it restarts a node.
pub record Delayed : Type 0 where
  pub node : Text
  pub restarts : ℕ
  pub due : ℕ

-- `Manager`: a process is known by its number in `heap`, which the map and the goroutines share.
pub record Manager : Type 0 where
  pub closed : Bool
  pub heap : ℕ → Process
  pub processes : Dict ℕ
  pub next : ℕ
  pub delayed : List Delayed
  pub effects : List Effect

abbrev pub write_process : ℕ → Process → (ℕ → Process) → ℕ → Process
write_process h p heap k = if k == h then p else heap k

abbrev pub emit : Effect → Manager → Manager
emit e m = record m { effects = e ∷ m.effects }

abbrev pub runs : (ℕ → Process) → Option ℕ → Bool
runs heap none = false
runs heap (some h) = not (heap h).exited

-- Whether the map holds a process of the node that has not exited.
unfoldable pub is_running : Text → Manager → Bool
is_running id m = runs m.heap (lookup id m.processes)

abbrev pub new_process : Text → ℕ → ℕ → Process
new_process id now restarts = record {
  node = id;
  started = now;
  restarts = restarts;
  state = codes "running";
  last_error = [];
  stopping = false;
  exited = false;
}

abbrev pub registered : Text → ℕ → ℕ → Manager → Manager
registered id now restarts m = record m {
  heap = write_process m.next (new_process id now restarts) m.heap;
  processes = insert id m.next m.processes;
  next = suc m.next;
  effects = runtime id (codes "running") (some m.next) [] restarts ∷ m.effects;
}

abbrev pub unless_server : Bool → Text → Manager → Manager
unless_server true id m = emit (remove_vpn id) m
unless_server false id m = m

-- `startLockedWithRestarts` from the test of the configuration on; the answer is whether no error is
-- returned.
abbrev pub launch_as : Text → ℕ → Bool → ℕ → Manager → Launch → Bool × Manager
launch_as id now is_server restarts m launched = (true, registered id now restarts m)
launch_as id now is_server restarts m no_config = (false, m)
launch_as id now is_server restarts m no_binary =
    (false, emit (runtime id (codes "failed") none (codes "MISSING") 0) m)
launch_as id now is_server restarts m no_arguments = (false, m)
launch_as id now is_server restarts m no_network =
    (false, emit (runtime id (codes "failed") none (codes "NETWORK") restarts) m)
launch_as id now is_server restarts m not_started = (false, unless_server is_server id m)

unfoldable pub launch_node : Host → Text → Info → ℕ → Manager → Bool × Manager
launch_node host id n restarts m = launch_as id host.now n.is_server restarts m (host.launch id)

abbrev pub after_backend :
    Host → Text → Info → ℕ → Option (Bool × Manager) → Option (Bool × Manager)
after_backend host id n restarts none = none
after_backend host id n restarts (some (false, m)) = some (false, m)
after_backend host id n restarts (some (true, m)) = some (launch_node host id n restarts m)

-- What follows the read of the node; `start_backend` is the call for the backend.
abbrev pub start_found :
    Host
    → Text
    → ℕ
    → Manager
    → (Text → Option (Bool × Manager))
    → Option Info
    → Option (Bool × Manager)
start_found host id restarts m start_backend none = some (false, m)
start_found host id restarts m start_backend (some n) = elim (text_eq n.backend []) [
  | true ↦ some (launch_node host id n restarts m)
  | false ↦ after_backend host id n restarts (start_backend n.backend)
]

-- `startLockedWithRestarts`, which calls itself for the backend: the first argument is fuel, and none
-- is a call that has not returned within it.
unfoldable pub start_with : ℕ → Host → Text → ℕ → Manager → Option (Bool × Manager)
start_with zero host id restarts m = none
start_with (suc f) host id restarts m = elim (m.closed) [
  | true ↦ some (false, m)
  | false ↦ elim (is_running id m) [
    | true ↦ some (true, m)
    | false ↦
        start_found host id restarts m (λ backend. start_with f host backend 0 m) (host.find id)
  ]
]

-- `Start`
unfoldable pub start : ℕ → Host → Text → Manager → Option (Bool × Manager)
start f host id m = start_with f host id 0 m

abbrev pub is_vpn : Option Info → Bool
is_vpn none = false
is_vpn (some n) = n.is_server

abbrev pub stop_found : Host → Text → Manager → Option ℕ → Manager
stop_found host id m none = m
stop_found host id m (some h) = record m {
  heap = write_process h (record (m.heap h) { stopping = true; state = codes "stopping" }) m.heap;
  effects = terminate h ∷ m.effects;
}

-- `Stop`
unfoldable pub stop : Host → Text → Manager → Manager
stop host id m =
    if is_running id m
    then stop_found host id m (lookup id m.processes)
    else emit (runtime id (codes "stopped") none [] 0) (unless_server (is_vpn (host.find id)) id m)

-- The timer that `Stop` leaves behind.
unfoldable pub stop_timer : ℕ → Manager → Manager
stop_timer h m = if (m.heap h).exited then m else emit (kill h) m

-- ===== src/Agent/Restarts.antt =====
-- What the delayed restart does to a node that was stopped or started in the meantime, and when a
-- start returns (internal/agent/manager.go).
use snell_sh.Common.{
  ℕ, suc, ◌≡◌, ◌≢◌, refl, ap, ◌∙◌, true, false, some, [], Text, text_eq_self, arith,
}
use snell_sh.Common.Dict.{lookup, erase, lookup-insert, lookup-erase}
use snell_sh.Agent.Lifecycle.{
  Info, launched, Host, Delayed, Manager, is_running, registered, launch_node, start_with, start,
  stop,
}
use snell_sh.Agent.Exit.{nth, wake, remove_nth, wake_nth}

-- A host on which the node is there, needs no backend, and its program runs when it is launched.
pub record CanRun (host : Host) (id : Text) : Type 0 where
  pub info : Info
  pub found : host.find id ≡ some info
  pub alone : info.backend ≡ []
  pub runs : host.launch id ≡ launched

-- What a start does where no process of the node runs.
started :
    (f : ℕ) (host : Host) (id : Text) (restarts : ℕ) (m : Manager)
    → CanRun host id
    → m.closed ≡ false
    → is_running id m ≡ false
    → start_with (suc f) host id restarts m ≡ some (true, registered id host.now restarts m)
unfolding start_with launch_node
started f host id restarts m c up quiet =
    ground (arith, up, quiet, c.found, c.alone, c.runs, text_eq_self [])

pub registered-running :
    (id : Text) (now restarts : ℕ) (m : Manager)
    → is_running id (registered id now restarts m) ≡ true
unfolding is_running
registered-running id now restarts m =
    rw (lookup-insert id id m.next m.processes, text_eq_self id) (ground arith)

-- The goroutine forgets the process that the map holds, so it starts another one.
wake_starts :
    (f : ℕ) (host : Host) (d : Delayed) (m : Manager)
    → CanRun host d.node
    → m.closed ≡ false
    → wake (suc f) host d m
      ≡ some (
        true,
        registered d.node host.now d.restarts (record m { processes = erase d.node m.processes }),
      )
unfolding wake is_running
wake_starts f host d m c up =
    let m' : Manager = record m { processes = erase d.node m.processes } in
    let quiet : is_running d.node m' ≡ false =
      rw (lookup-erase d.node d.node m.processes, text_eq_self d.node) refl in
    ground (arith, up, started f host d.node d.restarts m' c up quiet)

stop-keeps :
    (host : Host) (id : Text) (m : Manager)
    → is_running id m ≡ false
    → ((stop host id m).closed ≡ m.closed) × ((stop host id m).delayed ≡ m.delayed)
unfolding stop
stop-keeps host id m quiet = ground (arith, quiet)

-- What a sleeper that wakes does: it starts a process of its node.
pub wake_nth_starts :
    (f : ℕ) (host : Host) (i : ℕ) (d : Delayed) (m : Manager)
    → CanRun host d.node
    → m.closed ≡ false
    → nth i m.delayed ≡ some d
    → wake_nth (suc f) host i m
      ≡ some (
        true,
        registered d.node host.now d.restarts
            (record m { delayed = remove_nth i m.delayed; processes = erase d.node m.processes }),
      )
unfolding wake_nth
wake_nth_starts f host i d m c up sleeps =
    let woken = wake_starts f host d (record m { delayed = remove_nth i m.delayed }) c up in
    rw sleeps woken

-- Stopping a node between the exit of its process and the delayed restart does not cancel the restart:
-- where the sleeper of the node is still there, no process runs and the agent is not shut down, after
-- Stop the sleeper starts a new process on every later host on which the node's program can run,
-- whatever state is desired then.
pub wake_nth-after-stop :
    (f : ℕ) (host later : Host) (i : ℕ) (d : Delayed) (m : Manager)
    → CanRun later d.node
    → m.closed ≡ false
    → is_running d.node m ≡ false
    → nth i m.delayed ≡ some d
    → (v : Manager) × (wake_nth (suc f) later i (stop host d.node m) ≡ some (true, v))
      × (is_running d.node v ≡ true)
wake_nth-after-stop f host later i d m c up quiet sleeps =
    let m' = stop host d.node m in
    let (same, left) = stop-keeps host d.node m quiet in
    let asleep : nth i m'.delayed ≡ some d = ap (nth i) left ∙ sleeps in
    (
      _,
      wake_nth_starts f later i d m' c (same ∙ up) asleep,
      registered-running d.node later.now d.restarts _,
    )

-- Two processes of one node run, and the map holds the second only.
pub record TwoRun (id : Text) (m : Manager) : Type 0 where
  pub lost : ℕ
  pub held : ℕ
  pub different : lost ≢ held
  pub in_map : lookup id m.processes ≡ some held
  pub lost_node : (m.heap lost).node ≡ id
  pub held_node : (m.heap held).node ≡ id
  pub lost_runs : (m.heap lost).exited ≡ false
  pub held_runs : (m.heap held).exited ≡ false

-- Starting a node by hand before its delayed restart gives it two processes: the start runs one, and
-- the sleeper then takes it out of the map and runs another, where no process of the node ran before,
-- the agent is not shut down and the program can run both times. Stop and Restart act on the second
-- only.
pub wake_nth-after-start :
    (f g : ℕ) (host later : Host) (i : ℕ) (d : Delayed) (m : Manager)
    → CanRun host d.node
    → CanRun later d.node
    → m.closed ≡ false
    → is_running d.node m ≡ false
    → nth i m.delayed ≡ some d
    → (v w : Manager) × (start (suc f) host d.node m ≡ some (true, v))
      × (wake_nth (suc g) later i v ≡ some (true, w))
      × TwoRun d.node w
unfolding start
wake_nth-after-start f g host later i d m c c' up quiet sleeps =
    let v = registered d.node host.now 0 m in
    let v' : Manager = record v {
      delayed = remove_nth i v.delayed;
      processes = erase d.node v.processes;
    } in
    (
      v,
      registered d.node later.now d.restarts v',
      started f host d.node 0 m c up quiet,
      wake_nth_starts g later i d v c' up sleeps,
      record {
        lost = m.next;
        held = suc m.next;
        different = λ e. omega (arith, e);
        in_map =
            rw (lookup-insert d.node d.node (suc m.next) v'.processes, text_eq_self d.node) refl;
        lost_node = ground arith;
        held_node = ground arith;
        lost_runs = ground arith;
        held_runs = ground arith;
      },
    )

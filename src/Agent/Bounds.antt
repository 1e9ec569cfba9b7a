-- ===== src/Agent/Bounds.antt =====
-- Bounds of the automatic restarts (internal/agent/manager.go): in every state that the agent reaches,
-- the counters stay in the array of delays.
use mathlib.Core.Path.{subst}
use snell_sh.Common.{
  ℕ, zero, suc, ◌≤◌, ◌≡◌, sym, ap, Bool, true, false, Option, none, some, [], ◌==◌, Text, text_eq,
  arith, All, if-cases, elim-cases,
}
use snell_sh.Common.Dict.{lookup}
use snell_sh.Agent.Lifecycle.{
  Process, Info, Launch, launched, no_config, no_binary, no_arguments, no_network, not_started,
  Host, Delayed, Manager, write_process, is_running, new_process, launch_as, start_found, is_vpn,
  launch_node, after_backend, start_with, stop, unless_server, stop_found,
}

abbrev pub FewRestarts : Delayed → Type 0
FewRestarts d = d.restarts ≤ 6

-- No counter exceeds 6.
pub record IsBounded (m : Manager) : Type 0 where
  pub each : (h : ℕ) → (m.heap h).restarts ≤ 6
  pub pending : All FewRestarts m.delayed

abbrev pub Bounded : Option (Bool × Manager) → Type 0
Bounded none = Unit
Bounded (some (b, m)) = IsBounded m

pub write_process-FewRestarts :
    (h : ℕ) (p : Process) (heap : ℕ → Process) (k : ℕ)
    → p.restarts ≤ 6
    → ((k : ℕ) → (heap k).restarts ≤ 6)
    → (write_process h p heap k).restarts ≤ 6
write_process-FewRestarts h p heap k le b =
    if-cases (λ (q : Process). q.restarts ≤ 6) (k == h) (λ _. le) (λ _. b k)

-- The effects do not count.
same-IsBounded :
    (m m' : Manager) → m'.heap ≡ m.heap → m'.delayed ≡ m.delayed → IsBounded m → IsBounded m'
same-IsBounded m m' eh ed b = record {
  each = λ h. ground (arith, ap (λ f. (f h).restarts) eh, b.each h);
  pending = subst (All FewRestarts) (sym ed) b.pending;
}

pub unless_server-IsBounded :
    (c : Bool) (id : Text) (m : Manager) → IsBounded m → IsBounded (unless_server c id m)
unless_server-IsBounded true id m b = record { each = b.each; pending = b.pending }
unless_server-IsBounded false id m b = b

launch_as-IsBounded :
    (id : Text) (now : ℕ) (c : Bool) (restarts : ℕ) (m : Manager) (l : Launch)
    → restarts ≤ 6
    → IsBounded m
    → IsBounded (launch_as id now c restarts m l).1
launch_as-IsBounded id now c restarts m launched le b = record {
  each = λ k. write_process-FewRestarts m.next (new_process id now restarts) m.heap k le b.each;
  pending = b.pending;
}
launch_as-IsBounded id now c restarts m no_config le b = b
launch_as-IsBounded id now c restarts m no_binary le b = record {
  each = b.each;
  pending = b.pending;
}
launch_as-IsBounded id now c restarts m no_arguments le b = b
launch_as-IsBounded id now c restarts m no_network le b = record {
  each = b.each;
  pending = b.pending;
}
launch_as-IsBounded id now c restarts m not_started le b = unless_server-IsBounded c id m b

after_backend-Bounded :
    (host : Host) (id : Text) (n : Info) (restarts : ℕ) (o : Option (Bool × Manager))
    → restarts ≤ 6
    → Bounded o
    → Bounded (after_backend host id n restarts o)
unfolding launch_node
after_backend-Bounded host id n restarts none le b = tt
after_backend-Bounded host id n restarts (some (false, m)) le b = b
after_backend-Bounded host id n restarts (some (true, m)) le b =
    launch_as-IsBounded id host.now n.is_server restarts m (host.launch id) le b

start_found-Bounded :
    (host : Host) (id : Text) (restarts : ℕ) (m : Manager) (self : Text → Option (Bool × Manager))
    (o : Option Info)
    → restarts ≤ 6
    → IsBounded m
    → ((backend : Text) → Bounded (self backend))
    → Bounded (start_found host id restarts m self o)
unfolding launch_node
start_found-Bounded host id restarts m self none le b k = b
start_found-Bounded host id restarts m self (some n) le b k =
    elim-cases Bounded (text_eq n.backend [])
      (λ _. launch_as-IsBounded id host.now n.is_server restarts m (host.launch id) le b)
      (λ _. after_backend-Bounded host id n restarts (self n.backend) le (k n.backend))

pub start_with-Bounded :
    (f : ℕ) (host : Host) (id : Text) (restarts : ℕ) (m : Manager)
    → restarts ≤ 6
    → IsBounded m
    → Bounded (start_with f host id restarts m)
unfolding start_with
start_with-Bounded zero host id restarts m le b = tt
start_with-Bounded (suc f) host id restarts m le b =
    elim-cases Bounded m.closed (λ _. b)
      (λ _.
        elim-cases Bounded (is_running id m) (λ _. b)
          (λ _.
            start_found-Bounded host id restarts m (λ backend. start_with f host backend 0 m)
              (host.find id) le b
              (λ backend. start_with-Bounded f host backend 0 m (omega arith) b)))

stop_found-IsBounded :
    (host : Host) (id : Text) (m : Manager) (o : Option ℕ)
    → IsBounded m
    → IsBounded (stop_found host id m o)
stop_found-IsBounded host id m none b = b
stop_found-IsBounded host id m (some h) b = record {
  each = λ k. write_process-FewRestarts h _ m.heap k (b.each h) b.each;
  pending = b.pending;
}

pub stop-IsBounded :
    (host : Host) (id : Text) (m : Manager) → IsBounded m → IsBounded (stop host id m)
unfolding stop
stop-IsBounded host id m b =
    if-cases IsBounded (is_running id m)
      (λ _. stop_found-IsBounded host id m (lookup id m.processes) b)
      (λ _.
        let quiet = unless_server-IsBounded (is_vpn (host.find id)) id m b in
        record { each = quiet.each; pending = quiet.pending })

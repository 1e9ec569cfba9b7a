-- ===== src/Agent/Returns.antt =====
-- When a start returns, and that an exit never panics (internal/agent/manager.go).
use snell_sh.Common.{
  ℕ, zero, suc, ◌≡◌, ◌≢◌, refl, Bool, true, false, ◌||◌, Option, none, some, [], Text, text_eq,
  arith, elim-cases,
}
use snell_sh.Agent.Lifecycle.{
  Info, Host, Manager, is_running, start_found, after_backend, start_with, start,
}

-- The backend of a node, or the empty text.
abbrev pub backend_of : Host → Text → Text
backend_of host id = elim (host.find id) [ none ↦ [] | some n ↦ n.backend ]

some_returns : {A : Type 0} (a : A) → some a ≢ none
some_returns a e = ground (arith, e)

returns_alone :
    (f : ℕ) (host : Host) (id : Text) (restarts : ℕ) (m : Manager)
    → text_eq (backend_of host id) [] ≡ true
    → start_with (suc f) host id restarts m ≢ none
unfolding start_with
returns_alone f host id restarts m alone =
    elim-cases (λ o. o ≢ none) m.closed (λ _. some_returns _)
      (λ _.
        elim-cases (λ o. o ≢ none) (is_running id m) (λ _. some_returns _)
          (λ _. found (host.find id) alone))
  where
    found :
        (o : Option Info)
        → text_eq (elim o [ none ↦ [] | some n ↦ n.backend ]) [] ≡ true
        → start_found host id restarts m (λ backend. start_with f host backend 0 m) o ≢ none
    found none e = some_returns _
    found (some n) e =
        elim-cases (λ o. o ≢ none) (text_eq n.backend []) (λ _. some_returns _)
          (λ other. ground (arith, e, other))

after_backend_returns :
    (host : Host) (id : Text) (n : Info) (restarts : ℕ) (o : Option (Bool × Manager))
    → o ≢ none
    → after_backend host id n restarts o ≢ none
after_backend_returns host id n restarts none h = h
after_backend_returns host id n restarts (some (false, m)) h = some_returns _
after_backend_returns host id n restarts (some (true, m)) h = some_returns _

-- A start returns, after two calls at most, if the node has no backend, or a backend that has none
-- itself, as when ShadowTLS stands before a Snell or SS-2022 node.
pub start_returns :
    (f : ℕ) (host : Host) (id : Text) (m : Manager)
    → (text_eq (backend_of host id) [] || text_eq (backend_of host (backend_of host id)) []) ≡ true
    → start (suc (suc f)) host id m ≢ none
unfolding start start_with
start_returns f host id m short =
    elim-cases (λ o. o ≢ none) m.closed (λ _. some_returns _)
      (λ _.
        elim-cases (λ o. o ≢ none) (is_running id m) (λ _. some_returns _)
          (λ _. found (host.find id) short))
  where
    found :
        (o : Option Info)
        → (text_eq (elim o [ none ↦ [] | some n ↦ n.backend ]) []
            || text_eq (backend_of host (elim o [ none ↦ [] | some n ↦ n.backend ])) [])
          ≡ true
        → start_found host id 0 m (λ backend. start_with (suc f) host backend 0 m) o ≢ none
    found none e = some_returns _
    found (some n) e =
        elim-cases (λ o. o ≢ none) (text_eq n.backend []) (λ _. some_returns _)
          (λ other.
            after_backend_returns host id n 0 _
              (returns_alone f host n.backend 0 m (ground (arith, e, other))))

-- A start of a node that is its own backend never returns, on any fuel, unless the agent is shut down
-- or the node runs already: the call calls itself without end.
pub start_with_loops :
    (f : ℕ) (host : Host) (id : Text) (restarts : ℕ) (m : Manager) (n : Info)
    → host.find id ≡ some n
    → n.backend ≡ id
    → text_eq id [] ≡ false
    → m.closed ≡ false
    → is_running id m ≡ false
    → start_with f host id restarts m ≡ none
unfolding start_with
start_with_loops zero host id restarts m n found own named up quiet = refl
start_with_loops (suc f) host id restarts m n found own named up quiet =
    let again = start_with_loops f host id 0 m n found own named up quiet in
    ground (arith, found, own, named, up, quiet, again)

-- ===== src/Nodes/Admitted.antt =====
-- What a request that `Validate` accepts has (internal/nodes/validate.go).
use snell_sh.Common.{
  ℕ, ◌≡◌, ◌≤◌, refl, ap, ◌∙◌, Bool, true, false, Option, none, some, [], ◌∷◌, Text, arith, if-cases,
}
use mathlib.Core.Path.{subst}
use snell_sh.Common.Int.{ℤ, pos, ◌≤ℤ◌, is_zero}
use snell_sh.AnyConnect.Cidr.Prefix.{Prefix, masked}
use snell_sh.Nodes.Model.{Kind, anyconnect, Config, Request, Readers}
use snell_sh.Nodes.Validate.{
  text_or, int_or, normalize_routing, normalize_config, normalize_as, normalize_request,
  is_anyconnect, refuse, first_of,
}
use snell_sh.Nodes.Admit.{
  is_private, good_pool, check_network, check_anyconnect, check_by_kind, check_request, validate,
}

text_or_twice :
    (s : Text) (c : ℕ) (t : Text) → text_or (text_or s (c ∷ t)) (c ∷ t) ≡ text_or s (c ∷ t)
unfolding text_or
text_or_twice [] c t = refl
text_or_twice (d ∷ s) c t = refl

int_or_twice : (n m : ℤ) → int_or (int_or n m) m ≡ int_or n m
unfolding int_or
int_or_twice n m =
    if-cases (λ z. int_or z m ≡ z) (is_zero n) (λ _. ground arith) (λ e. ground (arith, e))

normalize_config_twice : (c : Config) → normalize_config (normalize_config c) ≡ normalize_config c
unfolding normalize_config normalize_routing
normalize_config_twice c = simp (text_or_twice, int_or_twice)

normalize_as_twice : (b : Bool) (r : Request) → normalize_as b (normalize_as b r) ≡ normalize_as b r
unfolding normalize_as
normalize_as_twice true r = simp (text_or_twice, normalize_config_twice)
normalize_as_twice false r = simp text_or_twice

normalize_as_kind : (b : Bool) (r : Request) → (normalize_as b r).kind ≡ r.kind
unfolding normalize_as
normalize_as_kind true r = refl
normalize_as_kind false r = refl

normalize_as_port : (b : Bool) (r : Request) → (normalize_as b r).listen_port ≡ r.listen_port
unfolding normalize_as
normalize_as_port true r = refl
normalize_as_port false r = refl

pub normalize_request_kind : (r : Request) → (normalize_request r).kind ≡ r.kind
unfolding normalize_request
normalize_request_kind r = normalize_as_kind (is_anyconnect r.kind) r

-- Normalizing twice is normalizing once.
pub normalize_request_twice :
    (r : Request) → normalize_request (normalize_request r) ≡ normalize_request r
unfolding normalize_request
normalize_request_twice r =
    let b = is_anyconnect r.kind in
    ap (λ k. normalize_as (is_anyconnect k) (normalize_as b r)) (normalize_as_kind b r)
    ∙ normalize_as_twice b r

-- A check that passes, and the rest.
refuse-none :
    {bad : Bool} (m : Text) {rest : Option Text}
    → refuse bad m rest ≡ none
    → (bad ≡ false) × (rest ≡ none)
unfolding refuse
refuse-none {bad} m h = ground (arith, h)

first_of-none : {a b : Option Text} → first_of a b ≡ none → (a ≡ none) × (b ≡ none)
unfolding first_of
first_of-none {a} h = ground (arith, h)

-- `Normalize` is idempotent, so a request that was normalized before is judged as it is.
pub validate-normalize_request :
    (lib : Readers) (r : Request) → validate lib (normalize_request r) ≡ validate lib r
unfolding validate
validate-normalize_request lib r = ap (check_request lib) (normalize_request_twice r)

-- An accepted request has a port from 1 to 65535.
pub validate_port :
    (lib : Readers) (r : Request)
    → validate lib r ≡ none
    → (pos 1 ≤ℤ r.listen_port) × (r.listen_port ≤ℤ pos 65535)
unfolding validate check_request normalize_request
validate_port lib r h =
    let passed = (refuse-none _ (refuse-none _ (refuse-none _ (refuse-none _ h).1).1).1).0 in
    ground (arith, passed, normalize_as_port (is_anyconnect r.kind) r)

good_pool_lem :
    (o : Option Prefix)
    → good_pool o ≡ true
    → (p : Prefix) × (o ≡ some p)
      × ((p.addr ≡ (masked p).addr) × (16 ≤ p.bits) × (p.bits ≤ 29) × (is_private p.addr ≡ true))
unfolding good_pool
good_pool_lem none h = ground arith
good_pool_lem (some p) h = (p, refl, ground (arith, h))

-- What the accepted configuration of a server has.
pub record Served (lib : Readers) (c : Config) : Type 0 where
  pub pool : Prefix
  pub reads : lib.read_prefix c.vpn_network ≡ some pool
  pub canonical : pool.addr ≡ (masked pool).addr
  pub at_least_16 : 16 ≤ pool.bits
  pub at_most_29 : pool.bits ≤ 29
  pub private : is_private pool.addr ≡ true
  pub mtu_low : pos 1200 ≤ℤ c.mtu
  pub mtu_high : c.mtu ≤ℤ pos 1500
  pub some_client : pos 1 ≤ℤ c.max_same_clients
  pub same_at_most : c.max_same_clients ≤ℤ pos 64
  pub no_more : c.max_same_clients ≤ℤ c.max_clients
  pub most : c.max_clients ≤ℤ pos 4096

check_network_lem : (lib : Readers) (c : Config) → check_network lib c ≡ none → Served lib c
unfolding check_network
check_network_lem lib c h =
    let (pool_test, h1) = refuse-none _ h in
    let (mtu_test, h2) = refuse-none _ (first_of-none (first_of-none h1).1).1 in
    let (clients_test, h3) = refuse-none _ h2 in
    let (same_test, _) = refuse-none _ h3 in
    let (p, e, (canonical, low, high, inner)) =
      good_pool_lem (lib.read_prefix c.vpn_network) (ground (arith, pool_test)) in
    record {
      pool = p;
      reads = e;
      canonical = canonical;
      at_least_16 = low;
      at_most_29 = high;
      private = inner;
      mtu_low = ground (arith, mtu_test);
      mtu_high = ground (arith, mtu_test);
      some_client = ground (arith, same_test);
      same_at_most = ground (arith, same_test);
      no_more = ground (arith, same_test);
      most = ground (arith, clients_test);
    }

by_kind :
    (lib : Readers) (r : Request) (k : Kind)
    → k ≡ anyconnect
    → check_by_kind lib r k ≡ none
    → check_anyconnect lib r ≡ none
unfolding check_by_kind
by_kind lib r k e h = subst (λ j. check_by_kind lib r j ≡ none) e h

-- A request for an AnyConnect server that Validate accepts has, once normalized: a pool that reads as
-- an IPv4 prefix of 16 to 29 bits with no host bit set and a private address, an MTU from 1200 to
-- 1500, and from 1 to 64 clients for each user, at most the number of clients, which is at most 4096.
pub validate-Served :
    (lib : Readers) (r : Request)
    → r.kind ≡ anyconnect
    → validate lib r ≡ none
    → Served lib (normalize_request r).config
unfolding validate check_request check_anyconnect
validate-Served lib r k h =
    let n = normalize_request r in
    let switch = (refuse-none _ (refuse-none _ (refuse-none _ (refuse-none _ h).1).1).1).1 in
    let server = by_kind lib n n.kind (normalize_request_kind r ∙ k) switch in
    check_network_lem lib n.config (first_of-none (refuse-none _ (refuse-none _ server).1).1).0

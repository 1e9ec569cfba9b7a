-- ===== src/Nodes/Reading.antt =====
-- The checks before a write only read (internal/nodes/store.go).
use snell_sh.Common.{codes, Option, none, some, Text, refl}
use snell_sh.Common.Int.{ℤ}
use snell_sh.Database.{Error, invalid, query, raise_if, or_raise}
use snell_sh.Database.Reads.{
  Reads, query-Reads, or_raise-Reads, raise_if-Reads, optional_Reads, >>=-Reads,
}
use snell_sh.Nodes.Model.{Kind, Config, Readers, Tables}
use snell_sh.Nodes.Conflict.{check_pools, check_server_pools, check_conflict, check_backend}
use snell_sh.Nodes.Store.{get_node, raise_some, require_backend}

pub raise_some-Reads : (o : Option Text) → Reads (raise_some o)
unfolding Reads
raise_some-Reads none w = refl
raise_some-Reads (some m) w = refl

pub get_node-Reads : (id : Text) → Reads (get_node id)
unfolding get_node
get_node-Reads id = >>=-Reads (query _) _ (query-Reads _) (λ o. or_raise-Reads _ o _)

check_backend-Reads : (backend : Text) → Reads (check_backend backend)
unfolding check_backend
check_backend-Reads backend = >>=-Reads (query _) _ (query-Reads _) (λ usable. raise_if-Reads _ _ _)

pub require_backend-Reads : (k : Kind) (backend : Text) → Reads (require_backend k backend)
unfolding require_backend
require_backend-Reads k backend = optional_Reads _ _ (check_backend-Reads backend)

check_pools-Reads :
    (lib : Readers) (exclude : Text) (c : Config) → Reads (check_pools lib exclude c)
unfolding check_pools
check_pools-Reads lib exclude c =
    >>=-Reads (or_raise _ _) _ (or_raise-Reads Tables _ _)
      (λ p. >>=-Reads (query _) _ (query-Reads _) (λ met. raise_if-Reads _ _ _))

server_pools_Reads :
    (lib : Readers) (exclude : Text) (k : Kind) (c : Config)
    → Reads (check_server_pools lib exclude k c)
unfolding check_server_pools
server_pools_Reads lib exclude k c = optional_Reads _ _ (check_pools-Reads lib exclude c)

pub check_conflict-Reads :
    (lib : Readers) (exclude : Text) (k : Kind) (host : Text) (port : ℤ) (c : Config)
    → Reads (check_conflict lib exclude k host port c)
unfolding check_conflict
check_conflict-Reads lib exclude k host port c = >>=-Reads (query _) _ (query-Reads _) (λ met.
    >>=-Reads (raise_if met refusal) _ (raise_if-Reads Tables met refusal)
      (λ u. server_pools_Reads lib exclude k c))
  where
    refusal : Error
    refusal = invalid (codes "PORT_CONFLICT")

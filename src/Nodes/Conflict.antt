-- ===== src/Nodes/Conflict.antt =====
-- Which nodes cannot listen side by side: `protocols`, `protocolOverlap`, `checkConflict` and
-- `checkBackend` of internal/nodes/store.go.
use snell_sh.Common.{
  Bool, true, false, not, ◌&&◌, ◌||◌, Option, none, some, List, [], ◌∷◌, any, codes, Text, text_eq,
}
use snell_sh.Common.Int.{ℤ, leb_ℤ}
use snell_sh.Common.Dict.{Dict, lookup}
use snell_sh.AnyConnect.Cidr.Prefix.{Prefix, contains}
use snell_sh.Database.{Action, invalid, pure, raise_if, or_raise, ◌>>=◌, ◌>>◌, query}
use snell_sh.Nodes.Model.{
  Kind, snell, ss2022, anyconnect, Mode, tcp_only, udp_only, Config, Readers, NodeRow, ConfigRow,
  Tables,
}
use snell_sh.Nodes.Validate.{is_anyconnect}

pub data Protocol : Type 0 where
  tcp udp : Protocol

abbrev both : List Protocol
both = tcp ∷ udp ∷ []

abbrev by_mode : Mode → List Protocol
by_mode tcp_only = tcp ∷ []
by_mode udp_only = udp ∷ []
by_mode m = both

unfoldable pub protocols : Kind → Config → List Protocol
protocols anyconnect c = elim (c.udp_enabled) [ true ↦ both | false ↦ tcp ∷ [] ]
protocols ss2022 c = by_mode c.mode
protocols k c = tcp ∷ []

abbrev same_protocol : Protocol → Protocol → Bool
same_protocol tcp tcp = true
same_protocol udp udp = true
same_protocol p q = false

unfoldable pub protocol_overlap : Kind → Config → Kind → Config → Bool
protocol_overlap k c k' c' =
    any (λ left. any (λ right. same_protocol left right) (protocols k' c')) (protocols k c)

abbrev every_host : Text → Bool
every_host host = text_eq host (codes "0.0.0.0") || text_eq host (codes "::")

unfoldable pub hosts_meet : Text → Text → Bool
hosts_meet host other = every_host host || every_host other || text_eq host other

-- Whether a listener and a stored node want one port.
unfoldable pub port_clash : Kind → Text → ℤ → Config → NodeRow → Config → Bool
port_clash kind host port config other c =
    leb_ℤ other.listen_port port
    && leb_ℤ port other.listen_port
    && hosts_meet host other.listen_host
    && protocol_overlap other.kind c kind config

unfoldable pub pools_meet : Prefix → Option Prefix → Bool
pools_meet pool none = false
pools_meet pool (some existing) = contains existing pool.addr || contains pool existing.addr

-- Whether a pool of addresses meets that of a stored node.
unfoldable pub pool_clash : Readers → Prefix → NodeRow → Config → Bool
pool_clash lib pool other c =
    is_anyconnect other.kind && pools_meet pool (lib.read_prefix c.vpn_network)

-- Whether some row of `nodes JOIN node_configs`, but for that of `exclude`, passes a test.
abbrev pub join_test : (NodeRow → Config → Bool) → NodeRow → Option ConfigRow → Bool
join_test test n none = false
join_test test n (some c) = test n c.config

unfoldable pub any_node : (NodeRow → Config → Bool) → Text → Dict ConfigRow → Dict NodeRow → Bool
any_node test exclude configs [] = false
any_node test exclude configs ((id, n) ∷ m) =
    (not (text_eq id exclude) && join_test test n (lookup id configs))
    || any_node test exclude configs m

abbrev pub any_other : (NodeRow → Config → Bool) → Text → Tables → Bool
any_other test exclude t = any_node test exclude t.configs t.nodes

-- The second query, for a new server.
unfoldable pub check_pools : Readers → Text → Config → Action Tables (Unit {0})
check_pools lib exclude config = do
  pool ← or_raise (lib.read_prefix config.vpn_network) (invalid (codes "PREFIX"))
  met ← query (any_other (pool_clash lib pool) exclude)
  raise_if met (invalid (codes "POOL_CONFLICT"))

unfoldable pub check_server_pools : Readers → Text → Kind → Config → Action Tables (Unit {0})
check_server_pools lib exclude kind config = elim (is_anyconnect kind) [
  | true ↦ check_pools lib exclude config
  | false ↦ pure tt
]

unfoldable pub check_conflict : Readers → Text → Kind → Text → ℤ → Config → Action Tables (Unit {0})
check_conflict lib exclude kind host port config = do
  met ← query (any_other (port_clash kind host port config) exclude)
  raise_if met (invalid (codes "PORT_CONFLICT"))
  check_server_pools lib exclude kind config

abbrev is_backend : Kind → Bool
is_backend snell = true
is_backend ss2022 = true
is_backend k = false

-- Any error of the query gives the same message.
abbrev backend_kind : Option NodeRow → Bool
backend_kind none = false
backend_kind (some n) = is_backend n.kind

unfoldable pub check_backend : Text → Action Tables (Unit {0})
check_backend id = do
  usable ← query (λ t. backend_kind (lookup id t.nodes))
  raise_if (not usable) (invalid (codes "BACKEND"))

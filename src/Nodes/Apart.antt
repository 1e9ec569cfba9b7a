-- ===== src/Nodes/Apart.antt =====
-- Nodes that can run side by side: no two of them want one port of one host, and no two servers have
-- pools that meet (internal/nodes/store.go).
use snell_sh.Common.{
  ◌≡◌, refl, ◌⊎◌, inl, inr, Bool, false, not, ◌&&◌, ◌||◌, Option, none, some, [], ◌∷◌, Text,
  text_eq, text_eq_iff, arith, Bool-cases,
}
use snell_sh.Common.Int.{ℤ}
use snell_sh.Common.Dict.{Dict, lookup, insert, lookup-insert}
use snell_sh.AnyConnect.Cidr.Prefix.{Prefix}
use snell_sh.Nodes.Model.{Kind, Config, Readers, NodeRow, ConfigRow, Tables}
use snell_sh.Nodes.Validate.{is_anyconnect}
use snell_sh.Nodes.Conflict.{
  tcp, udp, protocols, protocol_overlap, hosts_meet, port_clash, pools_meet, any_node, join_test,
}

-- What a node or a request asks for.
pub record Wish : Type 0 where
  pub kind : Kind
  pub host : Text
  pub port : ℤ
  pub config : Config

abbrev pub wish_of : NodeRow → ConfigRow → Wish
wish_of n c = record {
  kind = n.kind;
  host = n.listen_host;
  port = n.listen_port;
  config = c.config;
}

abbrev pub same_pool : Option Prefix → Option Prefix → Bool
same_pool none o = false
same_pool (some p) o = pools_meet p o

-- Whether a wish cannot stand beside a stored node: their ports, or their pools.
abbrev pub port_test : Wish → NodeRow → Config → Bool
port_test x m c = port_clash x.kind x.host x.port x.config m c

abbrev pub pool_test : Readers → Wish → NodeRow → Config → Bool
pool_test lib x m c =
    is_anyconnect x.kind
    && is_anyconnect m.kind
    && same_pool (lib.read_prefix x.config.vpn_network) (lib.read_prefix c.vpn_network)

unfoldable pub clash : Readers → Wish → NodeRow → Config → Bool
clash lib x m c = port_test x m c || pool_test lib x m c

-- The same of rows that may be missing.
abbrev pub stored : (NodeRow → Config → Bool) → Option NodeRow → Option ConfigRow → Bool
stored test none o = false
stored test (some m) o = join_test test m o

abbrev pub rows_clash :
    Readers → Option NodeRow → Option ConfigRow → Option NodeRow → Option ConfigRow → Bool
rows_clash lib none c m d = false
rows_clash lib (some n) none m d = false
rows_clash lib (some n) (some c) m d = stored (clash lib (wish_of n c)) m d

-- Whether two different ids are those of nodes that clash.
unfoldable pub ids_clash : Readers → Text → Text → Tables → Bool
ids_clash lib i j t =
    not (text_eq i j)
    && rows_clash lib (lookup i t.nodes) (lookup i t.configs) (lookup j t.nodes)
        (lookup j t.configs)

-- No two nodes clash.
unfoldable pub Apart : Readers → Tables → Type 0
Apart lib t = (i j : Text) → ids_clash lib i j t ≡ false

pub any_node-stored :
    (test : NodeRow → Config → Bool) (exclude : Text) (configs : Dict ConfigRow)
    (rows : Dict NodeRow) (j : Text)
    → any_node test exclude configs rows ≡ false
    → text_eq j exclude ≡ false
    → stored test (lookup j rows) (lookup j configs) ≡ false
unfolding any_node lookup
any_node-stored test exclude configs [] j h ne = refl
any_node-stored test exclude configs ((i, n) ∷ rows) j h ne =
    ground (arith, text_eq_iff i j, any_node-stored test exclude configs rows j)

-- The overlap of protocols does not depend on the order.
protocols-cases :
    (k : Kind) (c : Config)
    → (protocols k c ≡ tcp ∷ []) ⊎ ((protocols k c ≡ udp ∷ []) ⊎ (protocols k c ≡ tcp ∷ udp ∷ []))
unfolding protocols
protocols-cases k c = ground arith

overlap_sym :
    (k k' : Kind) (c c' : Config) → protocol_overlap k c k' c' ≡ protocol_overlap k' c' k c
unfolding protocol_overlap
overlap_sym k k' c c' = ground (arith, protocols-cases k c, protocols-cases k' c')

hosts_sym : (h h' : Text) → hosts_meet h h' ≡ hosts_meet h' h
unfolding hosts_meet
hosts_sym h h' = ground (arith, text_eq_iff h h', text_eq_iff h' h)

port_sym :
    (n m : NodeRow) (c d : ConfigRow)
    → port_test (wish_of n c) m d.config ≡ port_test (wish_of m d) n c.config
unfolding port_clash
port_sym n m c d =
    ground
      (arith, hosts_sym n.listen_host m.listen_host, overlap_sym n.kind m.kind c.config d.config)

same_pool_sym : (o o' : Option Prefix) → same_pool o o' ≡ same_pool o' o
unfolding pools_meet
same_pool_sym o o' = ground arith

pool_sym :
    (lib : Readers) (n m : NodeRow) (c d : ConfigRow)
    → pool_test lib (wish_of n c) m d.config ≡ pool_test lib (wish_of m d) n c.config
pool_sym lib n m c d = ground (
  arith,
  same_pool_sym (lib.read_prefix c.config.vpn_network) (lib.read_prefix d.config.vpn_network),
)

clash_sym :
    (lib : Readers) (n m : NodeRow) (c d : ConfigRow)
    → clash lib (wish_of n c) m d.config ≡ clash lib (wish_of m d) n c.config
unfolding clash
clash_sym lib n m c d = rw (port_sym n m c d, pool_sym lib n m c d) refl

rows_swap :
    (lib : Readers) (n : NodeRow) (c : ConfigRow) (o : Option NodeRow) (p : Option ConfigRow)
    → rows_clash lib o p (some n) (some c) ≡ stored (clash lib (wish_of n c)) o p
rows_swap lib n c none p = refl
rows_swap lib n c (some m) none = refl
rows_swap lib n c (some m) (some d) = clash_sym lib m n d c

-- Rows of one node put in, if what they ask for clashes with no other node.
pub put_Apart :
    (lib : Readers) (id : Text) (n : NodeRow) (c : ConfigRow) (t t' : Tables)
    → t'.nodes ≡ insert id n t.nodes
    → t'.configs ≡ insert id c t.configs
    → ((j : Text)
        → text_eq j id ≡ false
        → stored (clash lib (wish_of n c)) (lookup j t.nodes) (lookup j t.configs) ≡ false)
    → Apart lib t
    → Apart lib t'
unfolding Apart ids_clash
put_Apart lib id n c t t' en ec free a i j =
    rw
      (
        en,
        ec,
        lookup-insert id i n t.nodes,
        lookup-insert id i c t.configs,
        lookup-insert id j n t.nodes,
        lookup-insert id j c t.configs,
      )
      (elim (Bool-cases (text_eq id i)) [
        | inl ei ↦ elim (Bool-cases (text_eq id j)) [
          | inl ej ↦ ground (arith, ei, ej, text_eq_iff id i, text_eq_iff id j, text_eq_iff i j)
          | inr ej ↦
              rw (ei, ej) (ground (arith, ei, ej, text_eq_iff id j, text_eq_iff j id, free j))
        ]
        | inr ei ↦ elim (Bool-cases (text_eq id j)) [
          | inl ej ↦
              rw (ei, ej, rows_swap lib n c (lookup i t.nodes) (lookup i t.configs))
                (ground (arith, ei, text_eq_iff id i, text_eq_iff i id, free i))
          | inr ej ↦ rw (ei, ej) (a i j)
        ]
      ])

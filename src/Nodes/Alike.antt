-- ===== src/Nodes/Alike.antt =====
-- What keeps nodes apart when rows go or change little, and what it means for the pools of two servers
-- (internal/nodes/store.go).
use snell_sh.Common.{
  ap, sym, ◌∙◌, true, ℕ, ◌≡◌, refl, inl, inr, Bool, false, not, ◌&&◌, ◌||◌, Option, none, some, [],
  Text, text_eq, arith, Bool-cases,
}
use snell_sh.Common.Dict.{lookup, erase, lookup-erase}
use snell_sh.AnyConnect.Cidr.Prefix.{Prefix, contains}
use snell_sh.AnyConnect.Cidr.Blocks.{disjoint}
use snell_sh.Nodes.Model.{Readers, NodeRow, ConfigRow, Tables}
use snell_sh.Nodes.Validate.{is_anyconnect}
use snell_sh.Nodes.Conflict.{port_clash, pools_meet}
use snell_sh.Nodes.Apart.{clash, rows_clash, ids_clash, Apart}

-- Rows that went.
pub erased_Apart :
    (lib : Readers) (id : Text) (t t' : Tables)
    → t'.nodes ≡ erase id t.nodes
    → t'.configs ≡ erase id t.configs
    → Apart lib t
    → Apart lib t'
unfolding Apart ids_clash
erased_Apart lib id t t' en ec a i j =
    rw
      (
        en,
        ec,
        lookup-erase id i t.nodes,
        lookup-erase id i t.configs,
        lookup-erase id j t.nodes,
        lookup-erase id j t.configs,
      )
      (elim (Bool-cases (text_eq id i)) [
        | inl ei ↦ ground (arith, ei)
        | inr ei ↦ elim (Bool-cases (text_eq id j)) [
          | inl ej ↦ rw (ei, ej) (no_other (lookup i t.nodes) (lookup i t.configs) (text_eq i j))
          | inr ej ↦ rw (ei, ej) (a i j)
        ]
      ])
  where
    no_other :
        (o : Option NodeRow) (p : Option ConfigRow) (b : Bool)
        → (not b && rows_clash lib o p none none) ≡ false
    no_other none p b = ground arith
    no_other (some n) none b = ground arith
    no_other (some n) (some c) b = ground arith

-- A node's row without what the tests do not read.
abbrev pub bare : Option NodeRow → Option NodeRow
bare none = none
bare (some n) = some (record n { desired_state = []; updated_at = [] })

rows_clash-bare :
    (lib : Readers) (o m : Option NodeRow) (p d : Option ConfigRow)
    → rows_clash lib o p m d ≡ rows_clash lib (bare o) p (bare m) d
unfolding clash port_clash
rows_clash-bare lib none m p d = refl
rows_clash-bare lib (some n) m none d = refl
rows_clash-bare lib (some n) none (some c) d = refl
rows_clash-bare lib (some n) (some m) (some c) none = refl
rows_clash-bare lib (some n) (some m) (some c) (some d) = refl

pub bare-Apart :
    (lib : Readers) (t t' : Tables)
    → ((i : Text) → bare (lookup i t'.nodes) ≡ bare (lookup i t.nodes))
    → t'.configs ≡ t.configs
    → Apart lib t
    → Apart lib t'
unfolding Apart ids_clash
bare-Apart lib t t' en ec a i j =
    ap (λ b. not (text_eq i j) && b)
      (rows_clash-bare lib (lookup i t'.nodes) (lookup j t'.nodes) (lookup i t'.configs)
          (lookup j t'.configs)
        ∙ rw (en i, en j, ec) refl
        ∙ sym (
            rows_clash-bare lib (lookup i t.nodes) (lookup j t.nodes) (lookup i t.configs)
              (lookup j t.configs)))
    ∙ a i j

-- No address is in the pools of two servers.
pub servers_disjoint :
    (lib : Readers) (t : Tables) (i j : Text) (n m : NodeRow) (c d : ConfigRow) (p q : Prefix)
    → Apart lib t
    → text_eq i j ≡ false
    → lookup i t.nodes ≡ some n
    → lookup i t.configs ≡ some c
    → lookup j t.nodes ≡ some m
    → lookup j t.configs ≡ some d
    → is_anyconnect n.kind ≡ true
    → is_anyconnect m.kind ≡ true
    → lib.read_prefix c.config.vpn_network ≡ some p
    → lib.read_prefix d.config.vpn_network ≡ some q
    → (x : ℕ) → contains p x ≡ true
    → contains q x ≡ false
unfolding Apart ids_clash clash pools_meet
servers_disjoint lib t i j n m c d p q a ne ni ci mj dj kn km rp rq x px =
    let no : (contains q p.addr || contains p q.addr) ≡ false =
      ground (arith, a i j, ne, ni, ci, mj, dj, kn, km, rp, rq) in
    disjoint p q x (ground (arith, no)) (ground (arith, no)) px

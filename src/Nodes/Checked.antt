-- ===== src/Nodes/Checked.antt =====
-- What the checks before a write find: `checkConflict` of internal/nodes/store.go.
use snell_sh.Common.{
  ◌≡◌, refl, sym, ap, ◌∙◌, ◌⊎◌, inl, inr, true, false, Option, none, some, Text, text_eq, arith,
  Bool-cases,
}
use snell_sh.Common.Dict.{lookup}
use snell_sh.AnyConnect.Cidr.Prefix.{Prefix}
use snell_sh.Database.{World, ok, query, raise_if, or_raise}
use snell_sh.Database.Steps.{>>=-Ran, query_ok, raise_if_ok, or_raise_ok}
use snell_sh.Nodes.Model.{Config, Readers, NodeRow, ConfigRow, Tables}
use snell_sh.Nodes.Validate.{is_anyconnect}
use snell_sh.Nodes.Conflict.{pool_clash, any_other, check_pools, check_server_pools, check_conflict}
use snell_sh.Nodes.Apart.{Wish, clash, stored, any_node-stored, port_test, pool_test}

check_pools_ok :
    (lib : Readers) (exclude : Text) (config : Config) (w v : World Tables)
    → check_pools lib exclude config w ≡ (ok tt, v)
    → (v.tables ≡ w.tables)
      × ((p : Prefix) × (lib.read_prefix config.vpn_network ≡ some p)
          × (any_other (pool_clash lib p) exclude w.tables ≡ false))
unfolding check_pools
check_pools_ok lib exclude config w v h =
    let read = >>=-Ran (or_raise (lib.read_prefix config.vpn_network) _) _ w h in
    let (e, w1) = or_raise_ok (lib.read_prefix config.vpn_network) _ w read.world read.first in
    let met = >>=-Ran (query _) _ read.world read.second in
    let (none_met, w2) = query_ok _ read.world met.world met.first in
    let (went_on, w3) = raise_if_ok met.value _ met.world v met.second in
    (
      ap (λ x. x.tables) w3 ∙ w2 ∙ ap (λ x. x.tables) w1,
      (
        read.value,
        e,
        ap (any_other (pool_clash lib read.value) exclude) (sym (ap (λ x. x.tables) w1))
            ∙ none_met
            ∙ went_on,
      ),
    )

-- The ports alone, and what is left to do.
check_ports_ok :
    (lib : Readers) (exclude : Text) (x : Wish) (w v : World Tables)
    → check_conflict lib exclude x.kind x.host x.port x.config w ≡ (ok tt, v)
    → (any_other (port_test x) exclude w.tables ≡ false)
      × ((u : World Tables) × (u.tables ≡ w.tables)
          × (check_server_pools lib exclude x.kind x.config u ≡ (ok tt, v)))
unfolding check_conflict
check_ports_ok lib exclude x w v h =
    let met = >>=-Ran (query _) _ w h in
    let (none_met, w1) = query_ok _ w met.world met.first in
    let go = >>=-Ran (raise_if met.value _) _ met.world met.second in
    let (went_on, w2) = raise_if_ok met.value _ met.world go.world go.first in
    (none_met ∙ went_on, (go.world, ap (λ x. x.tables) w2 ∙ w1, go.second))

stored-clash :
    (lib : Readers) (x : Wish) (o : Option NodeRow) (p : Option ConfigRow)
    → stored (port_test x) o p ≡ false
    → stored (pool_test lib x) o p ≡ false
    → stored (clash lib x) o p ≡ false
unfolding clash
stored-clash lib x none p h k = refl
stored-clash lib x (some m) none h k = refl
stored-clash lib x (some m) (some c) h k = rw (h, k) refl

no_server :
    (lib : Readers) (x : Wish) (o : Option NodeRow) (p : Option ConfigRow)
    → is_anyconnect x.kind ≡ false
    → stored (pool_test lib x) o p ≡ false
no_server lib x none p h = refl
no_server lib x (some m) none h = refl
no_server lib x (some m) (some c) h = rw h refl

pool_free :
    (lib : Readers) (x : Wish) (q : Prefix) (o : Option NodeRow) (p : Option ConfigRow)
    → lib.read_prefix x.config.vpn_network ≡ some q
    → stored (pool_clash lib q) o p ≡ false
    → stored (pool_test lib x) o p ≡ false
unfolding pool_clash
pool_free lib x q none p e h = refl
pool_free lib x q (some m) none e h = refl
pool_free lib x q (some m) (some c) e h = rw e (ground (arith, h))

-- A wish that passes the check clashes with no stored node but the excluded one.
pub check_conflict-clash :
    (lib : Readers) (exclude : Text) (x : Wish) (w v : World Tables)
    → check_conflict lib exclude x.kind x.host x.port x.config w ≡ (ok tt, v)
    → (v.tables ≡ w.tables)
      × ((j : Text)
          → (text_eq j exclude ≡ true)
            ⊎ (stored (clash lib x) (lookup j w.tables.nodes) (lookup j w.tables.configs) ≡ false))
unfolding check_server_pools
check_conflict-clash lib exclude x w v h =
    let (ports, (u, same, rest)) = check_ports_ok lib exclude x w v h in
    let by_ports : (j : Text)
        → text_eq j exclude ≡ false
        → stored (port_test x) (lookup j w.tables.nodes) (lookup j w.tables.configs) ≡ false =
      λ j ne. any_node-stored (port_test x) exclude w.tables.configs w.tables.nodes j ports ne in
    elim (Bool-cases (is_anyconnect x.kind)) [
      | inr k ↦
          let ended : u ≡ v = ground (arith, rest, k) in
          (
            ap (λ z. z.tables) (sym ended) ∙ same,
            λ j. elim (Bool-cases (text_eq j exclude)) [
              | inl e ↦ inl e
              | inr ne ↦ inr (stored-clash lib x _ _ (by_ports j ne) (no_server lib x _ _ k))
            ],
          )
      | inl k ↦
          let pools : check_pools lib exclude x.config u ≡ (ok tt, v) = ground (arith, rest, k) in
          let (same', (q, reads, met)) = check_pools_ok lib exclude x.config u v pools in
          let met' : any_other (pool_clash lib q) exclude w.tables ≡ false =
            ap (any_other (pool_clash lib q) exclude) (sym same) ∙ met in
          (
            same' ∙ same,
            λ j. elim (Bool-cases (text_eq j exclude)) [
              | inl e ↦ inl e
              | inr ne ↦ inr (
                  stored-clash lib x _ _ (by_ports j ne) (
                    pool_free lib x q _ _ reads (
                      any_node-stored (pool_clash lib q) exclude w.tables.configs w.tables.nodes j
                        met' ne)))
            ],
          )
    ]

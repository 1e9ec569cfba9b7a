-- ===== src/Firewall/Tests.antt =====
-- Runs on chains in memory for internal/firewall.
use snell_sh.Common.{
  ◌≡◌, ◌⊎◌, All, refl, true, false, some, List, [], ◌∷◌, ◌++◌, any, codes, Text, text_eq,
  if◌then◌else◌,
}
use snell_sh.Common.Decimal.{itoa}
use snell_sh.Firewall.Nft.{input, Rule, without}
use snell_sh.Firewall.Rules.{Desired, wanted, has_prefix, list_tagged, sync_tagged}
use snell_sh.Firewall.Count.{count, In}
use snell_sh.Firewall.Sync.{sync_tagged_lem}
use snell_sh.Firewall.Blocking.{
  blocked_rules, valid, breaks, node_prefix, blocked_prefix, set_blocked,
}
use snell_sh.Firewall.Blocked.{expected, IsReject, set_blocked_lem}
use snell_sh.Firewall.Table.{Table, empty, appended, memory}

abbrev both : List Text
both = codes "tcp" ∷ codes "udp" ∷ []

abbrev node : Text
node = codes "n1"

abbrev other : Text
other = codes "n2"

abbrev others_tag : Text
others_tag = codes "proxy-panel:n2:blocked:tcp:443"

-- Another node's rule, an old rule of the node, and a rule of the node for another port.
abbrev table : Table
table = record {
  incoming =
      appended (codes "proxy-panel:n1:blocked:tcp:80") []
        (appended (codes "proxy-panel:n1:blocked") [] (appended others_tag [] empty));
  outgoing = empty;
}

abbrev tcp_tag : Text
tcp_tag = codes "proxy-panel:n1:blocked:tcp:443"

succeeded : (set_blocked memory node 443 both true table).0 ≡ some tt
unfolding set_blocked itoa text_eq without has_prefix empty valid list_tagged sync_tagged
    blocked_rules
succeeded = refl

remaining : count tcp_tag (memory.rules input (set_blocked memory node 443 both true table).1) ≡ 1
unfolding set_blocked itoa text_eq without has_prefix empty valid list_tagged sync_tagged
    blocked_rules count
remaining = refl

set_blocked_lem_example :
    (valid node 443 both ≡ true)
    × (count tcp_tag (memory.rules input (set_blocked memory node 443 both true table).1)
        ≡ expected node 443 both true tcp_tag (count tcp_tag (memory.rules input table)))
    × All
        (λ (r : Rule). In r (memory.rules input table) ⊎ ((true ≡ true) × IsReject node 443 both r))
        (memory.rules input (set_blocked memory node 443 both true table).1)
set_blocked_lem_example = set_blocked_lem memory node tcp_tag 443 both true table succeeded

colonless : any breaks other ≡ false
colonless = refl

others_own : has_prefix (node_prefix other ++ codes ":") others_tag ≡ true
unfolding has_prefix
others_own = refl

abbrev one_wanted : Desired
one_wanted = (tcp_tag, []) ∷ []

synced : (sync_tagged memory input (blocked_prefix node) one_wanted table).0 ≡ some tt
unfolding sync_tagged text_eq without has_prefix empty list_tagged
synced = refl

prefixed : has_prefix (blocked_prefix node) tcp_tag ≡ true
unfolding has_prefix
prefixed = refl

sync_tagged_lem_example :
    count tcp_tag
      (memory.rules input (sync_tagged memory input (blocked_prefix node) one_wanted table).1)
    ≡ (if has_prefix (blocked_prefix node) tcp_tag
        then (if wanted tcp_tag one_wanted then 1 else 0)
        else count tcp_tag (memory.rules input table))
sync_tagged_lem_example =
    sync_tagged_lem memory input (blocked_prefix node) tcp_tag one_wanted table (refl, tt)
      (prefixed, tt) synced

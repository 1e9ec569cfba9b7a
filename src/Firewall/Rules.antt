-- ===== src/Firewall/Rules.antt =====
-- Keeping the panel's rules in internal/firewall/firewall.go. The rules to keep are a list of their
-- tags with the words of each rule, for Go's map, in the order in which the map happens to be walked.
use snell_sh.Common.{
  Bool, true, false, not, ◌&&◌, List, [], ◌∷◌, any, ◌==◌, Text, text_eq, if◌then◌else◌,
}
use snell_sh.Firewall.Nft.{Chain, Rule, Nft, Command, pure, ◌>>=◌, ◌>>◌}

-- `strings.HasPrefix`
unfoldable pub has_prefix : Text → Text → Bool
has_prefix [] t = true
has_prefix (c ∷ p) [] = false
has_prefix (c ∷ p) (d ∷ t) = (c == d) && has_prefix p t

abbrev pub Desired : Type 0
Desired = List (Text × List Text)

-- `_, ok := desired[tag]`
abbrev pub wanted : Text → Desired → Bool
wanted tag desired = any (λ d. text_eq (d.0) tag) desired

-- The filter of `listTagged`, whose lines are the rules with a comment and a handle.
unfoldable pub with_prefix : Text → List Rule → List Rule
unfolding has_prefix
with_prefix prefix [] = []
with_prefix prefix (r ∷ rs) =
    let rest = with_prefix prefix rs in if has_prefix prefix r.comment then r ∷ rest else rest

-- What the first loop does with a rule: a wanted tag that has not come yet is kept.
abbrev pub keeps : Desired → List Text → Rule → Bool
keeps desired existing r = wanted r.comment desired && not (any (text_eq r.comment) existing)

module _ {S : Type 0} (nft : Nft S) where
  unfoldable pub list_tagged : Chain → Text → Command S (List Rule)
  unfolding with_prefix
  list_tagged chain prefix = do rs ← nft.list_rules chain; pure (with_prefix prefix rs)

  -- The first loop of `syncTagged`: rules that are not wanted go, and so do repeated ones. It returns
  -- the tags that exist.
  unfoldable pub sweep_rules : Chain → Desired → List Text → List Rule → Command S (List Text)
  sweep_rules chain desired existing [] = pure existing
  sweep_rules chain desired existing (r ∷ rs) = elim (keeps desired existing r) [
    | true ↦ sweep_rules chain desired (r.comment ∷ existing) rs
    | false ↦ (do nft.delete_rule chain r.handle; sweep_rules chain desired existing rs)
  ]

  -- The second loop: the rules that are missing.
  unfoldable pub add_missing : Chain → List Text → Desired → Command S (Unit {0})
  add_missing chain existing [] = pure tt
  add_missing chain existing ((tag, words) ∷ desired) = elim (any (text_eq tag) existing) [
    | true ↦ add_missing chain existing desired
    | false ↦ (do nft.add_rule chain tag words; add_missing chain existing desired)
  ]

  unfoldable pub sync_tagged : Chain → Text → Desired → Command S (Unit {0})
  unfolding list_tagged sweep_rules add_missing
  sync_tagged chain prefix desired = do
    rs ← list_tagged chain prefix
    existing ← sweep_rules chain desired [] rs
    add_missing chain existing desired

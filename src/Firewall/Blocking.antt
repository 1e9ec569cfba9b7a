-- ===== src/Firewall/Blocking.antt =====
-- `SetBlocked`, `EnsureAccounting`, `RemoveAccounting` and `CleanupUnknownAccounting` of
-- internal/firewall/firewall.go, on Linux.
use snell_sh.Common.{
  ℕ, Bool, true, false, not, ◌&&◌, ◌||◌, ◌==◌, none, some, List, [], ◌∷◌, ◌++◌, any, all, ltb,
  length, codes, Text, text_eq, if◌then◌else◌,
}
use snell_sh.Common.Decimal.{itoa}
use snell_sh.Firewall.Nft.{
  Chain, input, output, Rule, Nft, Added, made, there_already, refused, Command, pure, ◌>>=◌, ◌>>◌,
}
use snell_sh.Firewall.Rules.{Desired, wanted, list_tagged, sync_tagged}

-- `strings.ContainsAny(nodeID, ":\r\n")`, by code: 58, 13 and 10.
abbrev pub breaks : ℕ → Bool
breaks c = (c == 58) || (c == 13) || (c == 10)

abbrev pub bad_id : Text → Bool
bad_id id = text_eq id [] || any breaks id

abbrev pub is_network : Text → Bool
is_network n = text_eq n (codes "tcp") || text_eq n (codes "udp")

-- `validate`: whether it returns no error.
unfoldable pub valid : Text → ℕ → List Text → Bool
unfolding text_eq
valid id port networks =
    not (bad_id id)
    && not (ltb port 1 || ltb 65535 port)
    && not (length networks == 0)
    && all is_network networks

-- `desired[tag] = words`: the words of a tag are always the same here.
abbrev pub put : Text → List Text → Desired → Desired
put tag words d = if wanted tag d then d else (tag, words) ∷ d

-- `"proxy-panel:" + nodeID + ":blocked:"`
abbrev pub node_prefix : Text → Text
node_prefix id = codes "proxy-panel:" ++ id

abbrev pub blocked_prefix : Text → Text
blocked_prefix id = node_prefix id ++ codes ":blocked:"

abbrev pub blocked_tag : Text → ℕ → Text → Text
blocked_tag id port network = blocked_prefix id ++ (network ++ (codes ":" ++ itoa port))

abbrev quote : Text → Text
quote t = codes "\"" ++ t ++ codes "\""

abbrev pub blocked_words : Text → ℕ → Text → List Text
blocked_words id port network =
    network
    ∷ codes "dport"
    ∷ itoa port
    ∷ codes "counter"
    ∷ codes "reject"
    ∷ codes "comment"
    ∷ quote (blocked_tag id port network)
    ∷ []

unfoldable pub blocked_rules : Text → ℕ → List Text → Desired
blocked_rules id port [] = []
blocked_rules id port (n ∷ ns) =
    put (blocked_tag id port n) (blocked_words id port n) (blocked_rules id port ns)

module _ {S : Type 0} (nft : Nft S) where
  -- An error other than `File exists` is returned.
  abbrev pub unless_there : (S → Added × S) → Command S (Unit {0})
  unless_there m s =
      let (a, s') = m s in
      elim a [ made ↦ (some tt, s') | there_already ↦ (some tt, s') | refused ↦ (none, s') ]

  unfoldable pub ensure : Command S (Unit {0})
  ensure = do
    unless_there (nft.add_table)
    unless_there (nft.add_chain input)
    unless_there (nft.add_chain output)

  -- The loop that deletes the rules whose tag passes a test.
  unfoldable pub delete_where : Chain → (Text → Bool) → List Rule → Command S (Unit {0})
  delete_where chain test [] = pure tt
  delete_where chain test (r ∷ rs) = elim (test r.comment) [
    | false ↦ delete_where chain test rs
    | true ↦ (do nft.delete_rule chain r.handle; delete_where chain test rs)
  ]

  unfoldable pub delete_tagged : Chain → Text → Command S (Unit {0})
  unfolding delete_where
  delete_tagged chain tag = do rs ← list_tagged nft chain tag; delete_where chain (text_eq tag) rs

  abbrev pub require : Bool → Command S (Unit {0})
  require b s = (if b then some tt else none, s)

  unfoldable pub set_blocked : Text → ℕ → List Text → Bool → Command S (Unit {0})
  unfolding ensure delete_tagged
  set_blocked id port networks blocked = do
    require (valid id port networks)
    ensure
    delete_tagged input (node_prefix id ++ codes ":blocked")
    sync_tagged nft input (blocked_prefix id)
        (if blocked then blocked_rules id port networks else [])

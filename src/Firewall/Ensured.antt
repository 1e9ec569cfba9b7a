-- ===== src/Firewall/Ensured.antt =====
-- `ensure` of internal/firewall/firewall.go leaves the rules of every chain as they were.
use snell_sh.Common.{◌≡◌, ◌∙◌, Option, none, some}
use snell_sh.Firewall.Nft.{
  Chain, input, output, Nft, Added, made, there_already, refused, Command, and_then, ◌>>◌,
}
use snell_sh.Firewall.Blocking.{ensure, unless_there}

module _ {S : Type 0} (nft : Nft S) (c : Chain) where
  abbrev Keeps : {A : Type 0} → Command S A → Type 0
  Keeps m = (s : S) → nft.rules c (m s).1 ≡ nft.rules c s

  unless_there-Keeps :
      (m : S → Added × S)
      → ((s : S) → nft.rules c (m s).1 ≡ nft.rules c s)
      → Keeps (unless_there nft m)
  unless_there-Keeps m k s = go (m s).0 (m s).1 (k s)
    where
      go :
          (a : Added) (s' : S)
          → nft.rules c s' ≡ nft.rules c s
          → nft.rules c
              (elim a as (λ _. Option (Unit {0}) × S) [
                | made ↦ (some tt, s')
                | there_already ↦ (some tt, s')
                | refused ↦ (none, s')
              ]).1
            ≡ nft.rules c s
      go made s' e = e
      go there_already s' e = e
      go refused s' e = e

  then-Keeps : (m k : Command S (Unit {0})) → Keeps m → Keeps k → Keeps (m >> k)
  then-Keeps m k a b s = go (m s).0 (m s).1 (a s)
    where
      go :
          (o : Option (Unit {0})) (s' : S)
          → nft.rules c s' ≡ nft.rules c s
          → nft.rules c (and_then (λ _. k) (o, s')).1 ≡ nft.rules c s
      go none s' e = e
      go (some u) s' e = b s' ∙ e

  pub ensure-Keeps : Keeps (ensure nft)
  unfolding ensure
  ensure-Keeps =
      then-Keeps (unless_there nft nft.add_table) _
        (unless_there-Keeps nft.add_table (nft.same_after_table c))
        (then-Keeps (unless_there nft (nft.add_chain input))
          (unless_there nft (nft.add_chain output))
          (unless_there-Keeps (nft.add_chain input) (nft.same_after_chain c input))
          (unless_there-Keeps (nft.add_chain output) (nft.same_after_chain c output)))

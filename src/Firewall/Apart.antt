-- ===== src/Firewall/Apart.antt =====
-- Rules of different nodes in internal/firewall/firewall.go: one node's blocking leaves the others' rules.
use snell_sh.Common.{
  ℕ, ◌≡◌, ◌≢◌, refl, ◌∙◌, Bool, true, false, some, List, [], ◌∷◌, ◌++◌, any, codes, Text, text_eq,
  arith, Bool-cases, inl, inr,
}
use snell_sh.Firewall.Nft.{input, Nft}
use snell_sh.Firewall.Rules.{has_prefix}
use snell_sh.Firewall.Count.{count}
use snell_sh.Firewall.Blocking.{breaks, valid, node_prefix, blocked_prefix, set_blocked}
use snell_sh.Firewall.Blocked.{set_blocked_lem}

-- What ends at the first colon is told by the text.
same_head :
    (a b x y t : Text)
    → any breaks a ≡ false
    → any breaks b ≡ false
    → has_prefix (a ++ 58 ∷ x) t ≡ true
    → has_prefix (b ++ 58 ∷ y) t ≡ true
    → a ≡ b
unfolding has_prefix
same_head [] [] x y t na nb p q = refl
same_head [] (d ∷ b) x y [] na nb p q = absurd (ground (arith, p))
same_head [] (d ∷ b) x y (e ∷ t) na nb p q = absurd (ground (arith, p, q, nb))
same_head (c ∷ a) [] x y [] na nb p q = absurd (ground (arith, p))
same_head (c ∷ a) [] x y (e ∷ t) na nb p q = absurd (ground (arith, p, q, na))
same_head (c ∷ a) (d ∷ b) x y [] na nb p q = absurd (ground (arith, p))
same_head (c ∷ a) (d ∷ b) x y (e ∷ t) na nb p q = ground (arith, p, q, na, nb, same_head a b x y t)

same_node :
    (p a b x y t : Text)
    → any breaks a ≡ false
    → any breaks b ≡ false
    → has_prefix (p ++ (a ++ 58 ∷ x)) t ≡ true
    → has_prefix (p ++ (b ++ 58 ∷ y)) t ≡ true
    → a ≡ b
unfolding has_prefix
same_node [] a b x y t na nb h k = same_head a b x y t na nb h k
same_node (c ∷ p) a b x y [] na nb h k = absurd (ground (arith, h))
same_node (c ∷ p) a b x y (d ∷ t) na nb h k =
    same_node p a b x y t na nb (ground (arith, h)) (ground (arith, k))

prefix_itself : (s t : Text) → text_eq s t ≡ true → has_prefix s t ≡ true
unfolding has_prefix text_eq
prefix_itself [] t e = refl
prefix_itself (c ∷ s) [] e = absurd (ground (arith, e))
prefix_itself (c ∷ s) (d ∷ t) e = ground (arith, e, prefix_itself s t)

valid_id :
    (id : Text) (port : ℕ) (networks : List Text)
    → valid id port networks ≡ true
    → any breaks id ≡ false
unfolding valid
valid_id id port networks v = ground (arith, v)

-- Blocking or unblocking a node without an error leaves in the input chain, for every tag of another
-- node whose id holds no colon and no line break, as many rules as there were: its counters and its
-- blocking stay.
pub set_blocked-other :
    {S : Type 0} (nft : Nft S) (id other t : Text) (port : ℕ) (networks : List Text)
    (blocked : Bool) (s : S)
    → (set_blocked nft id port networks blocked s).0 ≡ some tt
    → any breaks other ≡ false
    → other ≢ id
    → has_prefix (node_prefix other ++ codes ":") t ≡ true
    → count t (nft.rules input (set_blocked nft id port networks blocked s).1)
      ≡ count t (nft.rules input s)
set_blocked-other nft id other t port networks blocked s h free different p =
    let (v, after, _) = set_blocked_lem nft id t port networks blocked s h in
    let free_id : any breaks id ≡ false = valid_id id port networks v in
    let not_new : has_prefix (blocked_prefix id) t ≡ false =
      elim (Bool-cases (has_prefix (blocked_prefix id) t)) [
        | inr e ↦ e
        | inl e ↦ absurd (
            different
              (same_node (codes "proxy-panel:") other id [] (codes "blocked:") t free free_id p e))
      ] in
    let not_old : text_eq (node_prefix id ++ codes ":blocked") t ≡ false =
      elim (Bool-cases (text_eq (node_prefix id ++ codes ":blocked") t)) [
        | inr e ↦ e
        | inl e ↦ absurd (
            different (
              same_node (codes "proxy-panel:") other id [] (codes "blocked") t free free_id p
                (prefix_itself _ t e)))
      ] in
    after ∙ ground (arith, not_new, not_old)

-- ===== src/Firewall/Deleted.antt =====
-- `deleteTagged` of internal/firewall/firewall.go: the rules of a chain after it, counted by their tags.
use mathlib.Core.Path.{subst}
use snell_sh.Common.{
  ◌+◌, ◌≡◌, refl, sym, ap, ◌∙◌, inl, inr, Bool, true, Option, some, List, [], ◌∷◌, Text, text_eq,
  text_eq_iff, if◌then◌else◌, arith, Bool-cases,
}
use snell_sh.Firewall.Nft.{Chain, Rule, Nft}
use snell_sh.Firewall.Rules.{has_prefix, with_prefix, list_tagged}
use snell_sh.Firewall.Count.{
  count, count-without, count-with_prefix, Ahead, Ahead-kept, Ahead-without, Ahead-with_prefix,
}
use snell_sh.Firewall.Blocking.{delete_where, delete_tagged}

has_prefix_self : (t : Text) → has_prefix t t ≡ true
unfolding has_prefix
has_prefix_self [] = refl
has_prefix_self (c ∷ t) = ground (arith, has_prefix_self t)

module _ {S : Type 0} (nft : Nft S) (c : Chain) where
  delete_where_lem :
      (t : Text) (test : Text → Bool) (rs : List Rule) (s : S)
      → Ahead rs (nft.rules c s)
      → (delete_where nft c test rs s).0 ≡ some tt
      → count t (nft.rules c (delete_where nft c test rs s).1) + (if test t then count t rs else 0)
        ≡ count t (nft.rules c s)
  unfolding delete_where count
  delete_where_lem t test [] s a h = ground arith
  delete_where_lem t test (r ∷ rs) s a h = elim (Bool-cases (test r.comment)) [
    | inl k ↦ elim (nft.deleted c r.handle s) [
      | inl f ↦ absurd (ground (arith, h, k, f))
      | inr (s', d, e) ↦
          let step : delete_where nft c test (r ∷ rs) s ≡ delete_where nft c test rs s' =
            ground (arith, k, d) in
          let rest =
            delete_where_lem t test rs s' (subst (Ahead rs) (sym e) (Ahead-without a))
              (ap (λ (x : Option (Unit {0}) × S). x.0) (sym step) ∙ h) in
          let fewer : (if text_eq r.comment t then 1 else 0) + count t (nft.rules c s')
              ≡ count t (nft.rules c s) =
            ap (λ (rs : List Rule). (if text_eq r.comment t then 1 else 0) + count t rs) e
            ∙ count-without t r (nft.rules c s) (nft.numbered c s) a.there.0 in
          rw step (ground (arith, rest, fewer, k, text_eq_iff r.comment t))
    ]
    | inr k ↦
        let step : delete_where nft c test (r ∷ rs) s ≡ delete_where nft c test rs s =
          ground (arith, k) in
        let rest =
          delete_where_lem t test rs s (Ahead-kept a)
            (ap (λ (x : Option (Unit {0}) × S). x.0) (sym step) ∙ h) in
        rw step (ground (arith, rest, k, text_eq_iff r.comment t))
  ]

  pub delete_tagged_lem :
      (t tag : Text) (s : S)
      → (delete_tagged nft c tag s).0 ≡ some tt
      → count t (nft.rules c (delete_tagged nft c tag s).1)
        ≡ (if text_eq tag t then 0 else count t (nft.rules c s))
  unfolding delete_tagged list_tagged
  delete_tagged_lem t tag s h = elim (nft.listed c s) [
    | inl f ↦ absurd (ground (arith, h, f))
    | inr l ↦
        let now : List Rule = nft.rules c s in
        let step : delete_tagged nft c tag s
            ≡ delete_where nft c (text_eq tag) (with_prefix tag now) s =
          ground (arith, l) in
        let rest =
          delete_where_lem t (text_eq tag) (with_prefix tag now) s
            (Ahead-with_prefix tag now (nft.numbered c s))
            (ap (λ (x : Option (Unit {0}) × S). x.0) (sym step) ∙ h) in
        rw step (
          ground (arith, rest, count-with_prefix t tag now, text_eq_iff tag t, has_prefix_self tag))
  ]

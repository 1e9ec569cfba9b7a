-- ===== src/Firewall/Count.antt =====
-- Counting the rules of a chain of internal/firewall/firewall.go by their tags, and the rules that a loop
-- still has ahead.
use mathlib.Core.Path.{subst}
use snell_sh.Common.{
  ℕ, ◌+◌, ◌≡◌, ◌≢◌, refl, sym, ap, ◌∙◌, ◌⊎◌, inl, inr, List, [], ◌∷◌, ◌++◌, All, All-map, ◌==◌,
  Text, text_eq, text_eq_iff, if◌then◌else◌, arith, if-cases,
}
use snell_sh.Firewall.Nft.{Rule, without, IsNumbered}
use snell_sh.Firewall.Rules.{has_prefix, with_prefix}

-- How many rules have a tag.
unfoldable pub count : Text → List Rule → ℕ
count t [] = 0
count t (r ∷ rs) = (if text_eq r.comment t then 1 else 0) + count t rs

pub count-append : (t : Text) (rs qs : List Rule) → count t (rs ++ qs) ≡ count t rs + count t qs
unfolding count
count-append t [] qs = omega arith
count-append t (r ∷ rs) qs = omega (arith, count-append t rs qs)

pub count-with_prefix :
    (t prefix : Text) (rs : List Rule)
    → count t (with_prefix prefix rs) ≡ (if has_prefix prefix t then count t rs else 0)
unfolding count with_prefix
count-with_prefix t prefix [] = ground arith
count-with_prefix t prefix (r ∷ rs) =
    ground (arith, count-with_prefix t prefix rs, text_eq_iff r.comment t)

-- A rule is in a list.
abbrev pub In : Rule → List Rule → Type 0
In r [] = ⊥
In r (q ∷ rs) = (q ≡ r) ⊎ In r rs

pub All-In : (P : Rule → Type 0) (r : Rule) (rs : List Rule) → All P rs → In r rs → P r
All-In P r [] a m = absurd m
All-In P r (q ∷ rs) a (inl e) = subst P e a.0
All-In P r (q ∷ rs) a (inr m) = All-In P r rs a.1 m

pub All-without : (P : Rule → Type 0) (h : ℕ) (rs : List Rule) → All P rs → All P (without h rs)
unfolding without
All-without P h [] a = tt
All-without P h (r ∷ rs) a =
    if-cases (All P) (r.handle == h) (λ _. All-without P h rs a.1)
      (λ _. (a.0, All-without P h rs a.1))

pub without-other :
    (h : ℕ) (rs : List Rule) → All (λ (q : Rule). q.handle ≢ h) rs → without h rs ≡ rs
unfolding without
without-other h [] a = refl
without-other h (r ∷ rs) a = ground (arith, without-other h rs a.1, a.0)

pub count-without :
    (t : Text) (r : Rule) (rs : List Rule)
    → IsNumbered rs
    → In r rs
    → (if text_eq r.comment t then 1 else 0) + count t (without r.handle rs) ≡ count t rs
unfolding count without IsNumbered
count-without t r [] n m = absurd m
count-without t r (q ∷ rs) n (inl e) =
    let same : without q.handle rs ≡ rs = without-other q.handle rs n.0 in ground (arith, same, e)
count-without t r (q ∷ rs) n (inr m) =
    let other : r.handle ≢ q.handle = All-In (λ (p : Rule). p.handle ≢ q.handle) r rs n.0 m in
    ground (arith, count-without t r rs n.1 m, other)

-- Rules that are in a chain still are when a rule of another handle goes.
pub In-without :
    (r q : Rule) (rs : List Rule) → q.handle ≢ r.handle → In q rs → In q (without r.handle rs)
unfolding without
In-without r q [] d m = m
In-without r q (p ∷ rs) d (inl e) =
    if-cases (In q) (p.handle == r.handle)
      (λ h. absurd (d (sym (ap (λ (x : Rule). x.handle) e) ∙ ground (arith, h)))) (λ _. inl e)
In-without r q (p ∷ rs) d (inr m) =
    let rest : In q (without r.handle rs) = In-without r q rs d m in
    if-cases (In q) (p.handle == r.handle) (λ _. rest) (λ _. inr rest)

-- What is still to be walked: rules of the chain, with different handles.
pub record Ahead (rs now : List Rule) : Type 0 where
  pub numbered : IsNumbered rs
  pub there : All (λ (r : Rule). In r now) rs

pub Ahead-kept : {r : Rule} {rs now : List Rule} → Ahead (r ∷ rs) now → Ahead rs now
unfolding IsNumbered
Ahead-kept a = record { numbered = a.numbered.1; there = a.there.1 }

pub All-both :
    (P Q R : Rule → Type 0)
    → ((r : Rule) → P r → Q r → R r)
    → (rs : List Rule) → All P rs
    → All Q rs
    → All R rs
All-both P Q R f [] p q = tt
All-both P Q R f (r ∷ rs) p q = (f r p.0 q.0, All-both P Q R f rs p.1 q.1)

pub Ahead-without :
    {r : Rule} {rs now : List Rule} → Ahead (r ∷ rs) now → Ahead rs (without r.handle now)
unfolding IsNumbered
Ahead-without {r} {rs} {now} a = record {
  numbered = a.numbered.1;
  there =
      All-both (λ q. q.handle ≢ r.handle) (λ q. In q now) (λ q. In q (without r.handle now))
        (λ q d m. In-without r q now d m) rs a.numbered.0 a.there.1;
}

pub All-with_prefix :
    (P : Rule → Type 0) (prefix : Text) (rs : List Rule) → All P rs → All P (with_prefix prefix rs)
unfolding with_prefix
All-with_prefix P prefix [] a = tt
All-with_prefix P prefix (r ∷ rs) a =
    if-cases (All P) (has_prefix prefix r.comment) (λ _. (a.0, All-with_prefix P prefix rs a.1))
      (λ _. All-with_prefix P prefix rs a.1)

pub with_prefix-IsNumbered :
    (prefix : Text) (rs : List Rule) → IsNumbered rs → IsNumbered (with_prefix prefix rs)
unfolding with_prefix IsNumbered
with_prefix-IsNumbered prefix [] n = tt
with_prefix-IsNumbered prefix (r ∷ rs) n =
    if-cases IsNumbered (has_prefix prefix r.comment)
      (λ _. (
        All-with_prefix (λ (q : Rule). q.handle ≢ r.handle) prefix rs n.0,
        with_prefix-IsNumbered prefix rs n.1,
      ))
      (λ _. with_prefix-IsNumbered prefix rs n.1)

pub All-In-self : (rs : List Rule) → All (λ r. In r rs) rs
All-In-self [] = tt
All-In-self (r ∷ rs) =
    (inl refl, All-map (λ q. In q rs) (λ q. In q (r ∷ rs)) (λ q m. inr m) rs (All-In-self rs))

pub Ahead-with_prefix :
    (prefix : Text) (now : List Rule) → IsNumbered now → Ahead (with_prefix prefix now) now
Ahead-with_prefix prefix now n = record {
  numbered = with_prefix-IsNumbered prefix now n;
  there = All-with_prefix (λ r. In r now) prefix now (All-In-self now);
}

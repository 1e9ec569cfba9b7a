-- ===== src/Firewall/Sync.antt =====
-- `syncTagged` of internal/firewall/firewall.go: the rules of a chain after it, counted by their tags.
use mathlib.Core.Path.{subst}
use snell_sh.Common.{
  ◌+◌, ◌≡◌, sym, ap, ◌∙◌, inl, inr, Bool, true, false, not, ◌&&◌, ◌||◌, Option, some, List, [], ◌∷◌,
  any, All, ltb, Text, text_eq, text_eq_iff, if◌then◌else◌, arith, Bool-cases, Option-cases,
}
use snell_sh.Firewall.Nft.{Chain, Rule, Nft, and_then, ◌>>=◌}
use snell_sh.Firewall.Rules.{
  has_prefix, Desired, wanted, with_prefix, keeps, list_tagged, sweep_rules, add_missing,
  sync_tagged,
}
use snell_sh.Firewall.Count.{
  count, count-append, count-with_prefix, count-without, Ahead-kept, Ahead-without,
  Ahead-with_prefix, Ahead,
}

-- A tag that is wanted, has not come yet, and comes among the rules.
abbrev arrives : Text → Desired → List Text → List Rule → Bool
arrives t desired existing rs =
    wanted t desired && not (any (text_eq t) existing) && ltb 0 (count t rs)

module _ {S : Type 0} (nft : Nft S) (c : Chain) (desired : Desired) where
  -- The chain after the first loop, whose rest was `rs` and whose chain was `now`.
  record Swept (t : Text) (existing : List Text) (rs now : List Rule) (after : List Text) (s : S)
      : Type 0 where
    rules_left :
        count t (nft.rules c s) + count t rs
        ≡ count t now + (if arrives t desired existing rs then 1 else 0)
    known :
        any (text_eq t) after
        ≡ (any (text_eq t) existing || (wanted t desired && ltb 0 (count t rs)))

  wanted_same : (t u : Text) → text_eq u t ≡ true → wanted u desired ≡ wanted t desired
  wanted_same t u e = ap (λ (v : Text). wanted v desired) ((text_eq_iff u t).0 e)

  Swept-kept :
      (t : Text) (existing : List Text) (r : Rule) (rs now : List Rule) (after : List Text) (s : S)
      → keeps desired existing r ≡ true
      → Swept t (r.comment ∷ existing) rs now after s
      → Swept t existing (r ∷ rs) now after s
  unfolding count
  Swept-kept t existing r rs now after s k rest = record {
    rules_left =
        ground (arith, k, rest.rules_left, text_eq_iff r.comment t, text_eq_iff t r.comment);
    known = ground (arith, k, rest.known, text_eq_iff r.comment t, text_eq_iff t r.comment);
  }

  Swept-deleted :
      (t : Text) (existing : List Text) (r : Rule) (rs now fewer : List Rule) (after : List Text)
      (s : S)
      → keeps desired existing r ≡ false
      → (if text_eq r.comment t then 1 else 0) + count t fewer ≡ count t now
      → Swept t existing rs fewer after s
      → Swept t existing (r ∷ rs) now after s
  unfolding count
  Swept-deleted t existing r rs now fewer after s k e rest = record {
    rules_left = ground (arith, k, e, rest.rules_left, text_eq_iff r.comment t);
    known = ground (arith, k, e, rest.known, text_eq_iff r.comment t);
  }

  sweep_rules_lem :
      (t : Text) (existing : List Text) (rs : List Rule) (s : S) (after : List Text)
      → Ahead rs (nft.rules c s)
      → (sweep_rules nft c desired existing rs s).0 ≡ some after
      → Swept t existing rs (nft.rules c s) after (sweep_rules nft c desired existing rs s).1
  unfolding sweep_rules count
  sweep_rules_lem t existing [] s after a h = record {
    rules_left = ground (arith, h);
    known = ground (arith, h);
  }
  sweep_rules_lem t existing (r ∷ rs) s after a h = elim (Bool-cases (keeps desired existing r)) [
    | inl k ↦
        let step : sweep_rules nft c desired existing (r ∷ rs) s
            ≡ sweep_rules nft c desired (r.comment ∷ existing) rs s =
          ground (arith, k) in
        let rest : Swept t (r.comment ∷ existing) rs (nft.rules c s) after
            (sweep_rules nft c desired (r.comment ∷ existing) rs s).1 =
          sweep_rules_lem t (r.comment ∷ existing) rs s after (Ahead-kept a)
            (ap (λ (x : Option (List Text) × S). x.0) (sym step) ∙ h) in
        rw step (Swept-kept t existing r rs (nft.rules c s) after _ k rest)
    | inr k ↦ elim (nft.deleted c r.handle s) [
      | inl f ↦ absurd (ground (arith, h, k, f))
      | inr (s', d, e) ↦
          let step : sweep_rules nft c desired existing (r ∷ rs) s
              ≡ sweep_rules nft c desired existing rs s' =
            ground (arith, k, d) in
          let rest : Swept t existing rs (nft.rules c s') after
              (sweep_rules nft c desired existing rs s').1 =
            sweep_rules_lem t existing rs s' after (subst (Ahead rs) (sym e) (Ahead-without a))
              (ap (λ (x : Option (List Text) × S). x.0) (sym step) ∙ h) in
          let fewer : (if text_eq r.comment t then 1 else 0) + count t (nft.rules c s')
              ≡ count t (nft.rules c s) =
            ap (λ (rs : List Rule). (if text_eq r.comment t then 1 else 0) + count t rs) e
            ∙ count-without t r (nft.rules c s) (nft.numbered c s) a.there.0 in
          rw step
            (Swept-deleted t existing r rs (nft.rules c s) (nft.rules c s') after _ k fewer rest)
    ]
  ]

wanted-has_prefix :
    (prefix t : Text) (desired : Desired)
    → All (λ (d : Text × List Text). has_prefix prefix d.0 ≡ true) desired
    → wanted t desired ≡ true
    → has_prefix prefix t ≡ true
wanted-has_prefix prefix t [] p h = absurd (ground (arith, h))
wanted-has_prefix prefix t (d ∷ desired) p h =
    ground (arith, h, p.0, wanted-has_prefix prefix t desired p.1, text_eq_iff d.0 t)

-- The keys of Go's map: no tag stands twice.
abbrev pub HasKeys : Desired → Type 0
HasKeys [] = Unit
HasKeys (d ∷ ds) = (wanted d.0 ds ≡ false) × HasKeys ds

module _ {S : Type 0} (nft : Nft S) (c : Chain) where
  add_missing_lem :
      (t : Text) (existing : List Text) (desired : Desired) (s : S)
      → HasKeys desired
      → (add_missing nft c existing desired s).0 ≡ some tt
      → count t (nft.rules c (add_missing nft c existing desired s).1)
        ≡ count t (nft.rules c s)
          + (if wanted t desired && not (any (text_eq t) existing) then 1 else 0)
  unfolding add_missing count
  add_missing_lem t existing [] s k h = ground arith
  add_missing_lem t existing ((tag, words) ∷ desired) s k h =
      elim (Bool-cases (any (text_eq tag) existing)) [
        | inl e ↦ ground (arith, h, e, add_missing_lem t existing desired s k.1, text_eq_iff tag t)
        | inr e ↦ elim (nft.added c tag words s) [
          | inl f ↦ absurd (ground (arith, h, e, f))
          | inr (i, s', d, q) ↦ ground (
            arith,
            h,
            e,
            d,
            q,
            k.0,
            add_missing_lem t existing desired s' k.1,
            count-append t (nft.rules c s)
                (record { comment = tag; words = words; handle = i } ∷ []),
            text_eq_iff tag t,
          )
        ]
      ]

  -- The two loops over the listed rules.
  abbrev both_loops : Text → Desired → S → Option (Unit {0}) × S
  both_loops prefix desired s =
      (sweep_rules nft c desired [] (with_prefix prefix (nft.rules c s)) >>= λ existing.
      add_missing nft c existing desired)
        s

  both_loops_lem :
      (prefix t : Text) (desired : Desired) (s : S)
      → HasKeys desired
      → All (λ (d : Text × List Text). has_prefix prefix d.0 ≡ true) desired
      → (both_loops prefix desired s).0 ≡ some tt
      → count t (nft.rules c (both_loops prefix desired s).1) ≡ (
          if has_prefix prefix t
          then (if wanted t desired then 1 else 0)
          else count t (nft.rules c s))
  both_loops_lem prefix t desired s k p h =
      let now : List Rule = nft.rules c s in
      let first = sweep_rules nft c desired [] (with_prefix prefix now) s in
      elim (Option-cases first.0) [
        | inl e ↦ absurd (ground (arith, h, e))
        | inr (existing, e) ↦
            let step : both_loops prefix desired s ≡ add_missing nft c existing desired first.1 =
              ap
                (λ (o : Option (List Text)).
                  and_then (λ ex. add_missing nft c ex desired) (o, first.1))
                e in
            let swept : Swept nft c desired t [] (with_prefix prefix now) now existing first.1 =
              sweep_rules_lem nft c desired t [] (with_prefix prefix now) s existing
                (Ahead-with_prefix prefix now (nft.numbered c s)) e in
            rw step (
              add_missing_lem t existing desired first.1 k
                (ap (λ (x : Option (Unit {0}) × S). x.0) (sym step) ∙ h)
              ∙ ground (
                arith,
                swept.rules_left,
                swept.known,
                count-with_prefix t prefix now,
                wanted-has_prefix prefix t desired p,
              ))
      ]

  -- A sync that returns no error leaves exactly the desired rules of its prefix, each once, and
  -- leaves the number of rules of every other tag, if the desired tags are different and all have the
  -- prefix: rules of other nodes and of other kinds stay.
  pub sync_tagged_lem :
      (prefix t : Text) (desired : Desired) (s : S)
      → HasKeys desired
      → All (λ (d : Text × List Text). has_prefix prefix d.0 ≡ true) desired
      → (sync_tagged nft c prefix desired s).0 ≡ some tt
      → count t (nft.rules c (sync_tagged nft c prefix desired s).1) ≡ (
          if has_prefix prefix t
          then (if wanted t desired then 1 else 0)
          else count t (nft.rules c s))
  unfolding sync_tagged list_tagged
  sync_tagged_lem prefix t desired s k p h = elim (nft.listed c s) [
    | inl f ↦ absurd (ground (arith, h, f))
    | inr l ↦
        let step : sync_tagged nft c prefix desired s ≡ both_loops prefix desired s =
          ground (arith, l) in
        rw step (
          both_loops_lem prefix t desired s k p
            (ap (λ (x : Option (Unit {0}) × S). x.0) (sym step) ∙ h))
  ]

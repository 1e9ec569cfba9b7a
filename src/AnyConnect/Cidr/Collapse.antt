-- ===== src/AnyConnect/Cidr/Collapse.antt =====
-- `collapsePrefixes` and `ParseChinaCIDRs` of internal/anyconnect/network.go: the addresses that the
-- routes cover.
use snell_sh.Common.{
  ℕ, ◌-◌, ◌^◌, ◌≤◌, ◌<◌, ◌≡◌, refl, sym, ap, ◌∙◌, Bool, ◌&&◌, ◌||◌, List, [], ◌∷◌, inl, inr, arith,
  ltb, leb, ◌==◌, any, All, elim-cases, any-append, All-append, pow2_pos,
}
use snell_sh.Common.Sort.{Ascending}
use snell_sh.AnyConnect.Cidr.Prefix.{Prefix, size, contains, covers}
use snell_sh.AnyConnect.Cidr.Blocks.{IsBlock}
use snell_sh.AnyConnect.Cidr.Cover.{range_to_prefixes-Tiles, contains-interval}
use snell_sh.AnyConnect.Cidr.Routes.{
  Interval, interval, joined_from, intervals, interval_prefixes, collapse, normalize, by_address,
}
use snell_sh.AnyConnect.Cidr.Normal.{covers-normalize, normalize-IsBlock, normalize-Ascending}

-- An interval of addresses that holds one at least.
abbrev IsInterval : Interval → Type 0
IsInterval i = (i.start < i.end) × (i.end ≤ 2 ^ 32)

abbrev holds : ℕ → Interval → Bool
holds x i = leb i.start x && ltb x i.end

interval-IsInterval : {p : Prefix} → IsBlock p → IsInterval (interval p)
unfolding size
interval-IsInterval {p} v = (omega (arith, pow2_pos (32 - p.bits)), v.fits)

interval-holds : {p : Prefix} (x : ℕ) → IsBlock p → holds x (interval p) ≡ contains p x
interval-holds x v = sym (contains-interval x v)

joined_from-IsInterval :
    (i : Interval) (ps : List Prefix)
    → IsInterval i
    → All IsBlock ps
    → All IsInterval (joined_from i ps)
unfolding joined_from
joined_from-IsInterval i [] v h = (v, tt)
joined_from-IsInterval i (p ∷ ps) v h =
    let w : IsInterval (interval p) = interval-IsInterval h.0 in
    elim-cases (All IsInterval) (p.addr == i.end)
      (λ e.
        joined_from-IsInterval (record i { end = (interval p).end }) ps
          (grind (arith, v, w, e), w.1) h.1)
      (λ _. (v, joined_from-IsInterval (interval p) ps w h.1))

covers-joined_from :
    (i : Interval) (ps : List Prefix) (x : ℕ)
    → IsInterval i
    → All IsBlock ps
    → any (holds x) (joined_from i ps) ≡ (holds x i || covers ps x)
unfolding joined_from covers
covers-joined_from i [] x v h = refl
covers-joined_from i (p ∷ ps) x v h = ground (
  arith,
  interval-holds x h.0,
  interval-IsInterval h.0,
  covers-joined_from (record i { end = (interval p).end }) ps x,
  covers-joined_from (interval p) ps x,
  h.1,
)

covers-intervals :
    (ps : List Prefix) (x : ℕ) → All IsBlock ps → any (holds x) (intervals ps) ≡ covers ps x
unfolding intervals covers
covers-intervals [] x h = refl
covers-intervals (p ∷ ps) x h =
    covers-joined_from (interval p) ps x (interval-IsInterval h.0) h.1
    ∙ ap (λ (b : Bool). b || any (λ p. contains p x) ps) (interval-holds x h.0)

intervals-IsInterval : (ps : List Prefix) → All IsBlock ps → All IsInterval (intervals ps)
unfolding intervals
intervals-IsInterval [] h = tt
intervals-IsInterval (p ∷ ps) h =
    joined_from-IsInterval (interval p) ps (interval-IsInterval h.0) h.1

record Same (is : List Interval) : Type 0 where
  blocks : All IsBlock (interval_prefixes is)
  covered : (x : ℕ) → covers (interval_prefixes is) x ≡ any (holds x) is

interval_prefixes_lem : (is : List Interval) → All IsInterval is → Same is
unfolding interval_prefixes covers
interval_prefixes_lem [] h = record { blocks = tt; covered = λ x. refl }
interval_prefixes_lem (i ∷ is) h =
    elim (range_to_prefixes-Tiles i.start (i.end - i.start) (omega (arith, h.0))
      (omega (arith, h.0))) [
        | inl (ps, e, le, t) ↦
            let rest : Same is = interval_prefixes_lem is h.1 in
            record {
              blocks = rw e (All-append IsBlock ps _ t.blocks rest.blocks);
              covered = λ x. rw e (
                  any-append (λ p. contains p x) ps (interval_prefixes is)
                  ∙ ground (arith, t.covered x, rest.covered x, h.0));
            }
        | inr (e, gt) ↦ absurd (omega (arith, h.0))
      ]

pub collapse-Ascending : (ps : List Prefix) → Ascending by_address (collapse ps)
unfolding collapse
collapse-Ascending ps = normalize-Ascending (interval_prefixes (intervals (normalize ps)))

-- Joining keeps the addresses: from blocks, an address is covered afterwards exactly if it was
-- covered before, and the result is in ascending order of the addresses.
pub collapse-exact :
    (ps : List Prefix) (x : ℕ)
    → All IsBlock ps
    → (covers (collapse ps) x ≡ covers ps x) × Ascending by_address (collapse ps)
unfolding collapse
collapse-exact ps x h =
    let blocks : All IsBlock (normalize ps) = normalize-IsBlock ps h in
    let is : List Interval = intervals (normalize ps) in
    let s : Same is = interval_prefixes_lem is (intervals-IsInterval (normalize ps) blocks) in
    (
      covers-normalize (interval_prefixes is) x
          ∙ s.covered x
          ∙ covers-intervals (normalize ps) x blocks
          ∙ covers-normalize ps x,
      collapse-Ascending ps,
    )

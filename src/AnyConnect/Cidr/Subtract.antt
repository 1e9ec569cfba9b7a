-- ===== src/AnyConnect/Cidr/Subtract.antt =====
-- `subtractPrefix` and `excludeSpecialUsePrefixes` of internal/anyconnect/network.go: the difference of
-- address sets.
use native.Mathlib.Decide.{dec_le}
use snell_sh.Common.{
  ℕ, zero, suc, ◌+◌, ◌-◌, ◌≤◌, ◌<◌, ◌≡◌, refl, ◌⊎◌, inl, inr, Bool, true, false, ◌&&◌, not, List,
  [], ◌∷◌, ◌∙◌, arith, leb, All-if, any-append, All, All-append,
}
use snell_sh.AnyConnect.Cidr.Prefix.{
  Prefix, contains, subtract_within, subtract_prefix, subtract_all, exclude_all,
  exclude_special_use, non_public_ranges, covers,
}
use snell_sh.AnyConnect.Cidr.Blocks.{
  IsBlock, left_half, right_half, left_half-IsBlock, right_half-IsBlock, contains-halves, disjoint,
  inside, larger,
}

-- The three ways out of a call of `subtractPrefix`.
data Case (p e : Prefix) : Type 0 where
  apart : contains p e.addr ≡ false → contains e p.addr ≡ false → Case p e
  within : e.bits ≤ p.bits → contains e p.addr ≡ true → Case p e
  split : p.bits < e.bits → (contains p e.addr ≡ true) ⊎ (contains e p.addr ≡ true) → Case p e

way_out : (p e : Prefix) → Case p e
way_out p e = go (contains p e.addr) (contains e p.addr) refl refl
  where
    go : (a b : Bool) → contains p e.addr ≡ a → contains e p.addr ≡ b → Case p e
    go false false pe ep = apart pe ep
    go true true pe ep = elim (dec_le e.bits p.bits) [
      | yes le ↦ within le ep
      | no gt ↦ split (omega arith) (inl pe)
    ]
    go true false pe ep =
        split
          (larger p e (inl pe)
            (λ (both : (e.bits ≤ p.bits) × (contains e p.addr ≡ true)). cc (both.1)))
          (inl pe)
    go false true pe ep = elim (dec_le e.bits p.bits) [
      | yes le ↦ within le ep
      | no gt ↦ split (omega arith) (inr ep)
    ]

-- What is covered by the pieces.
pub subtract_within-exact :
    (f : ℕ) (p e : Prefix) (x : ℕ)
    → IsBlock p
    → e.bits ≤ 32
    → 33 ≤ f + p.bits
    → covers (subtract_within f p e) x ≡ (contains p x && not (contains e x))
unfolding covers subtract_within
subtract_within-exact zero p e x v le enough = absurd (omega (arith, v.bits_le))
subtract_within-exact (suc f) p e x v le enough = elim (way_out p e) [
  | apart pe ep ↦ ground (arith, disjoint p e x pe ep)
  | within low ep ↦ ground (arith, inside p e x low ep)
  | split smaller meet ↦
      let short : p.bits < 32 = omega arith in
      ground (
        arith,
        any-append (λ q. contains q x) (subtract_within f (left_half p) e)
            (subtract_within f (right_half p) e),
        subtract_within-exact f (left_half p) e x (left_half-IsBlock v short) le (omega arith),
        subtract_within-exact f (right_half p) e x (right_half-IsBlock v short) le (omega arith),
        contains-halves x v short,
      )
]

-- The difference of a block and a prefix of at most 32 bits: an address is covered by the pieces of
-- `subtractPrefix` exactly if the block contains it and the excluded prefix does not.
pub subtract_prefix-exact :
    (p e : Prefix) (x : ℕ)
    → IsBlock p
    → e.bits ≤ 32
    → covers (subtract_prefix p e) x ≡ (contains p x && not (contains e x))
unfolding subtract_prefix
subtract_prefix-exact p e x v le = subtract_within-exact (33 - p.bits) p e x v le (omega arith)

-- The third way out is taken by a block of more than one address.
splits :
    (p e : Prefix)
    → (not (contains p e.addr) && not (contains e p.addr)) ≡ false
    → (leb e.bits p.bits && contains e p.addr) ≡ false
    → e.bits ≤ 32
    → p.bits < 32
splits p e meet out le = elim (way_out p e) [
  | apart pe ep ↦ absurd (ground arith)
  | within low ep ↦ absurd (ground arith)
  | split smaller _ ↦ omega arith
]

subtract_within-IsBlock :
    (f : ℕ) (p e : Prefix) → IsBlock p → e.bits ≤ 32 → All IsBlock (subtract_within f p e)
unfolding subtract_within
subtract_within-IsBlock zero p e v le = tt
subtract_within-IsBlock (suc f) p e v le =
    All-if IsBlock (not (contains p e.addr) && not (contains e p.addr)) _ _ (λ _. (v, tt))
      λ meet.
        All-if IsBlock (leb e.bits p.bits && contains e p.addr) _ _ (λ _. tt)
          λ out.
            let short : p.bits < 32 = splits p e meet out le in
            All-append IsBlock _ _
              (subtract_within-IsBlock f (left_half p) e (left_half-IsBlock v short) le)
              (subtract_within-IsBlock f (right_half p) e (right_half-IsBlock v short) le)

subtract_all-exact :
    (e : Prefix) (ps : List Prefix) (x : ℕ)
    → All IsBlock ps
    → e.bits ≤ 32
    → covers (subtract_all e ps) x ≡ (covers ps x && not (contains e x))
unfolding covers subtract_all
subtract_all-exact e [] x v le = refl
subtract_all-exact e (p ∷ ps) x v le = ground (
  arith,
  any-append (λ q. contains q x) (subtract_prefix p e) (subtract_all e ps),
  subtract_prefix-exact p e x v.0 le,
  subtract_all-exact e ps x v.1 le,
)

subtract_all-IsBlock :
    (e : Prefix) (ps : List Prefix) → All IsBlock ps → e.bits ≤ 32 → All IsBlock (subtract_all e ps)
unfolding subtract_all
subtract_all-IsBlock e [] v le = tt
subtract_all-IsBlock e (p ∷ ps) v le =
    All-append IsBlock _ _ (subtract_within-IsBlock (33 - p.bits) p e v.0 le)
      (subtract_all-IsBlock e ps v.1 le)

abbrev HasBits : Prefix → Type 0
HasBits p = p.bits ≤ 32

exclude_all-exact :
    (es ps : List Prefix) (x : ℕ)
    → All IsBlock ps
    → All HasBits es
    → covers (exclude_all es ps) x ≡ (covers ps x && not (covers es x))
unfolding covers exclude_all
exclude_all-exact [] ps x v le = ground arith
exclude_all-exact (e ∷ es) ps x v le =
    exclude_all-exact es (subtract_all e ps) x (subtract_all-IsBlock e ps v le.0) le.1
    ∙ ground (arith, subtract_all-exact e ps x v le.0)

exclude_all-IsBlock :
    (es ps : List Prefix) → All IsBlock ps → All HasBits es → All IsBlock (exclude_all es ps)
unfolding exclude_all
exclude_all-IsBlock [] ps v le = v
exclude_all-IsBlock (e ∷ es) ps v le =
    exclude_all-IsBlock es (subtract_all e ps) (subtract_all-IsBlock e ps v le.0) le.1

-- Cutting out the special-use ranges is set difference: from a list of blocks, an address is covered
-- afterwards exactly if it was covered before and lies in no special-use range; and the pieces are
-- blocks again.
pub exclude_special_use-exact :
    (ps : List Prefix) (x : ℕ)
    → All IsBlock ps
    → (covers (exclude_special_use ps) x ≡ (covers ps x && not (covers non_public_ranges x)))
      × All IsBlock (exclude_special_use ps)
unfolding exclude_special_use
exclude_special_use-exact ps x v = (
  exclude_all-exact non_public_ranges ps x v (omega arith),
  exclude_all-IsBlock non_public_ranges ps v (omega arith),
)

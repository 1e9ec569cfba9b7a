-- ===== src/AnyConnect/Cidr/Cover.antt =====
-- The blocks of `rangeToPrefixes` in internal/anyconnect/network.go cover the range, each address once.
use native.Mathlib.Nat.{
  mul-div_cancel, mod-eq_of_lt, le-div_iff_mul-le, div-lt_iff_lt-mul, pow-le-pow_right,
  div-add-mod',
}
use mathlib.Core.Path.{ap₂}
use native.Mathlib.Decide.{dec_le}
use snell_sh.Common.{
  ℕ, zero, suc, ◌+◌, ◌-◌, ◌*◌, ◌/◌, ◌%◌, ◌^◌, ◌≤◌, ◌<◌, ◌≡◌, refl, sym, ap, ◌∙◌, true, ◌&&◌, ◌||◌,
  List, arith, ltb, leb, ◌==◌, All, if-cases, pow2-suc, pow2_pos, none, some, ◌⊎◌, inl, inr,
}
use snell_sh.AnyConnect.Cidr.Prefix.{Prefix, size, contains, covers}
use snell_sh.AnyConnect.Cidr.Blocks.{IsBlock}
use snell_sh.AnyConnect.Cidr.Range.{
  block_within, bits_within, next_block, block_prefix, range_within, range_to_prefixes, total,
}

-- What a round's block is: a power of two that divides the position, fits, and cannot be doubled.
record Round (c r b : ℕ) : Type 0 where
  exponent : ℕ
  power : b ≡ 2 ^ exponent
  small : exponent ≤ 32
  aligned : c % 2 ^ exponent ≡ 0
  fits : 2 ^ exponent ≤ r

exponent_small : (k r : ℕ) → 2 ^ k ≤ r → r ≤ 2 ^ 32 → k ≤ 32
exponent_small k r fit le = elim (dec_le k 32) [
  | yes h ↦ h
  | no h ↦ absurd (
      omega (arith, pow-le-pow_right {n = 2} (omega arith) {i = 33} {j = k} (omega arith), fit, le))
]

block_within-Round :
    (f k c r : ℕ) → c % 2 ^ k ≡ 0 → 2 ^ k ≤ r → r ≤ 2 ^ 32 → Round c r (block_within f c r (2 ^ k))
unfolding block_within
block_within-Round zero k c r al fit le = record {
  exponent = k;
  power = refl;
  small = exponent_small k r fit le;
  aligned = al;
  fits = fit;
}
block_within-Round (suc f) k c r al fit le =
    let double : 2 ^ k * 2 ≡ 2 ^ suc k = omega (arith, pow2-suc k) in
    if-cases (Round c r)
      (ltb (2 ^ k) r && ltb (2 ^ k) (2 ^ 32) && (c % (2 ^ k * 2) == 0) && leb (2 ^ k * 2) r)
      (λ h. rw double (
        block_within-Round f (suc k) c r (sym (ap (λ (m : ℕ). c % m) double) ∙ ground (arith, h))
          (ground (arith, double, h)) le))
      λ _. record {
        exponent = k;
        power = refl;
        small = exponent_small k r fit le;
        aligned = al;
        fits = fit;
      }

next_block-Round : (c r : ℕ) → 0 < r → r ≤ 2 ^ 32 → Round c r (next_block c r)
unfolding next_block
next_block-Round c r pos le = block_within-Round 33 0 c r (omega arith) (omega arith) le

-- The bits that are taken off are the exponent.
bits_within-power : (f k n : ℕ) → k < f → bits_within f (2 ^ k) n ≡ n - k
unfolding bits_within
bits_within-power zero k n h = absurd (omega arith)
bits_within-power (suc f) zero n h = omega arith
bits_within-power (suc f) (suc k) n h =
    let half : 2 ^ suc k / 2 ≡ 2 ^ k = omega (arith, pow2-suc k) in
    let big : ltb 1 (2 ^ suc k) ≡ true = ground (arith, pow2-suc k, pow2_pos k) in
    rw (big, half) (bits_within-power f k (n - 1) (omega arith) ∙ omega arith)

-- A block of the tree and an interval of its size are the same set.
pub contains-interval :
    {p : Prefix} (x : ℕ) → IsBlock p → contains p x ≡ (leb p.addr x && ltb x (p.addr + size p))
unfolding contains size
contains-interval {p} x v =
    let n : ℕ = 32 - p.bits in
    let own : p.addr / 2 ^ n ≡ v.index =
      ap (λ (a : ℕ). a / 2 ^ n) v.aligned ∙ mul-div_cancel v.index (pow2_pos n) in
    let next : (v.index + 1) * 2 ^ n ≡ p.addr + 2 ^ n = omega (arith, v.aligned) in
    ground (
      arith,
      own,
      le-div_iff_mul-le {k = 2 ^ n} {x = v.index} {y = x} (pow2_pos n),
      div-lt_iff_lt-mul {k = 2 ^ n} {x = x} {y = v.index + 1} (pow2_pos n),
      v.aligned,
      next,
    )

-- A round makes a block at its position, of the size it goes on by.
record Made (c r b : ℕ) : Type 0 where
  block : IsBlock (block_prefix c b)
  address : (block_prefix c b).addr ≡ c
  amount : size (block_prefix c b) ≡ b
  some_left : 0 < b
  most : b ≤ r

made : (c r b : ℕ) → Round c r b → c + r ≤ 2 ^ 32 → Made c r b
unfolding block_prefix size
made c r b round le =
    let k : ℕ = round.exponent in
    let bits : bits_within 33 b 32 ≡ 32 - k =
      ap (λ (m : ℕ). bits_within 33 m 32) round.power
      ∙ bits_within-power 33 k 32 (omega (arith, round.small)) in
    let host : 32 - bits_within 33 b 32 ≡ k = omega (arith, bits, round.small) in
    let same : 2 ^ (32 - bits_within 33 b 32) ≡ b =
      ap (λ (m : ℕ). 2 ^ m) host ∙ sym (round.power) in
    let here : c % 2 ^ 32 ≡ c = mod-eq_of_lt (omega (arith, round.fits, pow2_pos k)) in
    let whole : c ≡ c / 2 ^ k * 2 ^ k = omega (arith, div-add-mod' c (2 ^ k), round.aligned) in
    record {
      block = record {
        bits_le = omega (arith, bits);
        index = c / 2 ^ k;
        aligned = here ∙ whole ∙ ap (λ (m : ℕ). c / 2 ^ k * 2 ^ m) (sym host);
        fits = omega (arith, here, same, round.power, round.fits);
      };
      address = here;
      amount = same;
      some_left = omega (arith, round.power, pow2_pos k);
      most = omega (arith, round.power, round.fits);
    }

contains-block_prefix :
    {c r b : ℕ} → Made c r b → (x : ℕ) → contains (block_prefix c b) x ≡ (leb c x && ltb x (c + b))
contains-block_prefix m x =
    contains-interval x m.block ∙ ap₂ (λ (a n : ℕ). leb a x && ltb x (a + n)) m.address m.amount

-- Blocks that cover what lies from `c` on, `r` addresses, once each.
pub record Tiles (c r : ℕ) (ps : List Prefix) : Type 0 where
  pub blocks : All IsBlock ps
  pub covered : (x : ℕ) → covers ps x ≡ (leb c x && ltb x (c + r))
  pub counted : total ps ≡ r

-- Two intervals that meet end to start.
joined :
    (c b r x : ℕ)
    → b ≤ r
    → ((leb c x && ltb x (c + b)) || (leb (c + b) x && ltb x (c + b + (r - b))))
      ≡ (leb c x && ltb x (c + r))
joined c b r x le = ground arith

range_within-Tiles : (f c r : ℕ) → r ≤ f → c + r ≤ 2 ^ 32 → Tiles c r (range_within f c r)
unfolding range_within covers total
range_within-Tiles zero c r en le = record {
  blocks = tt;
  covered = λ x. ground arith;
  counted = omega arith;
}
range_within-Tiles (suc f) c zero en le = record {
  blocks = tt;
  covered = λ x. ground arith;
  counted = refl;
}
range_within-Tiles (suc f) c (suc r) en le =
    let b : ℕ = next_block c (suc r) in
    let m : Made c (suc r) b =
      made c (suc r) b (next_block-Round c (suc r) (omega arith) (omega arith)) le in
    let rest : Tiles (c + b) (suc r - b) (range_within f (c + b) (suc r - b)) =
      range_within-Tiles f (c + b) (suc r - b) (omega (arith, m.some_left))
        (omega (arith, m.most)) in
    record {
      blocks = (m.block, rest.blocks);
      covered = λ x. rw (contains-block_prefix m x, rest.covered x) (joined c b (suc r) x m.most);
      counted = omega (arith, m.amount, m.most, rest.counted);
    }

-- A range that starts at an IPv4 address, of at most 2^32 addresses, is cut into blocks if it ends
-- within the address space: they cover the addresses from `start` on, `count` of them, and no other,
-- and their sizes add up to `count`, so that none is covered twice. If it ends later it is an error.
pub range_to_prefixes-Tiles :
    (start count : ℕ)
    → start < 2 ^ 32
    → count ≤ 2 ^ 32
    → ((ps : List Prefix) × (range_to_prefixes start count ≡ some ps)
        × (start + count ≤ 2 ^ 32)
        × Tiles start count ps)
      ⊎ ((range_to_prefixes start count ≡ none) × (2 ^ 32 < start + count))
unfolding range_to_prefixes
range_to_prefixes-Tiles start count s n =
    let own : (start + count) % 2 ^ 64 ≡ start + count = mod-eq_of_lt (omega arith) in
    elim (dec_le (start + count) (2 ^ 32)) [
      | yes le ↦ inl (
        range_within count start count,
        ground (arith, own),
        le,
        range_within-Tiles count start count (omega arith) le,
      )
      | no gt ↦ inr (ground (arith, own), omega arith)
    ]

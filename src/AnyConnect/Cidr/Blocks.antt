-- ===== src/AnyConnect/Cidr/Blocks.antt =====
-- Blocks: prefixes whose address is the first of them, the halves of a block, and blocks that meet.
use native.Mathlib.Nat.{mul-div_cancel, mod-eq_of_lt}
use native.Mathlib.Decide.{dec_le}
use snell_sh.Common.{
  ◌⊎◌, ℕ, suc, ◌+◌, ◌-◌, ◌*◌, ◌/◌, ◌%◌, ◌^◌, ◌≤◌, ◌<◌, ◌≡◌, ap, ◌∙◌, true, false, ◌||◌, arith, ◌==◌,
  pow2-suc, pow2_pos, div-pow2-suc, same_block-up,
}
use snell_sh.AnyConnect.Cidr.Prefix.{Prefix, contains}

-- A prefix of IPv4 whose host bits are 0: the `index`-th block of its size.
pub record IsBlock (p : Prefix) : Type 0 where
  pub bits_le : p.bits ≤ 32
  pub index : ℕ
  pub aligned : p.addr ≡ index * 2 ^ (32 - p.bits)
  pub fits : p.addr + 2 ^ (32 - p.bits) ≤ 2 ^ 32

left_index : (q h : ℕ) → q * 2 ^ suc h / 2 ^ h ≡ 2 * q
left_index q h =
    let e : q * 2 ^ suc h ≡ 2 * q * 2 ^ h = rw (pow2-suc h) (grind arith) in
    rw e (mul-div_cancel (2 * q) (pow2_pos h))

right_index : (q h : ℕ) → (q * 2 ^ suc h + 2 ^ h) / 2 ^ h ≡ 2 * q + 1
right_index q h =
    let e : q * 2 ^ suc h + 2 ^ h ≡ (2 * q + 1) * 2 ^ h = rw (pow2-suc h) (grind arith) in
    rw e (mul-div_cancel (2 * q + 1) (pow2_pos h))

own_index : (q h : ℕ) → q * 2 ^ h / 2 ^ h ≡ q
own_index q h = mul-div_cancel q (pow2_pos h)

abbrev pub left_half : Prefix → Prefix
left_half p = record { addr = p.addr; bits = p.bits + 1 }

abbrev pub right_half : Prefix → Prefix
right_half p = record { addr = (p.addr + 2 ^ (32 - (p.bits + 1))) % 2 ^ 32; bits = p.bits + 1 }

-- The halves at host bits `suc h`: blocks again, and together the whole.
record Halved (q h x : ℕ) : Type 0 where
  in_left :
      ((x / 2 ^ h == q * 2 ^ suc h / 2 ^ h) || (x / 2 ^ h == (q * 2 ^ suc h + 2 ^ h) / 2 ^ h))
      ≡ (x / 2 ^ suc h == q * 2 ^ suc h / 2 ^ suc h)

halved : (q h x : ℕ) → Halved q h x
halved q h x = record {
  in_left =
      rw (left_index q h, right_index q h, own_index q (suc h), div-pow2-suc x h) (ground arith);
}

-- The host bits of a block that is no single address, and of its halves.
host_bits : (b : ℕ) → b < 32 → 32 - b ≡ suc (32 - (b + 1))
host_bits b h = omega arith

pub left_half-IsBlock : {p : Prefix} → IsBlock p → p.bits < 32 → IsBlock (left_half p)
left_half-IsBlock {p} v h =
    let n : ℕ = 32 - (p.bits + 1) in
    let e : 2 ^ (32 - p.bits) ≡ 2 * 2 ^ n = rw (host_bits p.bits h) (pow2-suc n) in
    record {
      bits_le = omega arith;
      index = 2 * v.index;
      aligned = v.aligned ∙ ap (λ (m : ℕ). v.index * m) e ∙ grind arith;
      fits = omega (arith, v.fits, e);
    }

right_addr :
    {p : Prefix} → IsBlock p → p.bits < 32 → (right_half p).addr ≡ p.addr + 2 ^ (32 - (p.bits + 1))
right_addr {p} v h =
    let n : ℕ = 32 - (p.bits + 1) in
    let e : 2 ^ (32 - p.bits) ≡ 2 * 2 ^ n = rw (host_bits p.bits h) (pow2-suc n) in
    mod-eq_of_lt (omega (arith, v.fits, e, pow2_pos n))

pub right_half-IsBlock : {p : Prefix} → IsBlock p → p.bits < 32 → IsBlock (right_half p)
right_half-IsBlock {p} v h =
    let n : ℕ = 32 - (p.bits + 1) in
    let e : 2 ^ (32 - p.bits) ≡ 2 * 2 ^ n = rw (host_bits p.bits h) (pow2-suc n) in
    record {
      bits_le = omega arith;
      index = 2 * v.index + 1;
      aligned =
          right_addr v h
          ∙ ap (λ (m : ℕ). m + 2 ^ n) (v.aligned ∙ ap (λ (m : ℕ). v.index * m) e)
          ∙ grind arith;
      fits = omega (arith, right_addr v h, v.fits, e);
    }

-- An address lies in a block exactly if it lies in one of the halves.
pub contains-halves :
    {p : Prefix} (x : ℕ)
    → IsBlock p
    → p.bits < 32
    → (contains (left_half p) x || contains (right_half p) x) ≡ contains p x
unfolding contains
contains-halves {p} x v h =
    let n : ℕ = 32 - (p.bits + 1) in
    let a : p.addr ≡ v.index * 2 ^ suc n =
      v.aligned ∙ ap (λ (m : ℕ). v.index * 2 ^ m) (host_bits p.bits h) in
    let r : (right_half p).addr ≡ v.index * 2 ^ suc n + 2 ^ n =
      right_addr v h ∙ ap (λ (m : ℕ). m + 2 ^ n) a in
    rw (r, host_bits p.bits h, a) (halved v.index n x).in_left

module _ (p e : Prefix) where
  -- Of two prefixes that meet, neither of which holds the other's address, there are none.
  pub disjoint :
      (x : ℕ)
      → contains p e.addr ≡ false
      → contains e p.addr ≡ false
      → contains p x ≡ true
      → contains e x ≡ false
  unfolding contains
  disjoint x pe ep px = elim (dec_le (32 - p.bits) (32 - e.bits)) [
    | yes le ↦ grind (arith, same_block-up (32 - p.bits) (32 - e.bits) x p.addr le)
    | no gt ↦ grind (arith, same_block-up (32 - e.bits) (32 - p.bits) x e.addr (omega arith))
  ]

  -- A prefix inside another.
  pub inside :
      (x : ℕ)
      → e.bits ≤ p.bits
      → contains e p.addr ≡ true
      → contains p x ≡ true
      → contains e x ≡ true
  unfolding contains
  inside x le ep px =
      grind (arith, same_block-up (32 - p.bits) (32 - e.bits) x p.addr (omega arith))

  -- A prefix that meets another and is not inside it is the larger one.
  pub larger :
      (contains p e.addr ≡ true) ⊎ (contains e p.addr ≡ true)
      → ¬ ((e.bits ≤ p.bits) × (contains e p.addr ≡ true))
      → p.bits < e.bits
  unfolding contains
  larger meet out = elim (dec_le e.bits p.bits) [
    | yes le ↦ absurd (
        out (
          le,
          grind (arith, same_block-up (32 - p.bits) (32 - e.bits) e.addr p.addr (omega arith)),
        ))
    | no gt ↦ omega arith
  ]

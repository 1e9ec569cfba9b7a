-- ===== src/Common/Pow.antt =====
-- Powers of two and nested halving, which the block arithmetic of address prefixes rests on.
use Prim.Native.Nat.{ℕ, zero, suc, ◌+◌, ◌-◌, ◌*◌, ◌/◌, ◌^◌, ◌<◌, ◌≤◌}
use mathlib.Core.Path.{◌≡◌, sym, ap, ◌∙◌}
use native.Mathlib.Omega.{arith}
use native.Mathlib.Nat.{pow-succ', mul_comm, div-div-eq-div-mul, add-zero, add-suc}

pub pow2-suc : (h : ℕ) → 2 ^ suc h ≡ 2 * 2 ^ h
pow2-suc h = pow-succ' 2 h

pub pow2_pos : (h : ℕ) → 0 < 2 ^ h
pow2_pos zero = omega arith
pow2_pos (suc h) = omega (arith, pow2-suc h, pow2_pos h)

-- Halving a quotient is dividing by the doubled divisor.
pub div-pow2-suc : (x h : ℕ) → x / 2 ^ suc h ≡ x / 2 ^ h / 2
div-pow2-suc x h =
    ap (λ (d : ℕ). x / d) (pow2-suc h ∙ mul_comm 2 (2 ^ h)) ∙ sym (div-div-eq-div-mul x (2 ^ h) 2)

div_same_up : (h k x y : ℕ) → x / 2 ^ h ≡ y / 2 ^ h → x / 2 ^ (h + k) ≡ y / 2 ^ (h + k)
div_same_up h zero x y e = rw add-zero e
div_same_up h (suc k) x y e = rw (add-suc h k) (
    div-pow2-suc x (h + k)
    ∙ ap (λ (q : ℕ). q / 2) (div_same_up h k x y e)
    ∙ sym (div-pow2-suc y (h + k)))

-- Two numbers in one block of size 2^h are in one block of every larger size.
pub same_block-up : (h k x y : ℕ) → h ≤ k → x / 2 ^ h ≡ y / 2 ^ h → x / 2 ^ k ≡ y / 2 ^ k
same_block-up h k x y le e =
    let p : h + (k - h) ≡ k = omega arith in rw p at (div_same_up h (k - h) x y e)

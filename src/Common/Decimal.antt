-- ===== src/Common/Decimal.antt =====
-- Decimal printing as `%d` and `%0Nd` do it, and reading it back.
use snell_sh.Common.{
  ℕ, zero, suc, ◌+◌, ◌-◌, ◌*◌, ◌/◌, ◌%◌, ◌<◌, ◌≡◌, refl, ap, ◌∙◌, Bool, true, ◌&&◌, [], ◌∷◌, ◌++◌,
  arith, Text, ltb, leb, if◌then◌else◌, length, Bool-cases, inl, inr,
}

-- The digits of `n` in front of `acc`; the first argument is fuel.
unfoldable pub digits : ℕ → ℕ → Text → Text
digits zero n acc = acc
digits (suc f) n acc =
    let rest = digits f (n / 10) ((b'0' + n % 10) ∷ acc) in
    if ltb n 10 then (b'0' + n) ∷ acc else rest

-- `%d` of a number that is not negative.
unfoldable pub itoa : ℕ → Text
unfolding digits
itoa n = digits (suc n) n []

unfoldable pub zeros : ℕ → Text → Text
zeros zero t = t
zeros (suc k) t = b'0' ∷ zeros k t

-- `%0wd` of a number that is not negative.
unfoldable pub pad : ℕ → ℕ → Text
unfolding itoa zeros
pad w n = let t = itoa n in zeros (w - length t) t

unfoldable pub is_digit : ℕ → Bool
is_digit c = leb b'0' c && leb c b'9'

-- Reads digits up to the first byte that is none: the number, and the rest.
unfoldable pub read : ℕ → Text → ℕ × Text
read a [] = (a, [])
read a (c ∷ t) = let more = read (a * 10 + (c - b'0')) t in if is_digit c then more else (a, c ∷ t)

digits-append : (f n : ℕ) (acc t : Text) → digits f n acc ++ t ≡ digits f n (acc ++ t)
unfolding digits
digits-append zero n acc t = refl
digits-append (suc f) n acc t = ground (arith, digits-append f (n / 10) ((b'0' + n % 10) ∷ acc) t)

read_digit : (a d : ℕ) (t : Text) → d < 10 → read a ((b'0' + d) ∷ t) ≡ read (a * 10 + d) t
unfolding read is_digit
read_digit a d t h =
    let digit : (leb b'0' (b'0' + d) && leb (b'0' + d) b'9') ≡ true = ground arith in
    let value : a * 10 + (b'0' + d - b'0') ≡ a * 10 + d = omega arith in
    rw digit (ap (λ (m : ℕ). read m t) value)

read-digits : (f n : ℕ) (acc : Text) → n < f → read 0 (digits f n acc) ≡ read n acc
unfolding digits read is_digit
read-digits zero n acc h = elim h [ ]
read-digits (suc f) n acc h = elim (Bool-cases (ltb n 10)) [
  | inl e ↦ rw e (ground arith)
  | inr e ↦
      let value : n / 10 * 10 + n % 10 ≡ n = omega arith in
      rw e (
        read-digits f (n / 10) ((b'0' + n % 10) ∷ acc) (ground arith)
        ∙ read_digit (n / 10) (n % 10) acc (omega arith)
        ∙ ap (λ (m : ℕ). read m acc) value)
]

read-zeros : (k : ℕ) (t : Text) → read 0 (zeros k t) ≡ read 0 t
unfolding read zeros is_digit
read-zeros zero t = refl
read-zeros (suc k) t = read-zeros k t

zeros-append : (k : ℕ) (s t : Text) → zeros k s ++ t ≡ zeros k (s ++ t)
unfolding zeros
zeros-append zero s t = refl
zeros-append (suc k) s t = ap (◌∷◌ b'0') (zeros-append k s t)

pub read-itoa : (n : ℕ) (t : Text) → read 0 (itoa n ++ t) ≡ read n t
unfolding itoa
read-itoa n t = rw digits-append (read-digits (suc n) n t (omega arith))

-- What a padded number prints is read back, up to the first byte that is no digit.
pub read-pad : (w n : ℕ) (t : Text) → read 0 (pad w n ++ t) ≡ read n t
unfolding pad
read-pad w n t =
    rw (zeros-append (w - length (itoa n)) (itoa n) t)
      (read-zeros (w - length (itoa n)) (itoa n ++ t) ∙ read-itoa n t)

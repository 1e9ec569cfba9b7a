-- ===== src/Common/Count.antt =====
-- How many members of a list pass a test, and the members that do.
use Prim.Native.Nat.{ℕ, suc, ◌+◌, ◌≤◌, ◌<◌}
use mathlib.Core.Path.{◌≡◌, refl}
use mathlib.Core.Logic.{◌⊎◌, inl, inr}
use mathlib.Core.Bool.{Bool, true, false, ◌&&◌, ◌||◌}
use mathlib.Core.List.{List, [], ◌∷◌}
use native.Mathlib.Omega.{arith}
use snell_sh.Common.Tests.{if◌then◌else◌, Bool-cases, leb}
use snell_sh.Common.Lists.{length, All}
use snell_sh.Common.Sort.{Differ}

module _ {ℓ} {A : Type ℓ} where
  unfoldable pub filter : (A → Bool) → List A → List A
  filter p [] = []
  filter p (x ∷ xs) = let rest = filter p xs in if p x then x ∷ rest else rest

  unfoldable pub count_if : (A → Bool) → List A → ℕ
  count_if p [] = 0
  count_if p (x ∷ xs) = let rest = count_if p xs in if p x then suc rest else rest

  pub length-filter : (p : A → Bool) (xs : List A) → length (filter p xs) ≡ count_if p xs
  unfolding filter count_if
  length-filter p [] = refl
  length-filter p (x ∷ xs) = ground (arith, length-filter p xs)

  pub count_if-filter :
      (q p : A → Bool) (xs : List A) → count_if q (filter p xs) ≡ count_if (λ x. q x && p x) xs
  unfolding filter count_if
  count_if-filter q p [] = refl
  count_if-filter q p (x ∷ xs) = ground (arith, count_if-filter q p xs)

  -- A test that two others cover.
  pub count_if-cover :
      (q p r : A → Bool) (xs : List A)
      → All (λ x. q x ≡ true → (p x || r x) ≡ true) xs
      → count_if q xs ≤ count_if p xs + count_if r xs
  unfolding count_if
  count_if-cover q p r [] h = omega arith
  count_if-cover q p r (x ∷ xs) h = ground (arith, count_if-cover q p r xs h.1, h.0)

  count_if-none : (p : A → Bool) (xs : List A) → All (λ x. p x ≡ false) xs → count_if p xs ≡ 0
  unfolding count_if
  count_if-none p [] h = refl
  count_if-none p (x ∷ xs) h = ground (arith, count_if-none p xs h.1, h.0)

module _ {A : Type 0} where
  -- At most one of different members is the same as a given one.
  pub count_if-same :
      (same : A → A → Bool)
      → ((m x y : A) → same m x ≡ true → same m y ≡ true → same x y ≡ true)
      → (m : A) (xs : List A) → Differ same xs
      → count_if (same m) xs ≤ 1
  unfolding count_if
  count_if-same same joined m [] d = omega arith
  count_if-same same joined m (x ∷ xs) d = elim (Bool-cases (same m x)) [
    | inl e ↦
        let rest : count_if (same m) xs ≡ 0 = count_if-none (same m) xs (others x xs e d.0) in
        ground (arith, e, rest)
    | inr e ↦ ground (arith, e, count_if-same same joined m xs d.1)
  ]
    where
      others :
          (x : A) (ys : List A)
          → same m x ≡ true
          → All (λ y. same x y ≡ false) ys
          → All (λ y. same m y ≡ false) ys
      others x [] e h = tt
      others x (y ∷ ys) e h = (ground (arith, joined m x y e, h.0), others x ys e h.1)

  -- No member passes the test, or one that does has the least key.
  least :
      (q : A → Bool) (key : A → ℕ) (xs : List A)
      → (count_if q xs ≡ 0) ⊎ ((m : A) × (q m ≡ true) × All (λ x. q x ≡ true → key m ≤ key x) xs)
  unfolding count_if
  least q key [] = inl refl
  least q key (x ∷ xs) = elim (Bool-cases (q x)) [
    | inr e ↦ elim (least q key xs) [
      | inl none_pass ↦ inl (ground (arith, e, none_pass))
      | inr (m, qm, below) ↦ inr (m, qm, ((λ qx. ground (arith, e, qx)), below))
    ]
    | inl e ↦ elim (least q key xs) [
      | inl none_pass ↦ inr (x, e, ((λ _. omega arith), vacuous xs none_pass))
      | inr (m, qm, below) ↦ elim (Bool-cases (leb (key m) (key x))) [
        | inl le ↦ inr (m, qm, ((λ _. ground (arith, le)), below))
        | inr gt ↦ inr (x, e, ((λ _. omega arith), lower xs (ground (arith, gt)) below))
      ]
    ]
  ]
    where
      vacuous : (ys : List A) → count_if q ys ≡ 0 → All (λ y. q y ≡ true → key x ≤ key y) ys
      vacuous [] h = tt
      vacuous (y ∷ ys) h = (λ qy. ground (arith, h, qy), vacuous ys (ground (arith, h)))

      lower :
          {m : A} (ys : List A)
          → key x ≤ key m
          → All (λ y. q y ≡ true → key m ≤ key y) ys
          → All (λ y. q y ≡ true → key x ≤ key y) ys
      lower [] le h = tt
      lower (y ∷ ys) le h = (λ qy. omega (arith, le, h.0 qy), lower ys le h.1)

  -- If fewer than `n` members stand above each one that passes the test, at most `n` pass it.
  pub count_if-rank :
      (q : A → Bool) (key : A → ℕ) (same above : A → A → Bool) (n : ℕ) (xs : List A)
      → ((m x y : A) → same m x ≡ true → same m y ≡ true → same x y ≡ true)
      → Differ same xs
      → ((m x : A) → q m ≡ true → q x ≡ true → key m ≤ key x → (same m x || above m x) ≡ true)
      → ((m : A) → q m ≡ true → count_if (above m) xs < n)
      → count_if q xs ≤ n
  count_if-rank q key same above n xs joined d covers few = elim (least q key xs) [
    | inl e ↦ omega (arith, e)
    | inr (m, qm, below) ↦ omega (
      arith,
      few m qm,
      count_if-same same joined m xs d,
      count_if-cover q (same m) (above m) xs (covered xs m qm below),
    )
  ]
    where
      covered :
          (ys : List A) (m : A)
          → q m ≡ true
          → All (λ y. q y ≡ true → key m ≤ key y) ys
          → All (λ y. q y ≡ true → (same m y || above m y) ≡ true) ys
      covered [] m qm h = tt
      covered (y ∷ ys) m qm h = (λ qy. covers m y qm qy (h.0 qy), covered ys m qm h.1)

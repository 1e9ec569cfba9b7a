-- ===== src/Common/Sort.antt =====
-- Sorting by a strict order, as `sort.Slice` with a `less` that orders different elements.
use Prim.Native.Nat.{suc}
use mathlib.Core.Path.{◌≡◌, refl}
use mathlib.Core.Bool.{Bool, true, false, ◌||◌}
use mathlib.Core.List.{List, [], ◌∷◌}
use native.Mathlib.Omega.{arith}
use snell_sh.Common.Tests.{if◌then◌else◌, if-cases}
use snell_sh.Common.Lists.{length, All, any}

module _ {ℓ} {A : Type ℓ} where
  unfoldable pub insert_by : (A → A → Bool) → A → List A → List A
  insert_by less x [] = x ∷ []
  insert_by less x (y ∷ ys) =
      let rest = insert_by less x ys in if less y x then y ∷ rest else x ∷ y ∷ ys

  unfoldable pub sort_by : (A → A → Bool) → List A → List A
  unfolding insert_by
  sort_by less [] = []
  sort_by less (x ∷ xs) = insert_by less x (sort_by less xs)

  -- Each element comes before the next.
  abbrev pub Ascending : (A → A → Bool) → List A → Type 0
  Ascending less [] = Unit
  Ascending less (x ∷ []) = Unit
  Ascending less (x ∷ y ∷ ys) = (less x y ≡ true) × Ascending less (y ∷ ys)

  -- No two elements are the same.
  abbrev pub Differ : (A → A → Bool) → List A → Type 0
  Differ same [] = Unit
  Differ same (x ∷ xs) = All (λ y. same x y ≡ false) xs × Differ same xs

  module _ (less : A → A → Bool) where
    any-insert_by :
        (p : A → Bool) (x : A) (ys : List A) → any p (insert_by less x ys) ≡ (p x || any p ys)
    unfolding insert_by
    any-insert_by p x [] = refl
    any-insert_by p x (y ∷ ys) = ground (arith, any-insert_by p x ys)

    pub any-sort_by : (p : A → Bool) (xs : List A) → any p (sort_by less xs) ≡ any p xs
    unfolding sort_by
    any-sort_by p [] = refl
    any-sort_by p (x ∷ xs) = ground (arith, any-insert_by p x (sort_by less xs), any-sort_by p xs)

    length-insert_by : (x : A) (ys : List A) → length (insert_by less x ys) ≡ suc (length ys)
    unfolding insert_by
    length-insert_by x [] = refl
    length-insert_by x (y ∷ ys) = ground (arith, length-insert_by x ys)

    pub length-sort_by : (xs : List A) → length (sort_by less xs) ≡ length xs
    unfolding sort_by
    length-sort_by [] = refl
    length-sort_by (x ∷ xs) =
        ground (arith, length-insert_by x (sort_by less xs), length-sort_by xs)

    pub All-insert_by {κ} :
        (P : A → Type κ) (x : A) (ys : List A) → P x → All P ys → All P (insert_by less x ys)
    unfolding insert_by
    All-insert_by P x [] h k = (h, tt)
    All-insert_by P x (y ∷ ys) h k =
        if-cases (All P) (less y x) (λ _. (k.0, All-insert_by P x ys h k.1)) (λ _. (h, k))

    pub All-sort_by {κ} : (P : A → Type κ) (xs : List A) → All P xs → All P (sort_by less xs)
    unfolding sort_by
    All-sort_by P [] h = tt
    All-sort_by P (x ∷ xs) h = All-insert_by P x (sort_by less xs) h.0 (All-sort_by P xs h.1)

    -- Inserting keeps the order, if one of two elements comes first.
    module _ (P : A → Type 0) (x : A)
        (total : (y : A) → P y → less y x ≡ false → less x y ≡ true) where
      Ascending-after :
          (y : A) (zs : List A)
          → less y x ≡ true
          → All P zs
          → Ascending less (y ∷ zs)
          → Ascending less (insert_by less x zs)
          → Ascending less (y ∷ insert_by less x zs)
      unfolding insert_by
      Ascending-after y [] h k o tail = (h, tt)
      Ascending-after y (z ∷ zs) h k o tail =
          if-cases (λ (l : List A). Ascending less l → Ascending less (y ∷ l)) (less z x)
            (λ _ i. (o.0, i)) (λ _ i. (h, i)) tail

      Ascending-insert_by :
          (ys : List A) → All P ys → Ascending less ys → Ascending less (insert_by less x ys)
      unfolding insert_by
      Ascending-insert_by [] k o = tt
      Ascending-insert_by (y ∷ []) k o =
          if-cases (Ascending less) (less y x) (λ e. (e, tt)) (λ e. (total y k.0 e, tt))
      Ascending-insert_by (y ∷ z ∷ zs) k o =
          let tail : Ascending less (insert_by less x (z ∷ zs)) =
            Ascending-insert_by (z ∷ zs) k.1 o.1 in
          if-cases (Ascending less) (less y x) (λ e. Ascending-after y (z ∷ zs) e k.1 o tail)
            (λ e. (total y k.0 e, o))

    pub Ascending-sort_by :
        (same : A → A → Bool)
        → ((x y : A) → same x y ≡ false → less y x ≡ false → less x y ≡ true)
        → (xs : List A) → Differ same xs
        → Ascending less (sort_by less xs)
    unfolding sort_by
    Ascending-sort_by same total [] d = tt
    Ascending-sort_by same total (x ∷ xs) d =
        Ascending-insert_by (λ y. same x y ≡ false) x (total x) (sort_by less xs)
          (All-sort_by (λ y. same x y ≡ false) xs d.0) (Ascending-sort_by same total xs d.1)

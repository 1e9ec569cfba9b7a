-- ===== src/Common/Dict.antt =====
-- A map or a table keyed by texts, as an association list. The laws are in `if` form: they have no
-- side condition and serve every caller.
use snell_sh.Common.{
  ◌≡◌, refl, Option, none, some, List, [], ◌∷◌, arith, Text, text_eq, text_eq_iff, if◌then◌else◌,
  if-cases, Bool,
}

abbrev pub Dict {ℓ} : Type ℓ → Type ℓ
Dict V = List (Text × V)

module _ {ℓ} {V : Type ℓ} where
  unfoldable pub lookup : Text → Dict V → Option V
  lookup k [] = none
  lookup k ((j, v) ∷ m) = if text_eq j k then some v else lookup k m

  unfoldable pub insert : Text → V → Dict V → Dict V
  insert k v [] = (k, v) ∷ []
  insert k v ((j, w) ∷ m) = if text_eq j k then (k, v) ∷ m else (j, w) ∷ insert k v m

  -- Every row with the key goes.
  unfoldable pub erase : Text → Dict V → Dict V
  erase k [] = []
  erase k ((j, w) ∷ m) = let rest = erase k m in if text_eq j k then rest else (j, w) ∷ rest

  pub lookup-insert :
      (k j : Text) (v : V) (m : Dict V)
      → lookup j (insert k v m) ≡ (if text_eq k j then some v else lookup j m)
  unfolding lookup insert
  lookup-insert k j v [] = refl
  lookup-insert k j v ((i, w) ∷ m) =
      ground (arith, text_eq_iff k j, text_eq_iff i k, text_eq_iff i j, lookup-insert k j v m)

  pub lookup-erase :
      (k j : Text) (m : Dict V) → lookup j (erase k m) ≡ (if text_eq k j then none else lookup j m)
  unfolding lookup erase
  lookup-erase k j [] = ground arith
  lookup-erase k j ((i, w) ∷ m) =
      ground (arith, text_eq_iff k j, text_eq_iff i k, text_eq_iff i j, lookup-erase k j m)

  -- Every row whose value passes the test goes.
  unfoldable pub prune : (V → Bool) → Dict V → Dict V
  prune old [] = []
  prune old ((j, w) ∷ m) = let rest = prune old m in if old w then rest else (j, w) ∷ rest

  -- No two rows have one key.
  unfoldable pub IsKeyed : Dict V → Type ℓ
  unfolding lookup
  IsKeyed [] = Unit
  IsKeyed ((j, w) ∷ m) = (lookup j m ≡ none) × IsKeyed m

  abbrev pub unless_old : (V → Bool) → Option V → Option V
  unless_old old none = none
  unless_old old (some v) = if old v then none else some v

  pub lookup-prune :
      (old : V → Bool) (k : Text) (m : Dict V)
      → IsKeyed m
      → lookup k (prune old m) ≡ unless_old old (lookup k m)
  unfolding lookup prune IsKeyed
  lookup-prune old k [] h = refl
  lookup-prune old k ((j, w) ∷ m) h = ground (arith, text_eq_iff j k, lookup-prune old k m h.1, h.0)

  pub insert-IsKeyed : (k : Text) (v : V) (m : Dict V) → IsKeyed m → IsKeyed (insert k v m)
  unfolding insert IsKeyed
  insert-IsKeyed k v [] h = (refl, tt)
  insert-IsKeyed k v ((j, w) ∷ m) h =
      if-cases IsKeyed (text_eq j k) (λ e. (ground (arith, text_eq_iff j k, e, h.0), h.1))
        (λ e. (
          ground (arith, text_eq_iff k j, text_eq_iff j k, e, h.0, lookup-insert k j v m),
          insert-IsKeyed k v m h.1,
        ))

  pub erase-IsKeyed : (k : Text) (m : Dict V) → IsKeyed m → IsKeyed (erase k m)
  unfolding erase IsKeyed
  erase-IsKeyed k [] h = tt
  erase-IsKeyed k ((j, w) ∷ m) h =
      if-cases IsKeyed (text_eq j k) (λ _. erase-IsKeyed k m h.1)
        (λ _. (ground (arith, h.0, lookup-erase k j m), erase-IsKeyed k m h.1))

  pub prune-IsKeyed : (old : V → Bool) (m : Dict V) → IsKeyed m → IsKeyed (prune old m)
  unfolding prune IsKeyed
  prune-IsKeyed old [] h = tt
  prune-IsKeyed old ((j, w) ∷ m) h =
      if-cases IsKeyed (old w) (λ _. prune-IsKeyed old m h.1)
        (λ _. (ground (arith, h.0, lookup-prune old j m h.1), prune-IsKeyed old m h.1))

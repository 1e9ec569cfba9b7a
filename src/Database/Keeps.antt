-- ===== src/Database/Keeps.antt =====
-- Steps that keep a property of the tables (the callers of internal/database), whatever they return.
use mathlib.Core.Path.{subst}
use snell_sh.Common.{sym, ap, Bool, true, false}
use snell_sh.Database.{Action, World, Error, pure, raise_if, ◌>>=◌}
use snell_sh.Database.Steps.{either}
use snell_sh.Database.Reads.{Reads}

unfoldable pub Keeps {ℓ} : {S A : Type 0} → (S → Type ℓ) → Action S A → Type ℓ
Keeps {S} Q m = (w : World S) → Q w.tables → Q (m w).1.tables

module _ {ℓ} {S : Type 0} (Q : S → Type ℓ) where
  pub >>=-Keeps :
      {A B : Type 0} (m : Action S A) (f : A → Action S B)
      → Keeps Q m
      → ((a : A) → Keeps Q (f a))
      → Keeps Q (m >>= f)
  unfolding Keeps
  >>=-Keeps m f km kf = λ w q.
      either Q m f w (λ e v h. subst Q (ap (λ p. p.1.tables) h) (km w q))
        (λ a v h. kf a v (subst Q (ap (λ p. p.1.tables) h) (km w q)))

  pub pure-Keeps : {A : Type 0} (a : A) → Keeps {S = S} Q (pure a)
  unfolding Keeps
  pure-Keeps a = λ w q. q

  pub raise_if-Keeps : (c : Bool) (e : Error) → Keeps {S = S} Q (raise_if c e)
  unfolding Keeps
  raise_if-Keeps c e = λ w q. q

  pub Reads-Keeps : {A : Type 0} (m : Action S A) → Reads m → Keeps Q m
  unfolding Keeps Reads
  Reads-Keeps m r = λ w q. subst Q (sym (r w)) q

  -- One of two steps.
  pub choice-Keeps :
      {A : Type 0} (b : Bool) (m k : Action S A)
      → Keeps Q m
      → Keeps Q k
      → Keeps {A = A} Q (elim b [ true ↦ m | false ↦ k ])
  choice-Keeps true m k km kk = km
  choice-Keeps false m k km kk = kk

-- ===== src/Database/Reads.antt =====
-- Steps that only read, and what is left of a transaction, whichever statement fails.
use mathlib.Core.Path.{subst}
use snell_sh.Common.{◌≡◌, refl, sym, ap, ◌∙◌, inl, inr, Option, none, some, Bool, true, false}
use snell_sh.Database.{
  Error, Result, ok, World, Action, ◌>>=◌, query, or_raise, raise_if, pure, exec_checked,
  transaction, Result-cases, transaction_atomic,
}
use snell_sh.Database.Steps.{
  either, transaction_ok, query_tables, exec_checked_err, exec_checked_ok,
}

-- A step after which the tables are as before.
unfoldable pub Reads : {S A : Type 0} → Action S A → Type 0
Reads {S} m = (w : World S) → (m w).1.tables ≡ w.tables

pub query-Reads : {S A : Type 0} (f : S → A) → Reads (query f)
unfolding Reads
query-Reads f w = query_tables f w (query f w).1 refl

pub or_raise-Reads :
    {A : Type 0} (S : Type 0) (o : Option A) (e : Error) → Reads {S = S} (or_raise o e)
unfolding Reads
or_raise-Reads S none e w = refl
or_raise-Reads S (some a) e w = refl

pub raise_if-Reads : (S : Type 0) (c : Bool) (e : Error) → Reads {S = S} (raise_if c e)
unfolding Reads
raise_if-Reads S c e w = refl

-- A step that is taken or left out.
pub optional_Reads :
    {S : Type 0} (b : Bool) (m : Action S (Unit {0}))
    → Reads m
    → Reads {S = S} (elim b [ true ↦ m | false ↦ pure tt ])
unfolding Reads
optional_Reads true m r = r
optional_Reads false m r = λ w. refl

pub >>=-Reads :
    {S A B : Type 0} (m : Action S A) (f : A → Action S B)
    → Reads m
    → ((a : A) → Reads (f a))
    → Reads (m >>= f)
unfolding Reads
>>=-Reads {S} {A} {B} m f rm rf w =
    either (λ (t : S). t ≡ w.tables) m f w (λ e v h. ap (λ p. p.1.tables) (sym h) ∙ rm w)
      (λ a v h. rf a v ∙ ap (λ p. p.1.tables) (sym h) ∙ rm w)

-- After a step that reads, the next one starts from the same tables.
pub Reads-then {ℓ} :
    {S A B : Type 0} (Q : S → Type ℓ) (m : Action S A) (f : A → Action S B) (w : World S)
    → Reads m
    → Q w.tables
    → ((a : A) (v : World S) → m w ≡ (ok a, v) → v.tables ≡ w.tables → Q (f a v).1.tables)
    → Q ((m >>= f) w).1.tables
unfolding Reads
Reads-then Q m f w rm q k =
    either Q m f w (λ e v h. subst Q (sym (ap (λ p. p.1.tables) (sym h) ∙ rm w)) q)
      (λ a v h. k a v h (ap (λ p. p.1.tables) (sym h) ∙ rm w))

-- The tables after a transaction: as before, or those that its body left.
pub transaction_either {ℓ} :
    {S A : Type 0} (Q : S → Type ℓ) (m : Action S A) (w : World S)
    → Q w.tables
    → ((a : A) (u v : World S) → u.tables ≡ w.tables → m u ≡ (ok a, v) → Q v.tables)
    → Q (transaction m w).1.tables
transaction_either Q m w q k = elim (Result-cases (transaction m w).0) [
  | inl (a, e) ↦
      let c = transaction_ok m w e in subst Q (sym c.kept) (k a c.before c.after c.same c.body)
  | inr (x, e) ↦ subst Q (sym (transaction_atomic m w e)) q
]

-- A statement that the tables may refuse, and what comes after it.
pub exec_checked-then {ℓ} :
    {S B : Type 0} (Q : S → Type ℓ) (g : S → Result S) (f : Unit {0} → Action S B) (w : World S)
    → Q w.tables
    → ((v : World S) → g w.tables ≡ ok v.tables → Q (f tt v).1.tables)
    → Q ((exec_checked g >>= f) w).1.tables
exec_checked-then Q g f w q k =
    either Q (exec_checked g) f w (λ e v h. subst Q (sym (exec_checked_err g w v h)) q)
      (λ a v h. k v (exec_checked_ok g w v h))

pub exec_checked_either {ℓ} :
    {S : Type 0} (Q : S → Type ℓ) (g : S → Result S) (w : World S)
    → Q w.tables
    → ((v : World S) → g w.tables ≡ ok v.tables → Q v.tables)
    → Q (exec_checked g w).1.tables
exec_checked_either Q g w q k = elim (Result-cases (exec_checked g w).0) [
  | inl (a, e) ↦
      k (exec_checked g w).1
        (exec_checked_ok g w (exec_checked g w).1 (ap (λ r. (r, (exec_checked g w).1)) e))
  | inr (x, e) ↦
      subst Q
        (sym (exec_checked_err g w (exec_checked g w).1 (ap (λ r. (r, (exec_checked g w).1)) e))) q
]

-- A step that reads at the end leaves the tables.
pub then-Reads {ℓ} :
    {S A B : Type 0} (Q : S → Type ℓ) (m : Action S A) (f : A → Action S B) (w : World S)
    → ((a : A) → Reads (f a))
    → Q (m w).1.tables
    → Q ((m >>= f) w).1.tables
unfolding Reads
then-Reads Q m f w rf q =
    either Q m f w (λ e v h. subst Q (ap (λ p. p.1.tables) h) q)
      (λ a v h. subst Q (ap (λ p. p.1.tables) h ∙ sym (rf a v)) q)

-- ===== src/Database.antt =====
-- The store behind the panel as its Go code uses it (internal/database/database.go and the
-- `database/sql` calls of the stores): SQL statements one after another over tables, each of which
-- may fail, and transactions. A component gives its own type of tables.
pub mod Keeps
pub mod Reads
pub mod Steps
use snell_sh.Common.{
  ◌≡◌, refl, ap, Bool, true, false, ◌⊎◌, inl, inr, Option, none, some, List, [], ◌∷◌, arith, Text,
  if◌then◌else◌,
}

-- Why a call returned an error. `failed` is any failure of the driver or of the disk, `no_rows` is
-- `sql.ErrNoRows`, and `invalid` carries the text of an `errors.New`.
pub data Error : Type 0 where
  failed no_rows foreign_key unique_key : Error
  invalid : Text → Error

pub data Result {ℓ} (A : Type ℓ) : Type ℓ where
  ok : A → Result A
  err : Error → Result A

pub Result-cases {ℓ} :
    {A : Type ℓ} (r : Result A) → ((a : A) × (r ≡ ok a)) ⊎ ((e : Error) × (r ≡ err e))
Result-cases (ok a) = inl (a, refl)
Result-cases (err e) = inr (e, refl)

-- The tables, and for each statement to come whether it fails; past the end none does.
pub record World (S : Type 0) : Type 0 where
  pub tables : S
  pub faults : List Bool

abbrev pub Action : Type 0 → Type 0 → Type 0
Action S A = World S → Result A × World S

module _ {S A : Type 0} where
  abbrev pub pure : A → Action S A
  pure a w = (ok a, w)

  abbrev pub raise : Error → Action S A
  raise e w = (err e, w)

abbrev pub and_then : {S A B : Type 0} → (A → Action S B) → Result A × World S → Result B × World S
and_then f (ok a, w) = f a w
and_then f (err e, w) = (err e, w)

infixl 5 ◌>>=◌ ◌>>◌
abbrev pub ◌>>=◌ : {S A B : Type 0} → Action S A → (A → Action S B) → Action S B
◌>>=◌ m f w = and_then f (m w)

abbrev pub ◌>>◌ : {S A B : Type 0} → Action S A → Action S B → Action S B
m >> k = m >>= λ _. k

abbrev pub raise_if : {S : Type 0} → Bool → Error → Action S (Unit {0})
raise_if c e w = (if c then err e else ok tt, w)

abbrev pub or_raise : {S A : Type 0} → Option A → Error → Action S A
or_raise none e = raise e
or_raise (some a) e = pure a

-- One statement of SQL reaches the driver.
abbrev outcome : {S : Type 0} → S → List Bool → Result (Unit {0}) × World S
outcome s [] = (ok tt, record { tables = s; faults = [] })
outcome s (f ∷ fs) = (if f then err failed else ok tt, record { tables = s; faults = fs })

unfoldable pub statement : {S : Type 0} → Action S (Unit {0})
statement w = outcome w.tables w.faults

-- `QueryRow` or `Query` with its `Scan`.
unfoldable pub query : {S A : Type 0} → (S → A) → Action S A
unfolding statement
query f = statement >> λ w. (ok (f w.tables), w)

-- `Exec` of a statement that the tables accept.
unfoldable pub exec : {S : Type 0} → (S → S) → Action S (Unit {0})
unfolding statement
exec f = statement >> λ w. (ok tt, record w { tables = f w.tables })

-- `Exec` of a statement that the tables may refuse, by a key or a constraint.
abbrev installed : {S : Type 0} → Result S → World S → Result (Unit {0}) × World S
installed (ok s) w = (ok tt, record w { tables = s })
installed (err e) w = (err e, w)

unfoldable pub exec_checked : {S : Type 0} → (S → Result S) → Action S (Unit {0})
unfolding statement
exec_checked f = statement >> λ w. installed (f w.tables) w

-- `BeginTx`, the body, `Commit`; the deferred `Rollback` undoes the body on every error.
abbrev pub rollback : {S A : Type 0} → S → Result A × World S → Result A × World S
rollback s (ok a, w) = (ok a, w)
rollback s (err e, w) = (err e, record w { tables = s })

unfoldable pub transaction : {S A : Type 0} → Action S A → Action S A
unfolding statement
transaction m w = rollback w.tables ((do statement; a ← m; statement; pure a) w)

rollback-err :
    {S A : Type 0} (s : S) (r : Result A × World S) {e : Error}
    → (rollback s r).0 ≡ err e
    → (rollback s r).1.tables ≡ s
rollback-err s (ok a, w) h = ground arith
rollback-err s (err e, w) h = refl

-- A transaction that returns an error leaves the tables as they were, wherever it failed.
pub transaction_atomic :
    {S A : Type 0} (m : Action S A) (w : World S) {e : Error}
    → (transaction m w).0 ≡ err e
    → (transaction m w).1.tables ≡ w.tables
unfolding transaction
transaction_atomic m w h = rollback-err w.tables ((do statement; a ← m; statement; pure a) w) h

-- What a successful step hands on.
pub >>=-of-ok :
    {S A B : Type 0} (m : Action S A) (f : A → Action S B) (w : World S) {a : A} {w' : World S}
    → m w ≡ (ok a, w')
    → (m >>= f) w ≡ f a w'
>>=-of-ok m f w e = ap (and_then f) e

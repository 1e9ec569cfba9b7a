-- ===== src/Database/Steps.antt =====
-- How the steps of internal/database's callers go: what two steps do, one after the other, what a
-- statement does to the tables, and what a committed transaction did.
use mathlib.Core.Path.{ap₂}
use snell_sh.Common.{
  ◌≡◌, refl, sym, ap, ◌∙◌, inl, inr, arith, Bool, true, false, Option, none, some,
}
use snell_sh.Database.{
  Error, Result, ok, err, World, Action, pure, raise_if, or_raise, and_then, ◌>>=◌, ◌>>◌, statement,
  query, exec_checked, transaction, rollback, Result-cases, >>=-of-ok,
}

-- What holds of the tables after two steps, if it holds where the first one fails and after both.
either_go {ℓ} :
    {S A B : Type 0} (Q : S → Type ℓ) (f : A → Action S B) (p : Result A × World S)
    → ((e : Error) (w : World S) → p ≡ (err e, w) → Q w.tables)
    → ((a : A) (w : World S) → p ≡ (ok a, w) → Q (f a w).1.tables)
    → Q (and_then f p).1.tables
either_go Q f (ok a, w) failed_lem ok_lem = ok_lem a w refl
either_go Q f (err e, w) failed_lem ok_lem = failed_lem e w refl

pub either {ℓ} :
    {S A B : Type 0} (Q : S → Type ℓ) (m : Action S A) (f : A → Action S B) (w : World S)
    → ((e : Error) (v : World S) → m w ≡ (err e, v) → Q v.tables)
    → ((a : A) (v : World S) → m w ≡ (ok a, v) → Q (f a v).1.tables)
    → Q ((m >>= f) w).1.tables
either Q m f w = either_go Q f (m w)

-- A run of two steps that succeeds: the first does, and then the second.
pub record Went {S A B : Type 0} (m : Action S A) (f : A → Action S B) (w : World S) (b : B)
    : Type 0 where
  pub value : A
  pub world : World S
  pub first : m w ≡ (ok value, world)
  pub second : (f value world).0 ≡ ok b
  pub whole : (m >>= f) w ≡ f value world

pub >>=-Went :
    {S A B : Type 0} (m : Action S A) (f : A → Action S B) (w : World S) {b : B}
    → ((m >>= f) w).0 ≡ ok b
    → Went m f w b
>>=-Went m f w h = elim (Result-cases (m w).0) [
  | inl (a, e) ↦
      let first = ap₂ (λ r v. (r, v)) e refl in
      record {
        value = a;
        world = (m w).1;
        first = first;
        second = ap (λ x. x.0) (sym (>>=-of-ok m f w first)) ∙ h;
        whole = >>=-of-ok m f w first;
      }
  | inr (x, e) ↦ ground (arith, h, e)
]

pub statement_tables : {S : Type 0} (w : World S) → (statement w).1.tables ≡ w.tables
unfolding statement
statement_tables w = ground arith

pub exec_checked_ok :
    {S : Type 0} (f : S → Result S) (w v : World S)
    → exec_checked f w ≡ (ok tt, v)
    → f w.tables ≡ ok v.tables
unfolding exec_checked
exec_checked_ok f w v h = ground (arith, h)

pub exec_checked_err :
    {S : Type 0} (f : S → Result S) (w v : World S) {e : Error}
    → exec_checked f w ≡ (err e, v)
    → v.tables ≡ w.tables
unfolding exec_checked statement
exec_checked_err f w v h = ground (arith, h)

pub query_tables :
    {S A : Type 0} (f : S → A) (w v : World S) {r : Result A}
    → query f w ≡ (r, v)
    → v.tables ≡ w.tables
unfolding query statement
query_tables f w v h = ground (arith, h)

pub query_ok :
    {S A : Type 0} (f : S → A) (w v : World S) {a : A}
    → query f w ≡ (ok a, v)
    → (f w.tables ≡ a) × (v.tables ≡ w.tables)
unfolding query statement
query_ok f w v h = ground (arith, h)

-- A transaction that succeeds: its body did, from the tables as they were, and its tables stay.
pub record Committed {S A : Type 0} (m : Action S A) (w : World S) (a : A) : Type 0 where
  pub before : World S
  pub after : World S
  pub same : before.tables ≡ w.tables
  pub body : m before ≡ (ok a, after)
  pub kept : (transaction m w).1.tables ≡ after.tables

rollback-ok :
    {S A : Type 0} (s : S) (p : Result A × World S) {a : A}
    → (rollback s p).0 ≡ ok a
    → (p.0 ≡ ok a) × ((rollback s p).1 ≡ p.1)
rollback-ok s (ok a, w) h = (h, refl)
rollback-ok s (err e, w) h = ground (arith, h)

pub transaction_ok :
    {S A : Type 0} (m : Action S A) (w : World S) {a : A}
    → (transaction m w).0 ≡ ok a
    → Committed m w a
unfolding transaction
transaction_ok {S} {A} m w {a} h =
    let finish : A → Action S A = λ b. statement >> pure b in
    let (body, kept) = rollback-ok w.tables ((statement >> (m >>= finish)) w) h in
    let begun = >>=-Went statement (λ _. m >>= finish) w body in
    let ran = >>=-Went m finish begun.world begun.second in
    let ended = >>=-Went statement (λ _. pure ran.value) ran.world ran.second in
    let same_end : ended.world.tables ≡ ran.world.tables =
      ap (λ p. p.1.tables) (sym ended.first) ∙ statement_tables ran.world in
    record {
      before = begun.world;
      after = ran.world;
      same = ap (λ p. p.1.tables) (sym begun.first) ∙ statement_tables w;
      body = ran.first ∙ ap (λ r. (r, ran.world)) ended.second;
      kept =
          ap (λ v. v.tables) kept
          ∙ ap (λ p. p.1.tables) (begun.whole ∙ ran.whole ∙ ended.whole)
          ∙ same_end;
    }

-- The same with the world at the end.
pub record Ran {S A B : Type 0} (m : Action S A) (f : A → Action S B) (w : World S) (b : B)
    (v : World S) : Type 0 where
  pub value : A
  pub world : World S
  pub first : m w ≡ (ok value, world)
  pub second : f value world ≡ (ok b, v)

pub >>=-Ran :
    {S A B : Type 0} (m : Action S A) (f : A → Action S B) (w : World S) {b : B} {v : World S}
    → (m >>= f) w ≡ (ok b, v)
    → Ran m f w b v
>>=-Ran m f w h =
    let went = >>=-Went m f w (ap (λ p. p.0) h) in
    record {
      value = went.value;
      world = went.world;
      first = went.first;
      second = sym went.whole ∙ h;
    }

pub raise_if_ok :
    {S : Type 0} (c : Bool) (e : Error) (w v : World S)
    → raise_if c e w ≡ (ok tt, v)
    → (c ≡ false) × (v ≡ w)
raise_if_ok true e w v h = ground (arith, h)
raise_if_ok false e w v h = (refl, sym (ap (λ p. p.1) h))

pub or_raise_ok :
    {S A : Type 0} (o : Option A) (e : Error) (w v : World S) {a : A}
    → or_raise o e w ≡ (ok a, v)
    → (o ≡ some a) × (v ≡ w)
or_raise_ok none e w v h = ground (arith, h)
or_raise_ok (some a) e w v h = (ground (arith, h), sym (ap (λ p. p.1) h))

-- ===== src/Firewall/Nft.antt =====
-- The `nft` program as internal/firewall/firewall.go calls it: an interface with the documented
-- behaviour of its commands. A command that fails changes nothing and is none.
use snell_sh.Common.{
  ℕ, ◌≡◌, ◌≢◌, ◌⊎◌, ◌==◌, Option, none, some, List, [], ◌∷◌, ◌++◌, Text, All, if◌then◌else◌,
}

pub data Chain : Type 0 where
  input output : Chain

-- A rule of a chain: what `taggedRule` keeps of it, and the words that it was added with, which
-- `list chain` does not give back.
pub record Rule : Type 0 where
  pub comment : Text
  pub words : List Text
  pub handle : ℕ

-- The chain without the rules of a handle.
unfoldable pub without : ℕ → List Rule → List Rule
without h [] = []
without h (r ∷ rs) = let rest = without h rs in if r.handle == h then rest else r ∷ rest

-- The handles of a chain are different.
unfoldable pub IsNumbered : List Rule → Type 0
IsNumbered [] = Unit
IsNumbered (r ∷ rs) = All (λ (q : Rule). q.handle ≢ r.handle) rs × IsNumbered rs

-- A call that runs commands: its result, none for an error, and the rules that it leaves.
abbrev pub Command : Type 0 → Type 0 → Type 0
Command S A = S → Option A × S

abbrev pub and_then : {S A B : Type 0} → (A → Command S B) → Option A × S → Option B × S
and_then f (some a, s) = f a s
and_then f (none, s) = (none, s)

infixl 5 ◌>>=◌ ◌>>◌
abbrev pub ◌>>=◌ : {S A B : Type 0} → Command S A → (A → Command S B) → Command S B
◌>>=◌ m f s = and_then f (m s)

abbrev pub ◌>>◌ : {S A B : Type 0} → Command S A → Command S B → Command S B
m >> k = m >>= λ _. k

abbrev pub pure : {S A : Type 0} → A → Command S A
pure a s = (some a, s)

-- How `add table` and `add chain` end: the error of what is there already is told by its text.
pub data Added : Type 0 where
  made there_already refused : Added

-- The commands on the panel's table: `add table`, `add chain`, `list chain`, `add rule` with the rule's comment and all its
-- words, that one among them, and `delete rule`. A command that fails changes nothing.
pub record Nft (S : Type 0) : Type 0 where
  pub rules : Chain → S → List Rule
  pub add_table : S → Added × S
  pub add_chain : Chain → S → Added × S
  pub list_rules : Chain → Command S (List Rule)
  pub add_rule : Chain → Text → List Text → Command S (Unit {0})
  pub delete_rule : Chain → ℕ → Command S (Unit {0})
  pub numbered : (c : Chain) (s : S) → IsNumbered (rules c s)
  pub same_after_table : (c : Chain) (s : S) → rules c (add_table s).1 ≡ rules c s
  pub same_after_chain : (c d : Chain) (s : S) → rules c (add_chain d s).1 ≡ rules c s
  pub listed :
      (c : Chain) (s : S) → (list_rules c s ≡ (none, s)) ⊎ (list_rules c s ≡ (some (rules c s), s))
  pub added :
      (c : Chain) (t : Text) (words : List Text) (s : S)
      → (add_rule c t words s ≡ (none, s))
        ⊎ ((h : ℕ) × (s' : S) × (add_rule c t words s ≡ (some tt, s'))
            × (rules c s' ≡ rules c s ++ record { comment = t; words = words; handle = h } ∷ []))
  pub deleted :
      (c : Chain) (h : ℕ) (s : S)
      → (delete_rule c h s ≡ (none, s))
        ⊎ ((s' : S) × (delete_rule c h s ≡ (some tt, s')) × (rules c s' ≡ without h (rules c s)))

-- ===== src/Firewall/Table.antt =====
-- Two chains in memory that behave as `nft` does, to run the code of internal/firewall/firewall.go on.
use snell_sh.Common.{
  ℕ, suc, ◌<◌, ◌≡◌, ◌≢◌, refl, inr, ◌==◌, some, List, [], ◌∷◌, ◌++◌, All, All-map, All-append, Text,
  if-cases, arith,
}
use snell_sh.Firewall.Count.{All-without}
use snell_sh.Firewall.Nft.{Chain, input, output, Rule, without, IsNumbered, Nft, made}

-- The rules of a chain, newest last, and a handle that none of them has reached.
pub record Lane : Type 0 where
  pub held : List Rule
  pub next : ℕ
  pub below : All (λ (r : Rule). r.handle < next) held
  pub apart : IsNumbered held

pub record Table : Type 0 where
  pub incoming : Lane
  pub outgoing : Lane

unfoldable pub empty : Lane
unfolding IsNumbered
empty = record { held = []; next = 1; below = tt; apart = tt }

pub without-IsNumbered : (h : ℕ) (rs : List Rule) → IsNumbered rs → IsNumbered (without h rs)
unfolding without IsNumbered
without-IsNumbered h [] n = tt
without-IsNumbered h (r ∷ rs) n =
    if-cases IsNumbered (r.handle == h) (λ _. without-IsNumbered h rs n.1)
      (λ _. (All-without (λ (q : Rule). q.handle ≢ r.handle) h rs n.0, without-IsNumbered h rs n.1))

pub append-IsNumbered :
    (rs : List Rule) (r : Rule)
    → IsNumbered rs
    → All (λ (q : Rule). q.handle < r.handle) rs
    → IsNumbered (rs ++ r ∷ [])
unfolding IsNumbered
append-IsNumbered [] r n a = (tt, tt)
append-IsNumbered (q ∷ rs) r n a = (
  All-append (λ (p : Rule). p.handle ≢ q.handle) rs (r ∷ []) n.0
      ((λ e. absurd (omega (arith, e, a.0))), tt),
  append-IsNumbered rs r n.1 a.1,
)

abbrev pub appended : Text → List Text → Lane → Lane
appended t words l = record {
  held = l.held ++ record { comment = t; words = words; handle = l.next } ∷ [];
  next = suc l.next;
  below =
      All-append (λ (r : Rule). r.handle < suc l.next) l.held _
        (All-map (λ (r : Rule). r.handle < l.next) (λ (r : Rule). r.handle < suc l.next)
          (λ r h. omega arith) l.held l.below)
        (omega arith, tt);
  apart =
      append-IsNumbered l.held (record { comment = t; words = words; handle = l.next }) l.apart
        l.below;
}

abbrev pub removed : ℕ → Lane → Lane
removed h l = record {
  held = without h l.held;
  next = l.next;
  below = All-without (λ (r : Rule). r.handle < l.next) h l.held l.below;
  apart = without-IsNumbered h l.held l.apart;
}

abbrev pub lane : Chain → Table → Lane
lane input t = t.incoming
lane output t = t.outgoing

abbrev pub with_lane : Chain → (Lane → Lane) → Table → Table
with_lane input f t = record t { incoming = f t.incoming }
with_lane output f t = record t { outgoing = f t.outgoing }

pub rules_with :
    (c : Chain) (f : Lane → Lane) (t : Table)
    → (lane c (with_lane c f t)).held ≡ (f (lane c t)).held
rules_with input f t = refl
rules_with output f t = refl

abbrev pub memory : Nft Table
memory = record {
  rules = λ c t. (lane c t).held;
  add_table = λ t. (made, t);
  add_chain = λ c t. (made, t);
  list_rules = λ c t. (some ((lane c t).held), t);
  add_rule = λ c tag words t. (some tt, with_lane c (appended tag words) t);
  delete_rule = λ c h t. (some tt, with_lane c (removed h) t);
  numbered = λ c t. (lane c t).apart;
  same_after_table = λ c t. refl;
  same_after_chain = λ c d t. refl;
  listed = λ c t. inr refl;
  added = λ c tag words t. inr (
    (lane c t).next,
    with_lane c (appended tag words) t,
    refl,
    rules_with c (appended tag words) t,
  );
  deleted = λ c h t. inr (with_lane c (removed h) t, refl, rules_with c (removed h) t);
}

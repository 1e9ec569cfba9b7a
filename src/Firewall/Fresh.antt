-- ===== src/Firewall/Fresh.antt =====
-- Which rules internal/firewall/firewall.go adds: what holds of all rules of a chain, if it holds of the
-- desired ones.
use snell_sh.Common.{
  ℕ, refl, inl, inr, Bool, true, false, Option, none, some, List, [], ◌∷◌, any, All, All-map,
  All-append, Text, text_eq,
}
use snell_sh.Firewall.Nft.{Chain, Rule, Nft, Command, and_then, ◌>>=◌, ◌>>◌}
use snell_sh.Firewall.Rules.{Desired, keeps, list_tagged, sweep_rules, add_missing, sync_tagged}
use snell_sh.Firewall.Count.{In, All-without}
use snell_sh.Firewall.Blocking.{delete_where, delete_tagged}

-- Every rule of a list is in it.
pub All-self : (rs : List Rule) → All (λ (r : Rule). In r rs) rs
All-self [] = tt
All-self (r ∷ rs) = (
  inl refl,
  All-map (λ (q : Rule). In q rs) (λ (q : Rule). In q (r ∷ rs)) (λ q m. inr m) rs (All-self rs),
)

module _ {S : Type 0} (nft : Nft S) (c : Chain) (P : Rule → Type 0) where
  -- A call after which all rules of the chain have the property if they had it before.
  abbrev pub Holds : {A : Type 0} → Command S A → Type 0
  Holds m = (s : S) → All P (nft.rules c s) → All P (nft.rules c (m s).1)

  pub >>=-Holds :
      {A B : Type 0} (m : Command S A) (f : A → Command S B)
      → Holds m
      → ((a : A) → Holds (f a))
      → Holds (m >>= f)
  >>=-Holds {A} {B} m f hm hf s all = go (m s).0 (m s).1 (hm s all)
    where
      go :
          (o : Option A) (s' : S)
          → All P (nft.rules c s')
          → All P (nft.rules c (and_then f (o, s')).1)
      go none s' h = h
      go (some a) s' h = hf a s' h

  delete-Holds : (h : ℕ) → Holds (nft.delete_rule c h)
  delete-Holds h s all = elim (nft.deleted c h s) [
    | inl e ↦ rw e all
    | inr (s', e, left) ↦ rw e (rw left (All-without P h (nft.rules c s) all))
  ]

  -- The desired rules have the property, whatever handle they get.
  abbrev pub Wanted : Desired → Type 0
  Wanted desired =
      All
        (λ (d : Text × List Text). (h : ℕ) → P (record { comment = d.0; words = d.1; handle = h }))
        desired

  add-Holds :
      (t : Text) (words : List Text)
      → ((h : ℕ) → P (record { comment = t; words = words; handle = h }))
      → Holds (nft.add_rule c t words)
  add-Holds t words new s all = elim (nft.added c t words s) [
    | inl e ↦ rw e all
    | inr (h, s', e, more) ↦ rw e (rw more (All-append P (nft.rules c s) _ all (new h, tt)))
  ]

  list_tagged-Holds : (prefix : Text) → Holds (list_tagged nft c prefix)
  unfolding list_tagged
  list_tagged-Holds prefix s all = elim (nft.listed c s) [ inl e ↦ rw e all | inr e ↦ rw e all ]

  delete_where-Holds : (test : Text → Bool) (rs : List Rule) → Holds (delete_where nft c test rs)
  unfolding delete_where
  delete_where-Holds test [] = λ s all. all
  delete_where-Holds test (r ∷ rs) =
      elim (test r.comment)
        as (λ b. Holds {A = Unit {0}} (elim b [
          | false ↦ delete_where nft c test rs
          | true ↦ nft.delete_rule c r.handle >> delete_where nft c test rs
        ])) [
          | false ↦ delete_where-Holds test rs
          | true ↦
              >>=-Holds (nft.delete_rule c r.handle) _ (delete-Holds r.handle)
                (λ _. delete_where-Holds test rs)
        ]

  pub delete_tagged-Holds : (tag : Text) → Holds (delete_tagged nft c tag)
  unfolding delete_tagged
  delete_tagged-Holds tag =
      >>=-Holds (list_tagged nft c tag) _ (list_tagged-Holds tag)
        (λ rs. delete_where-Holds (text_eq tag) rs)

  sweep_rules-Holds :
      (desired : Desired) (existing : List Text) (rs : List Rule)
      → Holds (sweep_rules nft c desired existing rs)
  unfolding sweep_rules
  sweep_rules-Holds desired existing [] = λ s all. all
  sweep_rules-Holds desired existing (r ∷ rs) =
      elim (keeps desired existing r)
        as (λ b. Holds {A = List Text} (elim b [
          | true ↦ sweep_rules nft c desired (r.comment ∷ existing) rs
          | false ↦ nft.delete_rule c r.handle >> sweep_rules nft c desired existing rs
        ])) [
          | true ↦ sweep_rules-Holds desired (r.comment ∷ existing) rs
          | false ↦
              >>=-Holds (nft.delete_rule c r.handle) _ (delete-Holds r.handle)
                (λ _. sweep_rules-Holds desired existing rs)
        ]

  add_missing-Holds :
      (existing : List Text) (desired : Desired)
      → Wanted desired
      → Holds (add_missing nft c existing desired)
  unfolding add_missing
  add_missing-Holds existing [] w = λ s all. all
  add_missing-Holds existing ((tag, words) ∷ desired) w =
      elim (any (text_eq tag) existing)
        as (λ b. Holds {A = Unit {0}} (elim b [
          | true ↦ add_missing nft c existing desired
          | false ↦ nft.add_rule c tag words >> add_missing nft c existing desired
        ])) [
          | true ↦ add_missing-Holds existing desired w.1
          | false ↦
              >>=-Holds (nft.add_rule c tag words) _ (add-Holds tag words w.0)
                (λ _. add_missing-Holds existing desired w.1)
        ]

  pub sync_tagged-Holds :
      (prefix : Text) (desired : Desired)
      → Wanted desired
      → Holds (sync_tagged nft c prefix desired)
  unfolding sync_tagged
  sync_tagged-Holds prefix desired w =
      >>=-Holds (list_tagged nft c prefix) _ (list_tagged-Holds prefix) (λ rs.
        >>=-Holds (sweep_rules nft c desired [] rs) _ (sweep_rules-Holds desired [] rs)
          (λ existing. add_missing-Holds existing desired w))

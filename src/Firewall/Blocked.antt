-- ===== src/Firewall/Blocked.antt =====
-- What `SetBlocked` of internal/firewall/firewall.go leaves in the input chain.
use snell_sh.Common.{
  ℕ, ◌≡◌, ◌⊎◌, text_eq_self, All-map, refl, sym, ap, ◌∙◌, inl, inr, Bool, true, ◌&&◌, Option, some,
  List, [], ◌∷◌, ◌++◌, any, All, codes, Text, text_eq, text_eq_iff, if◌then◌else◌, arith, if-cases,
  Bool-cases, Option-cases,
}
use snell_sh.Common.Decimal.{itoa}
use snell_sh.Firewall.Nft.{Rule, input, Nft}
use snell_sh.Firewall.Rules.{has_prefix, Desired, wanted, sync_tagged}
use snell_sh.Firewall.Count.{count, In}
use snell_sh.Firewall.Fresh.{
  All-self, Holds, >>=-Holds, Wanted, delete_tagged-Holds, sync_tagged-Holds,
}
use snell_sh.Firewall.Sync.{HasKeys, sync_tagged_lem}
use snell_sh.Firewall.Ensured.{ensure-Keeps}
use snell_sh.Firewall.Deleted.{delete_tagged_lem}
use snell_sh.Firewall.Blocking.{
  valid, node_prefix, blocked_prefix, blocked_tag, blocked_rules, ensure, delete_tagged,
  set_blocked, require,
}

has_prefix-append : (p t : Text) → has_prefix p (p ++ t) ≡ true
unfolding has_prefix
has_prefix-append [] t = refl
has_prefix-append (c ∷ p) t = ground (arith, has_prefix-append p t)

wanted-blocked_rules :
    (id t : Text) (port : ℕ) (ns : List Text)
    → wanted t (blocked_rules id port ns) ≡ any (λ n. text_eq (blocked_tag id port n) t) ns
unfolding blocked_rules
wanted-blocked_rules id t port [] = refl
wanted-blocked_rules id t port (n ∷ ns) =
    ground (arith, wanted-blocked_rules id t port ns, text_eq_iff (blocked_tag id port n) t)

blocked_rules-HasKeys : (id : Text) (port : ℕ) (ns : List Text) → HasKeys (blocked_rules id port ns)
unfolding blocked_rules
blocked_rules-HasKeys id port [] = tt
blocked_rules-HasKeys id port (n ∷ ns) =
    if-cases HasKeys (wanted (blocked_tag id port n) (blocked_rules id port ns))
      (λ _. blocked_rules-HasKeys id port ns) (λ e. (e, blocked_rules-HasKeys id port ns))

blocked_rules-prefixed :
    (id : Text) (port : ℕ) (ns : List Text)
    → All
        (λ (d : Text × List Text). has_prefix (blocked_prefix id) d.0 ≡ true)
        (blocked_rules id port ns)
unfolding blocked_rules
blocked_rules-prefixed id port [] = tt
blocked_rules-prefixed id port (n ∷ ns) =
    if-cases (All (λ (d : Text × List Text). has_prefix (blocked_prefix id) d.0 ≡ true))
      (wanted (blocked_tag id port n) (blocked_rules id port ns))
      (λ _. blocked_rules-prefixed id port ns)
      (λ _. (
        has_prefix-append (blocked_prefix id) (n ++ (codes ":" ++ itoa port)),
        blocked_rules-prefixed id port ns,
      ))

-- The tags that `SetBlocked` asks for.
abbrev desired_rules : Text → ℕ → List Text → Bool → Desired
desired_rules id port networks blocked = if blocked then blocked_rules id port networks else []

-- The sync of `SetBlocked`.
synced_rules :
    {S : Type 0} (nft : Nft S) (id t : Text) (port : ℕ) (networks : List Text) (blocked : Bool)
    (s : S)
    → let done =
        sync_tagged nft input (blocked_prefix id) (desired_rules id port networks blocked) s in
      done.0 ≡ some tt
      → count t (nft.rules input done.1) ≡ (
          if has_prefix (blocked_prefix id) t
          then (if wanted t (desired_rules id port networks blocked) then 1 else 0)
          else count t (nft.rules input s))
synced_rules nft id t port networks blocked s h =
    sync_tagged_lem nft input (blocked_prefix id) t (desired_rules id port networks blocked) s
      (if-cases HasKeys blocked (λ _. blocked_rules-HasKeys id port networks) (λ _. tt))
      (if-cases (All (λ (d : Text × List Text). has_prefix (blocked_prefix id) d.0 ≡ true)) blocked
        (λ _. blocked_rules-prefixed id port networks) (λ _. tt))
      h

-- The number of rules of a tag after `SetBlocked`, from their number before.
abbrev pub expected : Text → ℕ → List Text → Bool → Text → ℕ → ℕ
expected id port networks blocked t before =
    if has_prefix (blocked_prefix id) t
    then (if blocked && any (λ n. text_eq (blocked_tag id port n) t) networks then 1 else 0)
    else if text_eq (node_prefix id ++ codes ":blocked") t
    then 0
    else before

-- A rule that rejects what comes to a port over one of the networks.
abbrev pub IsReject : Text → ℕ → List Text → Rule → Type 0
IsReject id port networks r =
    (n : Text) × (any (λ m. text_eq m n) networks ≡ true)
    × (r.comment ≡ blocked_tag id port n)
    × (r.words
        ≡ n
          ∷ codes "dport"
          ∷ itoa port
          ∷ codes "counter"
          ∷ codes "reject"
          ∷ codes "comment"
          ∷ (codes "\"" ++ blocked_tag id port n ++ codes "\"")
          ∷ [])

blocked_rules-Wanted :
    {S : Type 0} (nft : Nft S) (P : Rule → Type 0) (id : Text) (port : ℕ) (networks ns : List Text)
    → ((r : Rule) → IsReject id port networks r → P r)
    → ((n : Text) → any (λ m. text_eq m n) ns ≡ true → any (λ m. text_eq m n) networks ≡ true)
    → Wanted nft input P (blocked_rules id port ns)
unfolding blocked_rules
blocked_rules-Wanted nft P id port networks [] new sub = tt
blocked_rules-Wanted nft P id port networks (n ∷ ns) new sub =
    let rest =
      blocked_rules-Wanted nft P id port networks ns new (λ m e. sub m (ground (arith, e))) in
    if-cases (Wanted nft input P) (wanted (blocked_tag id port n) (blocked_rules id port ns))
      (λ _. rest) (λ _. (λ h. new _ (n, sub n (ground (arith, text_eq_self n)), refl, refl), rest))

-- The rules of the input chain stood there before, or are reject rules of a node that is blocked.
set_blocked-Holds :
    {S : Type 0} (nft : Nft S) (P : Rule → Type 0) (id : Text) (port : ℕ) (networks : List Text)
    (blocked : Bool)
    → ((r : Rule) → (blocked ≡ true) × IsReject id port networks r → P r)
    → Holds nft input P (set_blocked nft id port networks blocked)
unfolding set_blocked
set_blocked-Holds nft P id port networks blocked new =
    >>=-Holds nft input P (require nft (valid id port networks)) _ (λ s all. all)
      (λ _.
        >>=-Holds nft input P (ensure nft) _ (λ s all. rw (ensure-Keeps nft input s) all)
          (λ _.
            >>=-Holds nft input P (delete_tagged nft input (node_prefix id ++ codes ":blocked")) _
              (delete_tagged-Holds nft input P (node_prefix id ++ codes ":blocked"))
              (λ _.
                sync_tagged-Holds nft input P (blocked_prefix id)
                  (desired_rules id port networks blocked)
                  (if-cases (Wanted nft input P) blocked
                    (λ e.
                      blocked_rules-Wanted nft P id port networks networks (λ r k. new r (e, k))
                        (λ _ k. k))
                    (λ _. tt)))))

-- The rules of a tag after a call that returns no error.
set_blocked_counts :
    {S : Type 0} (nft : Nft S) (id t : Text) (port : ℕ) (networks : List Text) (blocked : Bool)
    (s : S)
    → (set_blocked nft id port networks blocked s).0 ≡ some tt
    → (valid id port networks ≡ true)
      × (count t (nft.rules input (set_blocked nft id port networks blocked s).1)
          ≡ expected id port networks blocked t (count t (nft.rules input s)))
unfolding set_blocked
set_blocked_counts {S} nft id t port networks blocked s h =
    elim (Bool-cases (valid id port networks)) [
      | inr v ↦ absurd (ground (arith, h, v))
      | inl v ↦
          let first = ensure nft s in
          elim (Option-cases first.0) [
            | inl e ↦ absurd (ground (arith, h, v, e))
            | inr (u, e) ↦
                let second = delete_tagged nft input (node_prefix id ++ codes ":blocked") first.1 in
                elim (Option-cases second.0) [
                  | inl f ↦ absurd (ground (arith, h, v, e, f))
                  | inr (q, f) ↦
                      let wants : Desired = desired_rules id port networks blocked in
                      let step : set_blocked nft id port networks blocked s
                          ≡ sync_tagged nft input (blocked_prefix id) wants second.1 =
                        ground (arith, v, e, f) in
                      let synced =
                        synced_rules nft id t port networks blocked second.1
                          (ap (λ (x : Option (Unit {0}) × S). x.0) (sym step) ∙ h) in
                      let legacy =
                        delete_tagged_lem nft input t (node_prefix id ++ codes ":blocked") first.1
                          f in
                      let same : count t (nft.rules input first.1) ≡ count t (nft.rules input s) =
                        ap (count t) (ensure-Keeps nft input s) in
                      (
                        v,
                        rw step (
                            synced
                            ∙ ground
                                (arith, legacy, same, wanted-blocked_rules id t port networks)),
                      )
                ]
          ]
    ]

-- A call that returns no error was given a valid node id, port and networks. It leaves in the input
-- chain one rule for each network of a blocked node, and none of an unblocked one, whatever rules of
-- that node's blocking stood there, repeated ones and those of old versions included; rules of every
-- other tag stay as many as they were. Each rule that it leaves stood there before, or the node is
-- blocked and the rule rejects what comes to the port over one of the networks, under its tag.
pub set_blocked_lem :
    {S : Type 0} (nft : Nft S) (id t : Text) (port : ℕ) (networks : List Text) (blocked : Bool)
    (s : S)
    → (set_blocked nft id port networks blocked s).0 ≡ some tt
    → (valid id port networks ≡ true)
      × (count t (nft.rules input (set_blocked nft id port networks blocked s).1)
          ≡ expected id port networks blocked t (count t (nft.rules input s)))
      × All
          (λ (r : Rule).
            In r (nft.rules input s) ⊎ ((blocked ≡ true) × IsReject id port networks r))
          (nft.rules input (set_blocked nft id port networks blocked s).1)
set_blocked_lem nft id t port networks blocked s h =
    let before = nft.rules input s in
    let Expected : Rule → Type 0 =
      λ r. In r before ⊎ ((blocked ≡ true) × IsReject id port networks r) in
    let (v, n) = set_blocked_counts nft id t port networks blocked s h in
    (
      v,
      n,
      set_blocked-Holds nft Expected id port networks blocked (λ r k. inr k) s
          (All-map (λ (r : Rule). In r before) Expected (λ r m. inl m) before (All-self before)),
    )

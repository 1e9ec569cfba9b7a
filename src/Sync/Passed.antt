-- ===== src/Sync/Passed.antt =====
-- What the checks of internal/api/sync.go before an import say of a file's nodes.
use mathlib.Core.Path.{subst}
use snell_sh.Common.{
  not, ◌&&◌, ◌≡◌, refl, sym, ap, ◌∙◌, ◌⊎◌, inl, inr, Bool, true, false, Option, none, some, List,
  [], ◌∷◌, any, All, codes, Text, text_eq, text_eq_iff, arith, Bool-cases,
}
use snell_sh.Common.Int.{ℤ, ◌≤ℤ◌}
use snell_sh.Database.{World, Action, ok, invalid, raise_if, pure, ◌>>=◌}
use snell_sh.Database.Steps.{>>=-Went}
use snell_sh.Database.Reads.{Reads}
use snell_sh.Nodes.Model.{Readers, Node, Tables}
use snell_sh.Nodes.Validate.{is_anyconnect, refuse, first_of}
use snell_sh.Nodes.Admit.{validate}
use snell_sh.Nodes.Conflict.{Protocol, protocols}
use snell_sh.Nodes.Users.{validate_user}
use snell_sh.Sync.Format.{SyncUser, SyncNode}
use snell_sh.Sync.Import.{find_sync_target, sync_create_request, user_request}
use snell_sh.Sync.Checks.{
  check_sync_users, validate_sync_payload, owns_endpoint, validate_sync_ports,
}
use snell_sh.Sync.Safe.{find_sync_target-Reads}

-- A node of a file that can be written: a server with a valid request and valid users.
abbrev pub IsValid : Readers → SyncNode → Type 0
IsValid lib item =
    (is_anyconnect item.kind ≡ true)
    × (validate lib (sync_create_request item) ≡ none)
    × All (λ (u : SyncUser). validate_user true (user_request u) ≡ none) item.users

-- The node that the import will write over runs on the endpoint already.
abbrev pub IsOwn : SyncNode → Option Node → Type 0
IsOwn item o =
    (n : Node) × (o ≡ some n)
    × ((n.actual_state ≡ codes "running")
        × (n.row.listen_host ≡ item.listen_host)
        × (n.row.listen_port ≤ℤ item.listen_port)
        × (item.listen_port ≤ℤ n.row.listen_port))

-- A node that is not to run, or one whose endpoint is its own or is free in all its protocols.
abbrev pub CanListen : (Text → ℤ → Protocol → Bool) → Tables → SyncNode → Type 0
CanListen taken t item =
    (text_eq item.desired_state (codes "running") ≡ false)
    ⊎ ((o : Option Node) × (u : World Tables) × (u.tables ≡ t)
        × ((find_sync_target item u).0 ≡ ok o)
        × (IsOwn item o
            ⊎ (any (taken item.listen_host item.listen_port) (protocols item.kind item.config)
                ≡ false)))

users_valid :
    (us : List SyncUser)
    → check_sync_users us ≡ none
    → All (λ (u : SyncUser). validate_user true (user_request u) ≡ none) us
unfolding check_sync_users first_of
users_valid [] h = tt
users_valid (u ∷ us) h = (ground (arith, h), users_valid us (ground (arith, h)))

pub payload-IsValid :
    (lib : Readers) (items : List SyncNode)
    → validate_sync_payload lib items ≡ none
    → All (IsValid lib) items
unfolding validate_sync_payload refuse first_of
payload-IsValid lib [] h = tt
payload-IsValid lib (item ∷ items) h = (
  (ground (arith, h), ground (arith, h), users_valid item.users (ground (arith, h))),
  payload-IsValid lib items (ground (arith, h)),
)

owns_lem : (item : SyncNode) (o : Option Node) → owns_endpoint item o ≡ true → IsOwn item o
owns_lem item none h = absurd (ground (arith, h))
owns_lem item (some n) h = (
  n,
  refl,
  ground (
    arith,
    h,
    text_eq_iff n.actual_state (codes "running"),
    text_eq_iff n.row.listen_host item.listen_host,
  ),
)

module _ (taken : Text → ℤ → Protocol → Bool) where
  listens :
      (item : SyncNode) (o : Option Node)
      → (not (owns_endpoint item o)
          && any (taken item.listen_host item.listen_port) (protocols item.kind item.config))
        ≡ false
      → IsOwn item o
        ⊎ (any (taken item.listen_host item.listen_port) (protocols item.kind item.config) ≡ false)
  listens item o h = elim (Bool-cases (owns_endpoint item o)) [
    | inl e ↦ inl (owns_lem item o e)
    | inr e ↦ inr (ground (arith, h, e))
  ]

  -- The check of one node.
  abbrev check_one : SyncNode → Bool → Action Tables (Unit {0})
  check_one item b = elim b [
    | false ↦ pure tt
    | true ↦ (do
      target ← find_sync_target item
      raise_if
          (not (owns_endpoint item target)
            && any (taken item.listen_host item.listen_port) (protocols item.kind item.config))
          (invalid (codes "SYNC_PORT_CONFLICT")))
  ]

  one_passed :
      (item : SyncNode) (b : Bool) (w : World Tables)
      → text_eq item.desired_state (codes "running") ≡ b
      → (check_one item b w).0 ≡ ok tt
      → ((check_one item b w).1.tables ≡ w.tables) × CanListen taken w.tables item
  unfolding Reads
  one_passed item false w s h = (refl, inl s)
  one_passed item true w s h =
      let went = >>=-Went (find_sync_target item) _ w h in
      let same = find_sync_target-Reads item w in
      (
        ap (λ p. p.1.tables) went.whole ∙ ap (λ p. p.1.tables) (sym went.first) ∙ same,
        inr (
          went.value,
          w,
          refl,
          ap (λ p. p.0) went.first,
          listens item went.value (ground (arith, went.second)),
        ),
      )

  pub ports_passed :
      (items : List SyncNode) (w : World Tables)
      → (validate_sync_ports taken items w).0 ≡ ok tt
      → All (CanListen taken w.tables) items
  unfolding validate_sync_ports
  ports_passed [] w h = tt
  ports_passed (item ∷ items) w h =
      let b = text_eq item.desired_state (codes "running") in
      let went = >>=-Went (check_one item b) (λ _. validate_sync_ports taken items) w h in
      let (same, can) = one_passed item b w refl (ap (λ p. p.0) went.first) in
      let back : went.world.tables ≡ w.tables = ap (λ p. p.1.tables) (sym went.first) ∙ same in
      (
        can,
        subst (λ t. All (CanListen taken t) items) back (ports_passed items went.world went.second),
      )

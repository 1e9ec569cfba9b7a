-- ===== src/Sync/Accepted.antt =====
-- Which exchange files `Validate` of internal/nodesync/format.go accepts, and what `Decode` reads.
use snell_sh.Common.{
  ◌≡◌, refl, ap, ◌↔◌, ◌≤◌, Bool, true, false, ◌||◌, Option, none, some, List, [], ◌∷◌, ◌++◌, Text,
  text_eq, text_eq_iff, ltb, length, length-append, All, arith,
}
use snell_sh.Common.Sort.{Differ}
use snell_sh.Nodes.Model.{Readers}
use snell_sh.Nodes.Rows.{present}
use snell_sh.Nodes.Validate.{is_anyconnect, refuse, first_of}
use snell_sh.Traffic.Store.{bad_quota}
use snell_sh.Sync.Format.{
  UserQuota, SyncUser, SyncNode, File, format_name, max_file_bytes, is_blank, is_blank_kind,
  is_among, is_version, check_quota, check_users, check_nodes, validate_file, Codec, with_newline,
  encode, decode,
}

-- A quota that `SetUserQuota` takes.
abbrev pub QuotaOk : Option UserQuota → Type 0
QuotaOk none = Unit
QuotaOk (some q) = bad_quota q.quota_bytes q.reset_day ≡ false

-- A user with a name, a password and such a quota.
abbrev pub Complete : SyncUser → Type 0
Complete u = (text_eq u.username [] ≡ false) × (text_eq u.password [] ≡ false) × QuotaOk u.quota

abbrev pub UserOk : List Text → SyncUser → Type 0
UserOk seen u = Complete u × (is_among u.username seen ≡ false)

abbrev pub same_username : SyncUser → SyncUser → Bool
same_username u v = text_eq u.username v.username

abbrev pub UsersOk : List Text → List SyncUser → Type 0
UsersOk seen users = All (UserOk seen) users × Differ same_username users

check_quota_iff : (o : Option UserQuota) → (check_quota o ≡ none) ↔ QuotaOk o
unfolding check_quota refuse
check_quota_iff none = (λ _. tt, λ _. refl)
check_quota_iff (some q) = ground arith

-- What one name more among the seen ones says.
UserOk-more :
    (u : SyncUser) (seen : List Text) (users : List SyncUser)
    → All (UserOk (u.username ∷ seen)) users
    → All (UserOk seen) users × All (λ v. same_username u v ≡ false) users
UserOk-more u seen [] h = (tt, tt)
UserOk-more u seen (v ∷ users) (h, hs) =
    let (k, l) = UserOk-more u seen users hs in
    (
      ((h.0, ground (arith, h.1)), k),
      (
        ground (arith, h.1, text_eq_iff u.username v.username, text_eq_iff v.username u.username),
        l,
      ),
    )

UserOk-less :
    (u : SyncUser) (seen : List Text) (users : List SyncUser)
    → All (UserOk seen) users
    → All (λ v. same_username u v ≡ false) users
    → All (UserOk (u.username ∷ seen)) users
UserOk-less u seen [] h k = tt
UserOk-less u seen (v ∷ users) (h, hs) (k, ks) = (
  (
    h.0,
    ground (arith, h.1, k, text_eq_iff u.username v.username, text_eq_iff v.username u.username),
  ),
  UserOk-less u seen users hs ks,
)

check_users_iff :
    (seen : List Text) (users : List SyncUser)
    → (check_users seen users ≡ none) ↔ UsersOk seen users
unfolding check_users refuse first_of
check_users_iff seen [] = (λ _. (tt, tt), λ _. refl)
check_users_iff seen (u ∷ users) = (
  λ h.
      let (rest, differ) = (check_users_iff (u.username ∷ seen) users).0 (ground (arith, h)) in
      let (ok_rest, others) = UserOk-more u seen users rest in
      (
        (
          (
            (ground (arith, h), ground (arith, h), (check_quota_iff u.quota).0 (ground (arith, h))),
            ground (arith, h),
          ),
          ok_rest,
        ),
        (others, differ),
      ),
  λ ((h, hs), (k, ks)). ground (
    arith,
    h.0.0,
    h.0.1,
    h.1,
    (check_quota_iff u.quota).1 h.0.2,
    (check_users_iff (u.username ∷ seen) users).1 (UserOk-less u seen users hs k, ks),
  ),
)

abbrev pub same_id : SyncNode → SyncNode → Bool
same_id n m = text_eq n.id m.id

-- An AnyConnect node with an id, a name, its credentials and no more than 4096 good users.
abbrev pub Sendable : Readers → SyncNode → Type 0
Sendable lib n =
    ((is_blank lib n.id || is_blank_kind lib n.kind || is_blank lib n.name) ≡ false)
    × (is_anyconnect n.kind ≡ true)
    × (present n.server_secrets ≡ true)
    × (ltb 4096 (length n.users) ≡ false)
    × UsersOk [] n.users

abbrev pub NodeOk : Readers → List Text → SyncNode → Type 0
NodeOk lib seen n = Sendable lib n × (is_among n.id seen ≡ false)

abbrev pub NodesOk : Readers → List Text → List SyncNode → Type 0
NodesOk lib seen nodes = All (NodeOk lib seen) nodes × Differ same_id nodes

NodeOk-more :
    (lib : Readers) (n : SyncNode) (seen : List Text) (nodes : List SyncNode)
    → All (NodeOk lib (n.id ∷ seen)) nodes
    → All (NodeOk lib seen) nodes × All (λ m. same_id n m ≡ false) nodes
NodeOk-more lib n seen [] h = (tt, tt)
NodeOk-more lib n seen (m ∷ nodes) (h, hs) =
    let (k, l) = NodeOk-more lib n seen nodes hs in
    (
      ((h.0, ground (arith, h.1)), k),
      (ground (arith, h.1, text_eq_iff n.id m.id, text_eq_iff m.id n.id), l),
    )

NodeOk-less :
    (lib : Readers) (n : SyncNode) (seen : List Text) (nodes : List SyncNode)
    → All (NodeOk lib seen) nodes
    → All (λ m. same_id n m ≡ false) nodes
    → All (NodeOk lib (n.id ∷ seen)) nodes
NodeOk-less lib n seen [] h k = tt
NodeOk-less lib n seen (m ∷ nodes) (h, hs) (k, ks) = (
  (h.0, ground (arith, h.1, k, text_eq_iff n.id m.id, text_eq_iff m.id n.id)),
  NodeOk-less lib n seen nodes hs ks,
)

check_nodes_iff :
    (lib : Readers) (seen : List Text) (nodes : List SyncNode)
    → (check_nodes lib seen nodes ≡ none) ↔ NodesOk lib seen nodes
unfolding check_nodes refuse first_of
check_nodes_iff lib seen [] = (λ _. (tt, tt), λ _. refl)
check_nodes_iff lib seen (n ∷ nodes) = (
  λ h.
      let (rest, differ) = (check_nodes_iff lib (n.id ∷ seen) nodes).0 (ground (arith, h)) in
      let (ok_rest, others) = NodeOk-more lib n seen nodes rest in
      (
        (
          (
            (
              ground (arith, h),
              ground (arith, h),
              ground (arith, h),
              ground (arith, h),
              (check_users_iff [] n.users).0 (ground (arith, h)),
            ),
            ground (arith, h),
          ),
          ok_rest,
        ),
        (others, differ),
      ),
  λ ((h, hs), (k, ks)). ground (
    arith,
    h.0.0,
    h.0.1,
    h.0.2,
    h.0.3,
    h.1,
    (check_users_iff [] n.users).1 h.0.4,
    (check_nodes_iff lib (n.id ∷ seen) nodes).1 (NodeOk-less lib n seen nodes hs k, ks),
  ),
)

-- A file of this format and version with at most 256 such nodes, no two of them with one id.
abbrev pub Accepted : Readers → File → Type 0
Accepted lib f =
    (text_eq f.format format_name ≡ true)
    × (is_version f.version ≡ true)
    × (length f.nodes ≤ 256)
    × NodesOk lib [] f.nodes

-- `Validate` returns no error exactly if the format and the version are right, there are at most 256
-- nodes with different ids, and each is an AnyConnect node with an id and a name that are not blank,
-- with credentials, and with at most 4096 users of different names, each with a name and a password
-- that are not empty and with no quota or one that `SetUserQuota` does not refuse.
pub validate_file-Accepted :
    (lib : Readers) (f : File) → (validate_file lib f ≡ none) ↔ Accepted lib f
unfolding validate_file refuse
validate_file-Accepted lib f = (
  λ h. (
    ground (arith, h),
    ground (arith, h),
    ground (arith, h),
    (check_nodes_iff lib [] f.nodes).0 (ground (arith, h)),
  ),
  λ (named, versioned, few, nodes).
      ground (arith, named, versioned, few, (check_nodes_iff lib [] f.nodes).1 nodes),
)

-- The text of a file that is printed.
written_lem :
    (v p : Option Text) (text : Text)
    → with_newline v p ≡ some text
    → (v ≡ none) × ((s : Text) × (p ≡ some s) × (text ≡ s ++ b'\n' ∷ []))
written_lem (some complaint) p text h = ground (arith, h)
written_lem none none text h = ground (arith, h)
written_lem none (some s) text h = (refl, (s, refl, ground (arith, h)))

-- If the JSON decoder reads back what the encoder prints of a file, with a line break after it, then
-- what `Encode` writes of this file is read by `Decode` as the same file, if it is not too long.
pub decode-encode :
    (lib : Readers) (c : Codec) (f : File) (text : Text)
    → ((s : Text) → c.print f ≡ some s → c.read (s ++ b'\n' ∷ []) ≡ some (f, false))
    → encode lib c f ≡ some text
    → ltb max_file_bytes (length text) ≡ false
    → decode lib c text ≡ some f
unfolding encode decode
decode-encode lib c f text law written short =
    let (valid, (s, printed, whole)) = written_lem (validate_file lib f) (c.print f) text written in
    ground (
      arith,
      valid,
      law s printed,
      whole,
      ap c.read whole,
      short,
      length-append s (b'\n' ∷ []),
      ap length whole,
    )

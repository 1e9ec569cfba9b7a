-- ===== src/Nodes/Users.antt =====
-- The users of an AnyConnect server (internal/nodes/anyconnect.go), statement by statement. A random id
-- and the time are arguments.
use snell_sh.Common.{
  Bool, true, false, not, ◌&&◌, ◌||◌, Option, none, some, [], ◌∷◌, ltb, ◌==◌, any, length, codes,
  Text, text_eq, if◌then◌else◌,
}
use snell_sh.Common.Dict.{Dict, lookup, insert, erase}
use snell_sh.Auth.Model.{scan}
use snell_sh.Database.{
  World, Action, Result, ok, err, no_rows, foreign_key, unique_key, invalid, pure, raise_if,
  or_raise, ◌>>=◌, ◌>>◌, query, exec_checked,
}
use snell_sh.Nodes.Model.{UserRow, plain, Tables}
use snell_sh.Nodes.Patterns.{is_username}
use snell_sh.Nodes.Validate.{is_anyconnect, text_or, is_one_of, refuse}
use snell_sh.Nodes.Rows.{present, put_secret}
use snell_sh.Nodes.Store.{Drawn, raise_some}

-- `AnyConnectUserRequest`
pub record UserRequest : Type 0 where
  pub username : Text
  pub password : Text
  pub route_group : Text
  pub enabled : Bool

abbrev is_empty : Text → Bool
is_empty s = text_eq s []

-- The rule for a password that is given.
unfoldable pub bad_password : Text → Bool
bad_password s =
    let (valid, count) = scan (length s) s in
    not valid || ltb count 4 || ltb 128 count || any (λ c. c == b'\r' || c == b'\n') s

-- `validateAnyConnectUser`
unfoldable pub validate_user : Bool → UserRequest → Option Text
validate_user require r =
    refuse (not (is_empty r.username) && not (is_username r.username)) (codes "USERNAME") (
      refuse (require && is_empty r.username) (codes "NO_USERNAME") (
        refuse (not (is_empty r.password) && bad_password r.password) (codes "PASSWORD") (
          refuse (require && is_empty r.password) (codes "NO_PASSWORD") (
            refuse (not (is_one_of (codes "full" ∷ codes "cn" ∷ codes "select" ∷ []) r.route_group))
              (codes "ROUTE_GROUP") none))))

-- `requireAnyConnectNode`
unfoldable pub require_server : Text → Action Tables (Unit {0})
require_server id = do
  row ← query (λ t. lookup id t.nodes)
  n ← or_raise row no_rows
  raise_if (not (is_anyconnect n.kind)) (invalid (codes "NOT_SERVER"))

abbrev pub of_node : Text → Option UserRow → Option UserRow
of_node id none = none
of_node id (some u) = if text_eq u.node_id id then some u else none

-- `GetAnyConnectUser`
unfoldable pub get_vpn_user : Text → Text → Action Tables UserRow
get_vpn_user node_id user_id = do
  row ← query (λ t. of_node node_id (lookup user_id t.users))
  or_raise row no_rows

-- The unique index on the node and the name, but for the row itself.
unfoldable pub name_taken : Text → UserRow → Dict UserRow → Bool
name_taken id u [] = false
name_taken id u ((j, v) ∷ rows) =
    (not (text_eq j id) && (text_eq u.node_id v.node_id && text_eq u.username v.username))
    || name_taken id u rows

-- A unique key that is violated gets a message of its own.
abbrev pub with_message : {A : Type 0} → Result A × World Tables → Result A × World Tables
with_message (err unique_key, w) = (err (invalid (codes "NAME_TAKEN")), w)
with_message (r, w) = (r, w)

abbrev pub named_errors : {A : Type 0} → Action Tables A → Action Tables A
named_errors m w = with_message (m w)

abbrev pub insertion : Text → UserRow → Tables → Result Tables
insertion id u t =
    if present (lookup id t.users) || name_taken id u t.users
    then err unique_key
    else if not (present (lookup u.node_id t.nodes))
        || not (present (lookup u.password_ref t.secrets))
    then err foreign_key
    else ok (record t { users = insert id u t.users })

abbrev pub user_row : Text → UserRequest → Text → Text → UserRow
user_row node_id r ref now = record {
  node_id = node_id;
  username = r.username;
  password_ref = ref;
  route_group = r.route_group;
  enabled = r.enabled;
  created_at = now;
  updated_at = now;
}

-- `CreateAnyConnectUser`
unfoldable pub create_vpn_user : Text → Text → UserRequest → Drawn → Action Tables UserRow
create_vpn_user node_id id r d = do
  require_server node_id
  raise_some (validate_user true r)
  put_secret d.secret_id (plain r.password)
  named_errors (exec_checked (insertion id (user_row node_id r d.secret_id d.now)))
  get_vpn_user node_id id

abbrev pub changed_user : Text → UserRequest → Text → Text → UserRow → UserRow
changed_user name r ref now u = record u {
  username = name;
  password_ref = ref;
  route_group = r.route_group;
  enabled = r.enabled;
  updated_at = now;
}

abbrev pub change_found :
    Text → Text → (UserRow → UserRow) → Tables → Option UserRow → Result Tables
change_found node_id id f t none = ok t
change_found node_id id f t (some u) =
    if name_taken id (f u) t.users
    then err unique_key
    else if not (present (lookup (f u).password_ref t.secrets))
    then err foreign_key
    else ok (record t { users = insert id (f u) t.users })

abbrev pub user_change : Text → Text → (UserRow → UserRow) → Tables → Result Tables
user_change node_id id f t = change_found node_id id f t (of_node node_id (lookup id t.users))

unfoldable pub next_password : UserRequest → Text → Drawn → Action Tables Text
next_password r old_ref d = elim (is_empty r.password) [
  | true ↦ pure old_ref
  | false ↦ (do put_secret d.secret_id (plain r.password); pure (d.secret_id))
]

-- `UpdateAnyConnectUser`; an empty name keeps the old one.
unfoldable pub update_vpn_user : Text → Text → UserRequest → Drawn → Action Tables UserRow
update_vpn_user node_id id r d = do
  raise_some (validate_user false r)
  old ← get_vpn_user node_id id
  row ← query (λ t. lookup id t.users)
  u ← or_raise row no_rows
  ref ← next_password r u.password_ref d
  named_errors (
      exec_checked
        (user_change node_id id (changed_user (text_or r.username old.username) r ref d.now)))
  get_vpn_user node_id id

abbrev pub user_removal : Text → Text → Tables → Result Tables
user_removal node_id id t =
    if present (of_node node_id (lookup id t.users))
    then ok (record t { users = erase id t.users })
    else err no_rows

-- `DeleteAnyConnectUser`, with its `RowsAffected`.
unfoldable pub delete_vpn_user : Text → Text → Action Tables (Unit {0})
delete_vpn_user node_id id = exec_checked (user_removal node_id id)

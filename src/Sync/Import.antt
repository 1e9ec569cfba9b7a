-- ===== src/Sync/Import.antt =====
-- The import of an exchange file (internal/api/sync.go), from the parsed file to the calls of the
-- stores. The ids, the secrets and the times that the calls draw are a function of the file's node and
-- user. The counts of the answer are left out, and so are the calls of the agent after the last write.
use snell_sh.Common.{
  Bool, true, false, not, Option, none, some, List, [], ◌∷◌, map, codes, Text, text_eq,
  if◌then◌else◌,
}
use snell_sh.Common.Dict.{Dict, lookup, insert}
use snell_sh.Database.{
  World, Action, Result, ok, err, no_rows, invalid, pure, raise_if, ◌>>=◌, ◌>>◌,
}
use snell_sh.Traffic.Model.{Instant}
use snell_sh.Traffic.Store.{set_user_quota}
use snell_sh.Nodes.Model.{Kind, Config, Request, Readers, UserRow, Node}
use snell_sh.Nodes.Rows.{same_kind}
use snell_sh.Nodes.Validate.{is_anyconnect}
use snell_sh.Nodes.Admit.{validate}
use snell_sh.Nodes.Store.{Drawn, raise_some, get_node, create_with_id}
use snell_sh.Nodes.Edit.{update, is_state, set_desired}
use snell_sh.Nodes.Users.{UserRequest, create_vpn_user, update_vpn_user, delete_vpn_user}
use snell_sh.Nodes.Find.{find_by_name_type, list_vpn_users}
use snell_sh.Sync.Format.{UserQuota, SyncUser, SyncNode, is_among}
use snell_sh.Nodes.Model as NodesModel
use snell_sh.Traffic.Model as TrafficModel

-- The tables of the two stores that an import writes.
pub record Panel : Type 0 where
  pub core : NodesModel.Tables
  pub traffic : TrafficModel.Tables

-- A call of one store, with the statements that come next; the user rows' keys are the accounts that
-- the traffic tables refer to.
abbrev with_core :
    {A : Type 0} → Panel → Result A × World NodesModel.Tables → Result A × World Panel
with_core p (r, v) = (r, record { tables = record p { core = v.tables }; faults = v.faults })

abbrev pub on_nodes : {A : Type 0} → Action NodesModel.Tables A → Action Panel A
on_nodes m w = with_core w.tables (m (record { tables = w.tables.core; faults = w.faults }))

abbrev with_traffic :
    {A : Type 0} → Panel → Result A × World TrafficModel.Tables → Result A × World Panel
with_traffic p (r, v) = (r, record { tables = record p { traffic = v.tables }; faults = v.faults })

abbrev pub on_traffic : {A : Type 0} → Action TrafficModel.Tables A → Action Panel A
on_traffic m w = with_traffic w.tables (
    m (record {
      tables = record (w.tables.traffic) { accounts = map (λ (id, _). id) w.tables.core.users };
      faults = w.faults;
    }))

-- What the calls draw.
pub record Draws : Type 0 where
  pub node : Text → Drawn
  pub user : Text → Text → Drawn
  pub user_id : Text → Text → Text
  pub now : Text
  pub instant : Instant

-- `errors.Is(err, sql.ErrNoRows)` after a call.
abbrev pub if_found : {S A : Type 0} → Result A × World S → Result (Option A) × World S
if_found (ok a, w) = (ok (some a), w)
if_found (err no_rows, w) = (ok none, w)
if_found (err e, w) = (err e, w)

abbrev pub optional_row : {S A : Type 0} → Action S A → Action S (Option A)
optional_row m w = if_found (m w)

abbrev pub target_for : SyncNode → Option Node → Action NodesModel.Tables (Option Node)
target_for item (some n) = do
  raise_if (not (same_kind n.row.kind item.kind)) (invalid (codes "KIND"))
  pure (some n)
target_for item none = optional_row (find_by_name_type item.kind item.name)

-- `findSyncTarget`
unfoldable pub find_sync_target : SyncNode → Action NodesModel.Tables (Option Node)
find_sync_target item = do by_id ← optional_row (get_node item.id); target_for item by_id

abbrev secret_or_empty : Option (Text × Text) → Text × Text
secret_or_empty none = ([], [])
secret_or_empty (some s) = s

-- `syncCreateRequest`
unfoldable pub sync_create_request : SyncNode → Request
sync_create_request item = record {
  kind = item.kind;
  name = item.name;
  runtime_version = item.runtime_version;
  listen_host = item.listen_host;
  listen_port = item.listen_port;
  backend_node_id = item.backend_node_id;
  config = item.config;
  secret = item.secret;
  certificate_password = (secret_or_empty item.server_secrets).0;
  private_key_passphrase = (secret_or_empty item.server_secrets).1;
}

abbrev source : Text
source = codes "sync-import"

abbrev pub put_node : Readers → Draws → SyncNode → Option Node → Action NodesModel.Tables Node
put_node lib d item (some local) =
    update lib local.id (sync_create_request item) source (d.node item.id)
put_node lib d item none =
    create_with_id lib item.id (sync_create_request item) source (d.node item.id)

abbrev pub switch_node : Draws → Text → Text → Action NodesModel.Tables (Unit {0})
switch_node d id state = elim (is_state state) [
  | true ↦ set_desired id state d.now
  | false ↦ pure tt
]

-- The body of the first loop of `applySyncImport`.
unfoldable pub import_node : Readers → Draws → SyncNode → Action NodesModel.Tables Text
import_node lib d item = do
  target ← find_sync_target item
  raise_some (validate lib (sync_create_request item))
  local ← put_node lib d item target
  switch_node d local.id item.desired_state
  pure (local.id)

-- The first loop, with the map from the file's ids to the panel's.
unfoldable pub import_nodes :
    Readers → Draws → List SyncNode → Dict Text → Action NodesModel.Tables (Dict Text)
import_nodes lib d [] local = pure local
import_nodes lib d (item ∷ items) local = do
  id ← import_node lib d item
  import_nodes lib d items (insert item.id id local)

unfoldable pub user_request : SyncUser → UserRequest
user_request u = record {
  username = u.username;
  password = u.password;
  route_group = u.route_group;
  enabled = u.enabled;
}

-- `byName`: the last of the users with a name.
unfoldable pub by_name : Text → Dict UserRow → Option Text
by_name name [] = none
by_name name ((id, u) ∷ users) =
    later (by_name name users) (if text_eq u.username name then some id else none)
  where
    later : Option Text → Option Text → Option Text
    later none o = o
    later (some i) o = some i

abbrev pub put_user : Draws → Text → Text → SyncUser → Option Text → Action NodesModel.Tables Text
put_user d item_id local u (some id) = do
  update_vpn_user local id (user_request u) (d.user item_id u.username)
  pure id
put_user d item_id local u none = do
  create_vpn_user local (d.user_id item_id u.username) (user_request u) (d.user item_id u.username)
  pure (d.user_id item_id u.username)

abbrev pub put_quota : Draws → Text → Option UserQuota → Action Panel (Unit {0})
put_quota d id none = pure tt
put_quota d id (some q) = on_traffic (set_user_quota id q.quota_bytes q.reset_day d.instant)

-- The loop over the users of one node of the file.
unfoldable pub import_users :
    Draws → Text → Text → Dict UserRow → List SyncUser → Action Panel (Unit {0})
import_users d item_id local users [] = pure tt
import_users d item_id local users (u ∷ imported) = do
  id ← on_nodes (put_user d item_id local u (by_name u.username users))
  put_quota d id u.quota
  import_users d item_id local users imported

abbrev pub usernames : List SyncUser → List Text
usernames imported = map (λ u. u.username) imported

-- With `replaceUsers`: the users that the file does not name go.
unfoldable pub remove_unseen : Text → List SyncUser → Dict UserRow → Action Panel (Unit {0})
remove_unseen local imported [] = pure tt
remove_unseen local imported ((id, u) ∷ users) = elim (is_among u.username (usernames imported)) [
  | true ↦ remove_unseen local imported users
  | false ↦ (do on_nodes (delete_vpn_user local id); remove_unseen local imported users)
]

abbrev pub text_or_empty : Option Text → Text
text_or_empty none = []
text_or_empty (some s) = s

unfoldable pub import_node_users : Draws → Bool → Text → SyncNode → Action Panel (Unit {0})
import_node_users d replace local item = do
  users ← on_nodes (list_vpn_users local)
  import_users d item.id local users item.users
  elim replace [ true ↦ remove_unseen local item.users users | false ↦ pure tt ]

-- The second loop.
unfoldable pub import_all_users : Draws → Bool → Dict Text → List SyncNode → Action Panel (Unit {0})
import_all_users d replace local [] = pure tt
import_all_users d replace local (item ∷ items) = do
  elim (is_anyconnect item.kind) [
    | true ↦ import_node_users d replace (text_or_empty (lookup item.id local)) item
    | false ↦ pure tt
  ]
  import_all_users d replace local items

-- `applySyncImport` up to the calls of the agent.
unfoldable pub apply_sync_import : Readers → Draws → Bool → List SyncNode → Action Panel (Unit {0})
apply_sync_import lib d replace items = do
  local ← on_nodes (import_nodes lib d items [])
  import_all_users d replace local items

-- ===== src/Nodes/Edit.antt =====
-- `Update`, `Delete`, `SetDesired` and `UpdateRuntime` of internal/nodes/store.go, statement by
-- statement.
use snell_sh.Common.{
  ℕ, ◌+◌, Bool, true, false, not, ◌&&◌, ◌||◌, Option, none, some, [], ◌∷◌, codes, Text, text_eq,
  if◌then◌else◌,
}
use snell_sh.Common.Dict.{Dict, lookup, insert, erase, prune}
use snell_sh.Database.{
  Action, Result, ok, err, no_rows, foreign_key, unique_key, invalid, pure, raise_if, or_raise,
  ◌>>=◌, ◌>>◌, query, exec, exec_checked, transaction,
}
use snell_sh.Nodes.Model.{
  Request, Readers, NodeRow, ConfigRow, RuntimeRow, plain, server_secrets, Tables, Node,
}
use snell_sh.Nodes.Validate.{is_anyconnect, text_or, normalize_request}
use snell_sh.Nodes.Admit.{validate}
use snell_sh.Nodes.Conflict.{check_conflict}
use snell_sh.Nodes.Rows.{present, put_secret, insert_revision, listens_twice, dangling}
use snell_sh.Nodes.Store.{
  Drawn, get_node, get_server_secrets, snapshot, new_config, raise_some, require_backend,
}

abbrev is_empty : Text → Bool
is_empty s = text_eq s []

-- The reference to the secret after an update.
unfoldable pub server_secret : Readers → Text → Request → Drawn → Action Tables Text
server_secret lib id r d = do
  values ← get_server_secrets lib id
  put_secret d.secret_id (
      server_secrets (text_or r.certificate_password values.0)
        (text_or r.private_key_passphrase values.1))
  pure (d.secret_id)

unfoldable pub plain_secret : Request → Text → Drawn → Action Tables Text
plain_secret r old_ref d = elim (is_empty r.secret) [
  | true ↦ pure old_ref
  | false ↦ (do put_secret d.secret_id (plain r.secret); pure (d.secret_id))
]

unfoldable pub next_secret : Readers → Text → Request → Text → Drawn → Action Tables Text
next_secret lib id r old_ref d =
    elim (is_anyconnect r.kind
      && (not (is_empty r.certificate_password) || not (is_empty r.private_key_passphrase))) [
        | true ↦ server_secret lib id r d
        | false ↦ plain_secret r old_ref d
      ]

abbrev pub edited : Request → Text → NodeRow → NodeRow
edited r now n = record n {
  name = r.name;
  runtime_version = r.runtime_version;
  listen_host = r.listen_host;
  listen_port = r.listen_port;
  backend_node_id = r.backend_node_id;
  updated_at = now;
}

-- The UPDATE of one row of `nodes`; without the row nothing changes.
abbrev update_found : Text → Request → Text → Tables → Option NodeRow → Result Tables
update_found id r now t none = ok t
update_found id r now t (some n) =
    if listens_twice id (edited r now n) t.nodes
    then err unique_key
    else if dangling r.backend_node_id t.nodes
    then err foreign_key
    else ok (record t { nodes = insert id (edited r now n) t.nodes })

unfoldable pub edit_node : Text → Request → Text → Action Tables (Unit {0})
edit_node id r now = exec_checked (λ t. update_found id r now t (lookup id t.nodes))

unfoldable pub update_config : Text → ConfigRow → Action Tables (Unit {0})
update_config id c = exec_checked (λ t.
    if not (present (lookup id t.configs))
    then ok t
    else if not (present (lookup c.secret_ref t.secrets))
    then err foreign_key
    else ok (record t { configs = insert id c t.configs }))

-- The statements of the transaction of `Update`.
unfoldable pub update_all : Text → Request → Text → ℕ → Text → Text → Action Tables (Unit {0})
update_all id r ref revision now source = do
  edit_node id r now
  update_config id (new_config r.config ref revision)
  insert_revision (snapshot id revision r.config r.runtime_version source now)

-- `Update` after `NormalizeUpdate`.
unfoldable pub update_normal : Readers → Text → Request → Text → Drawn → Action Tables Node
update_normal lib id r source d = do
  raise_some (validate lib r)
  check_conflict lib id r.kind r.listen_host r.listen_port r.config
  require_backend r.kind r.backend_node_id
  row ← query (λ t. lookup id t.configs)
  c ← or_raise row no_rows
  ref ← next_secret lib id r c.secret_ref d
  transaction (update_all id r ref (c.revision + 1) d.now source)
  get_node id

-- `Update`; the type of the request is that of the node.
unfoldable pub update : Readers → Text → Request → Text → Drawn → Action Tables Node
update lib id r source d = do
  old ← get_node id
  update_normal lib id (normalize_request (record r { kind = old.row.kind })) source d

-- Whether some node has the node as its backend.
unfoldable pub is_used : Text → Dict NodeRow → Bool
is_used id [] = false
is_used id ((j, n) ∷ rows) = text_eq n.backend_node_id id || is_used id rows

-- The rows that go with a node: those of the tables that cascade.
abbrev pub without_node : Text → Tables → Tables
without_node id t = record t {
  nodes = erase id t.nodes;
  configs = erase id t.configs;
  users = prune (λ u. text_eq u.node_id id) t.users;
}

-- The DELETE, which the foreign key refuses while a node refers to the row.
abbrev pub removal : Text → Tables → Result Tables
removal id t =
    if not (is_empty id) && is_used id (erase id t.nodes)
    then err foreign_key
    else ok (without_node id t)

-- `Delete`; an empty id is no reference, since it is stored as NULL.
unfoldable pub delete : Text → Action Tables (Unit {0})
delete id = do
  used ← query (λ t. not (is_empty id) && is_used id t.nodes)
  raise_if used (invalid (codes "DEPENDENTS"))
  exec_checked (removal id)

abbrev pub desired : Text → Text → Text → Tables → Option NodeRow → Result Tables
desired id state now t none = err no_rows
desired id state now t (some n) =
    ok (record t {
      nodes = insert id (record n { desired_state = state; updated_at = now }) t.nodes;
    })

abbrev pub is_state : Text → Bool
is_state s = text_eq s (codes "running") || text_eq s (codes "stopped")

-- `SetDesired`, with its `RowsAffected`.
unfoldable pub set_desired : Text → Text → Text → Action Tables (Unit {0})
set_desired id state now = do
  raise_if (not (is_state state)) (invalid (codes "STATE"))
  exec_checked (λ t. desired id state now t (lookup id t.nodes))

-- `UpdateRuntime`
unfoldable pub update_runtime : Text → RuntimeRow → Action Tables (Unit {0})
update_runtime id r = exec (λ t. record t { runtimes = insert id r t.runtimes })

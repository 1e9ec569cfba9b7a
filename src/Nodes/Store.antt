-- ===== src/Nodes/Store.antt =====
-- The operations of `nodes.Store` (internal/nodes/store.go), statement by statement. A random id, a
-- random secret and the time are arguments.
use mathlib.Core.Option
use snell_sh.Common.{
  ℕ, Bool, true, false, not, Option, none, some, [], codes, take, Text, if◌then◌else◌,
}
use snell_sh.Common.Int.{pos}
use snell_sh.Common.Dict.{lookup}
use snell_sh.Database.{
  Action, no_rows, invalid, pure, raise, raise_if, or_raise, ◌>>=◌, ◌>>◌, query, transaction,
}
use snell_sh.Nodes.Model.{
  Kind, shadowtls, Config, Request, Readers, NodeRow, ConfigRow, RevisionRow, RuntimeRow, Secret,
  plain, server_secrets, Tables, Node,
}
use snell_sh.Nodes.Patterns.{is_node_id}
use snell_sh.Nodes.Validate.{is_anyconnect, text_or, normalize_routing, normalize_request}
use snell_sh.Nodes.Admit.{validate}
use snell_sh.Nodes.Rows.{
  put_secret, insert_node, insert_config, insert_revision, insert_runtime, insert_counter,
}
use snell_sh.Nodes.Conflict.{check_conflict, check_backend}

abbrev seen_config : Kind → Config → Config
seen_config k c = if is_anyconnect k then normalize_routing c else c

abbrev actual : Option RuntimeRow → Text × Text
actual none = (codes "stopped", [])
actual (some r) = (r.actual_state, r.last_error)

-- `queryNode` and `scanNode`.
abbrev scan_row : Text → Tables → NodeRow → ConfigRow → Node
scan_row id t n c = record {
  id = id;
  row = n;
  config = seen_config n.kind c.config;
  revision = c.revision;
  actual_state = (actual (lookup id t.runtimes)).0;
  last_error = (actual (lookup id t.runtimes)).1;
}

abbrev pub join_row : Text → Tables → Option NodeRow → Option ConfigRow → Option Node
join_row id t (some n) (some c) = some (scan_row id t n c)
join_row id t none c = none
join_row id t (some n) none = none

unfoldable pub scan_node : Text → Tables → Option Node
scan_node id t = join_row id t (lookup id t.nodes) (lookup id t.configs)

-- `Get`
unfoldable pub get_node : Text → Action Tables Node
get_node id = do found ← query (scan_node id); or_raise found no_rows

-- `Secret`
unfoldable pub get_secret : Text → Action Tables Secret
get_secret id = do
  row ← query (λ t. lookup id t.configs)
  c ← or_raise row no_rows
  sealed ← query (λ t. lookup (c.secret_ref) t.secrets)
  or_raise sealed no_rows

-- The passphrase of older versions is the password.
abbrev filled : Text × Text → Text × Text
filled (password, passphrase) = (password, text_or passphrase password)

abbrev parse_secrets : Readers → Secret → Option (Text × Text)
parse_secrets lib (plain s) = Option.map filled (lib.read_secrets s)
parse_secrets lib (server_secrets password passphrase) = some (filled (password, passphrase))

-- `AnyConnectSecrets`
unfoldable pub get_server_secrets : Readers → Text → Action Tables (Text × Text)
get_server_secrets lib id = do
  s ← get_secret id
  or_raise (parse_secrets lib s) (invalid (codes "CREDENTIALS"))

-- What a call draws: an id for the secret, a random secret, and the time.
pub record Drawn : Type 0 where
  pub secret_id : Text
  pub random_secret : Text
  pub now : Text

abbrev pub sealed_secret : Request → Text → Secret
sealed_secret r random =
    if is_anyconnect r.kind
    then server_secrets r.certificate_password r.private_key_passphrase
    else plain (text_or r.secret random)

abbrev pub new_row : Request → Text → NodeRow
new_row r now = record {
  kind = r.kind;
  name = r.name;
  desired_state = codes "running";
  runtime_version = r.runtime_version;
  listen_host = r.listen_host;
  listen_port = r.listen_port;
  backend_node_id = r.backend_node_id;
  created_at = now;
  updated_at = now;
}

abbrev pub new_config : Config → Text → ℕ → ConfigRow
new_config c ref revision = record { config = c; secret_ref = ref; revision = revision }

abbrev pub snapshot : Text → ℕ → Config → Text → Text → Text → RevisionRow
snapshot id revision c version source now = record {
  node_id = id;
  revision = revision;
  snapshot = c;
  runtime_version = version;
  source = source;
  created_at = now;
}

abbrev pub stopped_row : Text → RuntimeRow
stopped_row now = record {
  pid = pos 0;
  actual_state = codes "stopped";
  last_error = [];
  restart_count = pos 0;
  updated_at = now;
}

-- The statements of the transaction of `createWithID`.
unfoldable pub insert_all : Text → Request → Text → Text → Text → Action Tables (Unit {0})
insert_all id r secret_id now source = do
  insert_node id (new_row r now)
  insert_config id (new_config r.config secret_id 1)
  insert_revision (snapshot id 1 r.config r.runtime_version source now)
  insert_runtime id (stopped_row now)
  insert_counter id (take 7 now)

abbrev pub raise_some : Option Text → Action Tables (Unit {0})
raise_some none = pure tt
raise_some (some complaint) = raise (invalid complaint)

abbrev is_shadowtls : Kind → Bool
is_shadowtls shadowtls = true
is_shadowtls k = false

unfoldable pub require_backend : Kind → Text → Action Tables (Unit {0})
require_backend k backend = elim (is_shadowtls k) [ true ↦ check_backend backend | false ↦ pure tt ]

-- `createWithID` after `Normalize`.
unfoldable pub create_normal : Readers → Text → Request → Text → Drawn → Action Tables Node
create_normal lib id r source d = do
  raise_some (validate lib r)
  check_conflict lib [] r.kind r.listen_host r.listen_port r.config
  require_backend r.kind r.backend_node_id
  put_secret d.secret_id (sealed_secret r d.random_secret)
  transaction (insert_all id r d.secret_id d.now source)
  get_node id

unfoldable pub create : Readers → Text → Request → Text → Drawn → Action Tables Node
create lib id r source d = create_normal lib id (normalize_request r) source d

-- `CreateWithID`; `Create` is `create` with a random id.
unfoldable pub create_with_id : Readers → Text → Request → Text → Drawn → Action Tables Node
create_with_id lib id r source d = do
  raise_if (not (is_node_id id)) (invalid (codes "NODE_ID"))
  create lib id r source d

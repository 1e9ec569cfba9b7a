-- ===== src/Nodes/Rows.antt =====
-- The statements that put rows into the tables of the nodes (internal/nodes/store.go), with the keys,
-- indexes and constraints of internal/database/migrations.go, and `secrets.Put`.
use snell_sh.Common.{
  Bool, true, false, not, ◌&&◌, ◌||◌, Option, none, some, [], ◌∷◌, ◌==◌, any, Text, text_eq,
  if◌then◌else◌,
}
use snell_sh.Common.Int.{leb_ℤ}
use snell_sh.Common.Dict.{Dict, lookup, insert}
use snell_sh.Database.{Action, ok, err, foreign_key, unique_key, exec_checked}
use snell_sh.Nodes.Model.{
  Kind, snell, ss2022, shadowtls, anyconnect, other_kind, NodeRow, ConfigRow, RevisionRow,
  RuntimeRow, Secret, Tables,
}

abbrev pub present {ℓ} : {V : Type ℓ} → Option V → Bool
present none = false
present (some v) = true

-- `secrets.Put`: one row with a random id.
unfoldable pub put_secret : Text → Secret → Action Tables (Unit {0})
put_secret id s = exec_checked (λ t.
    if present (lookup id t.secrets)
    then err unique_key
    else ok (record t { secrets = insert id s t.secrets }))

abbrev pub same_kind : Kind → Kind → Bool
same_kind snell snell = true
same_kind ss2022 ss2022 = true
same_kind shadowtls shadowtls = true
same_kind anyconnect anyconnect = true
same_kind (other_kind s) (other_kind t) = text_eq s t
same_kind k j = false

abbrev same_listen : NodeRow → NodeRow → Bool
same_listen n m =
    text_eq n.listen_host m.listen_host
    && leb_ℤ n.listen_port m.listen_port
    && leb_ℤ m.listen_port n.listen_port
    && same_kind n.kind m.kind

-- The unique index `nodes_listen`, but for the row itself.
unfoldable pub listens_twice : Text → NodeRow → Dict NodeRow → Bool
listens_twice id n [] = false
listens_twice id n ((j, m) ∷ rows) =
    (not (text_eq j id) && same_listen n m) || listens_twice id n rows

-- The foreign key `backend_node_id`.
abbrev pub dangling : Text → Dict NodeRow → Bool
dangling backend rows = not (text_eq backend []) && not (present (lookup backend rows))

unfoldable pub insert_node : Text → NodeRow → Action Tables (Unit {0})
insert_node id n = exec_checked (λ t.
    if present (lookup id t.nodes) || listens_twice id n t.nodes
    then err unique_key
    else if dangling n.backend_node_id (insert id n t.nodes)
    then err foreign_key
    else ok (record t { nodes = insert id n t.nodes }))

unfoldable pub insert_config : Text → ConfigRow → Action Tables (Unit {0})
insert_config id c = exec_checked (λ t.
    if present (lookup id t.configs)
    then err unique_key
    else if not (present (lookup id t.nodes)) || not (present (lookup c.secret_ref t.secrets))
    then err foreign_key
    else ok (record t { configs = insert id c t.configs }))

abbrev pub same_revision : RevisionRow → RevisionRow → Bool
same_revision r q = text_eq r.node_id q.node_id && (r.revision == q.revision)

unfoldable pub insert_revision : RevisionRow → Action Tables (Unit {0})
insert_revision r = exec_checked (λ t.
    if any (same_revision r) t.revisions
    then err unique_key
    else ok (record t { revisions = r ∷ t.revisions }))

unfoldable pub insert_runtime : Text → RuntimeRow → Action Tables (Unit {0})
insert_runtime id r = exec_checked (λ t.
    if present (lookup id t.runtimes)
    then err unique_key
    else ok (record t { runtimes = insert id r t.runtimes }))

unfoldable pub insert_counter : Text → Text → Action Tables (Unit {0})
insert_counter id period = exec_checked (λ t.
    if present (lookup id t.counters)
    then err unique_key
    else ok (record t { counters = insert id period t.counters }))

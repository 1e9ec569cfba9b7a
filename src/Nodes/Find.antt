-- ===== src/Nodes/Find.antt =====
-- `FindByNameType` of internal/nodes/store.go and `ListAnyConnectUsers` of internal/nodes/anyconnect.go.
use snell_sh.Common.{
  Bool, true, false, ◌&&◌, ◌||◌, Option, none, some, [], ◌∷◌, ltb, ◌==◌, Text, text_eq,
  if◌then◌else◌,
}
use snell_sh.Common.Dict.{Dict}
use snell_sh.Common.Sort.{sort_by}
use snell_sh.Database.{Action, no_rows, or_raise, ◌>>=◌, ◌>>◌, query}
use snell_sh.Nodes.Model.{Kind, NodeRow, UserRow, Tables, Node}
use snell_sh.Nodes.Rows.{same_kind}
use snell_sh.Nodes.Store.{scan_node}
use snell_sh.Nodes.Users.{require_server}

-- The order of texts in SQLite, byte by byte.
unfoldable pub text_before : Text → Text → Bool
text_before s [] = false
text_before [] (d ∷ t) = true
text_before (c ∷ s) (d ∷ t) = ltb c d || ((c == d) && text_before s t)

-- The first of two nodes by `created_at`.
abbrev pub earlier : Option Node → Option Node → Option Node
earlier none o = o
earlier (some n) none = some n
earlier (some n) (some m) = if text_before m.row.created_at n.row.created_at then some m else some n

unfoldable pub named_node : Kind → Text → Tables → Dict NodeRow → Option Node
named_node kind name t [] = none
named_node kind name t ((i, n) ∷ rows) =
    let rest = named_node kind name t rows in
    if same_kind n.kind kind && text_eq n.name name then earlier (scan_node i t) rest else rest

-- `FindByNameType`
unfoldable pub find_by_name_type : Kind → Text → Action Tables Node
find_by_name_type kind name = do
  found ← query (λ t. named_node kind name t t.nodes)
  or_raise found no_rows

unfoldable pub users_of : Text → Dict UserRow → Dict UserRow
users_of id [] = []
users_of id ((i, u) ∷ rows) =
    let rest = users_of id rows in if text_eq u.node_id id then (i, u) ∷ rest else rest

abbrev pub user_before : Text × UserRow → Text × UserRow → Bool
user_before (_, u) (_, v) =
    text_before u.created_at v.created_at
    || (text_eq u.created_at v.created_at && text_before u.username v.username)

-- `ListAnyConnectUsers`
unfoldable pub list_vpn_users : Text → Action Tables (Dict UserRow)
list_vpn_users id = do require_server id; query (λ t. sort_by user_before (users_of id t.users))

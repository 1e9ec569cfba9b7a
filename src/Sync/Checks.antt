-- ===== src/Sync/Checks.antt =====
-- The checks before an import (`validateSyncPayload` and `validateSyncPorts` of internal/api/sync.go).
use snell_sh.Common.{
  Bool, true, false, not, ◌&&◌, Option, none, some, List, [], ◌∷◌, any, codes, Text, text_eq,
}
use snell_sh.Common.Int.{ℤ, leb_ℤ}
use snell_sh.Database.{Action, invalid, pure, raise_if, ◌>>=◌, ◌>>◌}
use snell_sh.Nodes.Model.{Kind, Config, Request, Readers, UserRow, Node}
use snell_sh.Nodes.Validate.{is_anyconnect, refuse, first_of}
use snell_sh.Nodes.Admit.{validate}
use snell_sh.Nodes.Conflict.{Protocol, protocols}
use snell_sh.Nodes.Users.{validate_user}
use snell_sh.Sync.Format.{SyncUser, SyncNode}
use snell_sh.Nodes.Model as NodesModel
use snell_sh.Sync.Import.{find_sync_target, sync_create_request, user_request}

unfoldable pub check_sync_users : List SyncUser → Option Text
check_sync_users [] = none
check_sync_users (u ∷ users) =
    first_of (validate_user true (user_request u)) (check_sync_users users)

-- `validateSyncPayload`
unfoldable pub validate_sync_payload : Readers → List SyncNode → Option Text
validate_sync_payload lib [] = none
validate_sync_payload lib (item ∷ items) = refuse (not (is_anyconnect item.kind)) (codes "KIND") (
    first_of (validate lib (sync_create_request item))
      (first_of (check_sync_users item.users) (validate_sync_payload lib items)))

abbrev pub owns_endpoint : SyncNode → Option Node → Bool
owns_endpoint item none = false
owns_endpoint item (some n) =
    text_eq n.actual_state (codes "running")
    && text_eq n.row.listen_host item.listen_host
    && (leb_ℤ n.row.listen_port item.listen_port && leb_ℤ item.listen_port n.row.listen_port)

-- `validateSyncPorts`; whether the agent finds a port taken is an argument.
unfoldable pub validate_sync_ports :
    (Text → ℤ → Protocol → Bool) → List SyncNode → Action NodesModel.Tables (Unit {0})
validate_sync_ports taken [] = pure tt
validate_sync_ports taken (item ∷ items) = do
  elim (text_eq item.desired_state (codes "running")) [
    | false ↦ pure tt
    | true ↦ (do
      target ← find_sync_target item
      raise_if
          (not (owns_endpoint item target)
            && any (taken item.listen_host item.listen_port) (protocols item.kind item.config))
          (invalid (codes "SYNC_PORT_CONFLICT")))
  ]
  validate_sync_ports taken items

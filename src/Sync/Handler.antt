-- ===== src/Sync/Handler.antt =====
-- The handler of an upload (`importSync` of internal/api/sync.go) from the bytes of the file on. Whether
-- the backup before the import fails is an argument, and the HTTP statuses are left out.
use snell_sh.Common.{Bool, true, false, List, [], ◌∷◌, Text, text_eq, codes}
use snell_sh.Common.Int.{ℤ}
use snell_sh.Database.{World, Action, invalid, raise_if, or_raise, ◌>>=◌, ◌>>◌, pure}
use snell_sh.Database.Reads.{or_raise-Reads}
use snell_sh.Database.Keeps.{Keeps, >>=-Keeps, pure-Keeps, Reads-Keeps, raise_if-Keeps}
use snell_sh.Nodes.Model.{Readers, Tables}
use snell_sh.Nodes.Conflict.{Protocol}
use snell_sh.Nodes.Store.{raise_some}
use snell_sh.Nodes.Reading.{raise_some-Reads}
use snell_sh.Nodes.Safe.{IsSafe}
use snell_sh.Sync.Format.{SyncNode, Codec, decode}
use snell_sh.Sync.Import.{Panel, Draws, on_nodes, find_sync_target, apply_sync_import}
use snell_sh.Sync.Checks.{validate_sync_payload, validate_sync_ports}
use snell_sh.Sync.Safe.{InCore, on_nodes-Keeps, find_sync_target-Reads, apply_sync_import-IsSafe}

-- `importSync`
unfoldable pub import_sync :
    Readers
    → Codec
    → (Text → ℤ → Protocol → Bool)
    → Bool
    → Draws
    → Bool
    → Text
    → Action Panel (Unit {0})
import_sync lib c taken backup_fails d replace text = do
  f ← or_raise (decode lib c text) (invalid (codes "INVALID_SYNC_FILE"))
  on_nodes (raise_some (validate_sync_payload lib f.nodes))
  on_nodes (validate_sync_ports taken f.nodes)
  raise_if backup_fails (invalid (codes "PRE_IMPORT_BACKUP_FAILED"))
  apply_sync_import lib d replace f.nodes

module _ {ℓ} (Q : Tables → Type ℓ) (taken : Text → ℤ → Protocol → Bool) where
  port_check_Keeps :
      (item : SyncNode) (b : Bool) (m : Action Tables (Unit {0}))
      → Keeps Q m
      → Keeps {A = Unit {0}} Q (elim b [ false ↦ pure tt | true ↦ m ])
  port_check_Keeps item true m k = k
  port_check_Keeps item false m k = pure-Keeps Q tt

  pub validate_sync_ports-Keeps :
      (items : List SyncNode) → Keeps Q (validate_sync_ports taken items)
  unfolding validate_sync_ports
  validate_sync_ports-Keeps [] = pure-Keeps Q tt
  validate_sync_ports-Keeps (item ∷ items) =
      >>=-Keeps Q _ _
        (port_check_Keeps item (text_eq item.desired_state (codes "running")) _ (
          >>=-Keeps Q (find_sync_target item) _
            (Reads-Keeps Q (find_sync_target item) (find_sync_target-Reads item))
            (λ target. raise_if-Keeps Q _ _)))
        (λ _. validate_sync_ports-Keeps items)

-- An upload of any bytes, whatever the decoder makes of them, whatever the import draws, wherever it
-- fails and whether or not it replaces the users: if no node has the empty id, no two nodes clash and
-- no two users of one server have one name, then all this is so afterwards.
pub import_sync-IsSafe :
    (lib : Readers) (c : Codec) (taken : Text → ℤ → Protocol → Bool) (backup_fails : Bool)
    (d : Draws) (replace : Bool) (text : Text) (w : World Panel)
    → IsSafe lib w.tables.core
    → IsSafe lib (import_sync lib c taken backup_fails d replace text w).1.tables.core
unfolding import_sync Keeps
import_sync-IsSafe lib c taken backup_fails d replace text =
    let Q = InCore (IsSafe lib) in
    let bad = invalid (codes "INVALID_SYNC_FILE") in
    >>=-Keeps Q (or_raise (decode lib c text) bad) _
      (Reads-Keeps Q (or_raise (decode lib c text) bad)
        (or_raise-Reads Panel (decode lib c text) bad))
      (λ f.
        let refusal = raise_some (validate_sync_payload lib f.nodes) in
        >>=-Keeps Q (on_nodes refusal) _
          (on_nodes-Keeps (IsSafe lib) refusal (
            Reads-Keeps (IsSafe lib) refusal
              (raise_some-Reads (validate_sync_payload lib f.nodes))))
          (λ _.
            >>=-Keeps Q (on_nodes (validate_sync_ports taken f.nodes)) _
              (on_nodes-Keeps (IsSafe lib) (validate_sync_ports taken f.nodes)
                (validate_sync_ports-Keeps (IsSafe lib) taken f.nodes))
              (λ _.
                >>=-Keeps Q (raise_if backup_fails (invalid (codes "PRE_IMPORT_BACKUP_FAILED"))) _
                  (raise_if-Keeps Q backup_fails (invalid (codes "PRE_IMPORT_BACKUP_FAILED")))
                  (λ _. apply_sync_import-IsSafe lib d replace f.nodes))))

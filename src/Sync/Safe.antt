-- ===== src/Sync/Safe.antt =====
-- An import (internal/api/sync.go) keeps the nodes apart and the names of users distinct.
use snell_sh.Common.{
  ◌≡◌, ap, ◌∙◌, Bool, true, false, Option, none, some, List, [], ◌∷◌, Text, arith, All,
}
use snell_sh.Common.Dict.{Dict, insert, lookup}
use snell_sh.Database.{World, Action, Result, pure, query}
use snell_sh.Database.Reads.{Reads, query-Reads, >>=-Reads, or_raise-Reads}
use snell_sh.Database.Keeps.{Keeps, >>=-Keeps, pure-Keeps, Reads-Keeps, choice-Keeps}
use snell_sh.Nodes.Model.{Kind, Readers, Tables, UserRow, Node}
use snell_sh.Nodes.Validate.{is_anyconnect}
use snell_sh.Nodes.Admit.{validate}
use snell_sh.Nodes.Store.{get_node, raise_some}
use snell_sh.Nodes.Edit.{is_state, set_desired}
use snell_sh.Nodes.Find.{find_by_name_type, list_vpn_users}
use snell_sh.Nodes.Users.{create_vpn_user, update_vpn_user, delete_vpn_user}
use snell_sh.Traffic.Store.{set_user_quota}
use snell_sh.Traffic.Model as TrafficModel
use snell_sh.Nodes.Reading.{raise_some-Reads, get_node-Reads}
use snell_sh.Nodes.UserSteps.{require_server-Reads}
use snell_sh.Nodes.History.{
  Call, Call-IsSafe, imports, updates, switches, adds_user, changes_user, deletes_user,
}
use snell_sh.Nodes.Safe.{IsSafe}
use snell_sh.Sync.Format.{SyncUser, SyncNode, UserQuota, is_among}
use snell_sh.Sync.Import.{
  Panel, Draws, on_nodes, on_traffic, optional_row, if_found, target_for, find_sync_target,
  sync_create_request, put_node, switch_node, import_node, import_nodes, by_name, put_user,
  user_request, put_quota, import_users, usernames, remove_unseen, text_or_empty, import_node_users,
  import_all_users, apply_sync_import,
}

optional_row-tables : {A : Type 0} (p : Result A × World Tables) → (if_found p).1 ≡ p.1
optional_row-tables p = ground arith

pub optional_row-Reads : {A : Type 0} (m : Action Tables A) → Reads m → Reads (optional_row m)
unfolding Reads
optional_row-Reads m r w = ap (λ v. v.tables) (optional_row-tables (m w)) ∙ r w

find_by_name_type-Reads : (kind : Kind) (name : Text) → Reads (find_by_name_type kind name)
unfolding find_by_name_type
find_by_name_type-Reads kind name =
    >>=-Reads (query _) _ (query-Reads _) (λ o. or_raise-Reads Tables o _)

target_for-Reads : (item : SyncNode) (o : Option Node) → Reads (target_for item o)
unfolding Reads
target_for-Reads item none =
    optional_row-Reads (find_by_name_type item.kind item.name)
      (find_by_name_type-Reads item.kind item.name)
target_for-Reads item (some n) = λ w. ground arith

pub find_sync_target-Reads : (item : SyncNode) → Reads (find_sync_target item)
unfolding find_sync_target
find_sync_target-Reads item =
    >>=-Reads (optional_row (get_node item.id)) (target_for item)
      (optional_row-Reads (get_node item.id) (get_node-Reads item.id)) (target_for-Reads item)

pub list_vpn_users-Reads : (id : Text) → Reads (list_vpn_users id)
unfolding list_vpn_users
list_vpn_users-Reads id = >>=-Reads _ _ (require_server-Reads id) (λ _. query-Reads _)

module _ (lib : Readers) (d : Draws) where
  put_node-Keeps : (item : SyncNode) (o : Option Node) → Keeps (IsSafe lib) (put_node lib d item o)
  unfolding Keeps
  put_node-Keeps item none =
      λ w. Call-IsSafe lib (imports item.id (sync_create_request item) _ (d.node item.id) w)
  put_node-Keeps item (some n) =
      λ w. Call-IsSafe lib (updates n.id (sync_create_request item) _ (d.node item.id) w)

  switch_node-Keeps : (id state : Text) → Keeps (IsSafe lib) (switch_node d id state)
  unfolding Keeps
  switch_node-Keeps id state =
      choice-Keeps (IsSafe lib) (is_state state) (set_desired id state d.now) (pure tt)
        (λ w. Call-IsSafe lib (switches id state d.now w)) (λ w q. q)

  import_node-Keeps : (item : SyncNode) → Keeps (IsSafe lib) (import_node lib d item)
  unfolding import_node
  import_node-Keeps item =
      let Q = IsSafe lib in
      >>=-Keeps Q (find_sync_target item) _
        (Reads-Keeps Q (find_sync_target item) (find_sync_target-Reads item))
        (λ target.
          let refusal = validate lib (sync_create_request item) in
          >>=-Keeps Q (raise_some refusal) _
            (Reads-Keeps Q (raise_some refusal) (raise_some-Reads refusal))
            (λ _. >>=-Keeps Q (put_node lib d item target) _ (put_node-Keeps item target) (λ local.
              >>=-Keeps Q (switch_node d local.id item.desired_state) _
                (switch_node-Keeps local.id item.desired_state) (λ _. pure-Keeps Q local.id))))

  import_nodes-Keeps :
      (items : List SyncNode) (local : Dict Text)
      → Keeps (IsSafe lib) (import_nodes lib d items local)
  unfolding import_nodes
  import_nodes-Keeps [] local = pure-Keeps (IsSafe lib) local
  import_nodes-Keeps (item ∷ items) local =
      >>=-Keeps (IsSafe lib) (import_node lib d item) _ (import_node-Keeps item)
        (λ id. import_nodes-Keeps items (insert item.id id local))

-- The tables of the nodes in those of the panel.
abbrev pub InCore {ℓ} : (Tables → Type ℓ) → Panel → Type ℓ
InCore Q p = Q p.core

pub on_nodes-Keeps {ℓ} :
    {A : Type 0} (Q : Tables → Type ℓ) (m : Action Tables A)
    → Keeps Q m
    → Keeps (InCore Q) (on_nodes m)
unfolding Keeps
on_nodes-Keeps Q m k = λ w q. k (record { tables = w.tables.core; faults = w.faults }) q

pub on_traffic-Keeps {ℓ} :
    {A : Type 0} (Q : Tables → Type ℓ) (m : Action TrafficModel.Tables A)
    → Keeps (InCore Q) (on_traffic m)
unfolding Keeps
on_traffic-Keeps Q m = λ w q. q

module _ {ℓ} (Q : Tables → Type ℓ) (d : Draws) where
  put_quota-Keeps : (id : Text) (o : Option UserQuota) → Keeps (InCore Q) (put_quota d id o)
  put_quota-Keeps id none = pure-Keeps (InCore Q) tt
  put_quota-Keeps id (some q) =
      on_traffic-Keeps Q (set_user_quota id q.quota_bytes q.reset_day d.instant)

  -- The loop over users keeps what each of its calls keeps.
  pub import_users-Keeps :
      (item_id local : Text) (users : Dict UserRow) (imported : List SyncUser)
      → All (λ u. (o : Option Text) → Keeps Q (put_user d item_id local u o)) imported
      → Keeps (InCore Q) (import_users d item_id local users imported)
  unfolding import_users
  import_users-Keeps item_id local users [] k = pure-Keeps (InCore Q) tt
  import_users-Keeps item_id local users (u ∷ imported) k =
      let put = put_user d item_id local u (by_name u.username users) in
      >>=-Keeps (InCore Q) (on_nodes put) _ (on_nodes-Keeps Q put (k.0 (by_name u.username users)))
        (λ id.
          >>=-Keeps (InCore Q) (put_quota d id u.quota) _ (put_quota-Keeps id u.quota)
            (λ _. import_users-Keeps item_id local users imported k.1))

module _ (lib : Readers) (d : Draws) where
  -- An action that is one call.
  calls_Keeps :
      {A : Type 0} (m : Action Tables A)
      → ((w : World Tables) → Call lib w (m w).1.tables)
      → Keeps (IsSafe lib) m
  unfolding Keeps
  calls_Keeps m c = λ w. Call-IsSafe lib (c w)

  put_user-Keeps :
      (item_id local : Text) (u : SyncUser) (o : Option Text)
      → Keeps (IsSafe lib) (put_user d item_id local u o)
  put_user-Keeps item_id local u (some id) =
      let change = update_vpn_user local id (user_request u) (d.user item_id u.username) in
      >>=-Keeps (IsSafe lib) change _
        (calls_Keeps change
          (λ w. changes_user local id (user_request u) (d.user item_id u.username) w))
        (λ _. pure-Keeps (IsSafe lib) id)
  put_user-Keeps item_id local u none =
      let id = d.user_id item_id u.username in
      let new = create_vpn_user local id (user_request u) (d.user item_id u.username) in
      >>=-Keeps (IsSafe lib) new _
        (calls_Keeps new (λ w. adds_user local id (user_request u) (d.user item_id u.username) w))
        (λ _. pure-Keeps (IsSafe lib) id)

  remove_unseen-Keeps :
      (local : Text) (imported : List SyncUser) (users : Dict UserRow)
      → Keeps (InCore (IsSafe lib)) (remove_unseen local imported users)
  unfolding remove_unseen
  remove_unseen-Keeps local imported [] = pure-Keeps (InCore (IsSafe lib)) tt
  remove_unseen-Keeps local imported ((id, u) ∷ users) =
      choice-Keeps (InCore (IsSafe lib)) (is_among u.username (usernames imported)) _ _
        (remove_unseen-Keeps local imported users)
        (>>=-Keeps (InCore (IsSafe lib)) (on_nodes (delete_vpn_user local id)) _
          (on_nodes-Keeps (IsSafe lib) (delete_vpn_user local id)
            (calls_Keeps (delete_vpn_user local id) (λ w. deletes_user local id w)))
          (λ _. remove_unseen-Keeps local imported users))

  All_put_user :
      (item_id local : Text) (imported : List SyncUser)
      → All (λ u. (o : Option Text) → Keeps (IsSafe lib) (put_user d item_id local u o)) imported
  All_put_user item_id local [] = tt
  All_put_user item_id local (u ∷ imported) =
      (put_user-Keeps item_id local u, All_put_user item_id local imported)

  import_node_users-Keeps :
      (replace : Bool) (local : Text) (item : SyncNode)
      → Keeps (InCore (IsSafe lib)) (import_node_users d replace local item)
  unfolding import_node_users
  import_node_users-Keeps replace local item =
      let Q = InCore (IsSafe lib) in
      >>=-Keeps Q (on_nodes (list_vpn_users local)) _
        (on_nodes-Keeps (IsSafe lib) (list_vpn_users local)
          (Reads-Keeps (IsSafe lib) (list_vpn_users local) (list_vpn_users-Reads local)))
        (λ users.
          >>=-Keeps Q (import_users d item.id local users item.users) _
            (import_users-Keeps (IsSafe lib) d item.id local users item.users
              (All_put_user item.id local item.users))
            (λ _.
              choice-Keeps Q replace (remove_unseen local item.users users) (pure tt)
                (remove_unseen-Keeps local item.users users) (pure-Keeps Q tt)))

  import_all_users-Keeps :
      (replace : Bool) (local : Dict Text) (items : List SyncNode)
      → Keeps (InCore (IsSafe lib)) (import_all_users d replace local items)
  unfolding import_all_users
  import_all_users-Keeps replace local [] = pure-Keeps (InCore (IsSafe lib)) tt
  import_all_users-Keeps replace local (item ∷ items) =
      let Q = InCore (IsSafe lib) in
      let own = text_or_empty (lookup item.id local) in
      >>=-Keeps Q
        (elim (is_anyconnect item.kind) [
          | true ↦ import_node_users d replace own item
          | false ↦ pure tt
        ])
        _
        (choice-Keeps Q (is_anyconnect item.kind) (import_node_users d replace own item) (pure tt)
          (import_node_users-Keeps replace own item) (pure-Keeps Q tt))
        (λ _. import_all_users-Keeps replace local items)

-- An import of any nodes, whatever it draws, wherever it fails and whether or not it replaces the
-- users: if no node has the empty id, no two nodes clash and no two users of one server have one name,
-- then all this is so afterwards.
pub apply_sync_import-IsSafe :
    (lib : Readers) (d : Draws) (replace : Bool) (items : List SyncNode) (w : World Panel)
    → IsSafe lib w.tables.core
    → IsSafe lib (apply_sync_import lib d replace items w).1.tables.core
unfolding apply_sync_import Keeps
apply_sync_import-IsSafe lib d replace items =
    >>=-Keeps (InCore (IsSafe lib)) (on_nodes (import_nodes lib d items [])) _
      (on_nodes-Keeps (IsSafe lib) (import_nodes lib d items [])
        (import_nodes-Keeps lib d items []))
      (λ local. import_all_users-Keeps lib d replace local items)

-- ===== src/Sync/Replaced.antt =====
-- What `replaceUsers` leaves of the users of an imported node (internal/api/sync.go).
use mathlib.Core.Path.{subst}
use snell_sh.Common.{
  ◌≡◌, sym, ap, ◌∙◌, inl, inr, Bool, true, false, ◌&&◌, none, some, List, [], ◌∷◌, Text, text_eq,
  text_eq_iff, text_eq_self, All, All-map, arith, Bool-cases, elim-cases, if◌then◌else◌,
}
use snell_sh.Common.Dict.{Dict, lookup, erase, lookup-erase}
use snell_sh.Common.Sort.{any-sort_by, sort_by}
use snell_sh.Database.{World, Action, ok, query, exec_checked}
use snell_sh.Database.Steps.{>>=-Went, query_ok, exec_checked_ok}
use snell_sh.Database.Reads.{Reads}
use snell_sh.Database.Keeps.{Keeps, Reads-Keeps}
use snell_sh.Nodes.Model.{Tables, UserRow}
use snell_sh.Nodes.Validate.{refuse, first_of}
use snell_sh.Nodes.Users.{require_server, user_removal, delete_vpn_user}
use snell_sh.Nodes.UserSteps.{require_server-Reads}
use snell_sh.Nodes.Find.{user_before, users_of, list_vpn_users}
use snell_sh.Sync.Format.{SyncUser, SyncNode, is_among, check_users}
use snell_sh.Sync.Import.{
  Panel, Draws, on_nodes, usernames, import_users, remove_unseen, import_node_users,
}
use snell_sh.Sync.Covered.{lists, Covered, put_user-Covered}
use snell_sh.Sync.Safe.{list_vpn_users-Reads, on_nodes-Keeps, import_users-Keeps}

-- Both facts about each user of the file.
abbrev Named : List Text → SyncUser → Type 0
Named imported u = (is_among u.username imported ≡ true) × (text_eq u.username [] ≡ false)

check_users-Named :
    (seen : List Text) (us : List SyncUser)
    → check_users seen us ≡ none
    → All (Named (usernames us)) us
unfolding check_users refuse first_of
check_users-Named seen [] h = tt
check_users-Named seen (u ∷ us) h = (
  (ground (arith, text_eq_self u.username), ground (arith, h)),
  All-map (Named (usernames us)) (Named (usernames (u ∷ us))) (λ v n. (ground (arith, n.0), n.1)) us
      (check_users-Named (u.username ∷ seen) us (ground (arith, h))),
)

-- The users that a lookup finds are among those listed.
users_of-lists :
    (local : Text) (users : Dict UserRow) (j : Text) (u : UserRow)
    → lookup j users ≡ some u
    → text_eq u.node_id local ≡ true
    → lists (users_of local users) j u.username ≡ true
unfolding lookup users_of
users_of-lists local [] j u h own = ground (arith, h)
users_of-lists local ((i, v) ∷ users) j u h own = elim (Bool-cases (text_eq i j)) [
  | inl same ↦
      let row : v ≡ u = ground (arith, h, same) in
      subst (λ x. lists (users_of local ((i, v) ∷ users)) j x.username ≡ true) row
        (ground (arith, same, text_eq_self v.username, own, ap (λ x. x.node_id) row))
  | inr other ↦ ground (arith, users_of-lists local users j u (ground (arith, h, other)) own)
]

module _ (local : Text) (imported : List Text) (id : Text) (v : UserRow)
    (users : Dict UserRow) where
  drop_named :
      (t : Tables)
      → is_among v.username imported ≡ true
      → Covered local imported ((id, v) ∷ users) t
      → Covered local imported users t
  unfolding Covered
  drop_named t named c j u h own = ground (
    arith,
    c j u h own,
    λ (e : text_eq v.username u.username ≡ true).
        subst (λ n. is_among n imported ≡ true) ((text_eq_iff v.username u.username).0 e) named,
  )

  drop_deleted :
      (t t' : Tables)
      → t'.users ≡ erase id t.users
      → Covered local imported ((id, v) ∷ users) t
      → Covered local imported users t'
  unfolding Covered
  drop_deleted t t' e c j u h own =
      let left : (if text_eq id j then none else lookup j t.users) ≡ some u =
        sym (lookup-erase id j t.users) ∙ ap (lookup j) (sym e) ∙ h in
      elim (Bool-cases (text_eq id j)) [
        | inl same ↦ ground (arith, left, same)
        | inr other ↦ ground (arith, c j u (ground (arith, left, other)) own, other)
      ]

-- What a delete that succeeds leaves.
deleted_users :
    (local id : Text) (w : World Panel)
    → (on_nodes (delete_vpn_user local id) w).0 ≡ ok tt
    → (on_nodes (delete_vpn_user local id) w).1.tables.core.users ≡ erase id w.tables.core.users
unfolding delete_vpn_user
deleted_users local id w h =
    let start : World Tables = record { tables = w.tables.core; faults = w.faults } in
    let v = (exec_checked (user_removal local id) start).1 in
    let put = exec_checked_ok (user_removal local id) start v (ap (λ r. (r, v)) h) in
    ground (arith, put)

remove_unseen-Covered :
    (local : Text) (imported : List SyncUser) (users : Dict UserRow) (w : World Panel)
    → (remove_unseen local imported users w).0 ≡ ok tt
    → Covered local (usernames imported) users w.tables.core
    → Covered local (usernames imported) [] (remove_unseen local imported users w).1.tables.core
unfolding remove_unseen
remove_unseen-Covered local imported [] w = λ h c. c
remove_unseen-Covered local imported ((id, v) ∷ users) w =
    elim-cases
      (λ (m : Action Panel (Unit {0})).
        (m w).0 ≡ ok tt
        → Covered local (usernames imported) ((id, v) ∷ users) w.tables.core
        → Covered local (usernames imported) [] (m w).1.tables.core)
      (is_among v.username (usernames imported))
      (λ named h c.
        remove_unseen-Covered local imported users w h
          (drop_named local (usernames imported) id v users w.tables.core named c))
      (λ _ h c.
        let s =
          >>=-Went (on_nodes (delete_vpn_user local id)) (λ _. remove_unseen local imported users) w
            h in
        let gone = deleted_users local id w (ap (λ p. p.0) s.first) in
        let left = ap (λ p. p.1.tables.core.users) (sym s.first) ∙ gone in
        subst (λ p. Covered local (usernames imported) [] p.1.tables.core) (sym s.whole)
          (remove_unseen-Covered local imported users s.world s.second (
            drop_deleted local (usernames imported) id v users w.tables.core s.world.tables.core
              left c)))

-- The list that the import starts from covers all users.
list_vpn_users-Covered :
    (local : Text) (imported : List Text) (t : Tables) (faults : List Bool) (users : Dict UserRow)
    → (list_vpn_users local (record { tables = t; faults = faults })).0 ≡ ok users
    → Covered local imported users t
unfolding list_vpn_users Covered Reads
list_vpn_users-Covered local imported t faults users h j u there own =
    let start : World Tables = record { tables = t; faults = faults } in
    let read = λ (x : Tables). sort_by user_before (users_of local x.users) in
    let s = >>=-Went (require_server local) (λ _. query read) start h in
    let (e, _) =
      query_ok read s.world (query read s.world).1
        (ap (λ r. (r, (query read s.world).1)) s.second) in
    let same = ap (λ p. p.1.tables) (sym s.first) ∙ require_server-Reads local start in
    let listed : users ≡ read t = sym e ∙ ap read same in
    ground (
      arith,
      users_of-lists local t.users j u there own,
      any-sort_by user_before (λ (i, v). text_eq i j && text_eq v.username u.username)
          (users_of local t.users),
      ap (λ l. lists l j u.username) listed,
    )

-- After an import of a node's users that replaces them and returns no error, every user of the local
-- node has a name that the file gives, if the file's users passed `Validate`.
pub import_node_users-Replaced :
    (d : Draws) (local : Text) (item : SyncNode) (w : World Panel) (j : Text) (u : UserRow)
    → check_users [] item.users ≡ none
    → (import_node_users d true local item w).0 ≡ ok tt
    → lookup j (import_node_users d true local item w).1.tables.core.users ≡ some u
    → text_eq u.node_id local ≡ true
    → is_among u.username (usernames item.users) ≡ true
unfolding import_node_users Keeps Covered
import_node_users-Replaced d local item w j u valid done there own =
    let all_names = usernames item.users in
    let s1 = >>=-Went (on_nodes (list_vpn_users local)) _ w done in
    let users = s1.value in
    let Q = Covered local all_names users in
    let start : Q w.tables.core =
      list_vpn_users-Covered local all_names w.tables.core w.faults users
        (ap (λ p. p.0) s1.first) in
    let listed : Q s1.world.tables.core =
      subst (λ p. Q p.1.tables.core) s1.first
        (on_nodes-Keeps Q (list_vpn_users local)
          (Reads-Keeps Q (list_vpn_users local) (list_vpn_users-Reads local)) w start) in
    let put = import_users d item.id local users item.users in
    let s2 = >>=-Went put (λ _. remove_unseen local item.users users) s1.world s1.second in
    let merged : Q s2.world.tables.core =
      subst (λ p. Q p.1.tables.core) s2.first
        (import_users-Keeps Q d item.id local users item.users
          (All-map (Named all_names) _
            (λ v n o. put_user-Covered local all_names users d item.id v o n.0 n.1) item.users
            (check_users-Named [] item.users valid))
          s1.world listed) in
    let covered = remove_unseen-Covered local item.users users s2.world s2.second merged in
    let same = ap (λ p. p.1.tables.core.users) (s1.whole ∙ s2.whole) in
    ground (arith, covered j u (ap (lookup j) (sym same) ∙ there) own)

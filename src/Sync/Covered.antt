-- ===== src/Sync/Covered.antt =====
-- The users of an imported node while its users are imported (internal/api/sync.go): each has a name of
-- the file, or is one of those that the import found.
use mathlib.Core.Path.{subst}
use snell_sh.Common.{
  ◌≡◌, sym, ap, ◌∙◌, inl, inr, Bool, true, false, ◌&&◌, ◌||◌, Option, none, some, List, [], Text,
  text_eq, any, arith, Bool-cases, if◌then◌else◌,
}
use snell_sh.Common.Dict.{Dict, lookup, insert, lookup-insert}
use snell_sh.Database.{ok}
use snell_sh.Database.Keeps.{Keeps, >>=-Keeps, pure-Keeps}
use snell_sh.Nodes.Model.{Tables, UserRow}
use snell_sh.Nodes.Updated.{SecretsOnly}
use snell_sh.Nodes.Validate.{text_or}
use snell_sh.Nodes.Users.{
  of_node, user_row, create_vpn_user, changed_user, change_found, update_vpn_user,
}
use snell_sh.Nodes.UserSteps.{create_vpn_user-Keeps, update_vpn_user-Keeps}
use snell_sh.Sync.Format.{SyncUser, is_among}
use snell_sh.Sync.Import.{Draws, user_request, put_user}

-- A row of a list of users with an id and a name.
abbrev pub lists : Dict UserRow → Text → Text → Bool
lists users id name = any (λ (i, v). text_eq i id && text_eq v.username name) users

-- Every user of the node is named by the file or is among the listed ones.
unfoldable pub Covered : Text → List Text → Dict UserRow → Tables → Type 0
Covered local imported users t =
    (j : Text) (u : UserRow)
    → lookup j t.users ≡ some u
    → text_eq u.node_id local ≡ true
    → (is_among u.username imported || lists users j u.username) ≡ true

text_or_full : (s d : Text) → text_eq s [] ≡ false → text_or s d ≡ s
unfolding text_or text_eq
text_or_full s d h = ground (arith, h)

module _ (local : Text) (imported : List Text) (users : Dict UserRow) where
  same_users :
      (t t' : Tables)
      → t'.users ≡ t.users
      → Covered local imported users t
      → Covered local imported users t'
  unfolding Covered
  same_users t t' e c j u h = c j u (ap (lookup j) (sym e) ∙ h)

  -- A row that is put has a name of the file.
  put_Covered :
      (id : Text) (r : UserRow) (t t' : Tables)
      → t'.users ≡ insert id r t.users
      → is_among r.username imported ≡ true
      → Covered local imported users t
      → Covered local imported users t'
  unfolding Covered
  put_Covered id r t t' e named c j u h own =
      let put : (if text_eq id j then some r else lookup j t.users) ≡ some u =
        sym (lookup-insert id j r t.users) ∙ ap (lookup j) (sym e) ∙ h in
      elim (Bool-cases (text_eq id j)) [
        | inl same ↦
            let row : r ≡ u = ground (arith, put, same) in
            subst (λ v. (is_among v.username imported || lists users j v.username) ≡ true) row
              (ground (arith, named))
        | inr other ↦ c j u (ground (arith, put, other)) own
      ]

  hidden_Covered :
      (t t' : Tables)
      → SecretsOnly t t'
      → Covered local imported users t
      → Covered local imported users t'
  hidden_Covered t t' s = same_users t t' (ap (λ x. x.users) s.1)

  created_Covered :
      (d : Draws) (item_id id : Text) (u : SyncUser)
      → is_among u.username imported ≡ true
      → Keeps
          (Covered local imported users)
          (create_vpn_user local id (user_request u) (d.user item_id u.username))
  unfolding Keeps user_request
  created_Covered d item_id id u named =
      let draw = d.user item_id u.username in
      λ w.
        create_vpn_user-Keeps (Covered local imported users) hidden_Covered local id
          (user_request u) draw w
          (λ t t' h.
            put_Covered id (user_row local (user_request u) draw.secret_id draw.now) t t'
              (ground (arith, h)) named)

  change_found-Covered :
      (u : SyncUser) (id name ref now : Text) (t t' : Tables) (o : Option UserRow)
      → is_among u.username imported ≡ true
      → text_eq u.username [] ≡ false
      → change_found local id (changed_user (text_or u.username name) (user_request u) ref now) t o
        ≡ ok t'
      → Covered local imported users t
      → Covered local imported users t'
  unfolding user_request text_or
  change_found-Covered u id name ref now t t' none named full h c =
      same_users t t' (ground (arith, h)) c
  change_found-Covered u id name ref now t t' (some v) named full h c =
      put_Covered id (changed_user (text_or u.username name) (user_request u) ref now v) t t'
        (ground (arith, h))
        (subst (λ s. is_among s imported ≡ true) (sym (text_or_full u.username name full)) named) c

  changed_Covered :
      (d : Draws) (item_id id : Text) (u : SyncUser)
      → is_among u.username imported ≡ true
      → text_eq u.username [] ≡ false
      → Keeps
          (Covered local imported users)
          (update_vpn_user local id (user_request u) (d.user item_id u.username))
  unfolding Keeps user_request
  changed_Covered d item_id id u named full =
      let draw = d.user item_id u.username in
      λ w.
        update_vpn_user-Keeps (Covered local imported users) hidden_Covered local id
          (user_request u) draw w
          (λ name ref t t' h.
            change_found-Covered u id name ref draw.now t t' (of_node local (lookup id t.users))
              named full h)

  pub put_user-Covered :
      (d : Draws) (item_id : Text) (u : SyncUser) (o : Option Text)
      → is_among u.username imported ≡ true
      → text_eq u.username [] ≡ false
      → Keeps (Covered local imported users) (put_user d item_id local u o)
  put_user-Covered d item_id u none named full =
      let id = d.user_id item_id u.username in
      >>=-Keeps (Covered local imported users)
        (create_vpn_user local id (user_request u) (d.user item_id u.username)) _
        (created_Covered d item_id id u named) (λ _. pure-Keeps (Covered local imported users) id)
  put_user-Covered d item_id u (some id) named full =
      >>=-Keeps (Covered local imported users)
        (update_vpn_user local id (user_request u) (d.user item_id u.username)) _
        (changed_Covered d item_id id u named full)
        (λ _. pure-Keeps (Covered local imported users) id)

-- ===== src/Nodes/Safe.antt =====
-- Both invariants of the nodes' tables together, across every operation (internal/nodes/store.go and
-- anyconnect.go).
use mathlib.Core.Path.{subst}
use snell_sh.Common.{◌≡◌, sym, ap, ◌∙◌, false, Option, none, some, [], Text, arith}
use snell_sh.Common.Dict.{Dict, lookup, insert, erase}
use snell_sh.Database.{World, ok}
use snell_sh.Nodes.Model.{Readers, UserRow, Tables}
use snell_sh.Nodes.Store.{Drawn}
use snell_sh.Nodes.Users.{
  UserRequest, name_taken, insertion, user_row, create_vpn_user, change_found, changed_user,
  update_vpn_user, user_removal, delete_vpn_user,
}
use snell_sh.Nodes.Apart.{Apart, ids_clash}
use snell_sh.Nodes.Kept.{IsSound}
use snell_sh.Nodes.Updated.{SecretsOnly}
use snell_sh.Nodes.Validate.{text_or}
use snell_sh.Nodes.Users.{of_node}
use snell_sh.Nodes.UserSteps.{create_vpn_user-Keeps, update_vpn_user-Keeps, delete_vpn_user-Keeps}
use snell_sh.Nodes.Names.{IsDistinct, insert-IsDistinct, erase-IsDistinct}

abbrev pub IsSafe : Readers → Tables → Type 0
IsSafe lib t = IsSound lib t × IsDistinct t.users

-- The nodes do not depend on the users and the secrets.
pub same_nodes :
    (lib : Readers) (t t' : Tables)
    → t'.nodes ≡ t.nodes
    → t'.configs ≡ t.configs
    → IsSound lib t
    → IsSound lib t'
unfolding IsSound Apart ids_clash
same_nodes lib t t' en ec (nobody, apart) =
    (ap (lookup []) en ∙ nobody, λ i j. rw (en, ec) (apart i j))

secrets-IsSafe : (lib : Readers) (t t' : Tables) → SecretsOnly t t' → IsSafe lib t → IsSafe lib t'
secrets-IsSafe lib t t' (s, e) (sound, distinct) = (
  same_nodes lib t t' (ap (λ x. x.nodes) e) (ap (λ x. x.configs) e) sound,
  subst IsDistinct (sym (ap (λ x. x.users) e)) distinct,
)

users-IsSafe :
    (lib : Readers) (t t' : Tables) (users : Dict UserRow)
    → t' ≡ record t { users = users }
    → IsDistinct users
    → IsSafe lib t
    → IsSafe lib t'
users-IsSafe lib t t' users e d (sound, _) = (
  same_nodes lib t t' (ap (λ x. x.nodes) e) (ap (λ x. x.configs) e) sound,
  subst IsDistinct (sym (ap (λ x. x.users) e)) d,
)

insertion-IsSafe :
    (lib : Readers) (id : Text) (u : UserRow) (t t' : Tables)
    → insertion id u t ≡ ok t'
    → IsSafe lib t
    → IsSafe lib t'
insertion-IsSafe lib id u t t' h s =
    let free : name_taken id u t.users ≡ false = ground (arith, h) in
    users-IsSafe lib t t' (insert id u t.users) (ground (arith, h))
      (insert-IsDistinct id u t.users free s.1) s

change_found-IsSafe :
    (lib : Readers) (node_id id : Text) (f : UserRow → UserRow) (t t' : Tables) (o : Option UserRow)
    → change_found node_id id f t o ≡ ok t'
    → IsSafe lib t
    → IsSafe lib t'
change_found-IsSafe lib node_id id f t t' none h s = subst (IsSafe lib) (ground (arith, h)) s
change_found-IsSafe lib node_id id f t t' (some u) h s =
    let free : name_taken id (f u) t.users ≡ false = ground (arith, h) in
    users-IsSafe lib t t' (insert id (f u) t.users) (ground (arith, h))
      (insert-IsDistinct id (f u) t.users free s.1) s

removal-IsSafe :
    (lib : Readers) (node_id id : Text) (t t' : Tables)
    → user_removal node_id id t ≡ ok t'
    → IsSafe lib t
    → IsSafe lib t'
removal-IsSafe lib node_id id t t' h s =
    users-IsSafe lib t t' (erase id t.users) (ground (arith, h)) (erase-IsDistinct id t.users s.1) s

pub delete_vpn_user-IsSafe :
    (lib : Readers) (node_id id : Text) (w : World Tables)
    → IsSafe lib w.tables
    → IsSafe lib (delete_vpn_user node_id id w).1.tables
delete_vpn_user-IsSafe lib node_id id w =
    delete_vpn_user-Keeps (IsSafe lib) (secrets-IsSafe lib) node_id id w
      (removal-IsSafe lib node_id id)

pub create_vpn_user-IsSafe :
    (lib : Readers) (node_id id : Text) (r : UserRequest) (d : Drawn) (w : World Tables)
    → IsSafe lib w.tables
    → IsSafe lib (create_vpn_user node_id id r d w).1.tables
create_vpn_user-IsSafe lib node_id id r d w =
    create_vpn_user-Keeps (IsSafe lib) (secrets-IsSafe lib) node_id id r d w
      (insertion-IsSafe lib id (user_row node_id r d.secret_id d.now))

pub update_vpn_user-IsSafe :
    (lib : Readers) (node_id id : Text) (r : UserRequest) (d : Drawn) (w : World Tables)
    → IsSafe lib w.tables
    → IsSafe lib (update_vpn_user node_id id r d w).1.tables
update_vpn_user-IsSafe lib node_id id r d w =
    update_vpn_user-Keeps (IsSafe lib) (secrets-IsSafe lib) node_id id r d w (λ name ref t t' h.
      change_found-IsSafe lib node_id id (changed_user (text_or r.username name) r ref d.now) t t'
        (of_node node_id (lookup id t.users)) h)

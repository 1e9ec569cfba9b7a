-- ===== src/Nodes/History.antt =====
-- Everything that can happen to the nodes' tables (internal/nodes/store.go and anyconnect.go, and
-- Maintain of internal/database/database.go), one call after another.
use mathlib.Core.Path.{subst}
use snell_sh.Common.{
  ◌≡◌, refl, sym, ap, ◌∙◌, inl, inr, ℕ, true, false, Option, none, some, ◌∷◌, Text, text_eq, arith,
  not, codes,
}
use snell_sh.Common.Dict.{lookup}
use snell_sh.Database.{World, Result, ok, raise_if, invalid, exec_checked, statement, exec}
use snell_sh.Database.Reads.{Reads-then, raise_if-Reads, exec_checked_either}
use snell_sh.Nodes.Model.{Request, Readers, NodeRow, ConfigRow, RuntimeRow, Tables}
use snell_sh.AnyConnect.Cidr.Prefix.{Prefix, contains}
use snell_sh.Nodes.Validate.{is_anyconnect}
use snell_sh.Nodes.Patterns.{is_node_id}
use snell_sh.Nodes.Store.{Drawn, create, create_with_id}
use snell_sh.Nodes.Edit.{update, delete, desired, is_state, set_desired, update_runtime}
use snell_sh.Nodes.Apart.{Apart, ids_clash}
use snell_sh.Nodes.Alike.{servers_disjoint}
use snell_sh.Nodes.Kept.{IsSound, create-IsSound}
use snell_sh.Nodes.Sound.{update-IsSound}
use snell_sh.Nodes.Removed.{delete-IsSound}
use snell_sh.Database.{raise_if}
use snell_sh.Common.Dict.{IsKeyed}
use snell_sh.Nodes.Users.{UserRequest, create_vpn_user, update_vpn_user, delete_vpn_user}
use snell_sh.Nodes.Kept.{create-AllOrNothing}
use snell_sh.Nodes.Revised.{update-Change}
use snell_sh.Nodes.Removed.{delete_outcome}
use snell_sh.Nodes.Names.{IsDistinct, prune-IsDistinct}
use snell_sh.Nodes.Safe.{
  IsSafe, create_vpn_user-IsSafe, update_vpn_user-IsSafe, delete_vpn_user-IsSafe,
}
use snell_sh.Upkeep.{Whole, maintain}
use snell_sh.Upkeep.Readable.{maintain-IsSafe}
use snell_sh.Nodes.Switched.{
  create_with_id-IsSound, set_desired-IsSound, update_runtime-IsSound, no_tables,
}

-- One call, with whatever it is asked for, whatever it draws and whichever of its statements fail.
-- The random id of `Create` is not empty.
pub data Call (lib : Readers) : World Tables → Tables → Type 0 where
  creates :
      (c : ℕ) (id : Text) (r : Request) (source : Text) (d : Drawn) (w : World Tables)
      → Call lib w (create lib (c ∷ id) r source d w).1.tables
  imports :
      (id : Text) (r : Request) (source : Text) (d : Drawn) (w : World Tables)
      → Call lib w (create_with_id lib id r source d w).1.tables
  updates :
      (id : Text) (r : Request) (source : Text) (d : Drawn) (w : World Tables)
      → Call lib w (update lib id r source d w).1.tables
  deletes : (id : Text) (w : World Tables) → Call lib w (delete id w).1.tables
  switches :
      (id state now : Text) (w : World Tables) → Call lib w (set_desired id state now w).1.tables
  adds_user :
      (node_id id : Text) (r : UserRequest) (d : Drawn) (w : World Tables)
      → Call lib w (create_vpn_user node_id id r d w).1.tables
  changes_user :
      (node_id id : Text) (r : UserRequest) (d : Drawn) (w : World Tables)
      → Call lib w (update_vpn_user node_id id r d w).1.tables
  deletes_user :
      (node_id id : Text) (w : World Tables) → Call lib w (delete_vpn_user node_id id w).1.tables
  reports :
      (id : Text) (row : RuntimeRow) (w : World Tables)
      → Call lib w (update_runtime id row w).1.tables
  maintains :
      (began now : ℕ) (w : World Whole)
      → Call lib
          (record { tables = w.tables.core; faults = w.faults })
          (maintain began now w).1.tables.core

create-users :
    (lib : Readers) (id : Text) (r : Request) (source : Text) (d : Drawn) (w : World Tables)
    → (create lib id r source d w).1.tables.users ≡ w.tables.users
create-users lib id r source d w = elim (create-AllOrNothing lib id r source d w) [
  | inl e ↦ ap (λ t. t.users) e
  | inr rest ↦ elim rest [ inl e ↦ ap (λ t. t.users) e | inr whole ↦ ap (λ t. t.users) whole.0 ]
]

create_with_id-users :
    (lib : Readers) (id : Text) (r : Request) (source : Text) (d : Drawn) (w : World Tables)
    → (create_with_id lib id r source d w).1.tables.users ≡ w.tables.users
unfolding create_with_id
create_with_id-users lib id r source d w =
    let refusal = invalid (codes "NODE_ID") in
    Reads-then (λ t. t.users ≡ w.tables.users) (raise_if (not (is_node_id id)) refusal)
      (λ _. create lib id r source d) w (raise_if-Reads Tables (not (is_node_id id)) refusal) refl
      (λ _ v _ same. create-users lib id r source d v ∙ ap (λ t. t.users) same)

update-users :
    (lib : Readers) (id : Text) (r : Request) (source : Text) (d : Drawn) (w : World Tables)
    → (update lib id r source d w).1.tables.users ≡ w.tables.users
update-users lib id r source d w = elim (update-Change lib id r source d w) [
  | inl few ↦ ap (λ t. t.users) few.1
  | inr whole ↦ ap (λ t. t.users) whole.1.written
]

set_desired-users :
    (id state now : Text) (w : World Tables)
    → (set_desired id state now w).1.tables.users ≡ w.tables.users
unfolding set_desired
set_desired-users id state now w =
    let bad = not (is_state state) in
    let refusal = invalid (codes "STATE") in
    let write : Tables → Result Tables = λ t. desired id state now t (lookup id t.nodes) in
    let Q = λ (t : Tables). t.users ≡ w.tables.users in
    Reads-then Q (raise_if bad refusal) (λ _. exec_checked write) w
      (raise_if-Reads Tables bad refusal) refl
      (λ _ v _ same.
        exec_checked_either Q write v (ap (λ t. t.users) same)
          (λ u h. by_row v.tables u.tables (lookup id v.tables.nodes) h ∙ ap (λ t. t.users) same))
  where
    by_row :
        (t t' : Tables) (o : Option NodeRow) → desired id state now t o ≡ ok t' → t'.users ≡ t.users
    by_row t t' none h = ground (arith, h)
    by_row t t' (some n) h = ground (arith, h)

update_runtime-users :
    (id : Text) (row : RuntimeRow) (w : World Tables)
    → (update_runtime id row w).1.tables.users ≡ w.tables.users
unfolding update_runtime exec statement
update_runtime-users id row w = ground arith

delete-IsDistinct :
    (id : Text) (w : World Tables)
    → IsDistinct w.tables.users
    → IsDistinct (delete id w).1.tables.users
delete-IsDistinct id w d = elim (delete_outcome id w) [
  | inl e ↦ subst IsDistinct (sym (ap (λ t. t.users) e)) d
  | inr e ↦
      subst IsDistinct (sym (ap (λ t. t.users) e))
        (prune-IsDistinct (λ u. text_eq u.node_id id) w.tables.users d)
]

-- An operation that leaves the users.
beside :
    (lib : Readers) (t t' : Tables)
    → t'.users ≡ t.users
    → IsSound lib t'
    → IsSafe lib t
    → IsSafe lib t'
beside lib t t' e sound s = (sound, subst IsDistinct (sym e) s.1)

pub Call-IsSafe :
    (lib : Readers) {w : World Tables} {t : Tables}
    → Call lib w t
    → IsSafe lib w.tables
    → IsSafe lib t
unfolding text_eq
Call-IsSafe lib (creates c id r source d w) s =
    beside lib w.tables _ (create-users lib (c ∷ id) r source d w)
      (create-IsSound lib (c ∷ id) r source d w refl s.0) s
Call-IsSafe lib (imports id r source d w) s =
    beside lib w.tables _ (create_with_id-users lib id r source d w)
      (create_with_id-IsSound lib id r source d w s.0) s
Call-IsSafe lib (updates id r source d w) s =
    beside lib w.tables _ (update-users lib id r source d w)
      (update-IsSound lib id r source d w s.0) s
Call-IsSafe lib (deletes id w) s = (delete-IsSound lib id w s.0, delete-IsDistinct id w s.1)
Call-IsSafe lib (switches id state now w) s =
    beside lib w.tables _ (set_desired-users id state now w)
      (set_desired-IsSound lib id state now w s.0) s
Call-IsSafe lib (reports id row w) s =
    beside lib w.tables _ (update_runtime-users id row w) (update_runtime-IsSound lib id row w s.0)
      s
Call-IsSafe lib (adds_user node_id id r d w) s = create_vpn_user-IsSafe lib node_id id r d w s
Call-IsSafe lib (changes_user node_id id r d w) s = update_vpn_user-IsSafe lib node_id id r d w s
Call-IsSafe lib (deletes_user node_id id w) s = delete_vpn_user-IsSafe lib node_id id w s
Call-IsSafe lib (maintains began now w) s = maintain-IsSafe lib began now w s

-- The tables that calls reach from empty ones, with any list of failing statements for each call.
pub data Reached (lib : Readers) : Tables → Type 0 where
  empty : Reached lib no_tables
  after : {w : World Tables} {t : Tables} → Reached lib w.tables → Call lib w t → Reached lib t

pub no_tables-IsSafe : (lib : Readers) → IsSafe lib no_tables
unfolding IsSound Apart ids_clash lookup IsKeyed
no_tables-IsSafe lib =
    ((refl, λ i j. ground arith), record { keyed = tt; names = λ i j. ground arith })

-- Whatever calls are made one after another from empty tables (Create, CreateWithID, Update, Delete,
-- SetDesired, UpdateRuntime, the three that change users, and the database's Maintain) and whichever
-- of their statements fail: no node has the empty id, no two nodes clash, and no two users of one server have one name. Two
-- nodes clash if they have one port, hosts that meet and a protocol in common, or if both are
-- AnyConnect servers and one's pool holds the other's first address.
pub Reached-IsSafe : (lib : Readers) {t : Tables} → Reached lib t → IsSafe lib t
Reached-IsSafe lib empty = no_tables-IsSafe lib
Reached-IsSafe lib (after r c) = Call-IsSafe lib c (Reached-IsSafe lib r)

-- In all tables that calls reach, whatever fails, the pools of two different AnyConnect servers have
-- no address in common.
pub Reached-disjoint :
    (lib : Readers) {t : Tables} (i j : Text) (n m : NodeRow) (c d : ConfigRow) (p q : Prefix)
    (x : ℕ)
    → Reached lib t
    → text_eq i j ≡ false
    → lookup i t.nodes ≡ some n
    → lookup i t.configs ≡ some c
    → lookup j t.nodes ≡ some m
    → lookup j t.configs ≡ some d
    → is_anyconnect n.kind ≡ true
    → is_anyconnect m.kind ≡ true
    → lib.read_prefix c.config.vpn_network ≡ some p
    → lib.read_prefix d.config.vpn_network ≡ some q
    → contains p x ≡ true
    → contains q x ≡ false
unfolding IsSound
Reached-disjoint lib {t} i j n m c d p q x r ne ni ci mj dj kn km rp rq px =
    servers_disjoint lib t i j n m c d p q (Reached-IsSafe lib r).0.1 ne ni ci mj dj kn km rp rq x
      px

-- ===== src/Sync/Collapsed.antt =====
-- An imported node whose name the panel knows is no new node (internal/api/sync.go).
use mathlib.Core.Path.{subst}
use snell_sh.Common.{
  ◌≡◌, refl, sym, ap, ◌∙◌, inl, inr, Bool, true, false, not, Option, none, some, List, [], ◌∷◌,
  Text, text_eq, text_eq_iff, arith, codes, Bool-cases,
}
use snell_sh.Common.Dict.{lookup, insert, lookup-insert}
use snell_sh.Database.{World, Result, ok, invalid, query, statement, raise_if, exec_checked, pure}
use snell_sh.Database.Steps.{either, >>=-Ran}
use snell_sh.Database.Reads.{Reads, Reads-then, raise_if-Reads, exec_checked_either}
use snell_sh.Database.Keeps.{Keeps, >>=-Keeps, pure-Keeps, Reads-Keeps, choice-Keeps}
use snell_sh.Nodes.Model.{Readers, Request, NodeRow, Tables, Node}
use snell_sh.Nodes.Admit.{validate}
use snell_sh.Nodes.Store.{Drawn, get_node, scan_node, raise_some}
use snell_sh.Nodes.Edit.{update, desired, is_state, set_desired}
use snell_sh.Nodes.Find.{named_node, find_by_name_type}
use snell_sh.Nodes.Reading.{raise_some-Reads, get_node-Reads}
use snell_sh.Nodes.Revised.{update-Change}
use snell_sh.Sync.Format.{SyncNode}
use snell_sh.Sync.Import.{
  Draws, optional_row, target_for, find_sync_target, sync_create_request, put_node, switch_node,
  import_node,
}
use snell_sh.Sync.Safe.{find_sync_target-Reads, optional_row-Reads}

-- No node has the id.
abbrev Unknown : Text → Tables → Type 0
Unknown id t = lookup id t.nodes ≡ none

insert-Unknown :
    (id x : Text) (n m : NodeRow) (t t' : Tables)
    → t'.nodes ≡ insert id n t.nodes
    → lookup id t.nodes ≡ some m
    → Unknown x t
    → Unknown x t'
insert-Unknown id x n m t t' e there missing =
    let other : text_eq id x ≡ false = elim (Bool-cases (text_eq id x)) [
      | inr ne ↦ ne
      | inl same ↦
          ground (arith, there, missing, ap (λ k. lookup k t.nodes) ((text_eq_iff id x).0 same))
    ] in
    ap (lookup x) e ∙ lookup-insert id x n t.nodes ∙ rw other missing

update-Unknown :
    (lib : Readers) (id : Text) (r : Request) (source : Text) (d : Drawn) (x : Text)
    → Keeps (Unknown x) (update lib id r source d)
unfolding Keeps
update-Unknown lib id r source d x = λ w missing. elim (update-Change lib id r source d w) [
  | inl few ↦ ap (λ t. lookup x t.nodes) few.1 ∙ missing
  | inr (n, whole, there) ↦
      insert-Unknown id x _ n w.tables (update lib id r source d w).1.tables
        (ap (λ t. t.nodes) whole.written) there missing
]

desired-Unknown :
    (id state now x : Text) (t t' : Tables) (o : Option NodeRow)
    → lookup id t.nodes ≡ o
    → desired id state now t o ≡ ok t'
    → Unknown x t
    → Unknown x t'
desired-Unknown id state now x t t' none there h missing = ground (arith, h)
desired-Unknown id state now x t t' (some n) there h missing =
    insert-Unknown id x (record n { desired_state = state; updated_at = now }) n t t'
      (ground (arith, h)) there missing

set_desired-Unknown : (id state now x : Text) → Keeps (Unknown x) (set_desired id state now)
unfolding set_desired Keeps
set_desired-Unknown id state now x = λ w missing.
    let bad = not (is_state state) in
    let refusal = invalid (codes "STATE") in
    let write : Tables → Result Tables = λ t. desired id state now t (lookup id t.nodes) in
    Reads-then (Unknown x) (raise_if bad refusal) (λ _. exec_checked write) w
      (raise_if-Reads Tables bad refusal) missing
      (λ _ v _ same.
        let still = ap (λ t. lookup x t.nodes) same ∙ missing in
        exec_checked_either (Unknown x) write v still
          (λ u h. desired-Unknown id state now x v.tables u.tables _ refl h still))

put_node-Unknown :
    (lib : Readers) (d : Draws) (item : SyncNode) (m : Node) (x : Text)
    → Keeps (Unknown x) (put_node lib d item (some m))
put_node-Unknown lib d item m x =
    update-Unknown lib m.id (sync_create_request item) _ (d.node item.id) x

-- What the two lookups of `findSyncTarget` find, if no statement fails.
missing_found :
    (id : Text) (t : Tables) (faults : List Bool) {o : Option Node} {v : World Tables}
    → scan_node id t ≡ none
    → optional_row (get_node id) (record { tables = t; faults = faults }) ≡ (ok o, v)
    → o ≡ none
unfolding get_node query statement
missing_found id t [] missing h = ground (arith, missing, h)
missing_found id t (true ∷ faults) missing h = ground (arith, missing, h)
missing_found id t (false ∷ faults) missing h = ground (arith, missing, h)

named_found :
    (item : SyncNode) (t : Tables) (faults : List Bool) (m : Node) {o : Option Node}
    → named_node item.kind item.name t t.nodes ≡ some m
    → (optional_row
        (find_by_name_type item.kind item.name)
        (record { tables = t; faults = faults })).0
      ≡ ok o
    → o ≡ some m
unfolding find_by_name_type query statement
named_found item t [] m there h = ground (arith, there, h)
named_found item t (true ∷ faults) m there h = ground (arith, there, h)
named_found item t (false ∷ faults) m there h = ground (arith, there, h)

scan_missing : (id : Text) (t : Tables) → Unknown id t → scan_node id t ≡ none
unfolding scan_node
scan_missing id t missing = rw missing refl

target_lem :
    (item : SyncNode) (w v : World Tables) (m : Node) (o : Option Node)
    → Unknown item.id w.tables
    → named_node item.kind item.name w.tables w.tables.nodes ≡ some m
    → find_sync_target item w ≡ (ok o, v)
    → o ≡ some m
unfolding find_sync_target Reads
target_lem item w v m o missing there h =
    let s = >>=-Ran (optional_row (get_node item.id)) (target_for item) w h in
    let by_id =
      missing_found item.id w.tables w.faults (scan_missing item.id w.tables missing) s.first in
    let same =
      ap (λ p. p.1.tables) (sym s.first)
      ∙ optional_row-Reads (get_node item.id) (get_node-Reads item.id) w in
    named_found item s.world.tables s.world.faults m
      (ap (λ t. named_node item.kind item.name t t.nodes) same ∙ there)
      (ap (λ x. (target_for item x s.world).0) (sym by_id) ∙ ap (λ p. p.0) s.second)

-- If no node of the panel has the id of an imported node, but one has its type and name, then the
-- import of this node adds no node with its id, whatever it draws, returns and wherever it fails.
pub import_node-Unknown :
    (lib : Readers) (d : Draws) (item : SyncNode) (w : World Tables) (m : Node)
    → lookup item.id w.tables.nodes ≡ none
    → named_node item.kind item.name w.tables w.tables.nodes ≡ some m
    → lookup item.id (import_node lib d item w).1.tables.nodes ≡ none
unfolding import_node Keeps Reads
import_node-Unknown lib d item w m missing there =
    let Q = Unknown item.id in
    let read = find_sync_target-Reads item w in
    either Q (find_sync_target item) _ w
      (λ e v h. subst Q (sym (ap (λ p. p.1.tables) (sym h) ∙ read)) missing)
      (λ o v h.
        let start = subst Q (sym (ap (λ p. p.1.tables) (sym h) ∙ read)) missing in
        let refusal = validate lib (sync_create_request item) in
        >>=-Keeps Q (raise_some refusal) _
          (Reads-Keeps Q (raise_some refusal) (raise_some-Reads refusal))
          (λ _.
            >>=-Keeps Q (put_node lib d item o) _
              (subst (λ x. Keeps Q (put_node lib d item x))
                (sym (target_lem item w v m o missing there h))
                (put_node-Unknown lib d item m item.id))
              (λ local.
                >>=-Keeps Q (switch_node d local.id item.desired_state) _
                  (choice-Keeps Q (is_state item.desired_state)
                    (set_desired local.id item.desired_state d.now) (pure tt)
                    (set_desired-Unknown local.id item.desired_state d.now item.id)
                    (pure-Keeps Q tt))
                  (λ _. pure-Keeps Q local.id)))
          v start)

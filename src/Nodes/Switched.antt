-- ===== src/Nodes/Switched.antt =====
-- CreateWithID, SetDesired and UpdateRuntime keep the nodes apart (internal/nodes/store.go).
use mathlib.Core.Path.{subst}
use snell_sh.Common.{
  ◌≡◌, refl, sym, ap, ◌∙◌, inl, inr, Option, none, some, [], ◌∷◌, Text, text_eq, text_eq_iff, arith,
  Bool-cases, not, codes,
}
use snell_sh.Common.Dict.{lookup, insert, lookup-insert}
use snell_sh.Database.{World, Result, ok, raise_if, invalid, exec_checked, statement, exec}
use snell_sh.Database.Reads.{Reads-then, raise_if-Reads, exec_checked_either}
use snell_sh.Nodes.Model.{Request, Readers, NodeRow, RuntimeRow, Tables}
use snell_sh.Nodes.Patterns.{is_node_id}
use snell_sh.Nodes.Store.{Drawn, create_with_id}
use snell_sh.Nodes.Edit.{desired, is_state, set_desired, update_runtime}
use snell_sh.Nodes.Apart.{Apart, ids_clash}
use snell_sh.Nodes.Alike.{bare, bare-Apart}
use snell_sh.Nodes.Kept.{IsSound, create-IsSound}

pub create_with_id-IsSound :
    (lib : Readers) (id : Text) (r : Request) (source : Text) (d : Drawn) (w : World Tables)
    → IsSound lib w.tables
    → IsSound lib (create_with_id lib id r source d w).1.tables
unfolding create_with_id is_node_id text_eq
create_with_id-IsSound lib [] r source d w s = s
create_with_id-IsSound lib (c ∷ id) r source d w s =
    Reads-then (IsSound lib) (raise_if (not (is_node_id (c ∷ id))) _) _ w
      (raise_if-Reads Tables _ _) s
      (λ _ v _ same.
        create-IsSound lib (c ∷ id) r source d v refl (subst (IsSound lib) (sym same) s))

bare-insert :
    (id i : Text) (n n' : NodeRow) (t : Tables)
    → lookup id t.nodes ≡ some n
    → bare (some n') ≡ bare (some n)
    → bare (lookup i (insert id n' t.nodes)) ≡ bare (lookup i t.nodes)
bare-insert id i n n' t found e = elim (Bool-cases (text_eq id i)) [
  | inl same ↦
      ap bare (lookup-insert id i n' t.nodes)
      ∙ rw same e
      ∙ ap bare (sym found ∙ ap (λ k. lookup k t.nodes) ((text_eq_iff id i).0 same))
  | inr other ↦ ap bare (lookup-insert id i n' t.nodes) ∙ rw other refl
]

bare-none : (o : Option NodeRow) → bare o ≡ none → o ≡ none
bare-none none h = refl
bare-none (some n) h = ground (arith, h)

abbrev row_desired : Text → Text → NodeRow → NodeRow
row_desired state now n = record n { desired_state = state; updated_at = now }

desired-IsSound :
    (lib : Readers) (id state now : Text) (t t' : Tables) (o : Option NodeRow)
    → lookup id t.nodes ≡ o
    → desired id state now t o ≡ ok t'
    → IsSound lib t
    → IsSound lib t'
unfolding IsSound
desired-IsSound lib id state now t t' none found h s = ground (arith, h)
desired-IsSound lib id state now t t' (some n) found h (nobody, apart) =
    let rows : t'.nodes ≡ insert id (row_desired state now n) t.nodes = ground (arith, h) in
    let configs : t'.configs ≡ t.configs = ground (arith, h) in
    let alike : (i : Text) → bare (lookup i t'.nodes) ≡ bare (lookup i t.nodes) = λ i.
      ap (λ m. bare (lookup i m)) rows
      ∙ bare-insert id i n (row_desired state now n) t found refl in
    (
      bare-none (lookup [] t'.nodes) (alike [] ∙ ap bare nobody),
      bare-Apart lib t t' alike configs apart,
    )

pub set_desired-IsSound :
    (lib : Readers) (id state now : Text) (w : World Tables)
    → IsSound lib w.tables
    → IsSound lib (set_desired id state now w).1.tables
unfolding set_desired
set_desired-IsSound lib id state now w s =
    let bad = not (is_state state) in
    let refusal = invalid (codes "STATE") in
    let write : Tables → Result Tables = λ t. desired id state now t (lookup id t.nodes) in
    Reads-then (IsSound lib) (raise_if bad refusal) (λ _. exec_checked write) w
      (raise_if-Reads Tables bad refusal) s
      (λ _ v _ same.
        exec_checked_either (IsSound lib) write v (subst (IsSound lib) (sym same) s) (λ u h.
          desired-IsSound lib id state now v.tables u.tables _ refl h
            (subst (IsSound lib) (sym same) s)))

pub update_runtime-IsSound :
    (lib : Readers) (id : Text) (row : RuntimeRow) (w : World Tables)
    → IsSound lib w.tables
    → IsSound lib (update_runtime id row w).1.tables
unfolding update_runtime exec statement IsSound Apart ids_clash
update_runtime-IsSound lib id row w s = ground (arith, s)

abbrev pub no_tables : Tables
no_tables = record {
  nodes = [];
  configs = [];
  revisions = [];
  runtimes = [];
  counters = [];
  secrets = [];
  users = [];
}

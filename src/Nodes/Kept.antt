-- ===== src/Nodes/Kept.antt =====
-- What a new node keeps: no two nodes clash, and either all its rows are there or none is
-- (internal/nodes/store.go).
use mathlib.Core.Path.{subst}
use snell_sh.Common.{
  ◌≡◌, refl, sym, ap, ◌∙◌, ◌⊎◌, inl, inr, Option, none, some, [], false, Text, text_eq, text_eq_iff,
  arith,
}
use snell_sh.Common.Dict.{lookup, lookup-insert}
use snell_sh.Database.{World}
use snell_sh.Nodes.Model.{Request, Readers, NodeRow, Tables}
use snell_sh.Nodes.Validate.{normalize_request}
use snell_sh.Nodes.Rows.{present}
use snell_sh.Nodes.Store.{Drawn, create}
use snell_sh.Nodes.Apart.{Apart, ids_clash, clash, stored, put_Apart}
use snell_sh.Nodes.Created.{sealed, with_node, wish_for, Free, Outcome, create_normal-Outcome}

-- No node has the empty id, and no two nodes clash.
unfoldable pub IsSound : Readers → Tables → Type 0
IsSound lib t = (lookup [] t.nodes ≡ none) × Apart lib t

others-Free :
    (lib : Readers) (r : Request) (t : Tables) (j : Text)
    → lookup [] t.nodes ≡ none
    → Free lib [] r t
    → stored (clash lib (wish_for r)) (lookup j t.nodes) (lookup j t.configs) ≡ false
others-Free lib r t j nobody free = elim (free j) [
  | inr e ↦ e
  | inl e ↦
      let empty : lookup j t.nodes ≡ none =
        ap (λ k. lookup k t.nodes) ((text_eq_iff j []).0 e) ∙ nobody in
      rw empty refl
]

-- With the rows of a node that clashes with none.
with_node-IsSound :
    (lib : Readers) (id : Text) (r : Request) (source : Text) (d : Drawn) (t t' : Tables)
    → text_eq id [] ≡ false
    → t' ≡ with_node id r d.secret_id d.now source (sealed r d t)
    → Free lib [] r t
    → IsSound lib t
    → IsSound lib t'
unfolding IsSound
with_node-IsSound lib id r source d t t' named e free (nobody, apart) = (
  ap (λ s. lookup [] s.nodes) e ∙ lookup-insert id [] _ t.nodes ∙ rw named nobody,
  put_Apart lib id _ _ t t' (ap (λ s. s.nodes) e) (ap (λ s. s.configs) e)
      (λ j _. others-Free lib r t j nobody free) apart,
)

Outcome-IsSound :
    (lib : Readers) (id : Text) (r : Request) (source : Text) (d : Drawn) (t t' : Tables)
    → text_eq id [] ≡ false
    → Outcome lib id r source d t t'
    → IsSound lib t
    → IsSound lib t'
unfolding IsSound Apart ids_clash
Outcome-IsSound lib id r source d t t' named (inl e) s = subst (IsSound lib) (sym e) s
Outcome-IsSound lib id r source d t t' named (inr (inl e)) s = subst (IsSound lib) (sym e) s
Outcome-IsSound lib id r source d t t' named (inr (inr (e, _, free))) s =
    with_node-IsSound lib id r source d t t' named e free s

-- Whatever a call of `Create` draws, is asked for and returns: if no node had the empty id and no
-- two nodes clashed, it is so afterwards, when the new id is not empty.
pub create-IsSound :
    (lib : Readers) (id : Text) (r : Request) (source : Text) (d : Drawn) (w : World Tables)
    → text_eq id [] ≡ false
    → IsSound lib w.tables
    → IsSound lib (create lib id r source d w).1.tables
unfolding create
create-IsSound lib id r source d w named s =
    Outcome-IsSound lib id (normalize_request r) source d w.tables _ named
      (create_normal-Outcome lib id (normalize_request r) source d w) s

-- The tables as they were, or with the secret only, or with the secret and all five rows of the
-- node, whose id was free.
abbrev pub AllOrNothing : Text → Request → Text → Drawn → Tables → Tables → Type 0
AllOrNothing id r source d t t' =
    (t' ≡ t)
    ⊎ ((t' ≡ sealed r d t)
        ⊎ ((t' ≡ with_node id r d.secret_id d.now source (sealed r d t))
            × (lookup id t.nodes ≡ none)))

absent : (o : Option NodeRow) → present o ≡ false → o ≡ none
absent none h = refl
absent (some n) h = ground (arith, h)

Outcome-AllOrNothing :
    (lib : Readers) (id : Text) (r : Request) (source : Text) (d : Drawn) (t t' : Tables)
    → Outcome lib id r source d t t'
    → AllOrNothing id r source d t t'
Outcome-AllOrNothing lib id r source d t t' (inl e) = inl e
Outcome-AllOrNothing lib id r source d t t' (inr (inl e)) = inr (inl e)
Outcome-AllOrNothing lib id r source d t t' (inr (inr (e, free, _))) =
    inr (inr (e, absent (lookup id t.nodes) free))

-- A call of `Create`, whatever fails and whatever it returns, leaves the tables as they were, or adds
-- a secret only, or adds the secret and all five rows of the node: the row, the configuration at
-- revision 1, its snapshot, the state "stopped" and the counter. In the last case the id was free.
pub create-AllOrNothing :
    (lib : Readers) (id : Text) (r : Request) (source : Text) (d : Drawn) (w : World Tables)
    → AllOrNothing id (normalize_request r) source d w.tables (create lib id r source d w).1.tables
unfolding create
create-AllOrNothing lib id r source d w =
    Outcome-AllOrNothing lib id (normalize_request r) source d w.tables _
      (create_normal-Outcome lib id (normalize_request r) source d w)

-- ===== src/Nodes/Sound.antt =====
-- An update keeps the nodes apart (internal/nodes/store.go).
use mathlib.Core.Path.{subst}
use snell_sh.Common.{
  ◌≡◌, sym, ap, ◌∙◌, inl, inr, ℕ, ◌+◌, false, none, some, [], Text, text_eq, text_eq_iff, arith,
  Bool-cases,
}
use snell_sh.Common.Dict.{lookup, lookup-insert}
use snell_sh.Database.{World}
use snell_sh.Nodes.Model.{Kind, Request, Readers, NodeRow, Tables}
use snell_sh.Nodes.Admitted.{normalize_request_kind}
use snell_sh.Nodes.Store.{Drawn, new_config}
use snell_sh.Nodes.Edit.{edited, update}
use snell_sh.Nodes.Apart.{Apart, ids_clash, clash, stored, wish_of, put_Apart}
use snell_sh.Nodes.Created.{wish_for}
use snell_sh.Nodes.Kept.{IsSound}
use snell_sh.Nodes.Updated.{SecretsOnly}
use snell_sh.Nodes.Revised.{Revised, completed, Change, update-Change}

not_empty :
    (id : Text) (n : NodeRow) (t : Tables)
    → lookup id t.nodes ≡ some n
    → lookup [] t.nodes ≡ none
    → text_eq id [] ≡ false
not_empty id n t found nobody = elim (Bool-cases (text_eq id [])) [
  | inr e ↦ e
  | inl e ↦
      let clashing : some n ≡ none =
        sym found ∙ ap (λ k. lookup k t.nodes) ((text_eq_iff id []).0 e) ∙ nobody in
      ground (arith, clashing)
]

same_wish :
    (n m : NodeRow) (r : Request) (now ref : Text) (k : ℕ)
    → n ≡ m
    → wish_for (completed m r)
      ≡ wish_of (edited (completed m r) now n) (new_config (completed m r).config ref k)
same_wish n m r now ref k e =
    ap
      (λ (x : Kind). record {
        kind = x;
        host = (completed m r).listen_host;
        port = (completed m r).listen_port;
        config = (completed m r).config;
      })
      (normalize_request_kind (record r { kind = m.kind }) ∙ ap (λ y. y.kind) (sym e))

-- An update of a node keeps the nodes apart.
Revised-IsSound :
    (lib : Readers) (id : Text) (r : Request) (source : Text) (d : Drawn) (t t' : Tables)
    (n : NodeRow)
    → lookup id t.nodes ≡ some n
    → Revised lib id (completed n r) source d t t'
    → IsSound lib t
    → IsSound lib t'
unfolding IsSound
Revised-IsSound lib id r source d t t' n found v (nobody, apart) =
    let m = v.row in
    let row : m ≡ n = ground (arith, sym v.row_was ∙ found) in
    let wish = same_wish m n r d.now v.ref (v.config_row.revision + 1) row in
    let named = not_empty id n t found nobody in
    (
      ap (λ s. lookup [] s.nodes) v.written ∙ lookup-insert id [] _ t.nodes ∙ rw named nobody,
      put_Apart lib id _ _ t t' (ap (λ s. s.nodes) v.written) (ap (λ s. s.configs) v.written)
          (λ j other.
            subst (λ x. stored (clash lib x) (lookup j t.nodes) (lookup j t.configs) ≡ false) wish
              (elim (v.free j) [ inl e ↦ ground (arith, e, other) | inr e ↦ e ]))
          apart,
    )

SecretsOnly-IsSound :
    (lib : Readers) (t t' : Tables) → SecretsOnly t t' → IsSound lib t → IsSound lib t'
unfolding IsSound Apart ids_clash
SecretsOnly-IsSound lib t t' (s, e) v = subst (IsSound lib) (sym e) v

Change-IsSound :
    (lib : Readers) (id : Text) (r : Request) (source : Text) (d : Drawn) (t t' : Tables)
    → Change lib id r source d t t'
    → IsSound lib t
    → IsSound lib t'
Change-IsSound lib id r source d t t' (inl few) s = SecretsOnly-IsSound lib t t' (few.0, few.1) s
Change-IsSound lib id r source d t t' (inr (n, v, found)) s =
    Revised-IsSound lib id r source d t t' n found v s

-- Whatever an update of a node is asked for and whatever fails: if no node had the empty id and no
-- two nodes clashed, it is so afterwards.
pub update-IsSound :
    (lib : Readers) (id : Text) (r : Request) (source : Text) (d : Drawn) (w : World Tables)
    → IsSound lib w.tables
    → IsSound lib (update lib id r source d w).1.tables
update-IsSound lib id r source d w s =
    Change-IsSound lib id r source d w.tables _ (update-Change lib id r source d w) s

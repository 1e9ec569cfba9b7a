-- ===== src/Nodes/Removed.antt =====
-- Deleting a node, what it leaves behind, and what that does to a later import of the same id
-- (internal/nodes/store.go, internal/api/sync.go).
use mathlib.Core.Path.{subst}
use snell_sh.Common.{
  ◌≡◌, ◌≢◌, refl, sym, ap, ◌∙◌, ◌⊎◌, inl, inr, Bool, false, not, ◌&&◌, Option, none, some, [], ◌∷◌,
  Text, text_eq, arith, if◌then◌else◌, if-cases, codes,
}
use snell_sh.Common.Dict.{Dict, lookup, prune, lookup-erase}
use snell_sh.Database.{World, invalid, ok, query, raise_if, exec_checked, transaction}
use snell_sh.Database.Steps.{>>=-Went, query_ok, raise_if_ok, exec_checked_ok, transaction_ok}
use snell_sh.Database.Reads.{Reads, query-Reads, raise_if-Reads, Reads-then, exec_checked_either}
use snell_sh.Nodes.Model.{Request, Readers, NodeRow, RuntimeRow, Tables, Node}
use snell_sh.Nodes.Validate.{normalize_request}
use snell_sh.Nodes.Rows.{present, put_secret}
use snell_sh.Nodes.Patterns.{is_node_id}
use snell_sh.Nodes.Conflict.{check_conflict}
use snell_sh.Nodes.Admit.{validate}
use snell_sh.Nodes.Store.{
  Drawn, create_normal, create, create_with_id, insert_all, raise_some, require_backend,
  sealed_secret,
}
use snell_sh.Nodes.Edit.{is_used, without_node, removal, delete}
use snell_sh.Nodes.Reading.{raise_some-Reads, require_backend-Reads, check_conflict-Reads}
use snell_sh.Nodes.Alike.{erased_Apart}
use snell_sh.Nodes.Created.{insert_all_ok}
use snell_sh.Nodes.Kept.{IsSound}
use snell_sh.Nodes.Updated.{put_secret-KeepsRows}

-- The tables after a delete: as before, or without the node.
pub delete_outcome :
    (id : Text) (w : World Tables)
    → ((delete id w).1.tables ≡ w.tables) ⊎ ((delete id w).1.tables ≡ without_node id w.tables)
unfolding delete
delete_outcome id w =
    let Q = λ (t : Tables). (t ≡ w.tables) ⊎ (t ≡ without_node id w.tables) in
    Reads-then Q (query _) _ w (query-Reads _) (inl refl) (λ used w1 _ s1.
      Reads-then Q (raise_if used _) _ w1 (raise_if-Reads Tables used _) (inl s1) (λ _ w2 _ s2.
        exec_checked_either Q _ w2 (inl (s2 ∙ s1)) (λ v h. inr (ground (arith, h, s2, s1)))))

without_node-IsSound :
    (lib : Readers) (id : Text) (t t' : Tables)
    → t' ≡ without_node id t
    → IsSound lib t
    → IsSound lib t'
unfolding IsSound
without_node-IsSound lib id t t' e (nobody, apart) = (
  ap (λ s. lookup [] s.nodes) e ∙ lookup-erase id [] t.nodes ∙ ground (arith, nobody),
  erased_Apart lib id t t' (ap (λ s. s.nodes) e) (ap (λ s. s.configs) e) apart,
)

pub delete-IsSound :
    (lib : Readers) (id : Text) (w : World Tables)
    → IsSound lib w.tables
    → IsSound lib (delete id w).1.tables
delete-IsSound lib id w s = elim (delete_outcome id w) [
  | inl e ↦ subst (IsSound lib) (sym e) s
  | inr e ↦ without_node-IsSound lib id w.tables _ e s
]

-- Whether a row has the node as its backend.
abbrev pub refers : Text → Option NodeRow → Bool
refers id none = false
refers id (some n) = text_eq n.backend_node_id id

used-refers :
    (id : Text) (rows : Dict NodeRow) (j : Text)
    → is_used id rows ≡ false
    → refers id (lookup j rows) ≡ false
unfolding is_used lookup
used-refers id [] j h = refl
used-refers id ((i, m) ∷ rows) j h =
    if-cases (λ o. refers id o ≡ false) (text_eq i j) (λ _. ground (arith, h))
      (λ _. used-refers id rows j (ground (arith, h)))

-- A delete that returns no error removes the node, its configuration and its users; every other
-- node is as before, and none of them had the node as its backend, if the id is not empty.
pub delete_lem :
    (id : Text) (w : World Tables) (j : Text)
    → text_eq id [] ≡ false
    → (delete id w).0 ≡ ok tt
    → ((delete id w).1.tables.users ≡ prune (λ u. text_eq u.node_id id) w.tables.users)
      × (lookup j (delete id w).1.tables.nodes
          ≡ (if text_eq id j then none else lookup j w.tables.nodes))
      × (lookup j (delete id w).1.tables.configs
          ≡ (if text_eq id j then none else lookup j w.tables.configs))
      × (refers id (lookup j w.tables.nodes) ≡ false)
unfolding delete
delete_lem id w j named h =
    let asked =
      >>=-Went (query (λ (t : Tables). not (text_eq id []) && is_used id t.nodes)) _ w h in
    let (used, s1) = query_ok _ w asked.world asked.first in
    let passed =
      >>=-Went (raise_if asked.value (invalid (codes "DEPENDENTS"))) _ asked.world asked.second in
    let (none_used, s2) = raise_if_ok asked.value _ asked.world passed.world passed.first in
    let unused : is_used id w.tables.nodes ≡ false = ground (arith, named, used ∙ none_used) in
    let left = (exec_checked (removal id) passed.world).1 in
    let put = exec_checked_ok (removal id) passed.world left (ap (λ r. (r, left)) passed.second) in
    let gone : left.tables ≡ without_node id passed.world.tables = ground (arith, put) in
    let t : (delete id w).1.tables ≡ without_node id w.tables =
      ap (λ p. p.1.tables) (asked.whole ∙ passed.whole)
      ∙ gone
      ∙ ap (without_node id) (ap (λ v. v.tables) s2 ∙ s1) in
    (
      ap (λ s. s.users) t,
      ap (λ s. lookup j s.nodes) t ∙ lookup-erase id j w.tables.nodes,
      ap (λ s. lookup j s.configs) t ∙ lookup-erase id j w.tables.configs,
      used-refers id w.tables.nodes j unused,
    )

-- A new node needs an id without a row of `runtime_instances`.
create_normal-needs :
    (lib : Readers) (id : Text) (r : Request) (source : Text) (d : Drawn) (w : World Tables)
    {node : Node}
    → (create_normal lib id r source d w).0 ≡ ok node
    → present (lookup id w.tables.runtimes) ≡ false
unfolding create_normal Reads
create_normal-needs lib id r source d w h =
    let s1 = >>=-Went (raise_some (validate lib r)) _ w h in
    let s2 =
      >>=-Went (check_conflict lib [] r.kind r.listen_host r.listen_port r.config) _ s1.world
        s1.second in
    let s3 = >>=-Went (require_backend r.kind r.backend_node_id) _ s2.world s2.second in
    let s4 =
      >>=-Went (put_secret d.secret_id (sealed_secret r d.random_secret)) _ s3.world s3.second in
    let body = insert_all id r d.secret_id d.now source in
    let s5 = >>=-Went (transaction body) _ s4.world s4.second in
    let done = transaction_ok body s4.world (ap (λ p. p.0) s5.first) in
    let (_, _, free) =
      insert_all_ok id r d.secret_id d.now source done.before done.after done.body in
    let e1 = ap (λ p. p.1.tables) (sym s1.first) ∙ raise_some-Reads (validate lib r) w in
    let e2 =
      ap (λ p. p.1.tables) (sym s2.first)
      ∙ check_conflict-Reads lib [] r.kind r.listen_host r.listen_port r.config s1.world in
    let e3 =
      ap (λ p. p.1.tables) (sym s3.first)
      ∙ require_backend-Reads r.kind r.backend_node_id s2.world in
    let (s, kept) = put_secret-KeepsRows d.secret_id (sealed_secret r d.random_secret) s3.world in
    let e4 = ap (λ p. p.1.tables) (sym s4.first) ∙ kept in
    ap (λ t. present (lookup id t.runtimes)) (sym (e3 ∙ e2 ∙ e1))
    ∙ ap (λ t. present (lookup id t.runtimes)) (sym (done.same ∙ e4))
    ∙ free

-- A delete leaves the node's row of `runtime_instances`, and with that row a call of `CreateWithID`
-- for the id, as an import makes it, never returns a node, whatever it is asked for.
pub create_with_id-after-delete :
    (lib : Readers) (id : Text) (r : Request) (source : Text) (d : Drawn) (w : World Tables)
    (row : RuntimeRow) (node : Node)
    → lookup id w.tables.runtimes ≡ some row
    → (create_with_id lib id r source d (delete id w).1).0 ≢ ok node
unfolding create_with_id create
create_with_id-after-delete lib id r source d w row node e h =
    let s =
      >>=-Went (raise_if (not (is_node_id id)) (invalid (codes "NODE_ID"))) _ (delete id w).1 h in
    let (_, same) = raise_if_ok _ _ (delete id w).1 s.world s.first in
    let free = create_normal-needs lib id (normalize_request r) source d s.world s.second in
    let left : (delete id w).1.tables.runtimes ≡ w.tables.runtimes = elim (delete_outcome id w) [
      | inl t ↦ ap (λ x. x.runtimes) t
      | inr t ↦ ap (λ x. x.runtimes) t
    ] in
    let gone : present (lookup id w.tables.runtimes) ≡ false =
      ap (λ x. present (lookup id x)) (sym left)
      ∙ ap (λ x. present (lookup id x.tables.runtimes)) (sym same)
      ∙ free in
    ground (arith, gone, e)

-- ===== src/Nodes/Revised.antt =====
-- A call of `Update` as a whole (internal/nodes/store.go): what it leaves, and what that keeps.
use mathlib.Core.Path.{subst}
use snell_sh.Common.{◌≡◌, refl, sym, ap, ◌∙◌, ◌⊎◌, inl, inr, ◌+◌, Option, none, some, Text, arith}
use snell_sh.Common.Dict.{Dict, lookup}
use snell_sh.Database.{no_rows, World, query, or_raise, transaction, ◌>>◌}
use snell_sh.Database.Steps.{>>=-Ran, query_ok, or_raise_ok, either}
use snell_sh.Database.Reads.{
  query-Reads, or_raise-Reads, Reads-then, transaction_either, then-Reads,
}
use snell_sh.Nodes.Model.{Request, Readers, NodeRow, ConfigRow, Tables, Node, Secret}
use snell_sh.Nodes.Validate.{normalize_request}
use snell_sh.Nodes.Admit.{validate}
use snell_sh.Nodes.Store.{Drawn, get_node, join_row, scan_node}
use snell_sh.Nodes.Edit.{next_secret, update_all, update_normal, update}
use snell_sh.Nodes.Reading.{
  raise_some-Reads, get_node-Reads, require_backend-Reads, check_conflict-Reads,
}
use snell_sh.Nodes.Checked.{check_conflict-clash}
use snell_sh.Nodes.Created.{wish_for, Free}
use snell_sh.Nodes.Sealed.{Stored, Sealed, next_secret_ok, next_secret_err}
use snell_sh.Nodes.Updated.{with_secrets, updated, update_all_ok}

-- The node's rows before, and all three of them written.
pub record Revised (lib : Readers) (id : Text) (r : Request) (source : Text) (d : Drawn)
    (t t' : Tables) : Type 0 where
  pub row : NodeRow
  pub config_row : ConfigRow
  pub ref : Text
  pub secrets : Dict Secret
  pub row_was : lookup id t.nodes ≡ some row
  pub config_was : lookup id t.configs ≡ some config_row
  pub written : t' ≡ updated id r ref d.now source row config_row (with_secrets secrets t)
  pub sealed : Sealed lib id r config_row.secret_ref d t ref secrets
  pub free : Free lib id r t

-- The tables as they were, or with the secret that the request asks for.
abbrev pub SecretAtMost : Readers → Text → Request → Drawn → Tables → Tables → Type 0
SecretAtMost lib id r d t t' =
    (s : Dict Secret) × (t' ≡ with_secrets s t) × ((s ≡ t.secrets) ⊎ Stored lib id r d t s)

-- One secret at most, or the whole update.
abbrev pub UpdateOutcome : Readers → Text → Request → Text → Drawn → Tables → Tables → Type 0
UpdateOutcome lib id r source d t t' = SecretAtMost lib id r d t t' ⊎ Revised lib id r source d t t'

unchanged :
    (lib : Readers) (id : Text) (r : Request) (d : Drawn) (t t' : Tables)
    → t' ≡ t
    → SecretAtMost lib id r d t t'
unchanged lib id r d t t' e = (t.secrets, e, inl refl)

secret_of :
    (lib : Readers) (id : Text) (r : Request) (old_ref : Text) (d : Drawn) (t : Tables) (ref : Text)
    (s : Dict Secret)
    → Sealed lib id r old_ref d t ref s
    → (s ≡ t.secrets) ⊎ Stored lib id r d t s
secret_of lib id r old_ref d t ref s (inl (a, b, c, e)) = inl e
secret_of lib id r old_ref d t ref s (inr (a, b)) = inr b

module _ (lib : Readers) (id : Text) (r : Request) (source : Text) (d : Drawn) (t : Tables)
    (n : NodeRow) (found : lookup id t.nodes ≡ some n) (free : Free lib id r t) where
  write_outcome :
      (c : ConfigRow) (ref : Text) (s : Dict Secret) (w : World Tables)
      → lookup id t.configs ≡ some c
      → w.tables ≡ with_secrets s t
      → Sealed lib id r c.secret_ref d t ref s
      → UpdateOutcome lib id r source d t
          ((transaction (update_all id r ref (c.revision + 1) d.now source) >> get_node id)
            w).1.tables
  write_outcome c ref s w cf same sealed =
      let body = update_all id r ref (c.revision + 1) d.now source in
      then-Reads (UpdateOutcome lib id r source d t) (transaction body) (λ _. get_node id) w
        (λ _. get_node-Reads id)
        (transaction_either (UpdateOutcome lib id r source d t) body w
          (inl (s, same, secret_of lib id r c.secret_ref d t ref s sealed))
          (λ a u v before ran.
            let e = before ∙ same in
            let wrote =
              update_all_ok id r ref d.now source n c u v ran
                (ap (λ x. lookup id x.nodes) e ∙ found) (ap (λ x. lookup id x.configs) e ∙ cf) in
            inr (record {
              row = n;
              config_row = c;
              ref = ref;
              secrets = s;
              row_was = found;
              config_was = cf;
              written = wrote ∙ ap (updated id r ref d.now source n c) e;
              sealed = sealed;
              free = free;
            })))

update_normal-UpdateOutcome :
    (lib : Readers) (id : Text) (r : Request) (source : Text) (d : Drawn) (w : World Tables)
    (n : NodeRow)
    → lookup id w.tables.nodes ≡ some n
    → UpdateOutcome lib id r source d w.tables (update_normal lib id r source d w).1.tables
unfolding update_normal
update_normal-UpdateOutcome lib id r source d w n found =
    let t = w.tables in
    let Q = UpdateOutcome lib id r source d t in
    let same : (t' : Tables) → t' ≡ t → Q t' = λ t' e. inl (unchanged lib id r d t t' e) in
    let After : ConfigRow → Text → World Tables → Tables → Type 0 = λ c ref v u.
      (s : Dict Secret) × (v.tables ≡ with_secrets s u) × Sealed lib id r c.secret_ref d u ref s in
    Reads-then Q _ _ w (raise_some-Reads (validate lib r)) (same _ refl) (λ _ w1 _ s1.
      Reads-then Q _ _ w1 (check_conflict-Reads lib id r.kind r.listen_host r.listen_port r.config)
        (same _ (s1))
        (λ _ w2 checked s2.
          let free =
            subst (Free lib id r) s1 (check_conflict-clash lib id (wish_for r) w1 w2 checked).1 in
          Reads-then Q _ _ w2 (require_backend-Reads r.kind r.backend_node_id) (same _ (s2 ∙ s1))
            (λ _ w3 _ s3.
              Reads-then Q (query (λ x. lookup id x.configs)) _ w3 (query-Reads _)
                (same _ (s3 ∙ s2 ∙ s1))
                (λ o w4 got s4.
                  let s : w4.tables ≡ t = s4 ∙ s3 ∙ s2 ∙ s1 in
                  let is_o : lookup id t.configs ≡ o =
                    ap (λ x. lookup id x.configs) (sym (s3 ∙ s2 ∙ s1)) ∙ (query_ok _ w3 w4 got).0 in
                  Reads-then Q (or_raise o no_rows) _ w4 (or_raise-Reads Tables o no_rows)
                    (same _ (s))
                    (λ c w5 is s5.
                      either Q (next_secret lib id r c.secret_ref d) _ w5
                        (λ e v h.
                          same _ (next_secret_err lib id r c.secret_ref d w5 v e h ∙ s5 ∙ s))
                        (λ ref v h.
                          let (secrets, kept, sealed) =
                            subst (After c ref v) (s5 ∙ s)
                              (next_secret_ok lib id r c.secret_ref d w5 v ref h) in
                          write_outcome lib id r source d t n found free c ref secrets v
                            (is_o ∙ (or_raise_ok o no_rows w4 w5 is).0) kept sealed))))))

-- The request as `Update` completes it: with the type of the node.
abbrev pub completed : NodeRow → Request → Request
completed n r = normalize_request (record r { kind = n.kind })

-- What an update leaves of the tables: the new secret at most, or the whole update.
abbrev pub Change : Readers → Text → Request → Text → Drawn → Tables → Tables → Type 0
Change lib id r source d t t' =
    ((s : Dict Secret) × (t' ≡ with_secrets s t)
      × ((s ≡ t.secrets)
          ⊎ ((n : NodeRow) × Stored lib id (completed n r) d t s × (lookup id t.nodes ≡ some n))))
    ⊎ ((n : NodeRow) × Revised lib id (completed n r) source d t t' × (lookup id t.nodes ≡ some n))

scanned :
    (id : Text) (t : Tables) (o : Option NodeRow) (p : Option ConfigRow) (old : Node)
    → join_row id t o p ≡ some old
    → o ≡ some old.row
scanned id t none p old h = ground (arith, h)
scanned id t (some n) none old h = ground (arith, h)
scanned id t (some n) (some c) old h = ground (arith, h)

-- An update, whatever fails and whatever it returns, leaves all rows as they were but for one secret
-- at most, or writes all three rows of the node: its own with the request's values, the configuration
-- with the next revision, and the snapshot of that revision. The secret is the one that the request
-- gives, for a server with what was stored for what it leaves out, under the drawn id, which was
-- free. The configuration that is written refers to it, and to the old one if the request gives
-- none. In that case the node was there, and the request clashes with no other node.
pub update-Change :
    (lib : Readers) (id : Text) (r : Request) (source : Text) (d : Drawn) (w : World Tables)
    → Change lib id r source d w.tables (update lib id r source d w).1.tables
unfolding update get_node scan_node
update-Change lib id r source d w =
    let Q = Change lib id r source d w.tables in
    Reads-then Q (get_node id) _ w (get_node-Reads id) (inl (w.tables.secrets, refl, inl refl))
      (λ old v got same.
        let read = >>=-Ran (query (scan_node id)) _ w got in
        let (seen, same_read) = query_ok _ w read.world read.first in
        let (found, _) = or_raise_ok read.value _ read.world v read.second in
        let row : lookup id w.tables.nodes ≡ some old.row =
          scanned id w.tables _ _ old (seen ∙ found) in
        let after = (update_normal lib id (completed old.row r) source d v).1.tables in
        elim (subst (λ t. UpdateOutcome lib id (completed old.row r) source d t after) same
          (update_normal-UpdateOutcome lib id (completed old.row r) source d v old.row
            (ap (λ t. lookup id t.nodes) same ∙ row))) [
              | inl (s, few, inl none_new) ↦ inl (s, few, inl none_new)
              | inl (s, few, inr new) ↦ inl (s, few, inr (old.row, new, row))
              | inr whole ↦ inr (old.row, whole, row)
            ])

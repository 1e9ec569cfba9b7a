-- ===== src/Nodes/Created.antt =====
-- What a call of `createWithID` leaves behind, whatever fails (internal/nodes/store.go).
use mathlib.Core.Path.{subst}
use snell_sh.Common.{
  ◌≡◌, refl, sym, ap, ◌∙◌, ◌⊎◌, inl, inr, true, false, [], ◌∷◌, Text, text_eq, take, arith,
}
use snell_sh.Common.Dict.{lookup, insert}
use snell_sh.Database.{World, ok, ◌>>◌, transaction}
use snell_sh.Database.Steps.{>>=-Ran, exec_checked_ok}
use snell_sh.Database.Reads.{Reads-then, transaction_either, exec_checked-then, then-Reads}
use snell_sh.Nodes.Model.{Request, Readers, NodeRow, ConfigRow, RevisionRow, RuntimeRow, Tables}
use snell_sh.Nodes.Admit.{validate}
use snell_sh.Nodes.Rows.{
  present, put_secret, insert_node, insert_config, insert_revision, insert_runtime, insert_counter,
}
use snell_sh.Nodes.Store.{
  Drawn, get_node, sealed_secret, new_row, new_config, snapshot, stopped_row, insert_all,
  create_normal,
}
use snell_sh.Nodes.Reading.{
  raise_some-Reads, get_node-Reads, require_backend-Reads, check_conflict-Reads,
}
use snell_sh.Nodes.Apart.{Wish, clash, stored}
use snell_sh.Nodes.Checked.{check_conflict-clash}

abbrev pub sealed : Request → Drawn → Tables → Tables
sealed r d t = record t { secrets = insert d.secret_id (sealed_secret r d.random_secret) t.secrets }

-- The tables with a new node: all its rows, or none.
abbrev pub with_node : Text → Request → Text → Text → Text → Tables → Tables
with_node id r secret_id now source t = record t {
  nodes = insert id (new_row r now) t.nodes;
  configs = insert id (new_config r.config secret_id 1) t.configs;
  revisions = snapshot id 1 r.config r.runtime_version source now ∷ t.revisions;
  runtimes = insert id (stopped_row now) t.runtimes;
  counters = insert id (take 7 now) t.counters;
}

insert_node_ok :
    (id : Text) (n : NodeRow) (w v : World Tables)
    → insert_node id n w ≡ (ok tt, v)
    → (v.tables ≡ record w.tables { nodes = insert id n w.tables.nodes })
      × (present (lookup id w.tables.nodes) ≡ false)
unfolding insert_node
insert_node_ok id n w v h =
    let e = exec_checked_ok _ w v h in (ground (arith, e), ground (arith, e))

insert_config_ok :
    (id : Text) (c : ConfigRow) (w v : World Tables)
    → insert_config id c w ≡ (ok tt, v)
    → v.tables ≡ record w.tables { configs = insert id c w.tables.configs }
unfolding insert_config
insert_config_ok id c w v h = let e = exec_checked_ok _ w v h in ground (arith, e)

pub insert_revision_ok :
    (r : RevisionRow) (w v : World Tables)
    → insert_revision r w ≡ (ok tt, v)
    → v.tables ≡ record w.tables { revisions = r ∷ w.tables.revisions }
unfolding insert_revision
insert_revision_ok r w v h = let e = exec_checked_ok _ w v h in ground (arith, e)

insert_runtime_ok :
    (id : Text) (r : RuntimeRow) (w v : World Tables)
    → insert_runtime id r w ≡ (ok tt, v)
    → (v.tables ≡ record w.tables { runtimes = insert id r w.tables.runtimes })
      × (present (lookup id w.tables.runtimes) ≡ false)
unfolding insert_runtime
insert_runtime_ok id r w v h =
    let e = exec_checked_ok _ w v h in (ground (arith, e), ground (arith, e))

insert_counter_ok :
    (id period : Text) (w v : World Tables)
    → insert_counter id period w ≡ (ok tt, v)
    → v.tables ≡ record w.tables { counters = insert id period w.tables.counters }
unfolding insert_counter
insert_counter_ok id period w v h = let e = exec_checked_ok _ w v h in ground (arith, e)

-- The body of the transaction, run to its end.
pub insert_all_ok :
    (id : Text) (r : Request) (secret_id now source : Text) (w v : World Tables)
    → insert_all id r secret_id now source w ≡ (ok tt, v)
    → (v.tables ≡ with_node id r secret_id now source w.tables)
      × (present (lookup id w.tables.nodes) ≡ false)
      × (present (lookup id w.tables.runtimes) ≡ false)
unfolding insert_all
insert_all_ok id r secret_id now source w v h =
    let s1 = >>=-Ran (insert_node id (new_row r now)) _ w h in
    let (e1, free) = insert_node_ok id _ w s1.world s1.first in
    let s2 = >>=-Ran (insert_config id _) _ s1.world s1.second in
    let e2 = insert_config_ok id _ s1.world s2.world s2.first in
    let s3 = >>=-Ran (insert_revision _) _ s2.world s2.second in
    let e3 = insert_revision_ok _ s2.world s3.world s3.first in
    let s4 = >>=-Ran (insert_runtime id _) _ s3.world s3.second in
    let (e4, none_runs) = insert_runtime_ok id _ s3.world s4.world s4.first in
    let e5 = insert_counter_ok id _ s4.world v s4.second in
    (
      rw (e5, e4, e3, e2, e1) refl,
      free,
      ap (λ t. present (lookup id t.runtimes)) (sym e1)
          ∙ ap (λ t. present (lookup id t.runtimes)) (sym e2)
          ∙ ap (λ t. present (lookup id t.runtimes)) (sym e3)
          ∙ none_runs,
    )

-- What a request asks for.
abbrev pub wish_for : Request → Wish
wish_for r = record { kind = r.kind; host = r.listen_host; port = r.listen_port; config = r.config }

-- No stored node but the excluded one clashes with the request.
abbrev pub Free : Readers → Text → Request → Tables → Type 0
Free lib exclude r t =
    (j : Text)
    → (text_eq j exclude ≡ true)
      ⊎ (stored (clash lib (wish_for r)) (lookup j t.nodes) (lookup j t.configs) ≡ false)

-- The tables afterwards: as before, or with one more secret, or with all rows of the node.
abbrev pub Outcome : Readers → Text → Request → Text → Drawn → Tables → Tables → Type 0
Outcome lib id r source d t t' =
    (t' ≡ t)
    ⊎ ((t' ≡ sealed r d t)
        ⊎ ((t' ≡ with_node id r d.secret_id d.now source (sealed r d t))
            × (present (lookup id t.nodes) ≡ false)
            × Free lib [] r t))

write_outcome :
    (lib : Readers) (id : Text) (r : Request) (source : Text) (d : Drawn) (t : Tables)
    (w : World Tables)
    → w.tables ≡ t
    → Free lib [] r t
    → Outcome lib id r source d t
        ((put_secret d.secret_id (sealed_secret r d.random_secret)
            >> (transaction (insert_all id r d.secret_id d.now source) >> get_node id))
          w).1.tables
unfolding put_secret
write_outcome lib id r source d t w same free =
    exec_checked-then (Outcome lib id r source d t) _ _ w (inl same) (λ v h.
      let put : v.tables ≡ sealed r d t = ground (arith, h, same) in
      let body = insert_all id r d.secret_id d.now source in
      then-Reads (Outcome lib id r source d t) (transaction body) (λ _. get_node id) v
        (λ _. get_node-Reads id)
        (transaction_either (Outcome lib id r source d t) body v (inr (inl put))
          (λ a u x before ran.
            let (e, none_yet, _) = insert_all_ok id r d.secret_id d.now source u x ran in
            inr (
              inr (
                e ∙ ap (with_node id r d.secret_id d.now source) (before ∙ put),
                ap (λ s. present (lookup id s.nodes)) (sym (before ∙ put)) ∙ none_yet,
                free,
              )))))

pub create_normal-Outcome :
    (lib : Readers) (id : Text) (r : Request) (source : Text) (d : Drawn) (w : World Tables)
    → Outcome lib id r source d w.tables (create_normal lib id r source d w).1.tables
unfolding create_normal
create_normal-Outcome lib id r source d w =
    let Q = Outcome lib id r source d w.tables in
    Reads-then Q _ _ w (raise_some-Reads (validate lib r)) (inl refl) (λ _ w1 _ s1.
      Reads-then Q _ _ w1 (check_conflict-Reads lib [] r.kind r.listen_host r.listen_port r.config)
        (inl s1)
        (λ _ w2 checked s2.
          let free = (check_conflict-clash lib [] (wish_for r) w1 w2 checked).1 in
          Reads-then Q _ _ w2 (require_backend-Reads r.kind r.backend_node_id) (inl (s2 ∙ s1))
            (λ _ w3 _ s3.
              write_outcome lib id r source d w.tables w3 (s3 ∙ s2 ∙ s1)
                (subst (Free lib [] r) s1 free))))

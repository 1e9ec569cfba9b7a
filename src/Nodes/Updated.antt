-- ===== src/Nodes/Updated.antt =====
-- What a call of `Update` leaves behind, whatever fails (internal/nodes/store.go).
use mathlib.Core.Path.{subst}
use snell_sh.Common.{◌≡◌, refl, ap, ◌∙◌, ◌+◌, Bool, true, false, some, ◌∷◌, Text, arith}
use snell_sh.Common.Dict.{Dict, lookup, insert}
use snell_sh.Database.{World, Action, ok, ◌>>=◌, pure, query, or_raise}
use snell_sh.Database.Steps.{>>=-Ran, exec_checked_ok, either}
use snell_sh.Database.Reads.{Reads, query-Reads, or_raise-Reads, >>=-Reads, exec_checked_either}
use snell_sh.Nodes.Model.{Request, Readers, NodeRow, ConfigRow, Secret, Tables}
use snell_sh.Nodes.Rows.{put_secret}
use snell_sh.Nodes.Store.{get_secret, get_server_secrets, new_config, snapshot}
use snell_sh.Nodes.Edit.{edited, edit_node, update_config, update_all}
use snell_sh.Nodes.Created.{insert_revision_ok}

-- Tables that differ in the secrets at most.
abbrev pub with_secrets : Dict Secret → Tables → Tables
with_secrets s t = record t { secrets = s }

abbrev pub SecretsOnly : Tables → Tables → Type 0
SecretsOnly t t' = (s : Dict Secret) × (t' ≡ with_secrets s t)

abbrev pub KeepsRows : {A : Type 0} → Action Tables A → Type 0
KeepsRows m = (w : World Tables) → SecretsOnly w.tables (m w).1.tables

pub put_secret-KeepsRows : (id : Text) (s : Secret) → KeepsRows (put_secret id s)
unfolding put_secret
put_secret-KeepsRows id s w =
    exec_checked_either (SecretsOnly w.tables) _ w (w.tables.secrets, refl)
      (λ v h. (insert id s w.tables.secrets, ground (arith, h)))

pub then-KeepsRows :
    {A B : Type 0} (m : Action Tables A) (f : A → Action Tables B)
    → KeepsRows m
    → ((a : A) → KeepsRows (f a))
    → KeepsRows (m >>= f)
then-KeepsRows m f km kf w =
    either (SecretsOnly w.tables) m f w
      (λ e v h. subst (SecretsOnly w.tables) (ap (λ p. p.1.tables) h) (km w))
      (λ a v h.
        let (s, same) = subst (SecretsOnly w.tables) (ap (λ p. p.1.tables) h) (km w) in
        let (s', same') = kf a v in (s', same' ∙ ap (with_secrets s') same))

pub get_server_secrets-Reads : (lib : Readers) (id : Text) → Reads (get_server_secrets lib id)
unfolding get_server_secrets get_secret
get_server_secrets-Reads lib id =
    >>=-Reads (get_secret id) _
      (>>=-Reads (query _) _ (query-Reads _) (λ row.
        >>=-Reads (or_raise row _) _ (or_raise-Reads Tables row _)
          (λ c. >>=-Reads (query _) _ (query-Reads _) (λ o. or_raise-Reads Tables o _))))
      (λ s. or_raise-Reads Tables _ _)

pub choice-KeepsRows :
    {A : Type 0} (b : Bool) (m n : Action Tables A)
    → KeepsRows m
    → KeepsRows n
    → KeepsRows (elim b [ true ↦ m | false ↦ n ])
choice-KeepsRows true m n km kn = km
choice-KeepsRows false m n km kn = kn

pub pure-KeepsRows : (s : Text) → KeepsRows (pure s)
pure-KeepsRows s w = (w.tables.secrets, refl)

-- The statements of the transaction.
edit_node_ok :
    (id : Text) (r : Request) (now : Text) (n : NodeRow) (w v : World Tables)
    → edit_node id r now w ≡ (ok tt, v)
    → lookup id w.tables.nodes ≡ some n
    → v.tables ≡ record w.tables { nodes = insert id (edited r now n) w.tables.nodes }
unfolding edit_node
edit_node_ok id r now n w v h e = let f = exec_checked_ok _ w v h in ground (arith, f, e)

update_config_ok :
    (id : Text) (c c' : ConfigRow) (w v : World Tables)
    → update_config id c' w ≡ (ok tt, v)
    → lookup id w.tables.configs ≡ some c
    → v.tables ≡ record w.tables { configs = insert id c' w.tables.configs }
unfolding update_config
update_config_ok id c c' w v h e = let f = exec_checked_ok _ w v h in ground (arith, f, e)

abbrev pub updated : Text → Request → Text → Text → Text → NodeRow → ConfigRow → Tables → Tables
updated id r ref now source n c t = record t {
  nodes = insert id (edited r now n) t.nodes;
  configs = insert id (new_config r.config ref (c.revision + 1)) t.configs;
  revisions = snapshot id (c.revision + 1) r.config r.runtime_version source now ∷ t.revisions;
}

pub update_all_ok :
    (id : Text) (r : Request) (ref now source : Text) (n : NodeRow) (c : ConfigRow)
    (w v : World Tables)
    → update_all id r ref (c.revision + 1) now source w ≡ (ok tt, v)
    → lookup id w.tables.nodes ≡ some n
    → lookup id w.tables.configs ≡ some c
    → v.tables ≡ updated id r ref now source n c w.tables
unfolding update_all
update_all_ok id r ref now source n c w v h en ec =
    let s1 = >>=-Ran (edit_node id r now) _ w h in
    let e1 = edit_node_ok id r now n w s1.world s1.first en in
    let s2 = >>=-Ran (update_config id _) _ s1.world s1.second in
    let e2 =
      update_config_ok id c _ s1.world s2.world s2.first (ap (λ t. lookup id t.configs) e1 ∙ ec) in
    let e3 = insert_revision_ok _ s2.world v s2.second in rw (e3, e2, e1) refl

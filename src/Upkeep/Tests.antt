-- ===== src/Upkeep/Tests.antt =====
-- Runs on concrete input for Maintain of internal/database/database.go.
use snell_sh.Common.{
  ◌≡◌, refl, ℕ, zero, suc, ◌≤◌, true, false, none, List, [], ◌∷◌, All, length, map, codes, text_eq,
  arith,
}
use snell_sh.Common.Dict.{lookup, prune}
use snell_sh.Common.Count.{filter, count_if}
use snell_sh.Database.{World, ok, statement, exec, transaction}
use snell_sh.Nodes.Model.{Tables, RevisionRow, UserRow, plain}
use snell_sh.Nodes.Rows.{same_revision}
use snell_sh.Nodes.Store.{new_config}
use snell_sh.Nodes.Samples.{config_with}
use snell_sh.Upkeep.{Whole, prune_keys, maintain, maintain_all}
use snell_sh.Upkeep.Trimmed.{RevisionsDiffer, maintain-Bounded}

abbrev revision : ℕ → RevisionRow
revision n = record {
  node_id = codes "a";
  revision = n;
  snapshot = config_with [];
  runtime_version = [];
  source = codes "panel";
  created_at = [];
}

abbrev revisions_below : ℕ → List RevisionRow
revisions_below zero = []
revisions_below (suc n) = revision n ∷ revisions_below n

abbrev user : UserRow
user = record {
  node_id = codes "a";
  username = codes "alice";
  password_ref = codes "s2";
  route_group = codes "full";
  enabled = true;
  created_at = [];
  updated_at = [];
}

abbrev core : Tables
core = record {
  nodes = [];
  configs = (codes "a", new_config (config_with []) (codes "s1") 24) ∷ [];
  revisions = revisions_below 24;
  runtimes = [];
  counters = [];
  secrets =
      (codes "s0", plain (codes "old"))
      ∷ (codes "s1", plain (codes "key"))
      ∷ (codes "s2", plain (codes "word"))
      ∷ [];
  users = (codes "u", user) ∷ [];
}

abbrev whole : Whole
whole = record {
  core = core;
  sessions = [];
  audits =
      record { id = 7; action = codes "login" } ∷ record { id = 9; action = codes "logout" } ∷ [];
  jobs =
      (codes "j", record { status = codes "failed"; updated_at = 5 })
      ∷ (codes "k", record { status = codes "running"; updated_at = 5 })
      ∷ [];
}

abbrev world : World Whole
world = record { tables = whole; faults = [] }

abbrev kept : Whole
kept = (maintain 9000000 9000001 world).1.tables

leaves_twenty : length kept.core.revisions ≡ 20
unfolding maintain maintain_all exec statement transaction filter count_if text_eq
leaves_twenty = refl

drops_orphans : lookup (codes "s0") kept.core.secrets ≡ none
unfolding maintain maintain_all exec statement transaction prune_keys text_eq lookup
drops_orphans = refl

drops_finished : map (λ (k, _). k) kept.jobs ≡ codes "k" ∷ []
unfolding maintain maintain_all exec statement transaction prune text_eq
drops_finished = refl

-- The fourth statement fails, and the audit log and the revisions are as before.
undone :
    (maintain 0 1 (record world { faults = false ∷ false ∷ false ∷ false ∷ true ∷ [] })).1.tables
    ≡ whole
unfolding maintain maintain_all exec statement transaction
undone = refl

below_Differ :
    (k n : ℕ) → n ≤ k → All (λ r. same_revision (revision k) r ≡ false) (revisions_below n)
unfolding text_eq
below_Differ k zero h = tt
below_Differ k (suc n) h = (ground (arith, h), below_Differ k n (omega (arith, h)))

revisions_below-RevisionsDiffer : (n : ℕ) → RevisionsDiffer (revisions_below n)
revisions_below-RevisionsDiffer zero = tt
revisions_below-RevisionsDiffer (suc n) =
    (below_Differ n n (omega arith), revisions_below-RevisionsDiffer n)

maintained : (maintain 9000000 9000001 world).0 ≡ ok tt
unfolding maintain maintain_all exec statement transaction
maintained = refl

maintain-Bounded_example :
    (length kept.audits ≤ 500)
    × (count_if (λ r. text_eq r.node_id (codes "a")) kept.core.revisions ≤ 20)
maintain-Bounded_example =
    maintain-Bounded 9000000 9000001 world (codes "a") ((refl, tt), (tt, tt))
      (revisions_below-RevisionsDiffer 24) maintained

-- ===== src/Upkeep/Readable.antt =====
-- Maintain (internal/database/database.go) takes no secret that is in use, and leaves the nodes and
-- their users.
use mathlib.Core.Path.{subst}
use snell_sh.Common.{◌≡◌, sym, ap, inl, inr, ℕ, Option, none, some, [], Text}
use snell_sh.Common.Dict.{Dict, lookup}
use snell_sh.Database.{World, Result, ok, err, no_rows}
use snell_sh.Nodes.Model.{ConfigRow, Secret, Tables, Readers}
use snell_sh.Nodes.Store.{get_secret}
use snell_sh.Nodes.Safe.{IsSafe, same_nodes}
use snell_sh.Nodes.Names.{IsDistinct}
use snell_sh.Upkeep.{Whole, maintain}
use snell_sh.Upkeep.Trimmed.{maintain_outcome}

-- The nodes' tables without revisions and secrets.
pub maintain_core :
    (began now : ℕ) (w : World Whole)
    → ((maintain began now w).1.tables.core.nodes ≡ w.tables.core.nodes)
      × (((maintain began now w).1.tables.core.configs ≡ w.tables.core.configs)
          × ((maintain began now w).1.tables.core.users ≡ w.tables.core.users))
maintain_core began now w = elim (maintain_outcome began now w) [
  | inl e ↦ (ap (λ t. t.core.nodes) e, (ap (λ t. t.core.configs) e, ap (λ t. t.core.users) e))
  | inr e ↦ (ap (λ t. t.core.nodes) e, (ap (λ t. t.core.configs) e, ap (λ t. t.core.users) e))
]

pub maintain-IsSafe :
    (lib : Readers) (began now : ℕ) (w : World Whole)
    → IsSafe lib w.tables.core
    → IsSafe lib (maintain began now w).1.tables.core
maintain-IsSafe lib began now w (sound, distinct) =
    let (en, (ec, eu)) = maintain_core began now w in
    (
      same_nodes lib w.tables.core (maintain began now w).1.tables.core en ec sound,
      subst IsDistinct (sym eu) distinct,
    )

-- What a call of `Secret` returns when no statement fails.
abbrev pub secret_of : Text → Tables → Result Secret
secret_of id t = (get_secret id (record { tables = t; faults = [] })).0

secret_row : Option Secret → Result Secret
secret_row none = err no_rows
secret_row (some s) = ok s

secret_found : Option ConfigRow → Dict Secret → Result Secret
secret_found none secrets = err no_rows
secret_found (some c) secrets = secret_row (lookup c.secret_ref secrets)

-- ===== src/Sync/Guarded.antt =====
-- What `importSync` of internal/api/sync.go checks before it writes anything.
use mathlib.Core.Path.{subst}
use snell_sh.Common.{
  ◌≡◌, refl, ap, ◌∙◌, ◌⊎◌, inl, inr, Bool, false, Option, none, some, List, All, codes, Text, arith,
}
use snell_sh.Common.Int.{ℤ}
use snell_sh.Database.{
  World, Action, Error, Result, ok, err, invalid, raise_if, or_raise, and_then, ◌>>=◌,
}
use snell_sh.Database.Reads.{Reads, or_raise-Reads, raise_if-Reads}
use snell_sh.Database.Keeps.{Keeps}
use snell_sh.Nodes.Model.{Readers, Tables}
use snell_sh.Nodes.Conflict.{Protocol}
use snell_sh.Nodes.Store.{raise_some}
use snell_sh.Nodes.Reading.{raise_some-Reads}
use snell_sh.Sync.Format.{SyncNode, File, Codec, decode}
use snell_sh.Sync.Import.{Panel, Draws, on_nodes}
use snell_sh.Sync.Checks.{validate_sync_payload, validate_sync_ports}
use snell_sh.Sync.Passed.{IsValid, CanListen, payload-IsValid, ports_passed}
use snell_sh.Sync.Handler.{import_sync, validate_sync_ports-Keeps}

ports-Reads :
    (taken : Text → ℤ → Protocol → Bool) (items : List SyncNode)
    → Reads (validate_sync_ports taken items)
unfolding Reads Keeps
ports-Reads taken items w =
    validate_sync_ports-Keeps (λ (t : Tables). t ≡ w.tables) taken items w refl

-- What an upload that writes anything has passed: its bytes read as a file, the backup was made, and
-- every node of the file is valid and can listen.
abbrev pub Guarded : Readers → Codec → (Text → ℤ → Protocol → Bool) → Bool → Text → Tables → Type 0
Guarded lib c taken backup_fails text t =
    (f : File) × (decode lib c text ≡ some f)
    × (backup_fails ≡ false)
    × All (IsValid lib) f.nodes
    × All (CanListen taken t) f.nodes

-- A refusal that leaves the tables, or a run behind all checks.
abbrev pub Refused : {A : Type 0} → Panel → Result A × World Panel → Type 0
Refused p (r, v) = ((e : Error) × (r ≡ err e)) × (v.tables ≡ p)

guard_go :
    {A B : Type 0} (p : Panel) (G : Type 0) (f : A → Action Panel B) (x : Result A × World Panel)
    → x.1.tables ≡ p
    → ((a : A) → x.0 ≡ ok a → Refused p (f a x.1) ⊎ G)
    → Refused p (and_then f x) ⊎ G
guard_go p G f (ok a, v) same k = k a refl
guard_go p G f (err e, v) same k = inl ((e, refl), same)

-- A check that reads, and what comes after it.
guard :
    {A B : Type 0} (p : Panel) (G : Type 0) (m : Action Panel A) (f : A → Action Panel B)
    (w : World Panel)
    → Reads m
    → w.tables ≡ p
    → ((a : A) → (m w).0 ≡ ok a → (m w).1.tables ≡ p → Refused p (f a (m w).1) ⊎ G)
    → Refused p ((m >>= f) w) ⊎ G
unfolding Reads
guard p G m f w reads same k = guard_go p G f (m w) (reads w ∙ same) (λ a h. k a h (reads w ∙ same))

on_nodes-Reads : {A : Type 0} (m : Action Tables A) → Reads m → Reads (on_nodes m)
unfolding Reads
on_nodes-Reads m r w =
    ap (λ t. record w.tables { core = t })
      (r (record { tables = w.tables.core; faults = w.faults }))

raise_some-none : (o : Option Text) (w : World Tables) → (raise_some o w).0 ≡ ok tt → o ≡ none
raise_some-none none w h = refl
raise_some-none (some complaint) w h = absurd (ground (arith, h))

or_raise-some :
    {A : Type 0} (o : Option A) (e : Error) (w : World Panel) {a : A}
    → (or_raise o e w).0 ≡ ok a
    → o ≡ some a
or_raise-some none e w h = absurd (ground (arith, h))
or_raise-some (some a) e w h = ground (arith, h)

-- An upload of any bytes, whatever the decoder makes of them, whatever the import draws and wherever it
-- fails: it returns an error and leaves every table as it was, or its bytes read as a file, the
-- backup before the import was made, every node of the file is a server with a valid request and valid
-- users, and every node that is to run has the endpoint already, as the running node that the import
-- finds for it, or the endpoint is free in all its protocols.
pub import_sync-Guarded :
    (lib : Readers) (c : Codec) (taken : Text → ℤ → Protocol → Bool) (backup_fails : Bool)
    (d : Draws) (replace : Bool) (text : Text) (w : World Panel)
    → Refused w.tables (import_sync lib c taken backup_fails d replace text w)
      ⊎ Guarded lib c taken backup_fails text w.tables.core
unfolding import_sync
import_sync-Guarded lib c taken backup_fails d replace text w =
    let p = w.tables in
    let G = Guarded lib c taken backup_fails text p.core in
    let bad = invalid (codes "INVALID_SYNC_FILE") in
    guard p G (or_raise (decode lib c text) bad) _ w (or_raise-Reads Panel (decode lib c text) bad)
      refl
      (λ f read s1.
        let refusal = raise_some (validate_sync_payload lib f.nodes) in
        guard p G (on_nodes refusal) _ _
          (on_nodes-Reads refusal (raise_some-Reads (validate_sync_payload lib f.nodes))) s1
          (λ _ valid s2.
            let ports = validate_sync_ports taken f.nodes in
            guard p G (on_nodes ports) _ _ (on_nodes-Reads ports (ports-Reads taken f.nodes)) s2
              (λ _ free s3.
                guard p G (raise_if backup_fails (invalid (codes "PRE_IMPORT_BACKUP_FAILED"))) _ _
                  (raise_if-Reads Panel backup_fails (invalid (codes "PRE_IMPORT_BACKUP_FAILED")))
                  s3
                  (λ _ made s4. inr (
                    f,
                    or_raise-some (decode lib c text) bad w read,
                    ground (arith, made),
                    payload-IsValid lib f.nodes (raise_some-none _ _ valid),
                    subst (λ t. All (CanListen taken t) f.nodes) (ap (λ q. q.core) s2)
                        (ports_passed taken f.nodes _ free),
                  )))))

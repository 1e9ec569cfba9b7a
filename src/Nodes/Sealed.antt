-- ===== src/Nodes/Sealed.antt =====
-- The secret that an update of a node stores, and the reference to it that it goes on with
-- (internal/nodes/store.go).
use mathlib.Core.Path.{ap₂}
use snell_sh.Common.{
  ◌≡◌, refl, sym, ap, ◌∙◌, ◌⊎◌, inl, inr, Bool, true, false, not, ◌&&◌, ◌||◌, none, [], Text,
  text_eq, arith, Bool-cases, Option-cases,
}
use snell_sh.Common.Dict.{Dict, lookup, insert}
use snell_sh.Database.{
  World, Error, ok, err, pure, query, statement, exec_checked, ◌>>◌, Result-cases, >>=-of-ok,
}
use snell_sh.Database.Reads.{Reads}
use snell_sh.Database.Steps.{>>=-Ran, exec_checked_ok}
use snell_sh.Nodes.Model.{Request, Readers, Secret, plain, server_secrets, Tables}
use snell_sh.Nodes.Validate.{is_anyconnect, text_or}
use snell_sh.Nodes.Rows.{put_secret}
use snell_sh.Nodes.Store.{Drawn, get_secret, get_server_secrets}
use snell_sh.Nodes.Edit.{server_secret, plain_secret, next_secret}
use snell_sh.Nodes.Updated.{with_secrets, get_server_secrets-Reads}

-- Whether the request gives one of a server's two secrets.
abbrev pub gives_server : Request → Bool
gives_server r =
    is_anyconnect r.kind
    && (not (text_eq r.certificate_password []) || not (text_eq r.private_key_passphrase []))

-- What a statement reads where none fails.
abbrev pub quiet : Tables → World Tables
quiet t = record { tables = t; faults = [] }

-- The secret of a request: for a server, what was stored with what the request gives instead, and the
-- text of the request otherwise.
abbrev pub IsAsked : Readers → Text → Request → Tables → Secret → Type 0
IsAsked lib id r t x =
    ((gives_server r ≡ true)
      × (old : Text × Text) × ((get_server_secrets lib id (quiet t)).0 ≡ ok old)
      × (x
          ≡ server_secrets (text_or r.certificate_password old.0)
              (text_or r.private_key_passphrase old.1)))
    ⊎ ((gives_server r ≡ false) × (text_eq r.secret [] ≡ false) × (x ≡ plain r.secret))

-- The secret of the request is stored under the id that was drawn, which was free.
abbrev pub Stored : Readers → Text → Request → Drawn → Tables → Dict Secret → Type 0
Stored lib id r d t s =
    (x : Secret) × IsAsked lib id r t x
    × (lookup d.secret_id t.secrets ≡ none)
    × (s ≡ insert d.secret_id x t.secrets)

-- The reference and the secrets after the step: the old ones if the request gives no secret, and the
-- new secret's otherwise.
abbrev pub Sealed : Readers → Text → Request → Text → Drawn → Tables → Text → Dict Secret → Type 0
Sealed lib id r old_ref d t ref s =
    ((gives_server r ≡ false) × (text_eq r.secret [] ≡ true) × (ref ≡ old_ref) × (s ≡ t.secrets))
    ⊎ ((ref ≡ d.secret_id) × Stored lib id r d t s)

put_secret_ok :
    (id : Text) (x : Secret) (w v : World Tables)
    → put_secret id x w ≡ (ok tt, v)
    → (lookup id w.tables.secrets ≡ none)
      × (v.tables ≡ with_secrets (insert id x w.tables.secrets) w.tables)
unfolding put_secret
put_secret_ok id x w v h = elim (Option-cases (lookup id w.tables.secrets)) [
  | inl e ↦ ground (arith, exec_checked_ok _ w v h, e)
  | inr (y, e) ↦ absurd (ground (arith, exec_checked_ok _ w v h, e))
]

-- What is read of a server's secrets is what stands in the tables.
read_server_secrets :
    (lib : Readers) (id : Text) (w v : World Tables) (p : Text × Text)
    → get_server_secrets lib id w ≡ (ok p, v)
    → ((get_server_secrets lib id (quiet w.tables)).0 ≡ ok p) × (v.tables ≡ w.tables)
unfolding get_server_secrets get_secret query statement
read_server_secrets lib id w v p h = ground (arith, h)

-- The secret is stored under its id, which is the new reference.
store_ok :
    (id : Text) (x : Secret) (w v : World Tables) (ref : Text)
    → (put_secret id x >> pure id) w ≡ (ok ref, v)
    → (ref ≡ id)
      × (lookup id w.tables.secrets ≡ none)
      × (v.tables ≡ with_secrets (insert id x w.tables.secrets) w.tables)
store_ok id x w v ref h =
    let ran = >>=-Ran (put_secret id x) (λ _. pure id) w h in
    ground (arith, put_secret_ok id x w ran.world ran.first, ran.second)

store_err :
    (id : Text) (x : Secret) (w v : World Tables) (e : Error)
    → (put_secret id x >> pure id) w ≡ (err e, v)
    → v.tables ≡ w.tables
unfolding put_secret exec_checked statement
store_err id x w v e h = ground (arith, h)

server_secret_ok :
    (lib : Readers) (id : Text) (r : Request) (old_ref : Text) (d : Drawn) (w v : World Tables)
    (ref : Text)
    → gives_server r ≡ true
    → server_secret lib id r d w ≡ (ok ref, v)
    → (s : Dict Secret) × (v.tables ≡ with_secrets s w.tables)
      × Sealed lib id r old_ref d w.tables ref s
unfolding server_secret
server_secret_ok lib id r old_ref d w v ref g h =
    let ran = >>=-Ran (get_server_secrets lib id) _ w h in
    let (read, same) = read_server_secrets lib id w ran.world ran.value ran.first in
    let x =
      server_secrets (text_or r.certificate_password ran.value.0)
        (text_or r.private_key_passphrase ran.value.1) in
    let (is, free, put) = store_ok d.secret_id x ran.world v ref ran.second in
    let s = insert d.secret_id x w.tables.secrets in
    (
      s,
      put ∙ ap (λ t. with_secrets (insert d.secret_id x t.secrets) t) same,
      inr (
        is,
        (
          x,
          inl (g, ran.value, read, refl),
          ap (λ t. lookup d.secret_id t.secrets) (sym same) ∙ free,
          refl,
        ),
      ),
    )

server_secret_err :
    (lib : Readers) (id : Text) (r : Request) (d : Drawn) (w v : World Tables) (e : Error)
    → server_secret lib id r d w ≡ (err e, v)
    → v.tables ≡ w.tables
unfolding server_secret Reads
server_secret_err lib id r d w v e h =
    let same = get_server_secrets-Reads lib id w in
    elim (Result-cases (get_server_secrets lib id w).0) [
      | inr (x, f) ↦ ground (arith, h, f, same)
      | inl (p, f) ↦
          let x =
            server_secrets (text_or r.certificate_password p.0)
              (text_or r.private_key_passphrase p.1) in
          let rest : (put_secret d.secret_id x >> pure (d.secret_id))
                (get_server_secrets lib id w).1
              ≡ (err e, v) =
            sym (>>=-of-ok (get_server_secrets lib id) _ w (ap₂ (λ q u. (q, u)) f refl)) ∙ h in
          store_err d.secret_id x _ v e rest ∙ same
    ]

plain_secret_ok :
    (lib : Readers) (id : Text) (r : Request) (old_ref : Text) (d : Drawn) (w v : World Tables)
    (ref : Text)
    → gives_server r ≡ false
    → plain_secret r old_ref d w ≡ (ok ref, v)
    → (s : Dict Secret) × (v.tables ≡ with_secrets s w.tables)
      × Sealed lib id r old_ref d w.tables ref s
unfolding plain_secret
plain_secret_ok lib id r old_ref d w v ref g h = elim (Bool-cases (text_eq r.secret [])) [
  | inl e ↦
      let kept : (ref ≡ old_ref) × (v.tables ≡ w.tables) = ground (arith, h, e) in
      (w.tables.secrets, kept.1, inl (g, e, kept.0, refl))
  | inr e ↦
      let run : (put_secret d.secret_id (plain r.secret) >> pure (d.secret_id)) w ≡ (ok ref, v) =
        ground (arith, h, e) in
      let (is, free, put) = store_ok d.secret_id (plain r.secret) w v ref run in
      (
        insert d.secret_id (plain r.secret) w.tables.secrets,
        put,
        inr (is, (plain r.secret, inr (g, e, refl), free, refl)),
      )
]

plain_secret_err :
    (r : Request) (old_ref : Text) (d : Drawn) (w v : World Tables) (e : Error)
    → plain_secret r old_ref d w ≡ (err e, v)
    → v.tables ≡ w.tables
unfolding plain_secret put_secret exec_checked statement
plain_secret_err r old_ref d w v e h = ground (arith, h)

-- The step that returns a reference left the secrets as `Sealed` says.
pub next_secret_ok :
    (lib : Readers) (id : Text) (r : Request) (old_ref : Text) (d : Drawn) (w v : World Tables)
    (ref : Text)
    → next_secret lib id r old_ref d w ≡ (ok ref, v)
    → (s : Dict Secret) × (v.tables ≡ with_secrets s w.tables)
      × Sealed lib id r old_ref d w.tables ref s
unfolding next_secret
next_secret_ok lib id r old_ref d w v ref h = elim (Bool-cases (gives_server r)) [
  | inl g ↦ server_secret_ok lib id r old_ref d w v ref g (ground (arith, h, g))
  | inr g ↦ plain_secret_ok lib id r old_ref d w v ref g (ground (arith, h, g))
]

-- The step that returns an error left the tables as they were.
pub next_secret_err :
    (lib : Readers) (id : Text) (r : Request) (old_ref : Text) (d : Drawn) (w v : World Tables)
    (e : Error)
    → next_secret lib id r old_ref d w ≡ (err e, v)
    → v.tables ≡ w.tables
unfolding next_secret
next_secret_err lib id r old_ref d w v e h = elim (Bool-cases (gives_server r)) [
  | inl g ↦ server_secret_err lib id r d w v e (ground (arith, h, g))
  | inr g ↦ plain_secret_err r old_ref d w v e (ground (arith, h, g))
]

-- ===== src/Auth/Service.antt =====
-- The operations of `auth.Service` (internal/auth/service.go), statement by statement. `now` stands
-- for the calls of `time.Now` and `database.Now` in one operation, and a random value that is none
-- for a failure of `rand.Read`.
use snell_sh.Common.{
  ℕ, ◌+◌, ◌*◌, Bool, true, false, not, Option, none, some, [], ◌∷◌, ltb, codes, Text, text_eq,
  if◌then◌else◌,
}
use snell_sh.Common.Dict.{Dict, lookup, insert, erase}
use snell_sh.Database.{
  Error, ok, err, failed, no_rows, unique_key, invalid, Action, pure, raise, raise_if, or_raise,
  ◌>>=◌, ◌>>◌, statement, query, exec, transaction,
}
use snell_sh.Auth.Limiter.{minute}
use snell_sh.Auth.Model.{AuthState, Row, Tables, Session, default_password, valid_password}

abbrev pub unauthorized : Error
unauthorized = invalid (codes "UNAUTHORIZED")

abbrev pub invalid_password : Error
invalid_password = invalid (codes "INVALID_PASSWORD")

-- `ttl`
abbrev pub ttl : ℕ
ttl = 24 * 60 * minute

-- Any error of a call is answered with ErrUnauthorized.
abbrev pub or_unauthorized : {A : Type 0} → Action Tables A → Action Tables A
or_unauthorized m w =
    let (r, v) = m w in elim r [ ok a ↦ (ok a, v) | err e ↦ (err unauthorized, v) ]

-- `_, _ = s.db.ExecContext(...)`
abbrev pub ignoring : {A : Type 0} → Action Tables A → Action Tables (Unit {0})
ignoring m w = (ok tt, (m w).1)

-- `WHERE token_hash=?`
unfoldable pub by_token : Text → Dict Row → Option (Text × Row)
by_token h [] = none
by_token h ((id, r) ∷ m) = if text_eq r.token_hash h then some (id, r) else by_token h m

-- `INSERT INTO sessions`: `id` is the primary key and `token_hash` is unique.
unfoldable pub insert_session : Text → Row → Action Tables (Unit {0})
unfolding statement by_token lookup insert
insert_session id r = do
  statement
  λ w. elim (lookup id w.tables.sessions) [
    | some old ↦ (err unique_key, w)
    | none ↦ elim (by_token (r.token_hash) w.tables.sessions) [
      | some old ↦ (err unique_key, w)
      | none ↦ (
        ok tt,
        record w { tables = record (w.tables) { sessions = insert id r w.tables.sessions } },
      )
    ]
  ]

-- `UPDATE auth_state ... WHERE id=1`, which finds no row or one, and `DELETE FROM sessions`.
abbrev pub update_state : (AuthState → AuthState) → Tables → Tables
update_state f t = record t { state = elim (t.state) [ none ↦ none | some s ↦ some (f s) ] }

unfoldable pub new_password_rows : (AuthState → AuthState) → Action Tables (Unit {0})
unfolding exec
new_password_rows f = do exec (update_state f); exec (λ t. record t { sessions = [] })

-- `argon2` and `sha256` with their encodings: a password's hash with a salt, the test of a password
-- against a hash, and the digest of a token.
module _ (hash : Text → Text → Text) (verify : Text → Text → Bool) (digest : Text → Text) where
  abbrev new_state : Text → ℕ → AuthState
  new_state h now = record {
    password_hash = h;
    must_change_password = true;
    password_changed_at = none;
    updated_at = now;
  }

  unfoldable pub initialize : Option Text → ℕ → Action Tables (Unit {0})
  unfolding query exec
  initialize salt now = do
    row ← query (λ t. t.state)
    elim row [
      | some s ↦ pure tt
      | none ↦ (do
        r ← or_raise salt failed
        exec (λ t. record t { state = some (new_state (hash r default_password) now) }))
    ]

  unfoldable pub login :
      Text → Text → Text → Option Text → Option Text → Text → ℕ → Action Tables Session
  unfolding query insert_session
  login password remote_ip user_agent token csrf id now = do
    s ← or_unauthorized (do row ← query (λ t. t.state); or_raise row no_rows)
    raise_if (not (verify (s.password_hash) password)) unauthorized
    t ← or_raise token failed
    c ← or_raise csrf failed
    insert_session id (record {
      token_hash = digest t;
      csrf_hash = digest c;
      restricted = s.must_change_password;
      remote_ip = remote_ip;
      user_agent = user_agent;
      expires_at = now + ttl;
      last_seen_at = now;
    })
    pure (record { id = t; restricted = s.must_change_password; expires_at = now + ttl; csrf = c })

  unfoldable pub authenticate : Text → ℕ → Action Tables Session
  unfolding query exec by_token text_eq
  authenticate token now = do
    raise_if (text_eq token []) unauthorized
    (id, r) ←
        or_unauthorized
          (do row ← query (λ t. by_token (digest token) t.sessions); or_raise row no_rows)
    if ltb (r.expires_at) now
        then (do
          ignoring (exec (λ t. record t { sessions = erase id t.sessions }))
          raise unauthorized)
        else (do
          ignoring (
              exec (λ t. record t {
                sessions = insert id (record r { last_seen_at = now }) t.sessions;
              }))
          pure
              (record { id = id; restricted = r.restricted; expires_at = r.expires_at; csrf = [] }))

  -- A query that fails answers false.
  unfoldable pub check_csrf : Text → Text → Action Tables Bool
  unfolding query lookup text_eq
  check_csrf session_id csrf w =
      let (r, v) = query (λ t. lookup session_id t.sessions) w in
      if text_eq csrf [] then (ok false, w) else elim r [
        | err e ↦ (ok false, v)
        | ok row ↦ (ok (elim row [ none ↦ false | some s ↦ text_eq s.csrf_hash (digest csrf) ]), v)
      ]

  unfoldable pub change_password : Text → Option Text → ℕ → Action Tables (Unit {0})
  unfolding new_password_rows transaction valid_password
  change_password password salt now = do
    raise_if (not (valid_password password)) invalid_password
    r ← or_raise salt failed
    transaction (
        new_password_rows (λ s. record s {
          password_hash = hash r password;
          must_change_password = false;
          password_changed_at = some now;
          updated_at = now;
        }))

  unfoldable pub reset_password : Option Text → ℕ → Action Tables (Unit {0})
  unfolding new_password_rows transaction
  reset_password salt now = do
    r ← or_raise salt failed
    transaction (
        new_password_rows (λ s. record s {
          password_hash = hash r default_password;
          must_change_password = true;
          password_changed_at = none;
          updated_at = now;
        }))

  -- A query that fails answers false.
  unfoldable pub verify_current : Text → Action Tables Bool
  unfolding query
  verify_current password w =
      let (r, v) = query (λ t. t.state) w in
      elim r [
        | err e ↦ (ok false, v)
        | ok row ↦ (ok (elim row [ none ↦ false | some s ↦ verify (s.password_hash) password ]), v)
      ]

  unfoldable pub logout : Text → Action Tables (Unit {0})
  unfolding exec erase
  logout session_id = exec (λ t. record t { sessions = erase session_id t.sessions })

-- ===== src/Auth/Sessions.antt =====
-- What passwords and sessions of internal/auth/service.go promise.
use snell_sh.Common.{
  ℕ, ◌+◌, ◌≤◌, ◌<◌, ◌≡◌, Bool, true, false, ◌⊎◌, none, some, [], ◌∷◌, Text, text_eq, text_eq_self,
  arith,
}
use snell_sh.Common.Dict.{Dict, lookup, insert, lookup-erase}
use snell_sh.Database.{ok, err, failed, World, statement, query, exec, transaction}
use snell_sh.Auth.Model.{AuthState, Row, Tables, valid_password}
use snell_sh.Auth.Service.{
  unauthorized, invalid_password, ttl, by_token, insert_session, login, authenticate, update_state,
  new_password_rows, change_password,
}

-- The transaction of a new password is done whole or not at all.
new_password_rows_lem :
    (f : AuthState → AuthState) (w : World Tables)
    → ((transaction (new_password_rows f) w).0 ≡ ok tt
        × (transaction (new_password_rows f) w).1.tables
          ≡ record { state = (update_state f w.tables).state; sessions = [] })
      ⊎ ((transaction (new_password_rows f) w).0 ≡ err failed
          × (transaction (new_password_rows f) w).1.tables ≡ w.tables)
unfolding transaction new_password_rows exec statement
new_password_rows_lem f w = ground arith

-- A row whose id and token are new is the one that its token finds.
by_token-insert :
    (h id : Text) (r : Row) (m : Dict Row)
    → lookup id m ≡ none
    → by_token h m ≡ none
    → text_eq r.token_hash h ≡ true
    → by_token h (insert id r m) ≡ some (id, r)
unfolding by_token insert lookup
by_token-insert h id r [] n b e = ground (arith, e)
by_token-insert h id r ((j, q) ∷ m) n b e = ground (arith, n, b, e, by_token-insert h id r m)

abbrev pub changed_state : Text → ℕ → AuthState → AuthState
changed_state h now s = record s {
  password_hash = h;
  must_change_password = false;
  password_changed_at = some now;
  updated_at = now;
}

module _ (hash : Text → Text → Text) (verify : Text → Text → Bool) (digest : Text → Text) where
  -- With a salt at hand, whatever statement fails: a password that is refused, or a change that
  -- fails, leaves the tables as they were; otherwise the password was allowed, its hash is stored if
  -- there is a row, nobody has to change it any more, and no session is left.
  pub change_password_lem :
      (password salt : Text) (now : ℕ) (w : World Tables)
      → let (r, v) = change_password hash verify digest password (some salt) now w in
        ((r ≡ ok tt)
          × (valid_password password ≡ true)
          × (v.tables.sessions ≡ [])
          × (v.tables.state
              ≡ (update_state (changed_state (hash salt password) now) w.tables).state))
        ⊎ (((r ≡ err failed) ⊎ ((r ≡ err invalid_password) × (valid_password password ≡ false)))
            × (v.tables ≡ w.tables))
  unfolding change_password
  change_password_lem password salt now w =
      ground (arith, new_password_rows_lem (changed_state (hash salt password) now) w)

  -- After a change of the password that returns no error, no token opens a session, whatever
  -- statements fail then.
  pub authenticate-after-change_password :
      (password salt token : Text) (now later : ℕ) (w : World Tables)
      → (change_password hash verify digest password (some salt) now w).0 ≡ ok tt
      → (authenticate hash verify digest token later
          (change_password hash verify digest password (some salt) now w).1).0
        ≡ err unauthorized
  unfolding authenticate query statement by_token
  authenticate-after-change_password password salt token now later w h =
      ground (arith, h, change_password_lem password salt now w)

  -- Logging in with the right password, where no statement fails, the token is not empty and the
  -- random id and the token's digest are new, opens a session: until it ends its token is accepted
  -- with the session's id, and it is restricted exactly if the password had to be changed.
  pub authenticate-after-login :
      (password remote_ip user_agent token csrf id : Text) (now later : ℕ) (w : World Tables)
      (s : AuthState)
      → w.faults ≡ []
      → w.tables.state ≡ some s
      → verify (s.password_hash) password ≡ true
      → lookup id w.tables.sessions ≡ none
      → by_token (digest token) w.tables.sessions ≡ none
      → text_eq token [] ≡ false
      → later ≤ now + ttl
      → (authenticate hash verify digest token later
          (login hash verify digest password remote_ip user_agent
            (some token)
            (some csrf)
            id
            now
            w).1).0
        ≡ ok (record {
          id = id;
          restricted = s.must_change_password;
          expires_at = now + ttl;
          csrf = [];
        })
  unfolding authenticate login query exec statement insert_session
  authenticate-after-login password remote_ip user_agent token csrf id now later w s f st v n b t
        le =
      let added : Row = record {
        token_hash = digest token;
        csrf_hash = digest csrf;
        restricted = s.must_change_password;
        remote_ip = remote_ip;
        user_agent = user_agent;
        expires_at = now + ttl;
        last_seen_at = now;
      } in
      ground (
        arith,
        f,
        st,
        v,
        n,
        b,
        t,
        le,
        by_token-insert (digest token) id added w.tables.sessions n b (text_eq_self (digest token)),
      )

  -- Where no statement fails, a session that has ended is refused, and its row is gone unless the
  -- token is the empty text, which is refused before any statement.
  pub authenticate_ended :
      (token id : Text) (now : ℕ) (w : World Tables) (r : Row)
      → w.faults ≡ []
      → by_token (digest token) w.tables.sessions ≡ some (id, r)
      → r.expires_at < now
      → ((authenticate hash verify digest token now w).0 ≡ err unauthorized)
        × ((text_eq token [] ≡ true)
            ⊎ (lookup id (authenticate hash verify digest token now w).1.tables.sessions ≡ none))
  unfolding authenticate query exec statement
  authenticate_ended token id now w r f b e =
      ground (arith, f, b, e, lookup-erase id id w.tables.sessions, text_eq_self id)

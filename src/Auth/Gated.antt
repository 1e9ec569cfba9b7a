-- ===== src/Auth/Gated.antt =====
-- Who gets through the middleware of internal/api/server.go.
use snell_sh.Common.{
  ℕ, ◌≤◌, ◌≡◌, ap, sym, ◌∙◌, Bool, true, false, ◌⊎◌, some, [], ◌++◌, codes, Text, text_eq, arith,
  inl, inr, Option-cases, text_eq_iff,
}
use snell_sh.Common.Dict.{lookup}
use snell_sh.Database.{ok, World, Action, Result-cases, query, statement}
use snell_sh.Auth.Model.{Row, Tables, Session}
use snell_sh.Auth.Service.{by_token, authenticate, check_csrf}
use snell_sh.Auth.Gate.{
  Request, Response, handled, write, serve, same_origin, require_session, require_csrf,
  require_changed_password, handle,
}

-- The origins that pass.
own_origin :
    (r : Request)
    → (text_eq r.origin [] ≡ true) ⊎ (same_origin r ≡ true)
    → (r.origin ≡ [])
      ⊎ (r.origin ≡ codes "http://" ++ r.host)
      ⊎ (r.origin ≡ codes "https://" ++ r.host)
unfolding same_origin
own_origin r h = ground (
  arith,
  h,
  text_eq_iff r.origin [],
  text_eq_iff r.origin (codes "http://" ++ r.host),
  text_eq_iff r.origin (codes "https://" ++ r.host),
)

module _ (hash : Text → Text → Text) (verify : Text → Text → Bool) (digest : Text → Text) where
  through_session :
      (r : Request) (now : ℕ) (next : Session → Action Tables Response) (w : World Tables)
      (s : Session)
      → (require_session hash verify digest r now next w).0 ≡ ok (handled s)
      → (token : Text) × (t : Session) × (r.session_cookie ≡ some token)
        × ((authenticate hash verify digest token now w).0 ≡ ok t)
        × ((next t (authenticate hash verify digest token now w).1).0 ≡ ok (handled s))
  unfolding require_session
  through_session r now next w s h = elim (Option-cases r.session_cookie) [
    | inl e ↦ absurd (ground (arith, h, e))
    | inr (token, e) ↦ elim (Result-cases (authenticate hash verify digest token now w).0) [
      | inl (t, a) ↦ (token, t, e, a, ground (arith, h, e, a))
      | inr (x, a) ↦ absurd (ground (arith, h, e, a))
    ]
  ]

  through_csrf :
      (r : Request) (w : World Tables) (t s : Session)
      → (require_csrf hash verify digest r (handle hash verify digest) t w).0 ≡ ok (handled s)
      → (t ≡ s)
        × ((text_eq r.origin [] ≡ true) ⊎ (same_origin r ≡ true))
        × (r.csrf_cookie ≡ some (r.csrf_header))
        × ((check_csrf hash verify digest t.id (r.csrf_header) w).0 ≡ ok true)
  unfolding require_csrf handle
  through_csrf r w t s h = elim (Option-cases r.csrf_cookie) [
    | inl e ↦ absurd (ground (arith, h, e))
    | inr (cookie, e) ↦ ground (arith, h, e, text_eq_iff cookie r.csrf_header)
  ]

  -- What an accepted token has: it finds a row that has not ended, and the session is that row's.
  accepted :
      (token : Text) (now : ℕ) (w : World Tables) (s : Session)
      → (authenticate hash verify digest token now w).0 ≡ ok s
      → (row : Row) × ((by_token (digest token) w.tables.sessions ≡ some (s.id, row))
          × (text_eq token [] ≡ false)
          × (now ≤ row.expires_at)
          × (s.restricted ≡ row.restricted))
  unfolding authenticate query statement
  accepted token now w s h = elim (Option-cases (by_token (digest token) w.tables.sessions)) [
    | inl e ↦ absurd (ground (arith, h, e))
    | inr ((id, row), e) ↦ (row, ground (arith, h, e))
  ]

  -- What an accepted CSRF token has: it is the one whose digest stands in the session's row.
  csrf_accepted :
      (id csrf : Text) (w : World Tables)
      → (check_csrf hash verify digest id csrf w).0 ≡ ok true
      → (row : Row) × ((lookup id w.tables.sessions ≡ some row)
          × (text_eq csrf [] ≡ false)
          × (row.csrf_hash ≡ digest csrf))
  unfolding check_csrf query statement
  csrf_accepted id csrf w h = elim (Option-cases (lookup id w.tables.sessions)) [
    | inl e ↦ absurd (ground (arith, h, e))
    | inr (row, e) ↦ (row, ground (arith, h, e, text_eq_iff (row.csrf_hash) (digest csrf)))
  ]

  -- A request that changes the panel reaches its handler only if its session cookie is a token, not
  -- empty, whose digest stands in the row of a session that has not ended and whose password need not
  -- be changed; if its origin is absent or the panel's own; and if its CSRF header and its CSRF cookie
  -- are one token, not empty, whose digest stands in the row that the session's id has after the
  -- session was read. This is so whatever statements fail.
  pub serve_write :
      (r : Request) (now : ℕ) (w : World Tables) (s : Session)
      → (serve hash verify digest write r now w).0 ≡ ok (handled s)
      → (token : Text) × (row : Row) × (later : Row) × (r.session_cookie ≡ some token)
        × (text_eq token [] ≡ false)
        × (by_token (digest token) w.tables.sessions ≡ some (s.id, row))
        × (now ≤ row.expires_at)
        × (row.restricted ≡ false)
        × ((r.origin ≡ [])
            ⊎ (r.origin ≡ codes "http://" ++ r.host)
            ⊎ (r.origin ≡ codes "https://" ++ r.host))
        × (r.csrf_cookie ≡ some (r.csrf_header))
        × (text_eq (r.csrf_header) [] ≡ false)
        × (lookup s.id (authenticate hash verify digest token now w).1.tables.sessions ≡ some later)
        × (later.csrf_hash ≡ digest (r.csrf_header))
  unfolding serve require_changed_password
  serve_write r now w s h =
      let (token, t, cookie, a, n) = through_session r now _ w s h in
      let free : t.restricted ≡ false = ground (arith, n) in
      let v = (authenticate hash verify digest token now w).1 in
      let (same, origin, csrf, valid) = through_csrf r v t s (ground (arith, n, free)) in
      let (row, (found, some_token, live, of_row)) = accepted token now w t a in
      let (later, (kept, some_csrf, digested)) = csrf_accepted t.id (r.csrf_header) v valid in
      let is : t.id ≡ s.id = ap (λ (u : Session). u.id) same in
      (
        token,
        row,
        later,
        cookie,
        some_token,
        found ∙ ap (λ (i : Text). some (i, row)) is,
        live,
        sym of_row ∙ free,
        own_origin r origin,
        csrf,
        some_csrf,
        ap (λ (i : Text). lookup i v.tables.sessions) (sym is) ∙ kept,
        digested,
      )

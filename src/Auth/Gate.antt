-- ===== src/Auth/Gate.antt =====
-- The middleware in front of the panel's routes (internal/api/server.go): `requireSession`,
-- `requireChangedPassword` and `requireCSRF`, as the route table stacks them.
use snell_sh.Common.{
  ℕ, Bool, true, false, not, ◌&&◌, ◌||◌, Option, none, some, [], ◌++◌, codes, Text, text_eq,
  if◌then◌else◌,
}
use snell_sh.Database.{ok, err, Action, pure}
use snell_sh.Auth.Model.{Tables, Session}
use snell_sh.Auth.Service.{authenticate, check_csrf}

-- What the middleware reads of a request. A header that is missing reads as the empty text.
pub record Request : Type 0 where
  pub session_cookie : Option Text
  pub csrf_cookie : Option Text
  pub csrf_header : Text
  pub origin : Text
  pub host : Text

-- The answers of `writeError`, and the route's handler with the session.
pub data Response : Type 0 where
  no_session : Response
  csrf_failed : Response
  change_required : Response
  handled : Session → Response

-- The groups of routes behind `requireSession`: the session's own page, changing the password and
-- leaving, reading the panel, and changing something in it.
pub data Route : Type 0 where
  session_page account read write : Route

-- `sameOrigin`
unfoldable pub same_origin : Request → Bool
same_origin r =
    text_eq r.origin (codes "http://" ++ r.host) || text_eq r.origin (codes "https://" ++ r.host)

module _ (hash : Text → Text → Text) (verify : Text → Text → Bool) (digest : Text → Text) where
  unfoldable pub require_changed_password :
      (Session → Action Tables Response) → Session → Action Tables Response
  require_changed_password next s = if s.restricted then pure change_required else next s

  -- The token is compared first, and only then looked up.
  unfoldable pub require_csrf :
      Request → (Session → Action Tables Response) → Session → Action Tables Response
  require_csrf r next s w =
      let (valid, v) = check_csrf hash verify digest s.id r.csrf_header w in
      if not (text_eq r.origin []) && not (same_origin r)
      then (ok csrf_failed, w)
      else elim (r.csrf_cookie) [
        | none ↦ (ok csrf_failed, w)
        | some cookie ↦
            if not (text_eq cookie r.csrf_header) then (ok csrf_failed, w) else elim valid [
              | ok true ↦ next s v
              | ok false ↦ (ok csrf_failed, v)
              | err e ↦ (ok csrf_failed, v)
            ]
      ]

  unfoldable pub require_session :
      Request → ℕ → (Session → Action Tables Response) → Action Tables Response
  require_session r now next w = elim (r.session_cookie) [
    | none ↦ (ok no_session, w)
    | some token ↦
        let (s, v) = authenticate hash verify digest token now w in
        elim s [ err e ↦ (ok no_session, v) | ok session ↦ next session v ]
  ]

  unfoldable pub handle : Session → Action Tables Response
  handle s = pure (handled s)

  -- `Handler`
  unfoldable pub serve : Route → Request → ℕ → Action Tables Response
  serve session_page r now = require_session r now handle
  serve account r now = require_session r now (require_csrf r handle)
  serve read r now = require_session r now (require_changed_password handle)
  serve write r now = require_session r now (require_changed_password (require_csrf r handle))

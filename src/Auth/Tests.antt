-- ===== src/Auth/Tests.antt =====
-- Runs on concrete input for internal/auth and the middleware of internal/api/server.go. The hash of a
-- password is the salt and the password, and a token is its own digest.
use snell_sh.Common.{
  ℕ, ◌+◌, ◌-◌, ◌*◌, ◌≤◌, ◌≡◌, refl, Bool, true, false, ◌⊎◌, ◌||◌, none, some, List, [], ◌∷◌, ◌++◌,
  ltb, leb, codes, Text, text_eq, arith, drop,
}
use snell_sh.Common.Dict.{lookup, insert, erase, prune}
use snell_sh.Database.{ok, err, failed, World}
use snell_sh.Auth.Limiter.{minute, second, new_limiter, entry, allow, failure, success}
use snell_sh.Auth.Limits.{start, allow_iff}
use snell_sh.Auth.Window.{Event, tried, missed, entered, run, failures_of, allow-after-failures}
use snell_sh.Auth.Model.{AuthState, Row, Tables, Session, default_password, valid_password}
use snell_sh.Auth.Service.{
  invalid_password, by_token, authenticate, check_csrf, update_state, change_password,
}
use snell_sh.Auth.Sessions.{changed_state, change_password_lem}
use snell_sh.Auth.Gate.{
  Request, handled, write, serve, same_origin, require_session, require_changed_password,
  require_csrf, handle,
}
use snell_sh.Auth.Gated.{serve_write}

abbrev home : Text
home = codes "192.0.2.7"

abbrev away : Text
away = codes "192.0.2.8"

-- At an hour the address fails five times, and another once.
abbrev hour : ℕ
hour = 60 * minute

abbrev events : List Event
events =
    missed home (hour + second)
    ∷ missed home (hour + 2 * second)
    ∷ missed away (hour + 2 * second)
    ∷ tried home (hour + 3 * second)
    ∷ entered away
    ∷ missed home (hour + 4 * second)
    ∷ missed home (hour + 5 * second)
    ∷ []

allow-after-failures_example :
    (allow (run (failure new_limiter home hour) events) home (hour + 30 * second)).0
    ≡ (ltb (1 + failures_of home events) 5 || leb (hour + minute) (hour + 30 * second))
unfolding new_limiter lookup text_eq
allow-after-failures_example =
    allow-after-failures new_limiter home hour (hour + 30 * second) events start (omega arith) refl
      (
        (omega arith, omega arith),
        (
          (omega arith, omega arith),
          (
            (omega arith, omega arith),
            (
              (omega arith, omega arith),
              (refl, ((omega arith, omega arith), ((omega arith, omega arith), tt))),
            ),
          ),
        ),
      )
      (omega arith)

shut_out : (allow (run (failure new_limiter home hour) events) home (hour + 30 * second)).0 ≡ false
unfolding allow run failure new_limiter lookup insert erase text_eq success prune
shut_out = refl

abbrev hash : Text → Text → Text
hash salt p = salt ++ p

-- The salts of this file have two bytes.
abbrev verify : Text → Text → Bool
verify h p = text_eq (drop 2 h) p

abbrev digest : Text → Text
digest t = t

abbrev salt : Text
salt = codes "s1"

abbrev first_state : AuthState
first_state = record {
  password_hash = hash salt default_password;
  must_change_password = true;
  password_changed_at = none;
  updated_at = 0;
}

abbrev first_world : World Tables
first_world = record { tables = record { state = some first_state; sessions = [] }; faults = [] }

abbrev better : Text
better = codes "a better one"

change_password_lem_example :
    let (r, v) = change_password hash verify digest better (some salt) 1 first_world in
    ((r ≡ ok tt)
      × (valid_password better ≡ true)
      × (v.tables.sessions ≡ [])
      × (v.tables.state
          ≡ (update_state (changed_state (hash salt better) 1) first_world.tables).state))
    ⊎ (((r ≡ err failed) ⊎ ((r ≡ err invalid_password) × (valid_password better ≡ false)))
        × (v.tables ≡ first_world.tables))
change_password_lem_example = change_password_lem hash verify digest better salt 1 first_world

abbrev token : Text
token = codes "token"

changed : (change_password hash verify digest better (some salt) 1 first_world).0 ≡ ok tt
unfolding change_password text_eq
changed = refl

verified : verify (first_state.password_hash) default_password ≡ true
unfolding text_eq
verified = refl

abbrev row : Row
row = record {
  token_hash = token;
  csrf_hash = codes "csrf";
  restricted = false;
  remote_ip = home;
  user_agent = codes "browser";
  expires_at = 100;
  last_seen_at = 7;
}

abbrev session_world : World Tables
session_world = record {
  tables = record { state = some first_state; sessions = (codes "id", row) ∷ [] };
  faults = [];
}

abbrev request : Request
request = record {
  session_cookie = some token;
  csrf_cookie = some (codes "csrf");
  csrf_header = codes "csrf";
  origin = [];
  host = codes "panel.example";
}

abbrev session : Session
session = record { id = codes "id"; restricted = false; expires_at = 100; csrf = [] }

served : (serve hash verify digest write request 50 session_world).0 ≡ ok (handled session)
unfolding serve require_session require_changed_password require_csrf handle authenticate check_csrf
    same_origin text_eq insert
served = refl

serve_write_example :
    (t : Text) × (q : Row) × (later : Row) × (request.session_cookie ≡ some t)
    × (text_eq t [] ≡ false)
    × (by_token (digest t) session_world.tables.sessions ≡ some (session.id, q))
    × (50 ≤ q.expires_at)
    × (q.restricted ≡ false)
    × ((request.origin ≡ [])
        ⊎ (request.origin ≡ codes "http://" ++ request.host)
        ⊎ (request.origin ≡ codes "https://" ++ request.host))
    × (request.csrf_cookie ≡ some (request.csrf_header))
    × (text_eq (request.csrf_header) [] ≡ false)
    × (lookup session.id (authenticate hash verify digest t 50 session_world).1.tables.sessions
        ≡ some later)
    × (later.csrf_hash ≡ digest (request.csrf_header))
serve_write_example = serve_write hash verify digest request 50 session_world session served

allow_iff_example : (allow new_limiter home hour).0 ≡ (
    leb minute (hour - (entry new_limiter home).window) || ltb (entry new_limiter home).failures 5)
allow_iff_example = allow_iff new_limiter home hour start (omega arith)

-- ===== src/Auth/Login.antt =====
-- The handler of `POST /api/v1/auth/login` (internal/api/server.go), for the requests of one address.
-- No lock is held between the limiter's `Allow` and its `Failure`, so a request comes in two moves,
-- between which others make theirs: it is let in, and later it is answered. The gate lets one
-- login at a time through, so what stands between gate and answer is one move. The audit row at the
-- end is left out, and so are the cookies.
use snell_sh.Common.{
  ℕ, zero, suc, Bool, Option, none, some, List, [], ◌∷◌, Text, ltb, if◌then◌else◌,
}
use snell_sh.Database.{ok, err, World}
use snell_sh.Auth.Limiter.{Limiter, allow, failure, success}
use snell_sh.Auth.Window.{Event, apply_event}
use snell_sh.Auth.Model.{Tables, Session}
use snell_sh.Auth.Service.{login}

-- What a request that was let in brings: the moment of its answer, the decoded password, whether
-- another login is at the gate, and the random values that it would use.
pub record Try : Type 0 where
  pub now : ℕ
  pub body : Option Text
  pub busy : Bool
  pub token : Option Text
  pub csrf : Option Text
  pub id : Text

pub data Answer : Type 0 where
  rate_limited : Answer
  invalid_json : Answer
  login_busy : Answer
  invalid_credentials : Answer
  logged_in : Session → Answer

-- The limiter, the tables, and how many requests of the address are let in and not yet answered.
pub record Hall : Type 0 where
  pub limiter : Limiter
  pub world : World Tables
  pub inside : ℕ

-- A request arrives, one that was let in is answered, or another address does something with the
-- limiter and anybody anything with the tables.
pub data Move : Type 0 where
  arrives : ℕ → Move
  answers : Try → Move
  elsewhere : Event → World Tables → Move

-- A request arrives: `Allow` lets it in, or it is answered at once.
unfoldable pub enter : Text → ℕ → Hall → Option Answer × Hall
enter ip now h =
    let (allowed, l) = allow h.limiter ip now in
    if allowed
    then (none, record h { limiter = l; inside = suc h.inside })
    else (some rate_limited, record h { limiter = l })

-- One more wrong answer, none, or the end of the count.
abbrev pub tally : Option Answer → ℕ → ℕ
tally none n = n
tally (some rate_limited) n = n
tally (some invalid_json) n = n
tally (some login_busy) n = n
tally (some invalid_credentials) n = suc n
tally (some (logged_in s)) n = 0

module _ (hash : Text → Text → Text) (verify : Text → Text → Bool) (digest : Text → Text) where
  -- The handler from the body on.
  unfoldable pub answer : Text → Text → Try → Hall → Option Answer × Hall
  answer ip user_agent t h = elim (t.body) [
    | none ↦ (some invalid_json, h)
    | some password ↦
        if t.busy
        then (some login_busy, h)
        else (let (r, w) =
              login hash verify digest password ip user_agent t.token t.csrf t.id t.now h.world in
            elim r [
              | err e ↦ (
                some invalid_credentials,
                record h { limiter = failure h.limiter ip t.now; world = w },
              )
              | ok s ↦ (some (logged_in s), record h { limiter = success h.limiter ip; world = w })
            ])
  ]

  -- Without a request inside there is nothing to answer.
  unfoldable pub step : Text → Text → Move → Hall → Option Answer × Hall
  step ip user_agent (arrives now) h = enter ip now h
  step ip user_agent (answers t) h = elim (h.inside) [
    | zero ↦ (none, h)
    | suc k ↦ answer ip user_agent t (record h { inside = k })
  ]
  step ip user_agent (elsewhere e w) h =
      (none, record h { limiter = apply_event h.limiter e; world = w })

  -- How many of the requests of an address are answered with wrong credentials, up to the first that
  -- logs in.
  unfoldable pub wrong_answers : Text → Text → List Move → Hall → ℕ
  wrong_answers ip user_agent [] h = 0
  wrong_answers ip user_agent (m ∷ ms) h =
      let (a, h') = step ip user_agent m h in tally a (wrong_answers ip user_agent ms h')

  -- How many requests of the address are inside at most.
  unfoldable pub crowd : Text → Text → List Move → Hall → ℕ
  crowd ip user_agent [] h = h.inside
  crowd ip user_agent (m ∷ ms) h =
      let most = crowd ip user_agent ms (step ip user_agent m h).1 in
      if ltb most h.inside then h.inside else most

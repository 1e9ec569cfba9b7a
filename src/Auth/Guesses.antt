-- ===== src/Auth/Guesses.antt =====
-- How many passwords an address can try in a minute through the login handler of
-- internal/api/server.go.
use snell_sh.Common.{
  none, some, false, ℕ, zero, suc, ◌+◌, ◌-◌, ◌≤◌, ◌<◌, ◌≡◌, ◌⊎◌, refl, Bool, Option, List, [], ◌∷◌,
  All, inl, inr, Text, text_eq, text_eq_self, arith, Bool-cases, Option-cases,
}
use snell_sh.Database.{Result-cases}
use snell_sh.Auth.Limiter.{Limiter, minute, entry, allow, failure, success}
use snell_sh.Auth.Limits.{Reachable, allow_iff}
use snell_sh.Auth.Window.{
  Event, apply_event, InMinute, Within, Open, step_Open, failed_by, tried, missed, entered,
}
use snell_sh.Auth.Model.{Session}
use snell_sh.Auth.Service.{login}
use snell_sh.Auth.Login.{
  Try, Answer, Hall, Move, arrives, answers, elsewhere, rate_limited, invalid_json, login_busy,
  invalid_credentials, logged_in, tally, enter, answer, step, wrong_answers, crowd,
}

-- The address of an event.
abbrev pub address : Event → Text
address (tried ip now) = ip
address (missed ip now) = ip
address (entered ip) = ip

-- A move in the minute from `t` on; what happens elsewhere is another address's.
abbrev pub InWindow : Text → ℕ → Move → Type 0
InWindow ip t (arrives now) = InMinute t now
InWindow ip t (answers x) = InMinute t x.now
InWindow ip t (elsewhere e w) = Within ip t e × (text_eq (address e) ip ≡ false)

none_or_more : (n : ℕ) → (n ≡ 0) ⊎ ((k : ℕ) × (n ≡ suc k))
none_or_more zero = inl refl
none_or_more (suc k) = inr (k, refl)

failed_by_other : (ip : Text) (e : Event) → text_eq (address e) ip ≡ false → failed_by ip e ≡ 0
failed_by_other ip (tried j now) h = refl
failed_by_other ip (missed j now) h = ground (arith, h)
failed_by_other ip (entered j) h = refl

module _ (hash : Text → Text → Text) (verify : Text → Text → Bool) (digest : Text → Text)
    (ip user_agent : Text) where
  -- What a move comes to, where the window of the address began at `t` with `n` failures and so many
  -- of its requests were inside.
  data Outcome (t n inside : ℕ) (a : Option Answer) (h : Hall) : Type 0 where
    quiet :
        ((r : ℕ) → tally a r ≡ r)
        → Open ip t n h.limiter
        → h.inside ≤ inside
        → Outcome t n inside a h
    let_in : a ≡ none → n < 5 → Open ip t n h.limiter → Outcome t n inside a h
    wrong :
        a ≡ some invalid_credentials
        → Open ip t (n + 1) h.limiter
        → suc h.inside ≡ inside
        → Outcome t n inside a h
    right : (s : Session) → a ≡ some (logged_in s) → Outcome t n inside a h

  -- The window after an event that counts `k` failures of the address.
  Open-event :
      (t n k : ℕ) (l : Limiter) (e : Event)
      → minute ≤ t
      → Within ip t e
      → failed_by ip e ≡ k
      → Open ip t n l
      → Open ip t (n + k) (apply_event l e)
  Open-event t n k l e m w f o =
      let after : Open ip t (n + failed_by ip e) (apply_event l e) = step_Open ip t n l e m w o in
      record {
        reachable = after.reachable;
        began = after.began;
        counted = omega (arith, after.counted, f);
      }

  Open-quiet :
      (t n : ℕ) (l : Limiter) (e : Event)
      → minute ≤ t
      → Within ip t e
      → failed_by ip e ≡ 0
      → Open ip t n l
      → Open ip t n (apply_event l e)
  Open-quiet t n l e m w f o =
      let after : Open ip t (n + 0) (apply_event l e) = Open-event t n 0 l e m w f o in
      record {
        reachable = after.reachable;
        began = after.began;
        counted = omega (arith, after.counted);
      }

  enter-Outcome :
      (t n now : ℕ) (h : Hall)
      → minute ≤ t
      → InMinute t now
      → Open ip t n h.limiter
      → Outcome t n h.inside (enter ip now h).0 (enter ip now h).1
  unfolding enter
  enter-Outcome t n now h m w o =
      let asked = allow_iff h.limiter ip now o.reachable (omega (arith, m, w)) in
      let l : Limiter = (allow h.limiter ip now).1 in
      let same : Open ip t n l = Open-quiet t n h.limiter (tried ip now) m w refl o in
      elim (Bool-cases (allow h.limiter ip now).0) [
        | inl e ↦
            let moves : enter ip now h ≡ (none, record h { limiter = l; inside = suc h.inside }) =
              ground (arith, e) in
            rw moves (let_in refl (ground (arith, asked, e, o.began, o.counted, w)) same)
        | inr e ↦
            let moves : enter ip now h ≡ (some rate_limited, record h { limiter = l }) =
              ground (arith, e) in
            rw moves (quiet (λ r. refl) same (omega arith))
      ]

  answer-Outcome :
      (t n : ℕ) (x : Try) (h : Hall)
      → minute ≤ t
      → InMinute t x.now
      → Open ip t n h.limiter
      → Outcome t n
          (suc h.inside)
          (answer hash verify digest ip user_agent x h).0
          (answer hash verify digest ip user_agent x h).1
  unfolding answer
  answer-Outcome t n x h m w o = elim (Option-cases x.body) [
    | inl b ↦
        let moves : answer hash verify digest ip user_agent x h ≡ (some invalid_json, h) =
          ground (arith, b) in
        rw moves (quiet (λ r. refl) o (omega arith))
    | inr (password, b) ↦ elim (Bool-cases x.busy) [
      | inl y ↦
          let moves : answer hash verify digest ip user_agent x h ≡ (some login_busy, h) =
            ground (arith, b, y) in
          rw moves (quiet (λ r. refl) o (omega arith))
      | inr y ↦
          let tested =
            login hash verify digest password ip user_agent x.token x.csrf x.id x.now h.world in
          elim (Result-cases tested.0) [
            | inl (s, r) ↦
                let moves : answer hash verify digest ip user_agent x h ≡ (
                  some (logged_in s),
                  record h { limiter = success h.limiter ip; world = tested.1 },
                ) =
                  ground (arith, b, y, r) in
                rw moves (right s refl)
            | inr (f, r) ↦
                let moves : answer hash verify digest ip user_agent x h ≡ (
                  some invalid_credentials,
                  record h { limiter = failure h.limiter ip x.now; world = tested.1 },
                ) =
                  ground (arith, b, y, r) in
                rw moves (
                  wrong refl
                    (Open-event t n 1 h.limiter (missed ip x.now) m w
                      (ground (arith, text_eq_self ip)) o)
                    refl)
          ]
    ]
  ]

  abbrev moved : Move → Hall → Option Answer × Hall
  moved x h = step hash verify digest ip user_agent x h

  step-Outcome :
      (t n : ℕ) (x : Move) (h : Hall)
      → minute ≤ t
      → InWindow ip t x
      → Open ip t n h.limiter
      → Outcome t n h.inside (moved x h).0 (moved x h).1
  unfolding step
  step-Outcome t n (arrives now) h m w o = enter-Outcome t n now h m w o
  step-Outcome t n (answers x) h m w o = elim (none_or_more h.inside) [
    | inl e ↦
        let moves : moved (answers x) h ≡ (none, h) = ground (arith, e) in
        rw moves (quiet (λ r. refl) o (omega arith))
    | inr (k, e) ↦
        let left : Hall = record h { inside = k } in
        let moves : moved (answers x) h ≡ answer hash verify digest ip user_agent x left =
          ground (arith, e) in
        rw moves (rw e (answer-Outcome t n x left m w o))
  ]
  step-Outcome t n (elsewhere e v) h m (w, other) o =
      quiet (λ r. refl) (Open-quiet t n h.limiter e m w (failed_by_other ip e other) o)
        (omega arith)

  abbrev wrongs : List Move → Hall → ℕ
  wrongs xs h = wrong_answers hash verify digest ip user_agent xs h

  abbrev most : List Move → Hall → ℕ
  most xs h = crowd hash verify digest ip user_agent xs h

  most_lem :
      (x : Move) (xs : List Move) (h : Hall)
      → (h.inside ≤ most (x ∷ xs) h) × (most xs (moved x h).1 ≤ most (x ∷ xs) h)
  unfolding crowd
  most_lem x xs h = ground arith

  bounded :
      (t n : ℕ) (xs : List Move) (h : Hall)
      → minute ≤ t
      → All (InWindow ip t) xs
      → Open ip t n h.limiter
      → (5 ≤ n → wrongs xs h ≤ h.inside) × (wrongs xs h ≤ 4 - n + most xs h)
  unfolding wrong_answers
  bounded t n [] h m w o = (λ _. omega arith, omega arith)
  bounded t n (x ∷ xs) h m w o =
      let h' : Hall = (moved x h).1 in
      let (up, later) = most_lem x xs h in
      elim (step-Outcome t n x h m w.0 o) [
        | quiet same p few ↦
            let (shut, rest) = bounded t n xs h' m w.1 p in
            rw (same (wrongs xs h'))
              (λ full. omega (arith, few, shut full), omega (arith, rest, later))
        | let_in e l p ↦
            let (shut, rest) = bounded t n xs h' m w.1 p in
            rw e (λ full. absurd (omega (arith, full, l)), omega (arith, rest, later))
        | wrong e p one ↦
            let (shut, rest) = bounded t (n + 1) xs h' m w.1 p in
            rw e (
              λ full. omega (arith, one, shut (omega (arith, full))),
              ground (arith, rest, later, up, one, shut),
            )
        | right s e ↦ rw e (λ _. omega arith, omega arith)
      ]

  -- Requests of one address are let in and answered in the minute in which its window is open, in any
  -- interleaving, with anything that other addresses and other calls do in between, whatever the
  -- requests bring and whatever statement fails. Up to the first that logs in, the requests answered
  -- with wrong credentials are no more than the window has failures left of four and the requests that
  -- were inside at one time: no more passwords can be guessed, five if they come one by one.
  pub wrong_answers_bound :
      (t : ℕ) (xs : List Move) (h : Hall)
      → Reachable h.limiter
      → minute ≤ t
      → (entry h.limiter ip).window ≡ t
      → All (InWindow ip t) xs
      → wrong_answers hash verify digest ip user_agent xs h
        ≤ 4 - (entry h.limiter ip).failures + crowd hash verify digest ip user_agent xs h
  wrong_answers_bound t xs h r m b w =
      (bounded t (entry h.limiter ip).failures xs h m w
        (record { reachable = r; began = b; counted = refl })).1

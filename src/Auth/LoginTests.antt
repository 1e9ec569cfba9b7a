-- ===== src/Auth/LoginTests.antt =====
-- Runs of the login handler of internal/api/server.go on concrete input.
use snell_sh.Common.{
  ℕ, ◌+◌, ◌-◌, ◌*◌, ◌≤◌, ◌≡◌, refl, Bool, false, none, some, List, [], ◌∷◌, codes, Text, text_eq,
  arith,
}
use snell_sh.Common.Dict.{lookup, insert, erase, prune}
use snell_sh.Auth.Limiter.{minute, second, new_limiter, entry, allow, failure}
use snell_sh.Auth.Limits.{start, next, fails}
use snell_sh.Auth.Service.{login}
use snell_sh.Auth.Window.{tried}
use snell_sh.Auth.Login.{
  Try, Hall, Move, arrives, answers, elsewhere, enter, answer, step, wrong_answers, crowd,
}
use snell_sh.Auth.Guesses.{wrong_answers_bound}

abbrev home : Text
home = codes "192.0.2.7"

abbrev hour : ℕ
hour = 60 * minute

-- Every hash is the password itself, and every token its own digest.
abbrev hash : Text → Text → Text
hash salt p = p

abbrev verify : Text → Text → Bool
verify h p = text_eq h p

abbrev digest : Text → Text
digest t = t

abbrev guess : ℕ → Try
guess now = record {
  now = now;
  body = some (codes "guess");
  busy = false;
  token = none;
  csrf = none;
  id = [];
}

abbrev hall : Hall
hall = record {
  limiter = failure new_limiter home hour;
  world = record {
    tables = record {
      state = some (record {
        password_hash = codes "secret";
        must_change_password = false;
        password_changed_at = none;
        updated_at = 0;
      });
      sessions = [];
    };
    faults = [];
  };
  inside = 0;
}

-- Two guesses one by one, another address at the limiter, and three guesses at once, all of which are
-- tested although the window has two failures left, and one more, which is not let in.
abbrev moves : List Move
moves =
    arrives (hour + second)
    ∷ answers (guess (hour + second))
    ∷ arrives (hour + 2 * second)
    ∷ answers (guess (hour + 2 * second))
    ∷ elsewhere (tried (codes "192.0.2.8") (hour + 3 * second)) hall.world
    ∷ arrives (hour + 4 * second)
    ∷ arrives (hour + 4 * second)
    ∷ arrives (hour + 4 * second)
    ∷ answers (guess (hour + 5 * second))
    ∷ answers (guess (hour + 5 * second))
    ∷ answers (guess (hour + 6 * second))
    ∷ arrives (hour + 7 * second)
    ∷ answers (guess (hour + 7 * second))
    ∷ []

tested : wrong_answers hash verify digest home [] moves hall ≡ 5
unfolding wrong_answers step enter answer allow failure new_limiter lookup insert erase text_eq
    prune login
tested = refl

together : crowd hash verify digest home [] moves hall ≡ 3
unfolding crowd step enter answer allow failure new_limiter lookup insert erase text_eq prune login
together = refl

began : (entry hall.limiter home).window ≡ hour
unfolding failure new_limiter lookup insert text_eq prune
began = refl

wrong_answers_bound_example :
    wrong_answers hash verify digest home [] moves hall
    ≤ 4 - (entry hall.limiter home).failures + crowd hash verify digest home [] moves hall
unfolding text_eq
wrong_answers_bound_example =
    wrong_answers_bound hash verify digest home [] hour moves hall
      (next start (fails home hour (omega arith))) (omega arith) began
      (
        (omega arith, omega arith),
        (
          (omega arith, omega arith),
          (
            (omega arith, omega arith),
            (
              (omega arith, omega arith),
              (
                ((omega arith, omega arith), refl),
                (
                  (omega arith, omega arith),
                  (
                    (omega arith, omega arith),
                    (
                      (omega arith, omega arith),
                      (
                        (omega arith, omega arith),
                        (
                          (omega arith, omega arith),
                          (
                            (omega arith, omega arith),
                            ((omega arith, omega arith), ((omega arith, omega arith), tt)),
                          ),
                        ),
                      ),
                    ),
                  ),
                ),
              ),
            ),
          ),
        ),
      )

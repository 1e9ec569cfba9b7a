-- ===== src/Auth/Model.antt =====
-- The rows of `auth_state` and `sessions`, and the password policy (internal/auth/password.go).
use snell_sh.Common.{
  ℕ, zero, suc, Bool, true, false, ◌&&◌, ◌||◌, not, Option, none, some, [], ◌∷◌, ltb, leb, ◌==◌,
  length, drop, codes, Text, text_eq, if◌then◌else◌,
}
use snell_sh.Common.Dict.{Dict}

-- `password_changed_at` is none for NULL. Moments are nanoseconds.
pub record AuthState : Type 0 where
  pub password_hash : Text
  pub must_change_password : Bool
  pub password_changed_at : Option ℕ
  pub updated_at : ℕ

pub record Row : Type 0 where
  pub token_hash : Text
  pub csrf_hash : Text
  pub restricted : Bool
  pub remote_ip : Text
  pub user_agent : Text
  pub expires_at : ℕ
  pub last_seen_at : ℕ

-- `auth_state` holds one row at most; `sessions` is keyed by its `id`.
pub record Tables : Type 0 where
  pub state : Option AuthState
  pub sessions : Dict Row

-- `Session`
pub record Session : Type 0 where
  pub id : Text
  pub restricted : Bool
  pub expires_at : ℕ
  pub csrf : Text

abbrev pub default_password : Text
default_password = codes "password"

abbrev within : ℕ → ℕ → ℕ → Bool
within low high b = leb low b && leb b high

abbrev continues : Text → Bool
continues [] = false
continues (b ∷ s) = within 128 191 b

abbrev starts_in : ℕ → ℕ → Text → Bool
starts_in low high [] = false
starts_in low high (b ∷ s) = within low high b

abbrev two_more : ℕ → ℕ → Text → Bool
two_more low high s = starts_in low high s && continues (drop 1 s)

abbrev three_more : ℕ → ℕ → Text → Bool
three_more low high s = two_more low high s && continues (drop 2 s)

-- The bytes of UTF-8 after a first byte: how many, if they stand there.
unfoldable pub more_bytes : ℕ → Text → Option ℕ
more_bytes b s =
    if ltb b 128
    then some 0
    else if within 194 223 b && continues s
    then some 1
    else if (b == 224) && two_more 160 191 s
    then some 2
    else if (within 225 236 b || within 238 239 b) && two_more 128 191 s
    then some 2
    else if (b == 237) && two_more 128 159 s
    then some 2
    else if (b == 240) && three_more 144 191 s
    then some 3
    else if within 241 243 b && three_more 128 191 s
    then some 3
    else if (b == 244) && three_more 128 143 s
    then some 3
    else none

-- `utf8.ValidString` and `utf8.RuneCountInString`; a byte that starts no character counts as one. The
-- number of bytes is enough fuel.
unfoldable pub scan : ℕ → Text → Bool × ℕ
unfolding more_bytes
scan zero s = (true, 0)
scan (suc f) [] = (true, 0)
scan (suc f) (b ∷ s) = elim (more_bytes b s) [
  | some n ↦ let (valid, count) = scan f (drop n s) in (valid, suc count)
  | none ↦ let (valid, count) = scan f s in (false, suc count)
]

-- `ValidateNewPassword`
unfoldable pub valid_password : Text → Bool
unfolding scan text_eq
valid_password password =
    let (valid, count) = scan (length password) password in
    not (not valid || ltb count 4 || ltb 128 count || text_eq password default_password)

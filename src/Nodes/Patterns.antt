-- ===== src/Nodes/Patterns.antt =====
-- The patterns of internal/nodes/validate.go and store.go, as tests of texts.
use snell_sh.Common.{
  ℕ, Bool, false, ◌&&◌, ◌||◌, not, List, [], ◌∷◌, leb, ◌==◌, all, length, Text, if◌then◌else◌,
}
use snell_sh.Auth.Model.{scan}

abbrev within : ℕ → ℕ → ℕ → Bool
within low high c = leb low c && leb c high

abbrev is_alnum : ℕ → Bool
is_alnum c = within b'0' b'9' c || within b'a' b'z' c || within b'A' b'Z' c

-- `strings.Split` at one byte: a part, and the parts after it.
unfoldable pub split_at : ℕ → Text → List Text
split_at sep [] = [] ∷ []
split_at sep (c ∷ s) = elim (split_at sep s) [
  | [] ↦ [] ∷ []
  | part ∷ parts ↦ if c == sep then [] ∷ part ∷ parts else (c ∷ part) ∷ parts
]

abbrev first_is : (ℕ → Bool) → Text → Bool
first_is p [] = false
first_is p (c ∷ s) = p c

unfoldable pub last_is : (ℕ → Bool) → Text → Bool
last_is p [] = false
last_is p (c ∷ []) = p c
last_is p (c ∷ d ∷ s) = last_is p (d ∷ s)

-- `[a-zA-Z0-9](?:[a-zA-Z0-9-]{0,61}[a-zA-Z0-9])?`
unfoldable pub is_label : Text → Bool
unfolding last_is
is_label s =
    first_is is_alnum s
    && last_is is_alnum s
    && all (λ c. is_alnum c || c == b'-') s
    && leb (length s) 63

-- `hostnamePattern`
unfoldable pub is_hostname : Text → Bool
unfolding split_at is_label
is_hostname s = all is_label (split_at b'.' s)

-- `utf8.ValidString` and `namePattern`: 1 to 64 characters, none of them a control.
unfoldable pub is_name : Text → Bool
unfolding scan
is_name s =
    let (valid, count) = scan (length s) s in
    valid && leb 1 count && leb count 64 && all (λ c. leb 32 c && not (c == 127)) s

abbrev is_id_byte : ℕ → Bool
is_id_byte c = is_alnum c || c == b'.' || c == b'_' || c == b'-'

-- `nodeIDPattern`
unfoldable pub is_node_id : Text → Bool
is_node_id s = first_is is_alnum s && all is_id_byte s && leb (length s) 128

-- `anyConnectUsernamePattern` of anyconnect.go.
unfoldable pub is_username : Text → Bool
is_username s = first_is is_alnum s && all is_id_byte s && leb (length s) 64

-- `scheduleTimePattern`
unfoldable pub is_time : Text → Bool
is_time (a ∷ b ∷ c ∷ d ∷ e ∷ []) =
    (((a == b'0' || a == b'1') && within b'0' b'9' b) || (a == b'2' && within b'0' b'3' b))
    && (c == b':')
    && within b'0' b'5' d
    && within b'0' b'9' e
is_time s = false

-- ===== src/Sync/Format.antt =====
-- The exchange file (internal/nodesync/format.go). What `encoding/json` prints and reads is a
-- parameter.
use snell_sh.Common.{
  ℕ, ◌*◌, ◌^◌, Bool, false, not, ◌&&◌, ◌||◌, ◌==◌, Option, none, some, List, [], ◌∷◌, ◌++◌, ltb,
  any, length, codes, Text, text_eq, if◌then◌else◌,
}
use snell_sh.Common.Int.{ℤ, pos, leb_ℤ, ltb_ℤ}
use snell_sh.Nodes.Model.{Kind, Config, Readers, other_kind}
use snell_sh.Nodes.Rows.{present}
use snell_sh.Nodes.Validate.{is_anyconnect, out_of, refuse, first_of}

pub record UserQuota : Type 0 where
  pub quota_bytes : ℤ
  pub reset_day : ℤ

-- `User`
pub record SyncUser : Type 0 where
  pub username : Text
  pub password : Text
  pub route_group : Text
  pub enabled : Bool
  pub quota : Option UserQuota

-- `Node`; the secrets are a password and a passphrase.
pub record SyncNode : Type 0 where
  pub id : Text
  pub kind : Kind
  pub name : Text
  pub desired_state : Text
  pub runtime_version : Text
  pub listen_host : Text
  pub listen_port : ℤ
  pub backend_node_id : Text
  pub config : Config
  pub secret : Text
  pub server_secrets : Option (Text × Text)
  pub users : List SyncUser

pub record File : Type 0 where
  pub format : Text
  pub version : ℤ
  pub created_at : Text
  pub nodes : List SyncNode

abbrev pub format_name : Text
format_name = codes "proxy-panel-sync-v1"

abbrev pub max_file_bytes : ℕ
max_file_bytes = 8 * 2 ^ 20

-- `New`
abbrev pub new_file : List SyncNode → Text → File
new_file nodes now = record {
  format = format_name;
  version = pos 1;
  created_at = now;
  nodes = nodes;
}

abbrev is_empty : Text → Bool
is_empty s = text_eq s []

abbrev pub is_blank : Readers → Text → Bool
is_blank lib s = is_empty (lib.trim_space s)

abbrev pub is_blank_kind : Readers → Kind → Bool
is_blank_kind lib (other_kind s) = is_blank lib s
is_blank_kind lib k = false

abbrev pub is_among : Text → List Text → Bool
is_among s seen = any (text_eq s) seen

unfoldable pub check_quota : Option UserQuota → Option Text
check_quota none = none
check_quota (some q) =
    refuse (ltb_ℤ q.quota_bytes (pos 0)) (codes "QUOTA")
      (refuse (out_of (pos 1) (pos 28) q.reset_day) (codes "RESET_DAY") none)

-- The loop over a node's users, with the names it has seen.
unfoldable pub check_users : List Text → List SyncUser → Option Text
check_users seen [] = none
check_users seen (u ∷ users) = refuse (is_empty u.username || is_empty u.password) (codes "USER") (
    first_of (check_quota u.quota) (
      refuse (is_among u.username seen) (codes "USER_TWICE")
        (check_users (u.username ∷ seen) users)))

-- The loop over the nodes, with the ids it has seen.
unfoldable pub check_nodes : Readers → List Text → List SyncNode → Option Text
check_nodes lib seen [] = none
check_nodes lib seen (n ∷ nodes) =
    refuse (is_blank lib n.id || is_blank_kind lib n.kind || is_blank lib n.name) (codes "BLANK") (
      refuse (is_among n.id seen) (codes "NODE_TWICE") (
        refuse (not (is_anyconnect n.kind)) (codes "KIND") (
          refuse (not (present n.server_secrets)) (codes "NO_SECRETS") (
            refuse (ltb 4096 (length n.users)) (codes "USERS")
              (first_of (check_users [] n.users) (check_nodes lib (n.id ∷ seen) nodes))))))

abbrev pub is_version : ℤ → Bool
is_version v = leb_ℤ v (pos 1) && leb_ℤ (pos 1) v

-- `Validate`
unfoldable pub validate_file : Readers → File → Option Text
validate_file lib f =
    refuse (not (text_eq f.format format_name) || not (is_version f.version)) (codes "FORMAT")
      (refuse (ltb 256 (length f.nodes)) (codes "NODES") (check_nodes lib [] f.nodes))

-- What `json.MarshalIndent` prints of a file, if it does, and what a decoder reads first from a text,
-- with whether anything but white space follows.
pub record Codec : Type 0 where
  pub print : File → Option Text
  pub read : Text → Option (File × Bool)

abbrev unless_refused : Option Text → Option File → Option File
unless_refused (some complaint) f = none
unless_refused none f = f

abbrev pub with_newline : Option Text → Option Text → Option Text
with_newline (some complaint) text = none
with_newline none none = none
with_newline none (some text) = some (text ++ b'\n' ∷ [])

-- `Encode`
unfoldable pub encode : Readers → Codec → File → Option Text
encode lib c f = with_newline (validate_file lib f) (c.print f)

abbrev single : Readers → Option (File × Bool) → Option File
single lib none = none
single lib (some (f, more)) = if more then none else unless_refused (validate_file lib f) (some f)

-- `Decode`
unfoldable pub decode : Readers → Codec → Text → Option File
decode lib c text =
    if (length text == 0) || ltb max_file_bytes (length text)
    then none
    else single lib (c.read text)

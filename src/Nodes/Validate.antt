-- ===== src/Nodes/Validate.antt =====
-- `Normalize` and `Validate` of internal/nodes/validate.go. An answer is the first complaint, or none;
-- a short code stands for each message.
use snell_sh.Common.{
  ℕ, Bool, true, false, not, ◌&&◌, ◌||◌, Option, none, some, List, [], ◌∷◌, ◌==◌, any, length, take,
  codes, Text, text_eq, if◌then◌else◌,
}
use snell_sh.Common.Int.{ℤ, pos, ltb_ℤ, is_zero}
use snell_sh.Nodes.Model.{Kind, anyconnect, Mode, other_mode, Config, Request, Url, Readers}
use snell_sh.Nodes.Patterns.{is_hostname, is_time}

-- A field that is empty, or zero, takes its default.
unfoldable pub text_or : Text → Text → Text
text_or [] fallback = fallback
text_or (c ∷ s) fallback = c ∷ s

unfoldable pub int_or : ℤ → ℤ → ℤ
int_or n fallback = if is_zero n then fallback else n

abbrev pub default_listen_host : Text
default_listen_host = codes "0.0.0.0"

-- `normalizeAnyConnectRouting`
unfoldable pub normalize_routing : Config → Config
normalize_routing c = record c {
  china_direct_dns = text_or c.china_direct_dns (codes "223.5.5.5,119.29.29.29");
  china_cidr_source_url =
      text_or c.china_cidr_source_url
        (codes "https://ftp.apnic.net/stats/apnic/delegated-apnic-latest");
  china_cidr_source_format = text_or c.china_cidr_source_format (codes "apnic");
}

unfoldable pub normalize_config : Config → Config
normalize_config c = normalize_routing (record c {
  vpn_network = text_or c.vpn_network (codes "192.168.144.0/24");
  dns = text_or c.dns (codes "1.1.1.1,8.8.8.8");
  mtu = int_or c.mtu (pos 1340);
  max_clients = int_or c.max_clients (pos 32);
  max_same_clients = int_or c.max_same_clients (pos 2);
  certificate_schedule = text_or c.certificate_schedule (codes "daily");
  certificate_schedule_time = text_or c.certificate_schedule_time (codes "03:30");
  china_cidr_schedule = text_or c.china_cidr_schedule (codes "daily");
  china_cidr_schedule_time = text_or c.china_cidr_schedule_time (codes "04:10");
})

abbrev pub is_anyconnect : Kind → Bool
is_anyconnect anyconnect = true
is_anyconnect k = false

-- `Normalize` after the test of the type.
unfoldable pub normalize_as : Bool → Request → Request
normalize_as server r =
    let heard = record r { listen_host = text_or r.listen_host default_listen_host } in
    if server
    then record heard {
      runtime_version = text_or r.runtime_version (codes "v1.5.0");
      config = normalize_config r.config;
    }
    else heard

-- `Normalize`
unfoldable pub normalize_request : Request → Request
normalize_request r = normalize_as (is_anyconnect r.kind) r

-- One check, and those after it.
unfoldable pub refuse : Bool → Text → Option Text → Option Text
refuse bad complaint rest = if bad then some complaint else rest

unfoldable pub first_of : Option Text → Option Text → Option Text
first_of (some complaint) rest = some complaint
first_of none rest = rest

abbrev pub is_one_of : List Text → Text → Bool
is_one_of options s = any (text_eq s) options

abbrev pub out_of : ℤ → ℤ → ℤ → Bool
out_of low high n = ltb_ℤ n low || ltb_ℤ high n

-- `validateHTTPSURL`
unfoldable pub is_https : Option Url → Bool
is_https none = false
is_https (some u) =
    text_eq u.scheme (codes "https")
    && not (text_eq u.hostname [])
    && not u.has_user
    && text_eq u.fragment []

-- `validateSchedule`
unfoldable pub check_schedule : Text → ℤ → Text → Option Text
check_schedule frequency weekday at =
    let manual = text_eq frequency (codes "manual") in
    let weekly = text_eq frequency (codes "weekly") in
    refuse (not (manual || text_eq frequency (codes "daily") || weekly)) (codes "FREQUENCY") (
      refuse (not manual && not (is_time at)) (codes "TIME")
        (refuse (weekly && out_of (pos 0) (pos 6) weekday) (codes "WEEKDAY") none))

abbrev pub short_key : Text
short_key = codes "2022-blake3-aes-128-gcm"

abbrev pub long_keys : List Text
long_keys =
    codes "2022-blake3-aes-256-gcm"
    ∷ codes "2022-blake3-chacha20-poly1305"
    ∷ codes "2022-blake3-chacha8-poly1305"
    ∷ []

-- The length of a method's key; 0 where the map has no such method.
unfoldable pub key_length : Text → ℕ
key_length method =
    if text_eq method short_key then 16 else if is_one_of long_keys method then 32 else 0

abbrev has_length : ℕ → Option ℕ → Bool
has_length n none = false
has_length n (some m) = m == n

-- `ValidateSS2022Key`
unfoldable pub check_key : Readers → Text → Text → Option Text
check_key lib method key = refuse (key_length method == 0) (codes "KEY_METHOD") (
    refuse (not (has_length (key_length method) (lib.base64_length key))) (codes "KEY_LENGTH") none)

abbrev old_methods : List Text
old_methods =
    codes "aes-128-gcm"
    ∷ codes "aes-256-gcm"
    ∷ codes "chacha20-ietf-poly1305"
    ∷ codes "plain"
    ∷ codes "none"
    ∷ codes "table"
    ∷ codes "aes-128-cfb"
    ∷ codes "aes-256-cfb"
    ∷ codes "aes-256-ctr"
    ∷ codes "camellia-256-cfb"
    ∷ codes "rc4-md5"
    ∷ codes "arc4-md5"
    ∷ codes "chacha20-ietf"
    ∷ []

abbrev is_other_mode : Mode → Bool
is_other_mode (other_mode s) = true
is_other_mode m = false

-- `strings.HasPrefix`
unfoldable pub starts_with : Text → Text → Bool
starts_with prefix s = text_eq (take (length prefix) s) prefix

abbrev pub is_2022 : Text → Bool
is_2022 s = starts_with (codes "2022-") s

-- The case "snell" of `Validate`.
unfoldable pub check_snell : Config → Option Text
check_snell c =
    refuse (not (is_one_of (codes "v4" ∷ codes "v5" ∷ codes "v6" ∷ []) c.version))
      (codes "SNELL_VERSION") none

-- The case "ss2022".
unfoldable pub check_ss2022 : Readers → Config → Text → Option Text
check_ss2022 lib c secret =
    let known = text_eq c.method short_key || is_one_of long_keys c.method in
    let hidden = text_eq c.obfs (codes "http") || text_eq c.obfs (codes "tls") in
    refuse (is_other_mode c.mode) (codes "MODE") (
      refuse (not (is_one_of old_methods c.method || known)) (codes "METHOD") (
        refuse (not (text_eq c.obfs [] || text_eq c.obfs (codes "off") || hidden)) (codes "OBFS") (
          refuse (hidden && not (is_hostname c.obfs_host)) (codes "OBFS_HOST") (
            if is_2022 c.method && not (text_eq secret [])
            then check_key lib c.method secret
            else none))))

-- The case "shadowtls".
unfoldable pub check_shadowtls : Config → Text → Option Text
check_shadowtls c backend =
    let wildcards = codes "off" ∷ codes "authed" ∷ codes "all" ∷ [] in
    refuse (text_eq backend []) (codes "BACKEND") (
      refuse (not (is_hostname c.sni)) (codes "SNI")
        (refuse (not (is_one_of wildcards c.wildcard_sni)) (codes "WILDCARD") none))

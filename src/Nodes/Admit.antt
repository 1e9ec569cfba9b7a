-- ===== src/Nodes/Admit.antt =====
-- The case "anyconnect" of `Validate` (internal/nodes/validate.go), and `Validate` itself.
use snell_sh.Common.{
  ℕ, Bool, true, false, not, ◌&&◌, ◌||◌, Option, none, some, List, [], ◌∷◌, leb, ltb, ◌==◌, any,
  length, codes, Text, text_eq,
}
use snell_sh.Common.Int.{pos, ltb_ℤ}
use snell_sh.AnyConnect.Cidr.Prefix.{Prefix, contains, masked, ip}
use snell_sh.Auth.Model.{scan}
use snell_sh.Nodes.Model.{
  Kind, snell, ss2022, shadowtls, anyconnect, other_kind, Config, Request, Readers,
}
use snell_sh.Nodes.Patterns.{split_at, is_hostname, is_name}
use snell_sh.Nodes.Validate.{
  normalize_request, refuse, first_of, is_one_of, out_of, is_https, check_schedule, check_snell,
  check_ss2022, check_shadowtls,
}

abbrev ten : Prefix
ten = record { addr = ip 10 0 0 0; bits = 8 }

abbrev hundred_seventy_two : Prefix
hundred_seventy_two = record { addr = ip 172 16 0 0; bits = 12 }

abbrev hundred_ninety_two : Prefix
hundred_ninety_two = record { addr = ip 192 168 0 0; bits = 16 }

-- `Addr.IsPrivate` of an IPv4 address.
unfoldable pub is_private : ℕ → Bool
is_private x = contains ten x || contains hundred_seventy_two x || contains hundred_ninety_two x

-- Whether a pool of addresses has the form that a server may have.
unfoldable pub good_pool : Option Prefix → Bool
good_pool none = false
good_pool (some p) =
    p.addr == (masked p).addr && leb 16 p.bits && leb p.bits 29 && is_private p.addr

-- The loop over one list of name servers.
unfoldable pub check_servers : Readers → Bool → List Text → Option Text
check_servers lib only_ipv4 [] = none
check_servers lib only_ipv4 (value ∷ values) =
    refuse (not (lib.is_ip (lib.trim_space value))) (codes "DNS_ADDRESS") (
      refuse (only_ipv4 && not (lib.is_ipv4 (lib.trim_space value))) (codes "DNS_IPV4")
        (check_servers lib only_ipv4 values))

unfoldable pub check_dns : Readers → Bool → Text → Option Text
check_dns lib only_ipv4 value =
    let values = split_at b',' value in
    refuse (ltb (length values) 1 || ltb 3 (length values)) (codes "DNS_COUNT")
      (check_servers lib only_ipv4 values)

-- `strings.ContainsAny`
abbrev contains_any : Text → Text → Bool
contains_any bytes s = any (λ c. any (λ d. c == d) bytes) s

-- A password or passphrase.
unfoldable pub bad_credential : Text → Bool
bad_credential s =
    not (scan (length s) s).0 || ltb 1024 (length s) || contains_any (0 ∷ b'\r' ∷ b'\n' ∷ []) s

abbrev formats : List Text
formats = codes "apnic" ∷ codes "cidr" ∷ []

-- The pool, the name servers and the numbers.
unfoldable pub check_network : Readers → Config → Option Text
check_network lib c = refuse (not (good_pool (lib.read_prefix c.vpn_network))) (codes "POOL") (
    first_of (check_dns lib false c.dns) (
      first_of (check_dns lib true c.china_direct_dns) (
        refuse (out_of (pos 1200) (pos 1500) c.mtu) (codes "MTU") (
          refuse (out_of (pos 1) (pos 4096) c.max_clients) (codes "CLIENTS") (
            refuse
              (out_of (pos 1) (pos 64) c.max_same_clients || ltb_ℤ c.max_clients c.max_same_clients)
              (codes "SAME_CLIENTS") none)))))

-- The addresses, credentials and schedules of the files that the server downloads.
unfoldable pub check_downloads : Readers → Request → Option Text
check_downloads lib r =
    let c = r.config in
    refuse (not (is_https (lib.read_url c.certificate_url))) (codes "CERTIFICATE_URL") (
      refuse (not (is_https (lib.read_url c.private_key_url))) (codes "KEY_URL") (
        refuse
          (ltb 128 (length c.certificate_username)
            || contains_any (b':' ∷ b'\r' ∷ b'\n' ∷ []) c.certificate_username)
          (codes "USERNAME")
          (refuse (bad_credential r.certificate_password) (codes "PASSWORD") (
            refuse (bad_credential r.private_key_passphrase) (codes "PASSPHRASE") (
              first_of
                (check_schedule c.certificate_schedule c.certificate_schedule_day
                  c.certificate_schedule_time)
                (refuse (not (is_https (lib.read_url c.china_cidr_source_url))) (codes "CIDR_URL") (
                  refuse (not (is_one_of formats c.china_cidr_source_format)) (codes "CIDR_FORMAT")
                    (check_schedule c.china_cidr_schedule c.china_cidr_schedule_day
                      c.china_cidr_schedule_time))))))))

unfoldable pub check_anyconnect : Readers → Request → Option Text
check_anyconnect lib r =
    refuse (not (text_eq r.runtime_version (codes "v1.5.0"))) (codes "RUNTIME") (
      refuse (not (is_hostname r.config.server_name)) (codes "SERVER_NAME")
        (first_of (check_network lib r.config) (check_downloads lib r)))

-- The switch over the type.
unfoldable pub check_by_kind : Readers → Request → Kind → Option Text
check_by_kind lib r snell = check_snell r.config
check_by_kind lib r ss2022 = check_ss2022 lib r.config r.secret
check_by_kind lib r shadowtls = check_shadowtls r.config r.backend_node_id
check_by_kind lib r anyconnect = check_anyconnect lib r
check_by_kind lib r (other_kind s) = none

abbrev is_other_kind : Kind → Bool
is_other_kind (other_kind s) = true
is_other_kind k = false

-- The body of `Validate` after its call of `Normalize`.
unfoldable pub check_request : Readers → Request → Option Text
check_request lib r = refuse (not (is_name r.name)) (codes "NAME") (
    refuse (is_other_kind r.kind) (codes "TYPE") (
      refuse (not (lib.is_ip r.listen_host)) (codes "HOST") (
        refuse (out_of (pos 1) (pos 65535) r.listen_port) (codes "PORT")
          (check_by_kind lib r r.kind))))

-- `Validate`
unfoldable pub validate : Readers → Request → Option Text
validate lib r = check_request lib (normalize_request r)

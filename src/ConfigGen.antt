-- ===== src/ConfigGen.antt =====
-- The configuration of a node's program (`Generate` of internal/configgen/generate.go). What
-- `encoding/json` prints of an object is left to the library: an object is its keys and values.
pub mod Lines
mod Tests
use snell_sh.Common.{
  ℕ, ◌+◌, Bool, true, false, ◌||◌, ◌==◌, Option, none, some, List, [], ◌∷◌, ◌++◌, any, codes, Text,
  text_eq, if◌then◌else◌,
}
use snell_sh.Common.Int.{ℤ, pos, negsuc}
use snell_sh.Common.Dict.{Dict}
use snell_sh.Common.Decimal.{itoa}
use snell_sh.Common.Breaks.{line_break}
use snell_sh.Nodes.Model.{
  Kind, snell, ss2022, shadowtls, anyconnect, other_kind, Mode, tcp_and_udp, tcp_only, udp_only,
  other_mode, Config, NodeRow, Node,
}
use snell_sh.Nodes.Validate.{text_or}

pub data Json : Type 0 where
  text : Text → Json
  number : ℤ → Json
  switch : Bool → Json

-- What a program reads: lines, or an object.
pub data Document : Type 0 where
  ini : Text → Document
  object : Dict Json → Document

-- `fmt.Sprint` of an int.
unfoldable pub sprint : ℤ → Text
sprint (pos n) = itoa n
sprint (negsuc n) = b'-' ∷ itoa (n + 1)

-- `net.JoinHostPort`
unfoldable pub join_host_port : Text → Text → Text
join_host_port host port =
    if any (λ c. c == b':') host
    then b'[' ∷ (host ++ (codes "]:" ++ port))
    else host ++ (b':' ∷ port)

-- `strings.Join` with a line break, and one more at the end.
unfoldable pub join_lines : List Text → Text
join_lines [] = line_break ∷ []
join_lines (l ∷ []) = l ++ line_break ∷ []
join_lines (l ∷ m ∷ ls) = l ++ line_break ∷ join_lines (m ∷ ls)

abbrev pub default_host : Text
default_host = codes "0.0.0.0"

abbrev pub host_of : Node → Text
host_of n = text_or n.row.listen_host default_host

abbrev pub listen_address : Text → ℤ → Text
listen_address host port = join_host_port host (sprint port)

abbrev pub truth : Bool → Text
truth true = codes "true"
truth false = codes "false"

abbrev pub dns_line : Text → List Text → List Text
dns_line dns rest = if text_eq dns [] then rest else (codes "dns = " ++ dns) ∷ rest

-- The lines of a Snell server.
unfoldable pub snell_lines : Node → Text → List Text
snell_lines n secret =
    codes "[snell-server]"
    ∷ (codes "listen = " ++ listen_address (host_of n) n.row.listen_port)
    ∷ (codes "psk = " ++ secret)
    ∷ dns_line n.config.dns ((codes "ipv6 = " ++ truth n.config.ipv6) ∷ [])

abbrev mode_text : Mode → Text
mode_text tcp_and_udp = codes "tcp_and_udp"
mode_text tcp_only = codes "tcp_only"
mode_text udp_only = codes "udp_only"
mode_text (other_mode s) = []

abbrev plugin_options : Config → Text
plugin_options c = codes "obfs=" ++ (c.obfs ++ (codes ";obfs-host=" ++ c.obfs_host))

abbrev plugin : Config → Dict Json
plugin c =
    if text_eq c.obfs (codes "http") || text_eq c.obfs (codes "tls")
    then (codes "plugin", text (codes "obfs-server"))
      ∷ (codes "plugin_opts", text (plugin_options c))
      ∷ []
    else []

abbrev nameserver : Text → Dict Json
nameserver dns = if text_eq dns [] then [] else (codes "nameserver", text dns) ∷ []

unfoldable pub ss2022_object : Node → Text → Dict Json
ss2022_object n secret =
    (codes "server", text (host_of n))
    ∷ (codes "server_port", number n.row.listen_port)
    ∷ (codes "method", text n.config.method)
    ∷ (codes "password", text secret)
    ∷ (codes "mode", text (mode_text n.config.mode))
    ∷ (codes "fast_open", switch n.config.tfo)
    ∷ (codes "user", text (codes "nobody"))
    ∷ (codes "timeout", number (pos 300))
    ∷ (nameserver n.config.dns ++ plugin n.config)

-- A backend that listens everywhere is reached on this host.
unfoldable pub backend_host : Node → Text
backend_host b =
    let host = host_of b in
    if text_eq host (codes "0.0.0.0") || text_eq host (codes "::") then codes "127.0.0.1" else host

unfoldable pub shadowtls_object : Node → Text → Node → Dict Json
shadowtls_object n secret b =
    (codes "listen", text (listen_address (host_of n) n.row.listen_port))
    ∷ (codes "server", text (listen_address (backend_host b) b.row.listen_port))
    ∷ (codes "tls", text n.config.sni)
    ∷ (codes "password", text secret)
    ∷ (codes "wildcard_sni", text n.config.wildcard_sni)
    ∷ (codes "fast_open", switch n.config.tfo)
    ∷ []

abbrev with_backend : Node → Text → Option Node → Option Document
with_backend n secret none = none
with_backend n secret (some b) = some (object (shadowtls_object n secret b))

abbrev pub generate_as : Kind → Node → Text → Option Node → Option Document
generate_as snell n secret backend = some (ini (join_lines (snell_lines n secret)))
generate_as ss2022 n secret backend = some (object (ss2022_object n secret))
generate_as shadowtls n secret backend = with_backend n secret backend
generate_as anyconnect n secret backend = none
generate_as (other_kind s) n secret backend = none

-- `Generate`
unfoldable pub generate : Node → Text → Option Node → Option Document
generate n secret backend = generate_as n.row.kind n secret backend

-- ===== src/ConfigGen/Tests.antt =====
-- Runs on concrete input for internal/configgen/generate.go.
use snell_sh.Common.{◌≡◌, refl, none, [], ◌∷◌, Text, codes, text_eq}
use snell_sh.Common.Decimal.{itoa}
use snell_sh.Common.Breaks.{split_lines}
use snell_sh.Nodes.Validate.{text_or}
use snell_sh.Common.Int.{pos}
use snell_sh.Nodes.Model.{snell, Node, NodeRow, Request}
use snell_sh.Nodes.Admit.{validate}
use snell_sh.Nodes.Samples.{readers, config_with, request}
use snell_sh.ConfigGen.{generate, snell_lines, backend_host, join_lines, join_host_port, sprint}
use snell_sh.ConfigGen.Lines.{lines_in, generate-lines, generate-breaks}

abbrev row : NodeRow
row = record {
  kind = snell;
  name = codes "node";
  desired_state = codes "running";
  runtime_version = [];
  listen_host = [];
  listen_port = pos 8388;
  backend_node_id = [];
  created_at = [];
  updated_at = [];
}

abbrev node_with : Text → Node
node_with dns = record {
  id = codes "a";
  row = row;
  config = record (config_with []) { dns = dns };
  revision = 1;
  actual_state = codes "stopped";
  last_error = [];
}

abbrev key : Text
key = codes "key"

reads :
    lines_in (generate (node_with (codes "1.1.1.1")) key none)
    ≡ codes "[snell-server]"
      ∷ codes "listen = 0.0.0.0:8388"
      ∷ codes "psk = key"
      ∷ codes "dns = 1.1.1.1"
      ∷ codes "ipv6 = false"
      ∷ []
unfolding generate split_lines join_lines snell_lines join_host_port text_or sprint itoa text_eq
reads = refl

generate-lines_example :
    lines_in (generate (node_with (codes "1.1.1.1")) key none)
    ≡ codes "[snell-server]"
      ∷ codes "listen = 0.0.0.0:8388"
      ∷ codes "psk = key"
      ∷ codes "dns = 1.1.1.1"
      ∷ codes "ipv6 = false"
      ∷ []
unfolding text_eq itoa
generate-lines_example =
    generate-lines (node_with (codes "1.1.1.1")) key none 8388 refl refl refl refl refl

abbrev asked : Request
asked = request snell 8388 []

-- A DNS value that sets the key once more.
abbrev two_lines : Text
two_lines = codes "1.1.1.1\npsk = other"

generate-breaks_example :
    (validate readers
        (record asked { secret = key; config = record (asked.config) { dns = two_lines } })
      ≡ validate readers asked)
    × (lines_in (generate (node_with two_lines) key none)
        ≡ codes "[snell-server]"
          ∷ codes "listen = 0.0.0.0:8388"
          ∷ codes "psk = key"
          ∷ codes "dns = 1.1.1.1"
          ∷ codes "psk = other"
          ∷ codes "ipv6 = false"
          ∷ [])
unfolding text_or join_host_port sprint itoa
generate-breaks_example =
    generate-breaks readers asked (node_with two_lines) key none (codes "1.1.1.1")
      (codes "psk = other") refl refl refl refl refl refl refl

-- A backend that listens everywhere is reached on the loopback address.
reaches : backend_host (node_with []) ≡ codes "127.0.0.1"
unfolding backend_host text_eq text_or
reaches = refl

-- ===== src/Nodes/Samples.antt =====
-- Requests, readers and random values for the runs of internal/nodes.
use snell_sh.Common.{ℕ, true, false, Option, none, some, [], Text, codes, text_eq, if◌then◌else◌}
use snell_sh.Common.Int.{pos}
use snell_sh.AnyConnect.Cidr.Prefix.{Prefix, ip}
use snell_sh.Nodes.Model.{Kind, anyconnect, tcp_only, Config, Request, Url, Readers}
use snell_sh.Nodes.Store.{Drawn}

abbrev pub first_pool : Prefix
first_pool = record { addr = ip 10 1 0 0; bits = 16 }

abbrev pub second_pool : Prefix
second_pool = record { addr = ip 10 2 0 0; bits = 16 }

abbrev pub pool_named : Text → Option Prefix
pool_named s =
    if text_eq s (codes "10.1.0.0/16")
    then some first_pool
    else if text_eq s (codes "10.2.0.0/16")
    then some second_pool
    else none

abbrev pub https_url : Url
https_url = record {
  scheme = codes "https";
  hostname = codes "example.org";
  has_user = false;
  fragment = [];
}

abbrev pub readers : Readers
readers = record {
  trim_space = λ s. s;
  read_secrets = λ s. none;
  is_ip = λ s. true;
  is_ipv4 = λ s. true;
  read_prefix = pool_named;
  read_url = λ s. some https_url;
  base64_length = λ s. some 16;
}

abbrev pub config_with : Text → Config
config_with pool = record {
  version = codes "v4";
  dns = [];
  china_direct_dns = [];
  mode = tcp_only;
  method = [];
  obfs = [];
  obfs_host = [];
  sni = [];
  wildcard_sni = [];
  udp_enabled = true;
  ipv6 = false;
  tfo = true;
  server_name = codes "vpn.example.org";
  vpn_network = pool;
  mtu = pos 0;
  max_clients = pos 0;
  max_same_clients = pos 0;
  certificate_url = codes "https://example.org/c";
  private_key_url = codes "https://example.org/k";
  certificate_username = [];
  certificate_schedule = [];
  certificate_schedule_day = pos 0;
  certificate_schedule_time = [];
  china_cidr_source_url = [];
  china_cidr_source_format = [];
  china_cidr_schedule = [];
  china_cidr_schedule_day = pos 0;
  china_cidr_schedule_time = [];
}

abbrev pub request : Kind → ℕ → Text → Request
request k port pool = record {
  kind = k;
  name = codes "node";
  runtime_version = [];
  listen_host = [];
  listen_port = pos port;
  backend_node_id = [];
  config = config_with pool;
  secret = [];
  certificate_password = codes "pw";
  private_key_passphrase = [];
}

abbrev pub server : Request
server = request anyconnect 443 (codes "10.1.0.0/16")

abbrev pub second_server : Request
second_server = request anyconnect 8443 (codes "10.2.0.0/16")

abbrev pub drawn : Text → Drawn
drawn secret_id = record {
  secret_id = secret_id;
  random_secret = codes "random";
  now = codes "2026-01-02T03:04:05Z";
}

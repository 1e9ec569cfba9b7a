-- ===== src/Nodes/Model.antt =====
-- The records of internal/nodes/model.go, and the tables of the nodes (internal/database/migrations.go).
use snell_sh.Common.{ℕ, Bool, Option, List, Text}
use snell_sh.Common.Int.{ℤ}
use snell_sh.Common.Dict.{Dict}
use snell_sh.AnyConnect.Cidr.Prefix.{Prefix}

-- The field `type`; any other text is `other_kind`.
pub data Kind : Type 0 where
  snell ss2022 shadowtls anyconnect : Kind
  other_kind : Text → Kind

-- The field `mode` of an SS-2022 node.
pub data Mode : Type 0 where
  tcp_and_udp tcp_only udp_only : Mode
  other_mode : Text → Mode

-- `Config`, without what neither the checks nor the generator of configurations read (public,
-- blockMainland, profileEnabled, profileEntries).
pub record Config : Type 0 where
  pub version : Text
  pub dns : Text
  pub china_direct_dns : Text
  pub mode : Mode
  pub method : Text
  pub obfs : Text
  pub obfs_host : Text
  pub sni : Text
  pub wildcard_sni : Text
  pub udp_enabled : Bool
  pub ipv6 : Bool
  pub tfo : Bool
  pub server_name : Text
  pub vpn_network : Text
  pub mtu : ℤ
  pub max_clients : ℤ
  pub max_same_clients : ℤ
  pub certificate_url : Text
  pub private_key_url : Text
  pub certificate_username : Text
  pub certificate_schedule : Text
  pub certificate_schedule_day : ℤ
  pub certificate_schedule_time : Text
  pub china_cidr_source_url : Text
  pub china_cidr_source_format : Text
  pub china_cidr_schedule : Text
  pub china_cidr_schedule_day : ℤ
  pub china_cidr_schedule_time : Text

-- `CreateRequest`; `UpdateRequest` is the same without the type.
pub record Request : Type 0 where
  pub kind : Kind
  pub name : Text
  pub runtime_version : Text
  pub listen_host : Text
  pub listen_port : ℤ
  pub backend_node_id : Text
  pub config : Config
  pub secret : Text
  pub certificate_password : Text
  pub private_key_passphrase : Text

-- What `url.Parse` gives of an address.
pub record Url : Type 0 where
  pub scheme : Text
  pub hostname : Text
  pub has_user : Bool
  pub fragment : Text

-- The readers of Go's library that the checks call: `net.ParseIP` with `To4`, `netip.ParsePrefix` of an
-- IPv4 prefix (an IPv6 prefix reads as none), `url.Parse`, the length of what
-- `base64.StdEncoding.DecodeString` gives, `strings.TrimSpace`, and what `json.Unmarshal` reads as an
-- `AnyConnectSecrets`.
pub record Readers : Type 0 where
  pub trim_space : Text → Text
  pub read_secrets : Text → Option (Text × Text)
  pub is_ip : Text → Bool
  pub is_ipv4 : Text → Bool
  pub read_prefix : Text → Option Prefix
  pub read_url : Text → Option Url
  pub base64_length : Text → Option ℕ

-- A row of `nodes` without its id; NULL in `backend_node_id` is the empty text.
pub record NodeRow : Type 0 where
  pub kind : Kind
  pub name : Text
  pub desired_state : Text
  pub runtime_version : Text
  pub listen_host : Text
  pub listen_port : ℤ
  pub backend_node_id : Text
  pub created_at : Text
  pub updated_at : Text

-- A row of `node_configs`.
pub record ConfigRow : Type 0 where
  pub config : Config
  pub secret_ref : Text
  pub revision : ℕ

-- A row of `config_revisions`.
pub record RevisionRow : Type 0 where
  pub node_id : Text
  pub revision : ℕ
  pub snapshot : Config
  pub runtime_version : Text
  pub source : Text
  pub created_at : Text

-- A row of `runtime_instances`; a `pid` of 0 is NULL.
pub record RuntimeRow : Type 0 where
  pub pid : ℤ
  pub actual_state : Text
  pub last_error : Text
  pub restart_count : ℤ
  pub updated_at : Text

-- A row of `anyconnect_users`.
pub record UserRow : Type 0 where
  pub node_id : Text
  pub username : Text
  pub password_ref : Text
  pub route_group : Text
  pub enabled : Bool
  pub created_at : Text
  pub updated_at : Text

-- What a row of `secrets` seals: a text, or the JSON of `AnyConnectSecrets`.
pub data Secret : Type 0 where
  plain : Text → Secret
  server_secrets : Text → Text → Secret

-- `counters` holds the periods of `traffic_counters`.
pub record Tables : Type 0 where
  pub nodes : Dict NodeRow
  pub configs : Dict ConfigRow
  pub revisions : List RevisionRow
  pub runtimes : Dict RuntimeRow
  pub counters : Dict Text
  pub secrets : Dict Secret
  pub users : Dict UserRow

-- `Node`, as `queryNode` joins it.
pub record Node : Type 0 where
  pub id : Text
  pub row : NodeRow
  pub config : Config
  pub revision : ℕ
  pub actual_state : Text
  pub last_error : Text

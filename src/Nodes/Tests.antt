-- ===== src/Nodes/Tests.antt =====
-- Runs on concrete input for internal/nodes.
use snell_sh.Common.{◌≡◌, ◌≢◌, refl, true, false, none, some, [], codes, text_eq}
use snell_sh.Common.Dict.{lookup, insert, erase}
use snell_sh.AnyConnect.Cidr.Prefix.{ip, contains, masked}
use snell_sh.Database.{World, ok, query, exec_checked, statement, transaction}
use snell_sh.Nodes.Model.{Request, Tables, Node, NodeRow, ConfigRow}
use snell_sh.Auth.Model.{more_bytes, scan}
use snell_sh.Nodes.Patterns.{is_name, is_hostname, is_label, is_time, last_is, split_at}
use snell_sh.Nodes.Validate.{
  is_anyconnect, normalize_request, normalize_as, refuse, first_of, text_or, int_or,
  normalize_config, normalize_routing, check_schedule, is_https,
}
use snell_sh.Nodes.Admit.{
  validate, check_request, check_by_kind, check_anyconnect, check_network, good_pool, is_private,
  bad_credential, check_dns, check_downloads, check_servers,
}
use snell_sh.Nodes.Admitted.{Served, validate-Served}
use snell_sh.Nodes.Store.{
  create, create_with_id, create_normal, new_row, new_config, stopped_row, insert_all, get_node,
  scan_node, require_backend,
}
use snell_sh.Nodes.Rows.{
  put_secret, insert_node, insert_config, insert_revision, insert_runtime, insert_counter,
  listens_twice,
}
use snell_sh.Nodes.Conflict.{
  check_conflict, check_server_pools, check_pools, protocols, protocol_overlap, hosts_meet,
  port_clash, pools_meet, pool_clash, any_node,
}
use snell_sh.Nodes.Edit.{update, delete, is_used}
use snell_sh.Nodes.Revised.{Change, update-Change}
use snell_sh.Nodes.Removed.{create_with_id-after-delete}
use snell_sh.Nodes.Users.{UserRequest, create_vpn_user}
use snell_sh.Nodes.Safe.{IsSafe}
use snell_sh.Nodes.Switched.{no_tables}
use snell_sh.Nodes.Kept.{AllOrNothing, create-AllOrNothing}
use snell_sh.Nodes.History.{
  adds_user, creates, Reached, empty, after, Reached-IsSafe, Reached-disjoint,
}
use snell_sh.Nodes.Samples.{
  first_pool, second_pool, readers, config_with, server, drawn, second_server,
}

accepted : validate readers server ≡ none
unfolding validate check_request refuse is_name normalize_request normalize_as check_by_kind
    check_anyconnect text_eq text_or is_hostname normalize_config normalize_routing first_of
    check_network good_pool masked is_private contains more_bytes scan bad_credential check_dns
    check_downloads check_servers is_label is_time last_is split_at check_schedule int_or is_https
accepted = refl

validate-Served_example : Served readers (normalize_request server).config
validate-Served_example = validate-Served readers server refl accepted

abbrev blank_start : World Tables
blank_start = record { tables = no_tables; faults = [] }

abbrev with_one : Tables
with_one =
    (create readers (codes "a") server (codes "api") (drawn (codes "s1")) blank_start).1.tables

create-AllOrNothing_example :
    AllOrNothing
      (codes "a")
      (normalize_request server)
      (codes "api")
      (drawn (codes "s1"))
      no_tables
      with_one
create-AllOrNothing_example =
    create-AllOrNothing readers (codes "a") server (codes "api") (drawn (codes "s1")) blank_start

one_reached : Reached readers with_one
one_reached = after empty (creates b'a' [] server (codes "api") (drawn (codes "s1")) blank_start)

abbrev from_one : World Tables
from_one = record { tables = with_one; faults = [] }

abbrev with_two : Tables
with_two =
    (create readers (codes "b") second_server (codes "api") (drawn (codes "s2")) from_one).1.tables

two_reached : Reached readers with_two
two_reached =
    after one_reached (creates b'b' [] second_server (codes "api") (drawn (codes "s2")) from_one)

abbrev alice : UserRequest
alice = record {
  username = codes "alice";
  password = codes "secret";
  route_group = codes "full";
  enabled = true;
}

abbrev before_user : World Tables
before_user = record { tables = with_two; faults = [] }

abbrev with_user : Tables
with_user =
    (create_vpn_user (codes "a") (codes "u") alice (drawn (codes "s5")) before_user).1.tables

user_reached : Reached readers with_user
user_reached =
    after two_reached (adds_user (codes "a") (codes "u") alice (drawn (codes "s5")) before_user)

Reached-IsSafe_example : IsSafe readers with_user
Reached-IsSafe_example = Reached-IsSafe readers user_reached

abbrev first_row : NodeRow
first_row = new_row (normalize_request server) (codes "2026-01-02T03:04:05Z")

abbrev second_row : NodeRow
second_row = new_row (normalize_request second_server) (codes "2026-01-02T03:04:05Z")

abbrev first_config : ConfigRow
first_config = new_config (normalize_request server).config (codes "s1") 1

abbrev second_config : ConfigRow
second_config = new_config (normalize_request second_server).config (codes "s2") 1

stored_rows :
    (lookup (codes "a") with_two.nodes ≡ some first_row)
    × (lookup (codes "a") with_two.configs ≡ some first_config)
    × (lookup (codes "b") with_two.nodes ≡ some second_row)
    × (lookup (codes "b") with_two.configs ≡ some second_config)
unfolding validate check_request refuse is_name normalize_request normalize_as check_by_kind
    check_anyconnect text_eq text_or is_hostname normalize_config normalize_routing first_of
    check_network good_pool masked is_private contains more_bytes scan bad_credential check_dns
    check_downloads check_servers is_label is_time last_is split_at check_schedule int_or is_https
    create create_normal check_conflict check_server_pools check_pools protocols protocol_overlap
    hosts_meet port_clash pools_meet pool_clash any_node require_backend put_secret insert_node
    insert_config insert_revision insert_runtime insert_counter listens_twice insert_all get_node
    scan_node lookup insert query exec_checked statement transaction
stored_rows = (refl, refl, refl, refl)

apart_ids : text_eq (codes "a") (codes "b") ≡ false
unfolding text_eq
apart_ids = refl

pools_read :
    (readers.read_prefix first_config.config.vpn_network ≡ some first_pool)
    × (readers.read_prefix second_config.config.vpn_network ≡ some second_pool)
unfolding text_eq normalize_request normalize_as normalize_config normalize_routing text_or
pools_read = (refl, refl)

both_servers : (is_anyconnect first_row.kind ≡ true) × (is_anyconnect second_row.kind ≡ true)
unfolding normalize_request normalize_as
both_servers = (refl, refl)

in_first : contains first_pool (ip 10 1 0 9) ≡ true
unfolding contains
in_first = refl

Reached-disjoint_example : contains second_pool (ip 10 1 0 9) ≡ false
Reached-disjoint_example =
    Reached-disjoint readers (codes "a") (codes "b") first_row second_row first_config second_config
      first_pool second_pool (ip 10 1 0 9) two_reached apart_ids stored_rows.0 stored_rows.1
      stored_rows.2 stored_rows.3 both_servers.0 both_servers.1 pools_read.0 pools_read.1 in_first

abbrev from_two : World Tables
from_two = record { tables = with_two; faults = [] }

-- The first server is renamed and keeps its port.
abbrev renamed : Request
renamed = record server { name = codes "other" }

update-Change_example :
    Change readers
      (codes "a")
      renamed
      (codes "api")
      (drawn (codes "s3"))
      with_two
      (update readers (codes "a") renamed (codes "api") (drawn (codes "s3")) from_two).1.tables
update-Change_example =
    update-Change readers (codes "a") renamed (codes "api") (drawn (codes "s3")) from_two

deleted : (delete (codes "b") from_two).0 ≡ ok tt
unfolding validate check_request refuse is_name normalize_request normalize_as check_by_kind
    check_anyconnect text_eq text_or is_hostname normalize_config normalize_routing first_of
    check_network good_pool masked is_private contains more_bytes scan bad_credential check_dns
    check_downloads check_servers is_label is_time last_is split_at check_schedule int_or is_https
    create create_normal check_conflict check_server_pools check_pools protocols protocol_overlap
    hosts_meet port_clash pools_meet pool_clash any_node require_backend put_secret insert_node
    insert_config insert_revision insert_runtime insert_counter listens_twice insert_all get_node
    scan_node lookup insert query exec_checked statement transaction delete is_used erase
deleted = refl

named : text_eq (codes "b") [] ≡ false
unfolding text_eq
named = refl

runs : lookup (codes "b") with_two.runtimes ≡ some (stopped_row (codes "2026-01-02T03:04:05Z"))
unfolding validate check_request refuse is_name normalize_request normalize_as check_by_kind
    check_anyconnect text_eq text_or is_hostname normalize_config normalize_routing first_of
    check_network good_pool masked is_private contains more_bytes scan bad_credential check_dns
    check_downloads check_servers is_label is_time last_is split_at check_schedule int_or is_https
    create create_normal check_conflict check_server_pools check_pools protocols protocol_overlap
    hosts_meet port_clash pools_meet pool_clash any_node require_backend put_secret insert_node
    insert_config insert_revision insert_runtime insert_counter listens_twice insert_all get_node
    scan_node lookup insert query exec_checked statement transaction
runs = refl

abbrev some_node : Node
some_node = record {
  id = codes "b";
  row = second_row;
  config = config_with [];
  revision = 1;
  actual_state = codes "stopped";
  last_error = [];
}

create_with_id-after-delete_example :
    (create_with_id readers
      (codes "b")
      second_server
      (codes "sync-import")
      (drawn (codes "s4"))
      (delete (codes "b") from_two).1).0
    ≢ ok some_node
create_with_id-after-delete_example =
    create_with_id-after-delete readers (codes "b") second_server (codes "sync-import")
      (drawn (codes "s4")) from_two (stopped_row (codes "2026-01-02T03:04:05Z")) some_node runs

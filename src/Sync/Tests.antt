-- ===== src/Sync/Tests.antt =====
-- Runs on concrete input for internal/nodesync and internal/api/sync.go.
use snell_sh.Common.{
  ◌≡◌, ◌⊎◌, ◌↔◌, refl, Bool, if◌then◌else◌, arith, true, false, Option, none, some, [], ◌∷◌, ◌++◌,
  Text, codes, text_eq,
}
use snell_sh.Common.Int.{pos}
use snell_sh.Common.Dict.{lookup, insert}
use snell_sh.Database.{World, ok}
use snell_sh.Nodes.Model.{Tables, UserRow, Node, anyconnect, plain}
use snell_sh.Nodes.Validate.{refuse, first_of, normalize_routing}
use snell_sh.Nodes.Store.{new_row, new_config}
use snell_sh.Nodes.Find.{named_node}
use snell_sh.Nodes.Samples.{readers, config_with, drawn}
use snell_sh.Nodes.Switched.{no_tables}
use snell_sh.Sync.Format.{
  SyncUser, SyncNode, File, new_file, is_among, Codec, validate_file, encode, check_users,
  check_quota,
}
use snell_sh.Sync.Accepted.{Accepted, validate_file-Accepted}
use snell_sh.Sync.Import.{
  Panel, Draws, sync_create_request, import_node, usernames, import_node_users,
}
use snell_sh.Sync.Handler.{import_sync}
use snell_sh.Sync.Guarded.{Refused, Guarded, import_sync-Guarded}
use snell_sh.Sync.Collapsed.{import_node-Unknown}
use snell_sh.Sync.Replaced.{import_node_users-Replaced}
use snell_sh.Nodes.Find.{list_vpn_users, text_before, users_of}
use snell_sh.Nodes.Users.{
  bad_password, create_vpn_user, delete_vpn_user, get_vpn_user, name_taken, next_password,
  require_server, update_vpn_user, validate_user,
}
use snell_sh.Database.{exec_checked, query, statement}
use snell_sh.Sync.Import.{by_name, import_users, remove_unseen, user_request}
use snell_sh.Common.Sort.{insert_by, sort_by}
use snell_sh.Nodes.Patterns.{is_username}
use snell_sh.Auth.Model.{more_bytes, scan}
use snell_sh.Common.Decimal.{digits, itoa, pad, zeros}
use snell_sh.Common.Dict.{erase}
use snell_sh.Common.Int.{◌+ℤ◌}
use snell_sh.Nodes.Rows.{put_secret}
use snell_sh.Nodes.Validate.{text_or}
use snell_sh.Traffic.Period.{billing_period, clamp_day, format_date, period_month}
use snell_sh.Traffic.Store.{get_user, get_user_within, insert_user, set_user_quota, update_user}
use snell_sh.Nodes.Store.{scan_node}
use snell_sh.Sync.Format.{check_nodes}

abbrev user_named : Text → SyncUser
user_named name = record {
  username = name;
  password = codes "word";
  route_group = codes "full";
  enabled = true;
  quota = some (record { quota_bytes = pos 1000; reset_day = pos 1 });
}

abbrev item : Text → SyncNode
item id = record {
  id = id;
  kind = anyconnect;
  name = codes "node";
  desired_state = codes "running";
  runtime_version = [];
  listen_host = [];
  listen_port = pos 443;
  backend_node_id = [];
  config = config_with (codes "10.1.0.0/16");
  secret = [];
  server_secrets = some (codes "p", codes "q");
  users = user_named (codes "alice") ∷ user_named (codes "bob") ∷ [];
}

abbrev draws : Draws
draws = record {
  node = drawn;
  user = λ id name. drawn name;
  user_id = λ id name. name;
  now = codes "2026-01-02T03:04:05Z";
  instant = record { year = 2026; month = 1; day = 2; stamp = codes "2026-01-02T03:04:05Z" };
}

abbrev empty_panel : Panel
empty_panel = record {
  core = no_tables;
  traffic = record {
    counters = [];
    samples = [];
    project = none;
    users = [];
    user_samples = [];
    accounts = [];
  };
}

abbrev blank_start : World Panel
blank_start = record { tables = empty_panel; faults = [] }

-- A panel with one node and the users alice and carol.
abbrev user_row_named : Text → UserRow
user_row_named name = record {
  node_id = codes "a";
  username = name;
  password_ref = codes "s1";
  route_group = codes "full";
  enabled = true;
  created_at = codes "2026-01-01T00:00:00Z";
  updated_at = codes "2026-01-01T00:00:00Z";
}

abbrev stocked : Tables
stocked = record no_tables {
  nodes =
      (codes "a", new_row (sync_create_request (item (codes "a"))) (codes "2026-01-01T00:00:00Z"))
      ∷ [];
  configs = (codes "a", new_config (config_with (codes "10.1.0.0/16")) (codes "s1") 1) ∷ [];
  secrets = (codes "s1", plain (codes "word")) ∷ [];
  users =
      (codes "u1", user_row_named (codes "alice"))
      ∷ (codes "u2", user_row_named (codes "carol"))
      ∷ [];
}

abbrev start : World Panel
start = record { tables = record empty_panel { core = stocked }; faults = [] }

abbrev replaced : World Panel
replaced = (import_node_users draws true (codes "a") (item (codes "a")) start).1

abbrev alice : UserRow
alice = record (user_row_named (codes "alice")) {
  password_ref = codes "alice";
  updated_at = codes "2026-01-02T03:04:05Z";
}

accepted_users : check_users [] (item (codes "a")).users ≡ none
unfolding check_users refuse text_eq first_of check_quota
accepted_users = refl

-- alice is changed, bob is new, and carol goes.
replaces :
    ((import_node_users draws true (codes "a") (item (codes "a")) start).0 ≡ ok tt)
    × (lookup (codes "u1") replaced.tables.core.users ≡ some alice)
    × (lookup (codes "u2") replaced.tables.core.users ≡ none)
unfolding import_node_users list_vpn_users require_server query lookup text_eq sync_create_request
    import_users by_name sort_by users_of text_before update_vpn_user validate_user refuse
    user_request is_username more_bytes scan digits itoa pad zeros erase insert ◌+ℤ◌ insert_by
    exec_checked statement put_secret bad_password create_vpn_user delete_vpn_user get_vpn_user
    name_taken next_password text_or remove_unseen billing_period clamp_day format_date period_month
    get_user get_user_within insert_user set_user_quota update_user
replaces = (refl, refl, refl)

import_node_users-Replaced_example :
    is_among (codes "alice") (usernames (item (codes "a")).users) ≡ true
unfolding text_eq
import_node_users-Replaced_example =
    import_node_users-Replaced draws (codes "a") (item (codes "a")) start (codes "u1") alice
      accepted_users replaces.0 replaces.1 refl

-- A decoder that reads a file of two nodes.
abbrev two_nodes : Codec
two_nodes = record {
  print = λ f. none;
  read = λ s. some (new_file (item (codes "a") ∷ item (codes "b") ∷ []) [], false);
}

import_sync-Guarded_example :
    Refused blank_start.tables (
      import_sync readers two_nodes
        (λ host port p. false)
        false
        draws
        true
        (codes "{}")
        blank_start)
    ⊎ Guarded readers two_nodes (λ host port p. false) false (codes "{}") blank_start.tables.core
import_sync-Guarded_example =
    import_sync-Guarded readers two_nodes (λ host port p. false) false draws true (codes "{}")
      blank_start

abbrev twin : Node
twin = record {
  id = codes "a";
  row = new_row (sync_create_request (item (codes "a"))) (codes "2026-01-01T00:00:00Z");
  config = normalize_routing (config_with (codes "10.1.0.0/16"));
  revision = 1;
  actual_state = codes "stopped";
  last_error = [];
}

absent : lookup (codes "b") stocked.nodes ≡ none
unfolding lookup text_eq
absent = refl

twin_there : named_node anyconnect (codes "node") stocked stocked.nodes ≡ some twin
unfolding named_node sync_create_request text_eq scan_node lookup
twin_there = refl

import_node-Unknown_example :
    lookup
      (codes "b")
      (import_node readers draws
        (item (codes "b"))
        (record { tables = stocked; faults = [] })).1.tables.nodes
    ≡ none
import_node-Unknown_example =
    import_node-Unknown readers draws (item (codes "b")) (record { tables = stocked; faults = [] })
      twin absent twin_there

abbrev file : File
file = new_file (item (codes "a") ∷ []) (codes "2026-01-02T03:04:05Z")

validate_file-Accepted_example : (validate_file readers file ≡ none) ↔ Accepted readers file
validate_file-Accepted_example = validate_file-Accepted readers file

abbrev read_one : Text → Option (File × Bool)
read_one s = if text_eq s (codes "{}\n") then some (file, false) else none

abbrev codec : Codec
codec = record { print = λ f. some (codes "{}"); read = read_one }

written : encode readers codec file ≡ some (codes "{}\n")
unfolding encode validate_file refuse text_eq check_nodes first_of check_users check_quota
written = refl

read_back :
    (s : Text) → codec.print file ≡ some s → codec.read (s ++ b'\n' ∷ []) ≡ some (file, false)
unfolding text_eq
read_back s h = ground (arith, h)

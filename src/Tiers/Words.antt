-- ===== src/Tiers/Words.antt =====
-- The word lists of packages/daemon/src/mcp-service-registry.ts.
use thinklocal_mcp.Base.{List, [], ◌∷◌, String, map}
use thinklocal_mcp.Base.Text.{Text, codes}

abbrev words : List String → List Text
words ws = map codes ws

abbrev pub consensus_tokens : List Text
consensus_tokens =
    words
      ("admin" ∷ "delete" ∷ "destroy" ∷ "remove" ∷ "reboot" ∷ "shutdown" ∷ "wipe" ∷ "factory" ∷ [])

abbrev pub gate_tokens : List Text
gate_tokens = words (
    "write" ∷ "credential" ∷ "secret" ∷ "control" ∷ "set" ∷ "configure" ∷ "update" ∷ "create"
    ∷ "send" ∷ "actuate" ∷ "switch" ∷ [])

abbrev pub self_tokens : List Text
self_tokens =
    words
      ("read" ∷ "query" ∷ "list" ∷ "get" ∷ "view" ∷ "convert" ∷ "render" ∷ "search" ∷ "status" ∷ [])

abbrev pub destructive_verbs : List Text
destructive_verbs = words (
    "delete" ∷ "destroy" ∷ "remove" ∷ "wipe" ∷ "factory" ∷ "reset" ∷ "revoke" ∷ "purge" ∷ "forget"
    ∷ "reboot" ∷ "shutdown" ∷ "drop" ∷ "clear" ∷ "flush" ∷ "erase" ∷ [])

abbrev pub write_verbs : List Text
write_verbs = words (
    "create" ∷ "update" ∷ "set" ∷ "add" ∷ "enable" ∷ "disable" ∷ "block" ∷ "unblock" ∷ "authorize"
    ∷ "deauthorize" ∷ "reauthorize" ∷ "restart" ∷ "adopt" ∷ "provision" ∷ "assign" ∷ "move"
    ∷ "rename" ∷ "configure" ∷ "send" ∷ "actuate" ∷ "switch" ∷ "apply" ∷ "start" ∷ "stop" ∷ "kick"
    ∷ "ban" ∷ "write" ∷ "edit" ∷ "modify" ∷ "grant" ∷ "deny" ∷ "put" ∷ "post" ∷ "patch" ∷ "upsert"
    ∷ "toggle" ∷ "trigger" ∷ "run" ∷ "exec" ∷ "execute" ∷ "invoke" ∷ [])

abbrev pub read_verbs : List Text
read_verbs = words (
    "list" ∷ "get" ∷ "describe" ∷ "read" ∷ "show" ∷ "search" ∷ "query" ∷ "find" ∷ "stat" ∷ "stats"
    ∷ "count" ∷ "fetch" ∷ "view" ∷ "status" ∷ "info" ∷ "inspect" ∷ "export" ∷ "ls" ∷ [])

abbrev pub unifi_read_only : List Text
unifi_read_only = words (
    "get_acl_rule" ∷ "get_application_info" ∷ "get_client" ∷ "get_device" ∷ "get_device_stats"
    ∷ "get_dns_policy" ∷ "get_firewall_policy" ∷ "get_firewall_zone" ∷ "get_lag"
    ∷ "get_mc_lag_domain" ∷ "get_switch_stack" ∷ "get_traffic_matching_list" ∷ "list_acl_rules"
    ∷ "list_clients" ∷ "list_devices" ∷ "list_dns_policies" ∷ "list_firewall_policies"
    ∷ "list_firewall_zones" ∷ "list_lags" ∷ "list_mc_lag_domains" ∷ "list_pending_devices"
    ∷ "list_sites" ∷ "list_switch_stacks" ∷ "list_traffic_matching_lists" ∷ [])

abbrev pub unifi_sensitive : List Text
unifi_sensitive = words (
    "get_wlan" ∷ "list_wlans" ∷ "get_voucher" ∷ "list_vouchers" ∷ "list_radius_profiles"
    ∷ "list_vpn_servers" ∷ "list_vpn_tunnels" ∷ "list_wans" ∷ "get_network" ∷ "list_networks" ∷ [])

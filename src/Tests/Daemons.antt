-- ===== src/Tests/Daemons.antt =====
-- The health checker, the BGP speaker, the agent and the configuration.
use router_ui.Base.{◌≡◌, ◌≢◌, refl, [], ◌∷◌, false, true, some, ok}
use router_ui.Base.Dict.{lookup}
use router_ui.Net.{contains, to4, be_value}
use router_ui.Registry.{Registry, bgp_remove_peer}
use router_ui.Registry.Store.{mark_down, record_heartbeat, beaten}
use router_ui.CoreDaemon.{core_identity, Logged}
use router_ui.CoreDaemon.Recovery.{recovered_peer}
use router_ui.Speaker.{
  SpeakerConfig, new_speaker, add_path, delete_path, route_del, announced, announce_route,
  withdraw_route, BestPath, watch_best_paths,
}
use router_ui.Speaker.Paths.{withdraw-announce}
use router_ui.Speaker.Fib.{withdrawal, foreign_withdrawal}
use router_ui.Agent.{core_peer}
use router_ui.Api.{RegisterResponse}
use router_ui.Config.{CoreConfig}
use router_ui.CoreDaemon.Bootstrap.{no_endpoint}
use router_ui.Registry.Register.{register_node, build_register_response}
use router_ui.Tests.{env, body_of, texts, aggregate, wg_range}
use router_ui.Tests.Nodes.{one_node, first}

abbrev logged : Logged
logged = (one_node, [])

-- The node's last sign of life was at 7.
recovered_peer_example :
    let marked = mark_down texts "a" one_node in
    let beat = record_heartbeat texts 120 "a" true marked.0 in
    (marked.1 ≡ bgp_remove_peer "10.100.0.2" ∷ [])
    × (lookup "a" beat.1.nodes ≡ some (beaten 120 true first))
    × (beat.2 ≡ [])
unfolding lookup
recovered_peer_example = recovered_peer texts 120 "a" true one_node first refl refl refl

abbrev speaker_cfg : SpeakerConfig
speaker_cfg = record {
  asn = 65000;
  router_id = "10.100.0.1";
  listen_addr = "10.100.0.1";
  listen_port = 179;
  hold_time = 90;
  keepalive = 30;
  wg_interface = "wg-core";
  wg_peer_range = "10.100.0.0/30";
}

withdraw-announce_example :
    let up =
      announce_route texts (ok "uuid") "203.0.113.0/24" "10.100.0.2" (new_speaker speaker_cfg) in
    let gone = withdraw_route texts (ok tt) "203.0.113.0/24" up.speaker in
    (up.result ≡ ok tt)
    × (up.calls ≡ add_path (announced speaker_cfg aggregate "10.100.0.2") ∷ [])
    × (gone.result ≡ ok tt)
    × (gone.calls ≡ delete_path "uuid" ∷ [])
    × (gone.speaker ≡ new_speaker speaker_cfg)
unfolding lookup new_speaker
withdraw-announce_example =
    withdraw-announce texts "203.0.113.0/24" "10.100.0.2" "uuid" aggregate (new_speaker speaker_cfg)
      refl refl

-- A path whose next hop is outside the range of the tunnels.
abbrev foreign_path : BestPath
foreign_path = record {
  nlri = some "203.0.113.0/24";
  is_withdraw = false;
  next_hops = "192.0.2.9" ∷ [];
}

range_set : speaker_cfg.wg_peer_range ≢ ""
range_set e = cc

interface_set : speaker_cfg.wg_interface ≢ ""
interface_set e = cc

foreign_withdrawal_example :
    watch_best_paths texts speaker_cfg (foreign_path ∷ withdrawal foreign_path ∷ [])
    ≡ route_del aggregate ∷ []
unfolding contains to4 be_value
foreign_withdrawal_example =
    foreign_withdrawal texts speaker_cfg foreign_path wg_range aggregate interface_set range_set
      refl refl refl refl

abbrev pub answered : RegisterResponse
answered = record {
  wg_ip = "10.100.0.2";
  assigned_subnet = "203.0.113.0/26";
  core_wg_ip = "10.100.0.1";
  core_wg_public_key = "core key";
  core_public_ip = "198.51.100.1";
  core_wg_port = 51820;
  bgp_peer_ip = "10.100.0.1";
  bgp_peer_asn = 65000;
}

abbrev pub core_config : CoreConfig
core_config = record {
  bgp = record {
    asn = 65000;
    router_id = "10.100.0.1";
    listen_addr = "";
    listen_port = 179;
    hold_time = 90;
    keepalive = 30;
    upstreams = record { name = "isp"; address = "192.0.2.9"; asn = 64500; password = "" } ∷ [];
  };
  wireguard = record {
    interface = "wg-core";
    listen_port = 51820;
    private_key = "key";
    address = "10.100.0.1/24";
    mtu = 1420;
  };
  network = record {
    aggregate_prefix = "203.0.113.0/24";
    subnet_bits = 26;
    wg_peer_range = "10.100.0.0/24";
    wg_core_ip = "10.100.0.1";
  };
  api = record { listen = ":8080"; tls_cert = ""; tls_key = ""; api_key = "secret" };
  health = record { heartbeat_timeout = 90; check_interval = 15 };
  log_level = "info";
}

-- The registry as the core makes it, with one node.
abbrev started : Registry
started = record one_node { core = core_identity core_config "core key" }

abbrev first_answer : RegisterResponse
first_answer = record answered { assigned_subnet = "203.0.113.0/26"; core_public_ip = "" }

no_endpoint_example :
    (core_peer texts first_answer "core key").endpoint ≡ some (record { ip = []; port = 51820 })
unfolding register_node build_register_response lookup
no_endpoint_example =
    no_endpoint env 9 (body_of "a") "node key" "core key" started core_config first_answer refl refl
      refl

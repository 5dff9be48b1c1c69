-- ===== src/CoreDaemon/Start.antt =====
-- run of cmd/core/main.go, from the loaded configuration up to the registry (the rest is in Running): the calls of the other components in their order.
-- A method of another component is one call here, with its text as its answer; what the methods do
-- is in the modules of the components. The start of the BGP server in a goroutine is a call of
-- which nothing is read.
use router_ui.Base.{ℕ, Bool, true, List, [], ◌∷◌, String, Result, ok, err, Option}
use router_ui.Base.Calls.{Act, pure, perform, attempt, ◌>>=◌, ◌>>◌}
use router_ui.Net.{Texts}
use router_ui.Config.{CoreConfig, BgpUpstream}
use router_ui.WireGuard.{InterfaceConfig}
use router_ui.Speaker.{SpeakerConfig}
use router_ui.Subnet
use router_ui.WgPool
use router_ui.Registry.{Registry}
use router_ui.Registry.Store.{new_registry}
use router_ui.CoreDaemon.{core_callbacks, listen_addr, core_identity}

-- The HTTP server: its address, its timeouts in seconds, and the least TLS version.
pub record HttpServer : Type 0 where
  pub addr : String
  pub read_timeout : ℕ
  pub write_timeout : ℕ
  pub idle_timeout : ℕ
  pub min_version : Option String

pub data Call : Type 0 where
  parse_key new_manager : String → Call
  wg_setup : InterfaceConfig → Call
  wg_public_key : Call
  start_speaker : SpeakerConfig → Call
  -- NewPolicyManager over an aggregate and a length, and Apply.
  apply_policies : String → ℕ → Call
  add_peer : String → ℕ → Call
  add_upstream_export_policy : String → Call
  announce_route : String → String → Call
  -- The health checker's timeout and interval.
  run_checker : ℕ → ℕ → Call
  new_web_ui : String → Call
  listen_and_serve : HttpServer → Call
  listen_and_serve_tls : HttpServer → String → String → Call
  log_error : String → Call
  shutdown : Call

pub data Error : Type 0 where
  bad_private_key no_manager no_interface no_public_key policies_failed announce_failed not_loaded
        no_web_ui :
      String → Error
  no_allocator : Subnet.Error → Error
  no_registry : WgPool.Error → Error

abbrev pub core_interface : CoreConfig → String → InterfaceConfig
core_interface cfg private_key = record {
  name = cfg.wireguard.interface;
  private_key = private_key;
  listen_port = cfg.wireguard.listen_port;
  address = cfg.wireguard.address;
  mtu = cfg.wireguard.mtu;
}

abbrev pub core_speaker : CoreConfig → SpeakerConfig
core_speaker cfg = record {
  asn = cfg.bgp.asn;
  router_id = cfg.bgp.router_id;
  listen_addr = listen_addr cfg.bgp.listen_addr cfg.network.wg_core_ip;
  listen_port = cfg.bgp.listen_port;
  hold_time = cfg.bgp.hold_time;
  keepalive = cfg.bgp.keepalive;
  wg_interface = cfg.wireguard.interface;
  wg_peer_range = cfg.network.wg_peer_range;
}

-- A constructor's result.
abbrev pub made_by : {E A : Type 0} → (E → Error) → Result E A → Act Call Error A
made_by wrap (ok a) w done = (ok a, done)
made_by wrap (err e) w done = (err (wrap e), done)

-- The loop over the upstreams; the errors are only logged.
unfoldable pub start_upstreams : List BgpUpstream → Act Call Error Bool
start_upstreams [] = pure true
start_upstreams (up ∷ ups) =
    attempt (add_peer up.address up.asn)
    >> attempt (add_upstream_export_policy up.address)
    >> start_upstreams ups

-- The WireGuard interface: its public key.
unfoldable pub start_wireguard : CoreConfig → Act Call Error String
start_wireguard cfg = do
  private_key ← perform bad_private_key (parse_key cfg.wireguard.private_key)
  perform no_manager (new_manager cfg.wireguard.interface)
  perform no_interface (wg_setup (core_interface cfg private_key))
  perform no_public_key wg_public_key

-- The BGP speaker: the policies, the upstreams, the aggregate.
unfoldable pub start_bgp : CoreConfig → Act Call Error String
start_bgp cfg = do
  attempt (start_speaker (core_speaker cfg))
  perform policies_failed (apply_policies cfg.network.aggregate_prefix cfg.network.subnet_bits)
  start_upstreams cfg.bgp.upstreams
  perform announce_failed (announce_route cfg.network.aggregate_prefix cfg.network.wg_core_ip)

-- The allocator and the registry, whose pool loop gets `fuel` rounds.
unfoldable pub start_registry : ℕ → Texts → CoreConfig → String → Act Call Error Registry
start_registry fuel t cfg public_key = do
  alloc ←
      made_by no_allocator
        (Subnet.new_allocator t cfg.network.aggregate_prefix cfg.network.subnet_bits)
  made_by no_registry (
      new_registry fuel t alloc (core_identity cfg public_key) cfg.network.wg_peer_range
        core_callbacks)

unfoldable pub start : ℕ → Texts → CoreConfig → Act Call Error Registry
start fuel t cfg = do
  public_key ← start_wireguard cfg
  start_bgp cfg
  start_registry fuel t cfg public_key

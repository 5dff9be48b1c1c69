-- ===== src/Config.antt =====
-- pkg/config/config.go: the configuration of both programs and its validation. Reading it
-- from a file is in Load. Durations are in nanoseconds; the integers that the
-- validation does not read are taken as not negative.
pub mod Validation
pub mod Load
pub mod Defaults
pub mod Documented
use router_ui.Base.{
  ℕ, ◌↔◌, ◌≡◌, ◌≢◌, arith, List, String, ◌==◌, eq_iff, nat_eq, Option, none, some, Bool, true,
  false, if◌then◌else◌,
}

pub record BgpUpstream : Type 0 where
  pub name : String
  pub address : String
  pub asn : ℕ
  pub password : String

pub record CoreBgpConfig : Type 0 where
  pub asn : ℕ
  pub router_id : String
  pub listen_addr : String
  pub listen_port : ℕ
  pub hold_time : ℕ
  pub keepalive : ℕ
  pub upstreams : List BgpUpstream

pub record WireGuardConfig : Type 0 where
  pub interface : String
  pub listen_port : ℕ
  pub private_key : String
  pub address : String
  pub mtu : ℕ

pub record NetworkConfig : Type 0 where
  pub aggregate_prefix : String
  pub subnet_bits : ℕ
  pub wg_peer_range : String
  pub wg_core_ip : String

pub record ApiConfig : Type 0 where
  pub listen : String
  pub tls_cert : String
  pub tls_key : String
  pub api_key : String

pub record HealthConfig : Type 0 where
  pub heartbeat_timeout : ℕ
  pub check_interval : ℕ

pub record CoreConfig : Type 0 where
  pub bgp : CoreBgpConfig
  pub wireguard : WireGuardConfig
  pub network : NetworkConfig
  pub api : ApiConfig
  pub health : HealthConfig
  pub log_level : String

pub record CoreConnectionConfig : Type 0 where
  pub public_ip : String
  pub api_port : ℕ
  pub api_key : String

pub record AgentWgConfig : Type 0 where
  pub interface : String
  pub private_key : String
  pub listen_port : ℕ
  pub public_ip : String
  pub mtu : ℕ

pub record AgentBgpConfig : Type 0 where
  pub hold_time : ℕ
  pub keepalive : ℕ

pub record AgentConfig : Type 0 where
  pub node_id : String
  pub core : CoreConnectionConfig
  pub wireguard : AgentWgConfig
  pub bgp : AgentBgpConfig
  pub heartbeat_interval : ℕ
  pub log_level : String

-- The validation: none, or the error's text.
unfoldable pub validate_core_config : CoreConfig → Option String
validate_core_config c =
    if nat_eq c.bgp.asn 0
    then some "bgp.asn must be set"
    else if c.bgp.router_id == ""
    then some "bgp.router_id must be set"
    else if c.wireguard.private_key == ""
    then some "wireguard.private_key must be set"
    else if c.wireguard.address == ""
    then some "wireguard.address must be set"
    else if c.network.aggregate_prefix == ""
    then some "network.aggregate_prefix must be set"
    else if c.api.api_key == ""
    then some "api.api_key must be set"
    else none

unfoldable pub validate_agent_config : AgentConfig → Option String
validate_agent_config c =
    if c.node_id == ""
    then some "node_id must be set"
    else if c.core.public_ip == ""
    then some "core.public_ip must be set"
    else if c.core.api_key == ""
    then some "core.api_key must be set"
    else if c.wireguard.public_ip == ""
    then some "wireguard.public_ip must be set (this node's public IP)"
    else none

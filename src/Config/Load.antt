-- ===== src/Config/Load.antt =====
-- LoadCoreConfig and LoadAgentConfig of pkg/config/config.go. The package viper, which reads the
-- file and fills in the structs, is a record of the operations that the code calls.
use router_ui.Base.{ℕ, List, [], ◌∷◌, Option, none, some, String, Result, ok, err}
use router_ui.Base.Text.{◌+++◌}
use router_ui.Config.{CoreConfig, AgentConfig, validate_core_config, validate_agent_config}

-- What a key is set to. Durations are set as texts and read as nanoseconds.
pub data Value : Type 0 where
  number duration : ℕ → Value
  text : String → Value

-- The operations, on viper's own state `V`.
pub record Viper (V : Type 0) : Type 0 where
  pub new : V
  pub set_config_file : String → V → V
  pub set_default : String → Value → V → V
  pub read_in_config : V → Result String V
  pub unmarshal_core : V → Result String CoreConfig
  pub unmarshal_agent : V → Result String AgentConfig

-- The fields that have defaults.
pub data Key : Type 0 where
  log_level bgp_listen_port bgp_hold_time bgp_keepalive network_subnet_bits api_listen
        wireguard_interface wireguard_listen_port wireguard_mtu health_heartbeat_timeout
        health_check_interval core_api_port heartbeat_interval :
      Key

-- The path that the tags of the structs' fields make.
abbrev pub tag_path : Key → String
tag_path log_level = "log_level"
tag_path bgp_listen_port = "bgp.listen_port"
tag_path bgp_hold_time = "bgp.hold_time"
tag_path bgp_keepalive = "bgp.keepalive"
tag_path network_subnet_bits = "network.subnet_bits"
tag_path api_listen = "api.listen"
tag_path wireguard_interface = "wireguard.interface"
tag_path wireguard_listen_port = "wireguard.listen_port"
tag_path wireguard_mtu = "wireguard.mtu"
tag_path health_heartbeat_timeout = "health.heartbeat_timeout"
tag_path health_check_interval = "health.check_interval"
tag_path core_api_port = "core.api_port"
tag_path heartbeat_interval = "heartbeat_interval"

-- The field of a key.
abbrev pub core_setting : CoreConfig → Key → Option Value
core_setting c log_level = some (text c.log_level)
core_setting c bgp_listen_port = some (number c.bgp.listen_port)
core_setting c bgp_hold_time = some (number c.bgp.hold_time)
core_setting c bgp_keepalive = some (number c.bgp.keepalive)
core_setting c network_subnet_bits = some (number c.network.subnet_bits)
core_setting c api_listen = some (text c.api.listen)
core_setting c wireguard_interface = some (text c.wireguard.interface)
core_setting c wireguard_listen_port = some (number c.wireguard.listen_port)
core_setting c wireguard_mtu = some (number c.wireguard.mtu)
core_setting c health_heartbeat_timeout = some (duration c.health.heartbeat_timeout)
core_setting c health_check_interval = some (duration c.health.check_interval)
core_setting c core_api_port = none
core_setting c heartbeat_interval = none

abbrev pub agent_setting : AgentConfig → Key → Option Value
agent_setting c log_level = some (text c.log_level)
agent_setting c bgp_hold_time = some (number c.bgp.hold_time)
agent_setting c bgp_keepalive = some (number c.bgp.keepalive)
agent_setting c wireguard_interface = some (text c.wireguard.interface)
agent_setting c wireguard_listen_port = some (number c.wireguard.listen_port)
agent_setting c wireguard_mtu = some (number c.wireguard.mtu)
agent_setting c core_api_port = some (number c.core.api_port)
agent_setting c heartbeat_interval = some (duration c.heartbeat_interval)
agent_setting c _ = none

abbrev pub Defaults : Type 0
Defaults = List (String × Value)

-- The calls of SetDefault, in their order.
abbrev pub set_defaults : {V : Type 0} → Viper V → Defaults → V → V
set_defaults v [] s = s
set_defaults v ((key, value) ∷ rest) s = set_defaults v rest (v.set_default key value s)

abbrev pub core_defaults : Defaults
core_defaults =
    ("log_level", text "info")
    ∷ ("bgp.listen_port", number 179)
    ∷ ("bgp.hold_time", number 90)
    ∷ ("bgp.keepalive", number 30)
    ∷ ("network.subnet_bits", number 26)
    ∷ ("api.listen", text "0.0.0.0:8080")
    ∷ ("wireguard.interface", text "wg-core")
    ∷ ("wireguard.listen_port", number 51820)
    ∷ ("wireguard.mtu", number 1420)
    ∷ ("health.heartbeat_timeout", text "90s")
    ∷ ("health.check_interval", text "15s")
    ∷ []

abbrev pub agent_defaults : Defaults
agent_defaults =
    ("log_level", text "info")
    ∷ ("bgp.hold_time", number 90)
    ∷ ("bgp.keepalive", number 30)
    ∷ ("wireguard.interface", text "wg0")
    ∷ ("wireguard.listen_port", number 51820)
    ∷ ("wireguard.mtu", number 1420)
    ∷ ("core.api_port", number 8080)
    ∷ ("heartbeat_interval", text "30s")
    ∷ []

-- What is returned: a valid configuration without an error, an invalid one with the validation's
-- error, or none with an error.
pub data Loaded (C : Type 0) : Type 0 where
  valid : C → Loaded C
  invalid : C → String → Loaded C
  unread : String → Loaded C

abbrev pub validated : {C : Type 0} → C → Option String → Loaded C
validated cfg none = valid cfg
validated cfg (some e) = invalid cfg e

abbrev pub core_unmarshalled : Result String CoreConfig → Loaded CoreConfig
core_unmarshalled (err e) = unread ("unmarshal core config: " +++ e)
core_unmarshalled (ok cfg) = validated cfg (validate_core_config cfg)

abbrev pub agent_unmarshalled : Result String AgentConfig → Loaded AgentConfig
agent_unmarshalled (err e) = unread ("unmarshal agent config: " +++ e)
agent_unmarshalled (ok cfg) = validated cfg (validate_agent_config cfg)

module _ {V : Type 0} (v : Viper V) where
  abbrev pub core_read : String → Result String V → Loaded CoreConfig
  core_read path (err e) = unread ("read core config " +++ (path +++ (": " +++ e)))
  core_read path (ok s) = core_unmarshalled (v.unmarshal_core s)

  abbrev pub agent_read : String → Result String V → Loaded AgentConfig
  agent_read path (err e) = unread ("read agent config " +++ (path +++ (": " +++ e)))
  agent_read path (ok s) = agent_unmarshalled (v.unmarshal_agent s)

  unfoldable pub load_core_config : String → Loaded CoreConfig
  load_core_config path =
      core_read path
        (v.read_in_config (set_defaults v core_defaults (v.set_config_file path v.new)))

  unfoldable pub load_agent_config : String → Loaded AgentConfig
  load_agent_config path =
      agent_read path
        (v.read_in_config (set_defaults v agent_defaults (v.set_config_file path v.new)))

-- ===== src/Tests/Files.antt =====
-- A reader of configurations that behaves as viper documents, over files that set little.
use router_ui.Base.{
  ℕ, Bool, true, false, [], ◌∷◌, Option, none, some, String, ◌==◌, if◌then◌else◌, ok,
}
use router_ui.Base.Dict.{Dict, lookup, insert}
use router_ui.Config.{CoreConfig, AgentConfig}
use router_ui.Config.Load.{Value, number, text, Viper}
use router_ui.Tests.Devices.{small_core}
use router_ui.Tests.Starts.{agent_config}

abbrev pub Settings : Type 0
Settings = Dict Value

-- The path, the defaults, and the file's settings once it is read.
pub record State : Type 0 where
  pub path : String
  pub defaults : Settings
  pub read : Option Settings

-- Each file sets the level of the log alone.
abbrev pub contents : Settings
contents = ("log_level", text "debug") ∷ []

abbrev pub parse : String → Option ℕ
parse s =
    if s == "90s"
    then some 90_000_000_000
    else if s == "30s"
    then some 30_000_000_000
    else if s == "15s"
    then some 15_000_000_000
    else none

abbrev pub in_file : Option Settings → String → Option Value
in_file none key = none
in_file (some settings) key = lookup key settings

abbrev pub or_else : Option Value → Option Value → Option Value
or_else none x = x
or_else (some y) x = some y

abbrev pub get : State → String → Option Value
get s key = or_else (in_file s.read key) (lookup key s.defaults)

abbrev pub number_of : Option Value → ℕ
number_of (some (number n)) = n
number_of _ = 0

abbrev pub text_of : Option Value → String
text_of (some (text s)) = s
text_of _ = ""

abbrev pub parsed : Option ℕ → ℕ
parsed none = 0
parsed (some d) = d

abbrev pub duration_of : Option Value → ℕ
duration_of (some (text s)) = parsed (parse s)
duration_of _ = 0

abbrev pub core_from : State → CoreConfig
core_from s = record small_core {
  log_level = text_of (get s "log_level");
  bgp = record small_core.bgp {
    listen_port = number_of (get s "bgp.listen_port");
    hold_time = number_of (get s "bgp.hold_time");
    keepalive = number_of (get s "bgp.keepalive");
  };
  network = record small_core.network { subnet_bits = number_of (get s "network.subnet_bits") };
  api = record small_core.api { listen = text_of (get s "api.listen") };
  wireguard = record small_core.wireguard {
    interface = text_of (get s "wireguard.interface");
    listen_port = number_of (get s "wireguard.listen_port");
    mtu = number_of (get s "wireguard.mtu");
  };
  health = record {
    heartbeat_timeout = duration_of (get s "health.heartbeat_timeout");
    check_interval = duration_of (get s "health.check_interval");
  };
}

abbrev pub agent_from : State → AgentConfig
agent_from s = record agent_config {
  node_id = "a";
  log_level = text_of (get s "log_level");
  bgp = record {
    hold_time = number_of (get s "bgp.hold_time");
    keepalive = number_of (get s "bgp.keepalive");
  };
  wireguard = record agent_config.wireguard {
    interface = text_of (get s "wireguard.interface");
    listen_port = number_of (get s "wireguard.listen_port");
    mtu = number_of (get s "wireguard.mtu");
  };
  core = record agent_config.core { api_port = number_of (get s "core.api_port") };
  heartbeat_interval = duration_of (get s "heartbeat_interval");
}

abbrev pub viper : Viper State
viper = record {
  new = record { path = ""; defaults = []; read = none };
  set_config_file = λ path s. record s { path = path };
  set_default = λ key x s. record s { defaults = insert key x s.defaults };
  read_in_config = λ s. ok (record s { read = some contents });
  unmarshal_core = λ s. ok (core_from s);
  unmarshal_agent = λ s. ok (agent_from s);
}

abbrev pub path_of : State → String
path_of s = s.path

abbrev pub fresh : State → Bool
fresh s = elim s.read [ none ↦ true | some settings ↦ false ]

abbrev pub file : String → String → Bool
file path key = elim (lookup key contents) [ none ↦ false | some x ↦ true ]

-- ===== src/Config/Defaults.antt =====
-- LoadCoreConfig of pkg/config/config.go: what is checked, and what each field holds that the
-- configuration file leaves out.
use router_ui.Base.{some, String, ◌≡◌, ◌≢◌, refl, Bool, true, false, if◌then◌else◌, ℕ, Option}
use router_ui.Config.{CoreConfig}
use router_ui.Config.Validation.{validate_core_config-none_iff}
use router_ui.Config.Load.{
  Value, number, duration, text, Viper, valid, load_core_config, log_level, bgp_listen_port,
  bgp_hold_time, bgp_keepalive, network_subnet_bits, api_listen, wireguard_interface,
  wireguard_listen_port, wireguard_mtu, health_heartbeat_timeout, health_check_interval,
}
use router_ui.Config.Documented.{IsViper, read_as, core_loaded}

number_inj : (a b : ℕ) → number a ≡ number b → a ≡ b
number_inj a b e = cc e

pub duration_inj : (a b : ℕ) → duration a ≡ duration b → a ≡ b
duration_inj a b e = cc e

text_inj : (a b : String) → text a ≡ text b → a ≡ b
text_inj a b e = cc e

default_field :
    {A : Type 0} (set : Bool) (x d : A) → (set ≡ false → x ≡ d) → x ≡ (if set then x else d)
default_field true x d out = refl
default_field false x d out = out refl

-- A core configuration that is loaded without an error has an ASN other than 0 and no empty
-- router ID, private key, tunnel address, aggregate prefix or API key; and where the file leaves the
-- key out, the log level is info, the BGP port 179, the hold time 90 and the keepalive time 30, the
-- blocks have 26 bits, the API listens at 0.0.0.0:8080, the WireGuard interface is wg-core with port
-- 51820 and an MTU of 1420, the heartbeat timeout is 90 seconds and the check interval 15. viper and
-- time.ParseDuration, in nanoseconds, behave as documented.
pub load_core_config-ok :
    {V : Type 0} (v : Viper V) (get : V → String → Option Value) (path_of : V → String)
    (fresh : V → Bool) (file : String → String → Bool) (parse : String → Option ℕ) (path : String)
    (cfg : CoreConfig)
    → IsViper v get path_of fresh file parse
    → parse "90s" ≡ some 90_000_000_000
    → parse "15s" ≡ some 15_000_000_000
    → load_core_config v path ≡ valid cfg
    → ((cfg.bgp.asn ≢ 0)
        × (cfg.bgp.router_id ≢ "")
        × (cfg.wireguard.private_key ≢ "")
        × (cfg.wireguard.address ≢ "")
        × (cfg.network.aggregate_prefix ≢ "")
        × (cfg.api.api_key ≢ ""))
      × (cfg.log_level ≡ (if file path "log_level" then cfg.log_level else "info"))
      × (cfg.bgp.listen_port ≡ (if file path "bgp.listen_port" then cfg.bgp.listen_port else 179))
      × (cfg.bgp.hold_time ≡ (if file path "bgp.hold_time" then cfg.bgp.hold_time else 90))
      × (cfg.bgp.keepalive ≡ (if file path "bgp.keepalive" then cfg.bgp.keepalive else 30))
      × (cfg.network.subnet_bits
          ≡ (if file path "network.subnet_bits" then cfg.network.subnet_bits else 26))
      × (cfg.api.listen ≡ (if file path "api.listen" then cfg.api.listen else "0.0.0.0:8080"))
      × (cfg.wireguard.interface
          ≡ (if file path "wireguard.interface" then cfg.wireguard.interface else "wg-core"))
      × (cfg.wireguard.listen_port
          ≡ (if file path "wireguard.listen_port" then cfg.wireguard.listen_port else 51_820))
      × (cfg.wireguard.mtu ≡ (if file path "wireguard.mtu" then cfg.wireguard.mtu else 1_420))
      × (cfg.health.heartbeat_timeout ≡ (
          if file path "health.heartbeat_timeout"
          then cfg.health.heartbeat_timeout
          else 90_000_000_000))
      × (cfg.health.check_interval ≡ (
          if file path "health.check_interval" then cfg.health.check_interval else 15_000_000_000))
load_core_config-ok v get path_of fresh file parse path cfg viper ninety fifteen loaded =
    let (checked, fields) = core_loaded v get path_of fresh file parse viper path cfg loaded in
    (
      (validate_core_config-none_iff cfg).0 checked,
      default_field (file path "log_level") cfg.log_level "info"
          (λ out. text_inj _ _ (fields log_level (text "info") _ _ out refl refl refl)),
      default_field (file path "bgp.listen_port") cfg.bgp.listen_port 179
          (λ out. number_inj _ _ (fields bgp_listen_port (number 179) _ _ out refl refl refl)),
      default_field (file path "bgp.hold_time") cfg.bgp.hold_time 90
          (λ out. number_inj _ _ (fields bgp_hold_time (number 90) _ _ out refl refl refl)),
      default_field (file path "bgp.keepalive") cfg.bgp.keepalive 30
          (λ out. number_inj _ _ (fields bgp_keepalive (number 30) _ _ out refl refl refl)),
      default_field (file path "network.subnet_bits") cfg.network.subnet_bits 26
          (λ out. number_inj _ _ (fields network_subnet_bits (number 26) _ _ out refl refl refl)),
      default_field (file path "api.listen") cfg.api.listen "0.0.0.0:8080"
          (λ out. text_inj _ _ (fields api_listen (text "0.0.0.0:8080") _ _ out refl refl refl)),
      default_field (file path "wireguard.interface") cfg.wireguard.interface "wg-core" (λ out.
          text_inj _ _ (fields wireguard_interface (text "wg-core") _ _ out refl refl refl)),
      default_field (file path "wireguard.listen_port") cfg.wireguard.listen_port 51_820 (λ out.
          number_inj _ _ (fields wireguard_listen_port (number 51_820) _ _ out refl refl refl)),
      default_field (file path "wireguard.mtu") cfg.wireguard.mtu 1_420
          (λ out. number_inj _ _ (fields wireguard_mtu (number 1_420) _ _ out refl refl refl)),
      default_field (file path "health.heartbeat_timeout") cfg.health.heartbeat_timeout
          90_000_000_000
          (λ out. duration_inj _ _ (
            fields health_heartbeat_timeout (text "90s") _ _ out refl refl
              (rw (read_as, ninety) refl))),
      default_field (file path "health.check_interval") cfg.health.check_interval 15_000_000_000
          (λ out. duration_inj _ _ (
            fields health_check_interval (text "15s") _ _ out refl refl
              (rw (read_as, fifteen) refl))),
    )

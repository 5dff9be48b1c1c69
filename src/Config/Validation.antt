-- ===== src/Config/Validation.antt =====
-- What the validation of the configurations lets through.
use router_ui.Base.{◌↔◌, ◌≡◌, ◌≢◌, arith, eq_iff, none}
use router_ui.Config.{CoreConfig, AgentConfig, validate_core_config, validate_agent_config}

-- The core's configuration is accepted exactly when its ASN is not 0 and its router ID, private
-- key, tunnel address, aggregate prefix and API key are not empty.
pub validate_core_config-none_iff :
    (c : CoreConfig)
    → (validate_core_config c ≡ none) ↔ (
        (c.bgp.asn ≢ 0)
        × (c.bgp.router_id ≢ "")
        × (c.wireguard.private_key ≢ "")
        × (c.wireguard.address ≢ "")
        × (c.network.aggregate_prefix ≢ "")
        × (c.api.api_key ≢ ""))
unfolding validate_core_config
validate_core_config-none_iff c = ground (
  arith,
  eq_iff c.bgp.router_id "",
  eq_iff c.wireguard.private_key "",
  eq_iff c.wireguard.address "",
  eq_iff c.network.aggregate_prefix "",
  eq_iff c.api.api_key "",
)

-- The agent's configuration is accepted exactly when its node ID, its own public address and the
-- core's public address and API key are not empty.
pub validate_agent_config-none_iff :
    (c : AgentConfig)
    → (validate_agent_config c ≡ none) ↔ (
        (c.node_id ≢ "")
        × (c.core.public_ip ≢ "")
        × (c.core.api_key ≢ "")
        × (c.wireguard.public_ip ≢ ""))
unfolding validate_agent_config
validate_agent_config-none_iff c = ground (
  arith,
  eq_iff c.node_id "",
  eq_iff c.core.public_ip "",
  eq_iff c.core.api_key "",
  eq_iff c.wireguard.public_ip "",
)

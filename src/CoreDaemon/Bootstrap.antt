-- ===== src/CoreDaemon/Bootstrap.antt =====
-- cmd/core/main.go and cmd/agent/main.go: the address at which an agent looks for the core's tunnel.
use router_ui.Net.{Ip}
use router_ui.Base.{some, ℕ, [], String, ◌≡◌, ap, ◌∙◌, arith}
use router_ui.Api.{RegisterRequest, RegisterResponse}
use router_ui.Config.{CoreConfig}
use router_ui.Agent.{core_peer}
use router_ui.Registry.{Registry, Env, json_ok, registered}
use router_ui.Registry.Register.{
  build_register_response, register_node, allocate_wg_ip, allocate_subnet, install,
}
use router_ui.CoreDaemon.{core_identity}

-- Whatever a registration is answered, the core's public address in it is the registry's.
answered_ip :
    (env : Env) (now : ℕ) (req : RegisterRequest) (key : String) (r : Registry)
    (resp : RegisterResponse)
    → (register_node env now req key r).response ≡ json_ok (registered resp)
    → resp.core_public_ip ≡ r.core.public_ip
unfolding register_node allocate_wg_ip allocate_subnet install build_register_response
answered_ip env now req key r resp e = ground (arith, e)

-- An agent that was registered by a core, which is set up as in `run`, adds a WireGuard peer
-- for the core that has no endpoint address, if net.ParseIP gives nil for the empty text.
pub no_endpoint :
    (env : Env) (now : ℕ) (req : RegisterRequest) (key core_key : String) (r : Registry)
    (cfg : CoreConfig) (resp : RegisterResponse)
    → r.core ≡ core_identity cfg core_key
    → env.texts.parse_ip "" ≡ []
    → (register_node env now req key r).response ≡ json_ok (registered resp)
    → (core_peer env.texts resp core_key).endpoint
      ≡ some (record { ip = []; port = resp.core_wg_port })
unfolding core_peer
no_endpoint env now req key core_key r cfg resp core empty e =
    let address : env.texts.parse_ip resp.core_public_ip ≡ [] =
      ap env.texts.parse_ip (answered_ip env now req key r resp e ∙ ap (λ c. c.public_ip) core)
      ∙ empty in
    ap (λ (ip : Ip). some (record { ip = ip; port = resp.core_wg_port })) address

-- ===== src/Agent/Running.antt =====
-- run of cmd/agent/main.go from its first line on: the configuration, and then what Start has.
use router_ui.Base.{ℕ, Bool, [], String, ok, ◌≡◌, refl}
use router_ui.Base.Calls.{World, Act, fail}
use router_ui.Net.{Texts}
use router_ui.Api.{RegisterResponse}
use router_ui.Config.{AgentConfig}
use router_ui.Config.Load.{Viper, Loaded, valid, invalid, unread, load_agent_config}
use router_ui.Agent.{Reply, registered, register_with_retry}
use router_ui.Agent.Start
use router_ui.Agent.Start.{Call, parse_key, Error, not_loaded}
use router_ui.Agent.Announcing.{key_call, interface_calls, run_calls, run-calls}

module _ (t : Texts) (port_text : ℕ → String) (replies : AgentConfig → ℕ → Reply)
    (stops : ℕ → Bool) where
  abbrev run_loaded : Loaded AgentConfig → Act Call Error Bool
  run_loaded (valid cfg) = Start.run t port_text cfg (replies cfg) stops
  run_loaded (invalid cfg e) = fail (not_loaded e)
  run_loaded (unread e) = fail (not_loaded e)

  unfoldable pub run : {V : Type 0} → Viper V → String → Act Call Error Bool
  run v path = run_loaded (load_agent_config v path)

  loaded-calls :
      (loaded : Loaded AgentConfig) (w : World Call) (b : Bool)
      → (run_loaded loaded w []).0 ≡ ok b
      → (cfg : AgentConfig) × (loaded ≡ valid cfg)
        × (resp : RegisterResponse) × (key : String) × (core_key : String) × ((register_with_retry
              (replies cfg)
              stops).0
            ≡ registered resp)
        × (w [] (key_call cfg) ≡ ok key)
        × (w (interface_calls cfg resp key) (parse_key resp.core_wg_public_key) ≡ ok core_key)
        × ((run_loaded loaded w []).1 ≡ run_calls t port_text cfg resp key core_key)
  loaded-calls (valid cfg) w b ended =
      let (resp, key, core_key, joined, got, parsed, calls) =
        run-calls t port_text cfg (replies cfg) stops w b ended in
      (cfg, refl, resp, key, core_key, joined, got, parsed, calls)
  loaded-calls (invalid cfg e) w b ended = absurd (cc ended)
  loaded-calls (unread e) w b ended = absurd (cc ended)

  -- A run of the agent that ends without an error had a valid configuration, was registered, and has
  -- made exactly its calls, in their order, with the answers to two of them as the keys: the node's
  -- block is announced with the node's tunnel address, after the tunnel and the BGP session with
  -- the core have been set up, and withdrawn at the end.
  pub run-calls_all :
      {V : Type 0} (v : Viper V) (path : String) (w : World Call) (b : Bool)
      → (run v path w []).0 ≡ ok b
      → (cfg : AgentConfig) × (load_agent_config v path ≡ valid cfg)
        × (resp : RegisterResponse) × (key : String) × (core_key : String) × ((register_with_retry
              (replies cfg)
              stops).0
            ≡ registered resp)
        × (w [] (key_call cfg) ≡ ok key)
        × (w (interface_calls cfg resp key) (parse_key resp.core_wg_public_key) ≡ ok core_key)
        × ((run v path w []).1 ≡ run_calls t port_text cfg resp key core_key)
  unfolding run
  run-calls_all v path = loaded-calls (load_agent_config v path)

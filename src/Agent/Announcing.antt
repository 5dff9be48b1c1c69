-- ===== src/Agent/Announcing.antt =====
-- run of cmd/agent/main.go: what is announced and withdrawn.
use router_ui.Base.{
  ℕ, Bool, List, [], ◌∷◌, String, ◌==◌, ok, ◌≡◌, arith, ◌∙◌, ap, if◌then◌else◌, Result-cases, inl,
  inr,
}
use router_ui.Base.Calls.{World, Act, ◌>>=◌, ◌>>◌, and_then_ok, and_then_at}
use router_ui.Net.{Texts}
use router_ui.Api.{RegisterResponse}
use router_ui.Config.{AgentConfig}
use router_ui.Agent.{Reply, Ending, registered, register_with_retry, core_peer}
use router_ui.Agent.Start.{
  Call, generate_key, parse_key, new_manager, wg_setup, wg_add_peer, start_speaker, add_peer,
  wait_for_tunnel, announce_route, start_heartbeats, withdraw_route, Error, private_key,
  registration, agent_interface, agent_speaker, heartbeat_url, set_up_tunnel, join_fabric,
  leave_fabric, run,
}

abbrev pub key_call : AgentConfig → Call
key_call cfg =
    if cfg.wireguard.private_key == "" then generate_key else parse_key cfg.wireguard.private_key

-- The interface of the tunnel is set up.
abbrev pub interface_calls : AgentConfig → RegisterResponse → String → List Call
interface_calls cfg resp key =
    wg_setup (agent_interface cfg key resp)
    ∷ new_manager cfg.wireguard.interface
    ∷ key_call cfg
    ∷ []

-- The calls of a run that gets to its end, the newest first.
abbrev pub run_calls :
    Texts → (ℕ → String) → AgentConfig → RegisterResponse → String → String → List Call
run_calls t port_text cfg resp key core_key =
    withdraw_route resp.assigned_subnet
    ∷ start_heartbeats (heartbeat_url port_text cfg resp)
    ∷ announce_route resp.assigned_subnet resp.wg_ip
    ∷ wait_for_tunnel resp.core_wg_ip
    ∷ add_peer resp.bgp_peer_ip resp.bgp_peer_asn
    ∷ start_speaker (agent_speaker cfg resp)
    ∷ wg_add_peer (core_peer t resp core_key)
    ∷ parse_key resp.core_wg_public_key
    ∷ interface_calls cfg resp key

private_key_answer :
    (cfg : AgentConfig) (w : World Call) (key : String)
    → (private_key cfg w []).0 ≡ ok key
    → w [] (key_call cfg) ≡ ok key
unfolding private_key
private_key_answer cfg w key e = ground (arith, e)

private_key_calls :
    (cfg : AgentConfig) (w : World Call) → (private_key cfg w []).1 ≡ key_call cfg ∷ []
unfolding private_key
private_key_calls cfg w = ground arith

registration_ok :
    (ending : Ending) (w : World Call) (done : List Call) (resp : RegisterResponse)
    → (registration ending w done).0 ≡ ok resp
    → ending ≡ registered resp
registration_ok ending w done resp e = ground (arith, e)

registration_calls :
    (ending : Ending) (w : World Call) (done : List Call) → (registration ending w done).1 ≡ done
registration_calls ending w done = ground arith

set_up_tunnel_calls :
    (t : Texts) (cfg : AgentConfig) (key : String) (resp : RegisterResponse) (w : World Call)
    (text : String)
    → (set_up_tunnel t cfg key resp w (key_call cfg ∷ [])).0 ≡ ok text
    → (core_key : String) × (w (interface_calls cfg resp key) (parse_key resp.core_wg_public_key)
        ≡ ok core_key)
      × ((set_up_tunnel t cfg key resp w (key_call cfg ∷ [])).1
          ≡ wg_add_peer (core_peer t resp core_key)
            ∷ parse_key resp.core_wg_public_key
            ∷ interface_calls cfg resp key)
unfolding set_up_tunnel
set_up_tunnel_calls t cfg key resp w text e =
    elim (Result-cases (w (interface_calls cfg resp key) (parse_key resp.core_wg_public_key))) [
      | inl (x, failed) ↦ absurd (ground (arith, e, failed))
      | inr (core_key, parsed) ↦ (core_key, parsed, ground (arith, e, parsed))
    ]

join_fabric_calls :
    (port_text : ℕ → String) (cfg : AgentConfig) (resp : RegisterResponse) (w : World Call)
    (done : List Call) (text : String)
    → (join_fabric port_text cfg resp w done).0 ≡ ok text
    → (join_fabric port_text cfg resp w done).1
      ≡ announce_route resp.assigned_subnet resp.wg_ip
        ∷ wait_for_tunnel resp.core_wg_ip
        ∷ add_peer resp.bgp_peer_ip resp.bgp_peer_asn
        ∷ start_speaker (agent_speaker cfg resp)
        ∷ done
unfolding join_fabric
join_fabric_calls port_text cfg resp w done text e = ground (arith, e)

-- A run that gets to its end was registered and has made exactly its calls, in their order, with
-- the answers to two of them as the keys: the node's block is announced with the node's tunnel address, after the tunnel and the BGP session with the core
-- have been set up, and withdrawn at the end.
pub run-calls :
    (t : Texts) (port_text : ℕ → String) (cfg : AgentConfig) (replies : ℕ → Reply)
    (stops : ℕ → Bool) (w : World Call) (b : Bool)
    → (run t port_text cfg replies stops w []).0 ≡ ok b
    → (resp : RegisterResponse) × (key : String) × (core_key : String) × ((register_with_retry
          replies stops).0
        ≡ registered resp)
      × (w [] (key_call cfg) ≡ ok key)
      × (w (interface_calls cfg resp key) (parse_key resp.core_wg_public_key) ≡ ok core_key)
      × ((run t port_text cfg replies stops w []).1 ≡ run_calls t port_text cfg resp key core_key)
unfolding run leave_fabric
run-calls t port_text cfg replies stops w b done =
    let after_core : String → RegisterResponse → Act Call Error Bool =
      λ key resp. join_fabric port_text cfg resp >> leave_fabric port_text cfg resp in
    let after_key : String → Act Call Error Bool = λ key.
      registration (register_with_retry replies stops).0 >>= λ resp.
      set_up_tunnel t cfg key resp >> after_core key resp in
    let ending = (register_with_retry replies stops).0 in
    let (key, got, at_ending, whole) =
      and_then_at (private_key cfg w []) after_key w b (key_call cfg ∷ []) (private_key_calls cfg w)
        done in
    let (resp, joined, at_tunnel, from_ending) =
      and_then_at (registration ending w (key_call cfg ∷ []))
        (λ resp. set_up_tunnel t cfg key resp >> after_core key resp) w b (key_call cfg ∷ [])
        (registration_calls ending w (key_call cfg ∷ [])) at_ending in
    let tunnel = set_up_tunnel t cfg key resp w (key_call cfg ∷ []) in
    let (text, up, at_core, from_tunnel) =
      and_then_ok tunnel (λ _. after_core key resp) w b at_tunnel in
    let (core_key, parsed, tunnel_calls) = set_up_tunnel_calls t cfg key resp w text up in
    let (word, announced, _, from_core) =
      and_then_ok (join_fabric port_text cfg resp w tunnel.1) (λ _. leave_fabric port_text cfg resp)
        w b at_core in
    let joined_calls = join_fabric_calls port_text cfg resp w tunnel.1 word announced in
    (
      resp,
      key,
      core_key,
      registration_ok ending w (key_call cfg ∷ []) resp joined,
      private_key_answer cfg w key got,
      parsed,
      ap (λ x. x.1) (whole ∙ from_ending ∙ from_tunnel ∙ from_core)
          ∙ ap (λ done. (leave_fabric port_text cfg resp w done).1)
              (joined_calls
                ∙ ap
                    (λ done.
                      announce_route resp.assigned_subnet resp.wg_ip
                      ∷ wait_for_tunnel resp.core_wg_ip
                      ∷ add_peer resp.bgp_peer_ip resp.bgp_peer_asn
                      ∷ start_speaker (agent_speaker cfg resp)
                      ∷ done)
                    tunnel_calls),
    )

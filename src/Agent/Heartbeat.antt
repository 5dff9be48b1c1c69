-- ===== src/Agent/Heartbeat.antt =====
-- sendHeartbeat of cmd/agent/main.go, and against internal/registry/registry.go.
use router_ui.Base.{
  ℕ, ◌&&◌, true, List, Option, none, some, String, ◌==◌, eq_iff, ◌≡◌, ap, arith, if◌then◌else◌,
  Result, ok, err, nat_eq,
}
use router_ui.Base.Dict.{lookup}
use router_ui.Api.{HeartbeatRequest}
use router_ui.Config.{AgentConfig}
use router_ui.Registry.{
  Registry, Env, Request, Response, json_ok, json_error, unauthorized, no_content, not_found,
}
use router_ui.Registry.Store.{beaten}
use router_ui.Registry.States.{on_some, record_heartbeat-lookup}
use router_ui.Registry.Views.{RibEntry, handle_heartbeat}
use router_ui.Registry.Serve.{dispatch, serve}
use router_ui.Registry.Routing.{heartbeat_path, route_heartbeat}

pub record Post : Type 0 where
  pub url : String
  pub api_key : String
  pub body : String

-- json.Marshal, http.NewRequest's error, and http.Client.Do with the status of its answer.
pub record Tools : Type 0 where
  pub encode : HeartbeatRequest → String
  pub new_request : String → Option String
  pub send : Post → Result String ℕ

pub data Error : Type 0 where
  bad_request not_sent : String → Error
  rejected : ℕ → Error

-- At a time in seconds.
abbrev pub heartbeat_of : AgentConfig → ℕ → HeartbeatRequest
heartbeat_of cfg now = record {
  node_id = cfg.node_id;
  timestamp_unix = now;
  bgp_session_up = true;
  status = "healthy";
}

abbrev pub accepted : Result String ℕ → Result Error ℕ
accepted (err e) = err (not_sent e)
accepted (ok status) = if nat_eq status 200 then ok status else err (rejected status)

-- The status where it is accepted.
unfoldable pub send_heartbeat : Tools → ℕ → String → AgentConfig → Result Error ℕ
send_heartbeat t now url cfg = elim (t.new_request url) [
  | some e ↦ err (bad_request e)
  | none ↦ accepted (
      t.send
        (record { url = url; api_key = cfg.core.api_key; body = t.encode (heartbeat_of cfg now) }))
]

abbrev pub status_code : Response → ℕ
status_code (json_ok p) = 200
status_code (json_error m code) = code
status_code unauthorized = 401
status_code no_content = 204
status_code not_found = 404

abbrev pub beat_of : Tools → ℕ → AgentConfig → Request
beat_of t now cfg = record {
  method = "POST";
  path = heartbeat_path cfg.node_id;
  api_key = cfg.core.api_key;
  body = t.encode (heartbeat_of cfg now);
}

pub served :
    (t : Tools) (env : Env) (now seconds : ℕ) (rib : Result String (List RibEntry))
    (cfg : AgentConfig) (r : Registry)
    → serve env now rib (beat_of t seconds cfg) r
      ≡ handle_heartbeat env now cfg.node_id (beat_of t seconds cfg) r
unfolding serve dispatch
served t env now seconds rib cfg r =
    ap (dispatch env now rib (beat_of t seconds cfg) r) (route_heartbeat cfg.node_id)

module _ (t : Tools) (env : Env) (now seconds : ℕ) (cfg : AgentConfig) (r : Registry)
    (read : env.decode_heartbeat (t.encode (heartbeat_of cfg seconds))
      ≡ ok (heartbeat_of cfg seconds)) where
  handled_code :
      accepted
        (ok (status_code (handle_heartbeat env now cfg.node_id (beat_of t seconds cfg) r).response))
      ≡ (if cfg.core.api_key == r.core.api_key
          then elim (lookup cfg.node_id r.nodes) [ none ↦ err (rejected 404) | some n ↦ ok 200 ]
          else err (rejected 401))
  unfolding handle_heartbeat
  handled_code =
      ground (arith, read, (record_heartbeat-lookup env.texts now cfg.node_id cfg.node_id true r).0)

  handled_nodes :
      (j : String)
      → lookup j (handle_heartbeat env now cfg.node_id (beat_of t seconds cfg) r).registry.nodes ≡ (
          if (cfg.core.api_key == r.core.api_key) && (cfg.node_id == j)
          then on_some (beaten now true) (lookup j r.nodes)
          else lookup j r.nodes)
  unfolding handle_heartbeat
  handled_nodes j =
      let marked = record_heartbeat-lookup env.texts now cfg.node_id j true r in
      ground (arith, read, marked.0, marked.1, eq_iff cfg.node_id j)

pub send_heartbeat-verdict :
    (t : Tools) (env : Env) (now seconds : ℕ) (rib : Result String (List RibEntry)) (url : String)
    (cfg : AgentConfig) (r : Registry)
    → t.new_request url ≡ none
    → t.send (record {
      url = url;
      api_key = cfg.core.api_key;
      body = t.encode (heartbeat_of cfg seconds);
    })
      ≡ ok (status_code (serve env now rib (beat_of t seconds cfg) r).response)
    → env.decode_heartbeat (t.encode (heartbeat_of cfg seconds)) ≡ ok (heartbeat_of cfg seconds)
    → (send_heartbeat t seconds url cfg ≡ (
        if cfg.core.api_key == r.core.api_key
        then elim (lookup cfg.node_id r.nodes) [ none ↦ err (rejected 404) | some n ↦ ok 200 ]
        else err (rejected 401)))
      × ((j : String)
          → lookup j (serve env now rib (beat_of t seconds cfg) r).registry.nodes ≡ (
              if (cfg.core.api_key == r.core.api_key) && (cfg.node_id == j)
              then on_some (beaten now true) (lookup j r.nodes)
              else lookup j r.nodes))
unfolding send_heartbeat
send_heartbeat-verdict t env now seconds rib url cfg r valid sent read =
    let same = served t env now seconds rib cfg r in
    (
      rw (valid, sent, send_heartbeat, same) (handled_code t env now seconds cfg r read),
      λ j. rw same (handled_nodes t env now seconds cfg r read j),
    )

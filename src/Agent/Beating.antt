-- ===== src/Agent/Beating.antt =====
-- heartbeatLoop of cmd/agent/main.go, and with the registry and the health checker of the core.
use router_ui.Base.{
  ℕ, ◌/◌, true, List, [], ◌∷◌, ◌++◌, none, some, String, eq_refl, ◌≡◌, refl, ap, arith, Result, ok,
  Option-cases, inl, inr, subst, ◌∙◌, All,
}
use router_ui.Base.Dict.{lookup}
use router_ui.Config.{AgentConfig}
use router_ui.Health.{sweep}
use router_ui.Registry.{Node, Registry, Env}
use router_ui.Registry.Store.{record_heartbeat, heartbeat_node, mark_down, mark_node_down}
use router_ui.Registry.Invariant.{Inv}
use router_ui.Registry.Views.{RibEntry, handle_heartbeat}
use router_ui.Registry.Serve.{serve}
use router_ui.CoreDaemon.{Logged, core_checker}
use router_ui.CoreDaemon.Sweep.{sweep_from-keeps}
use router_ui.CoreDaemon.Timely.{Event, beats, sweeps, step, run, node_step, step-Inv, run-lookup}
use router_ui.Agent.Heartbeat.{
  Tools, Error, heartbeat_of, send_heartbeat, status_code, beat_of, served, send_heartbeat-verdict,
}

-- A heartbeat at each tick that comes before the context ends, each with what the tools answer at
-- the tick; an error is only logged. Ticks are in nanoseconds, a heartbeat has seconds.
unfoldable pub heartbeat_loop : (ℕ → Tools) → String → AgentConfig → List ℕ → List (Result Error ℕ)
heartbeat_loop tools url cfg [] = []
heartbeat_loop tools url cfg (now ∷ ticks) =
    send_heartbeat (tools now) (now / 1_000_000_000) url cfg ∷ heartbeat_loop tools url cfg ticks

-- The ticks of the agent's ticker and of the core's, in the order in which they come.
pub data Tick : Type 0 where
  heartbeat check : ℕ → Tick

abbrev pub heartbeats : List Tick → List ℕ
heartbeats [] = []
heartbeats (heartbeat now ∷ ticks) = now ∷ heartbeats ticks
heartbeats (check now ∷ ticks) = heartbeats ticks

abbrev pub events : String → List Tick → List Event
events id [] = []
events id (heartbeat now ∷ ticks) = beats now id true ∷ events id ticks
events id (check now ∷ ticks) = sweeps now ∷ events id ticks

module _ (tools : ℕ → Tools) (url : String) (cfg : AgentConfig) (env : Env)
    (rib : Result String (List RibEntry)) (timeout interval : ℕ) where
  -- The core's registry and its log after a heartbeat that was sent to it.
  abbrev pub received : ℕ → Logged → Logged
  received now s =
      let out = serve env now rib (beat_of (tools now) (now / 1_000_000_000) cfg) s.0 in
      (out.registry, s.1 ++ out.spawned)

  abbrev pub core_run : List Tick → Logged → Logged
  core_run [] s = s
  core_run (heartbeat now ∷ ticks) s = core_run ticks (received now s)
  core_run (check now ∷ ticks) s =
      core_run ticks (sweep (core_checker env.texts timeout interval) now s).0

  -- At each of its ticks the core reads the agent's heartbeat as it was written, and the agent has
  -- the core's answer.
  abbrev pub IsAnswered : List Tick → Logged → Type 0
  IsAnswered [] s = Unit
  IsAnswered (heartbeat now ∷ ticks) s =
      let seconds = now / 1_000_000_000 in
      (env.decode_heartbeat ((tools now).encode (heartbeat_of cfg seconds))
        ≡ ok (heartbeat_of cfg seconds))
      × ((tools now).send (record {
        url = url;
        api_key = cfg.core.api_key;
        body = (tools now).encode (heartbeat_of cfg seconds);
      })
          ≡ ok (status_code (serve env now rib (beat_of (tools now) seconds cfg) s.0).response))
      × IsAnswered ticks (received now s)
  IsAnswered (check now ∷ ticks) s =
      IsAnswered ticks (sweep (core_checker env.texts timeout interval) now s).0

  module _ (valid_url : (now : ℕ) → (tools now).new_request url ≡ none) where
    abbrev IsRead : ℕ → Type 0
    IsRead now =
        env.decode_heartbeat ((tools now).encode (heartbeat_of cfg (now / 1_000_000_000)))
        ≡ ok (heartbeat_of cfg (now / 1_000_000_000))

    received_lem :
        (now : ℕ) (s : Logged)
        → IsRead now
        → s.0.core.api_key ≡ cfg.core.api_key
        → received now s ≡ step env timeout interval (beats now cfg.node_id true) s
    unfolding handle_heartbeat record_heartbeat heartbeat_node
    received_lem now s read key =
        let same = served (tools now) env now (now / 1_000_000_000) rib cfg s.0 in
        elim (Option-cases (lookup cfg.node_id s.0.nodes)) [
          | inl new ↦ rw same (ground (arith, read, new, key, eq_refl cfg.core.api_key))
          | inr (n, at) ↦ rw same (ground (arith, read, at, key, eq_refl cfg.core.api_key))
        ]

    record_heartbeat-core :
        (now : ℕ) (s : Logged)
        → (step env timeout interval (beats now cfg.node_id true) s).0.core ≡ s.0.core
    unfolding record_heartbeat heartbeat_node
    record_heartbeat-core now s = elim (Option-cases (lookup cfg.node_id s.0.nodes)) [
      | inl new ↦ rw (new, record_heartbeat) refl
      | inr (n, at) ↦ rw (at, record_heartbeat) refl
    ]

    mark_down-core : (id : String) (r : Registry) → (mark_down env.texts id r).0.core ≡ r.core
    unfolding mark_down mark_node_down
    mark_down-core id r = elim (Option-cases (lookup id r.nodes)) [
      | inl new ↦ rw (new, mark_down) refl
      | inr (n, at) ↦ rw (at, mark_down) (ground arith)
    ]

    step-core :
        (now : ℕ) (s : Logged)
        → (sweep (core_checker env.texts timeout interval) now s).0.0.core.api_key
          ≡ s.0.core.api_key
    unfolding sweep
    step-core now s =
        sweep_from-keeps env.texts timeout interval now (λ r. r.core.api_key ≡ s.0.core.api_key)
          (λ id r same. ap (λ c. c.api_key) (mark_down-core id r) ∙ same) _ s refl

    sent :
        (now : ℕ) (s : Logged) (n : Node)
        → lookup cfg.node_id s.0.nodes ≡ some n
        → s.0.core.api_key ≡ cfg.core.api_key
        → IsAnswered (heartbeat now ∷ []) s
        → send_heartbeat (tools now) (now / 1_000_000_000) url cfg ≡ ok 200
    sent now s n at key answered =
        let seconds = now / 1_000_000_000 in
        let verdict =
          send_heartbeat-verdict (tools now) env now seconds rib url cfg s.0 (valid_url now)
            answered.1 answered.0 in
        ground (arith, verdict.0, at, key, eq_refl cfg.core.api_key)

    -- An agent with the core's key, whose node is registered at a core whose registry satisfies the
    -- invariant: over any ticks of the agent's and the core's tickers, when the core reads
    -- its heartbeats and it has the core's answers, every heartbeat of its loop is accepted, and the core's registry and log are those
    -- of the history in which the node beats at the agent's ticks and the checker sweeps at the
    -- core's. The URL is a valid one.
    pub heartbeat_loop-run :
        (ticks : List Tick) (s : Logged) (n : Node)
        → Inv s.0
        → lookup cfg.node_id s.0.nodes ≡ some n
        → s.0.core.api_key ≡ cfg.core.api_key
        → IsAnswered ticks s
        → All (λ r. r ≡ ok 200) (heartbeat_loop tools url cfg (heartbeats ticks))
          × (core_run ticks s ≡ run env timeout interval (events cfg.node_id ticks) s)
    unfolding heartbeat_loop
    heartbeat_loop-run [] s n v at key answered = (tt, refl)
    heartbeat_loop-run (heartbeat now ∷ ticks) s n v at key answered =
        let e = beats now cfg.node_id true in
        let after = step env timeout interval e s in
        let same = received_lem now s answered.0 key in
        let (accepted, rest) =
          heartbeat_loop-run ticks after (node_step env timeout interval cfg.node_id e n)
            (step-Inv env timeout interval e s v)
            (run-lookup env timeout interval (e ∷ []) s cfg.node_id n v refl at)
            (ap (λ c. c.api_key) (record_heartbeat-core now s) ∙ key)
            (subst (IsAnswered ticks) same answered.2) in
        (
          (sent now s n at key (answered.0, answered.1, tt), accepted),
          ap (core_run ticks) same ∙ rest,
        )
    heartbeat_loop-run (check now ∷ ticks) s n v at key answered =
        let e = sweeps now in
        heartbeat_loop-run ticks (step env timeout interval e s)
          (node_step env timeout interval cfg.node_id e n) (step-Inv env timeout interval e s v)
          (run-lookup env timeout interval (e ∷ []) s cfg.node_id n v refl at)
          (step-core now s ∙ key) answered

-- ===== src/CoreDaemon/Stale.antt =====
-- The health checker of cmd/core/main.go: a heartbeat that comes during a sweep.
use router_ui.Base.{ℕ, Bool, true, some, String, ◌≡◌, ap, ◌∙◌, arith, eq_refl}
use router_ui.Base.Dict.{lookup, values}
use router_ui.Health.{sweep_from}
use router_ui.Registry.{Node, Env}
use router_ui.Registry.Store.{beaten, list_nodes}
use router_ui.Registry.States.{downed, record_heartbeat-lookup}
use router_ui.Registry.Invariant.{Inv}
use router_ui.CoreDaemon.{Logged, adapter_list_nodes, core_checker}
use router_ui.CoreDaemon.Sweep.{is_lapsed, lapsed_at, sweep_from-lookup, any_lapsed-values}
use router_ui.CoreDaemon.Timely.{beats, step}

-- A node that a sweep read as lapsed, and that sends a heartbeat before the sweep comes to it, is
-- active with the new heartbeat, and is marked down by the sweep all the same.
pub stale_sweep :
    (env : Env) (timeout interval now : ℕ) (bgp_up : Bool) (s : Logged) (id : String) (n : Node)
    → Inv s.0
    → lookup id s.0.nodes ≡ some n
    → is_lapsed timeout now n ≡ true
    → let beat = step env timeout interval (beats now id bgp_up) s in
      (lookup id beat.0.nodes ≡ some (beaten now bgp_up n))
      × (lookup id
            (sweep_from
              (core_checker env.texts timeout interval)
              now
              (adapter_list_nodes s)
              beat).0.0.nodes
          ≡ some (downed (beaten now bgp_up n)))
unfolding adapter_list_nodes list_nodes
stale_sweep env timeout interval now bgp_up s id n v at lapsed =
    let beat = step env timeout interval (beats now id bgp_up) s in
    let active : lookup id beat.0.nodes ≡ some (beaten now bgp_up n) =
      ground (arith, (record_heartbeat-lookup env.texts now id id bgp_up s.0).1, at, eq_refl id) in
    let found =
      any_lapsed-values timeout now id s.0.nodes v.keys v.names ∙ ap (lapsed_at timeout now) at in
    (
      active,
      ground (
        arith,
        sweep_from-lookup env.texts timeout interval now id (values s.0.nodes) beat,
        found,
        lapsed,
        active,
      ),
    )

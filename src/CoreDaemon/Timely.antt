-- ===== src/CoreDaemon/Timely.antt =====
-- The registry and the health checker of cmd/core/main.go over time: what happens to one node.
use router_ui.Base.{
  ℕ, Bool, true, false, not, ◌&&◌, List, [], ◌∷◌, ◌++◌, some, String, ◌==◌, eq_iff, ◌≡◌, arith,
  if◌then◌else◌, Result-cases, Option-cases, inl, inr,
}
use router_ui.Base.Dict.{lookup, lookup-insert, lookup-delete}
use router_ui.Api.{RegisterRequest}
use router_ui.Subnet
use router_ui.WgPool
use router_ui.Health.{sweep}
use router_ui.Registry.{Node, Registry, Env}
use router_ui.Registry.Store.{beaten, record_heartbeat}
use router_ui.Registry.Register.{register_node, allocate_wg_ip, allocate_subnet, install, new_node}
use router_ui.Registry.Delete.{delete_node, delete_entry, release_resources}
use router_ui.Registry.Invariant.{Inv}
use router_ui.Registry.Preserve.{
  register_node-Inv, delete_node-Inv, mark_down-Inv, record_heartbeat-Inv,
}
use router_ui.Registry.States.{downed, record_heartbeat-lookup}
use router_ui.CoreDaemon.{Logged, core_checker}
use router_ui.CoreDaemon.Sweep.{is_lapsed, sweep_from-keeps, sweep-lookup}

-- What the core gets to do, each with its time.
pub data Event : Type 0 where
  registers : ℕ → RegisterRequest → String → Event
  deletes : String → Event
  beats : ℕ → String → Bool → Event
  sweeps : ℕ → Event

module _ (env : Env) (timeout interval : ℕ) where
  abbrev pub step : Event → Logged → Logged
  step (registers now req key) s =
      let out = register_node env now req key s.0 in
      (out.registry, s.1 ++ out.effects ++ out.spawned)
  step (deletes j) s = let out = delete_node env.texts j s.0 in (out.registry, s.1 ++ out.effects)
  step (beats now j up) s =
      let done = record_heartbeat env.texts now j up s.0 in (done.1, s.1 ++ done.2)
  step (sweeps now) s = (sweep (core_checker env.texts timeout interval) now s).0

  abbrev pub run : List Event → Logged → Logged
  run [] s = s
  run (e ∷ es) s = run es (step e s)

  -- The same for one node alone, as long as it is not deleted.
  abbrev pub node_step : String → Event → Node → Node
  node_step id (registers now req key) n = n
  node_step id (deletes j) n = n
  node_step id (beats now j up) n = if j == id then beaten now up n else n
  node_step id (sweeps now) n = if is_lapsed timeout now n then downed n else n

  abbrev pub node_run : String → List Event → Node → Node
  node_run id [] n = n
  node_run id (e ∷ es) n = node_run id es (node_step id e n)

  abbrev pub deletes_it : String → Event → Bool
  deletes_it id (deletes j) = j == id
  deletes_it id _ = false

  abbrev pub is_kept : String → List Event → Bool
  is_kept id [] = true
  is_kept id (e ∷ es) = not (deletes_it id e) && is_kept id es

  pub step-Inv : (e : Event) (s : Logged) → Inv s.0 → Inv (step e s).0
  unfolding sweep
  step-Inv (registers now req key) s v = register_node-Inv env now req key s.0 v
  step-Inv (deletes j) s v = delete_node-Inv env.texts j s.0 v
  step-Inv (beats now j up) s v = record_heartbeat-Inv env.texts now j up s.0 v
  step-Inv (sweeps now) s v =
      sweep_from-keeps env.texts timeout interval now Inv (mark_down-Inv env.texts) _ s v

  register_node-keeps :
      (now : ℕ) (req : RegisterRequest) (key id : String) (n : Node) (r : Registry)
      → lookup id r.nodes ≡ some n
      → lookup id (register_node env now req key r).registry.nodes ≡ some n
  unfolding register_node allocate_wg_ip allocate_subnet install
  register_node-keeps now req key id n r at = elim (Option-cases (lookup req.node_id r.nodes)) [
    | inr (m, there) ↦ rw (there, register_node) at
    | inl new ↦
        rw (new, register_node)
          (elim (Result-cases (WgPool.allocate req.node_id r.wg_ip_pool).0) [
            | inl (e, failed) ↦ rw (failed, allocate_wg_ip) at
            | inr (ip, got) ↦
                rw (got, allocate_wg_ip)
                  (elim (Result-cases (Subnet.allocate req.node_id r.allocator).0) [
                    | inl (e, none_left) ↦ rw (none_left, allocate_subnet) at
                    | inr (net, found) ↦
                        rw (found, allocate_subnet)
                          (ground (
                            arith,
                            eq_iff req.node_id id,
                            lookup-insert req.node_id id (new_node env now r req key ip net)
                                r.nodes,
                            at,
                            new,
                          ))
                  ])
          ])
  ]

  delete_node-keeps :
      (j id : String) (n : Node) (r : Registry)
      → lookup id r.nodes ≡ some n
      → (j == id) ≡ false
      → lookup id (delete_node env.texts j r).registry.nodes ≡ some n
  unfolding delete_node delete_entry release_resources
  delete_node-keeps j id n r at other = elim (Option-cases (lookup j r.nodes)) [
    | inl new ↦ rw (new, delete_node) at
    | inr (m, there) ↦
        rw (there, delete_node) (ground (arith, eq_iff j id, lookup-delete j id r.nodes, at, other))
  ]

  step-lookup :
      (e : Event) (s : Logged) (id : String) (n : Node)
      → Inv s.0
      → deletes_it id e ≡ false
      → lookup id s.0.nodes ≡ some n
      → lookup id (step e s).0.nodes ≡ some (node_step id e n)
  step-lookup (registers now req key) s id n v kept at = register_node-keeps now req key id n s.0 at
  step-lookup (deletes j) s id n v kept at = delete_node-keeps j id n s.0 at kept
  step-lookup (beats now j up) s id n v kept at =
      ground (arith, (record_heartbeat-lookup env.texts now j id up s.0).1, at)
  step-lookup (sweeps now) s id n v kept at =
      ground (arith, (sweep-lookup env.texts timeout interval now id s v).0, at)

  -- Over any registrations, deletions of other nodes, heartbeats and sweeps, from a registry that
  -- satisfies the invariant, a registered node goes through what a node goes through alone: its
  -- own heartbeats, and the sweeps that find it silent for longer than the timeout.
  pub run-lookup :
      (es : List Event) (s : Logged) (id : String) (n : Node)
      → Inv s.0
      → is_kept id es ≡ true
      → lookup id s.0.nodes ≡ some n
      → lookup id (run es s).0.nodes ≡ some (node_run id es n)
  run-lookup [] s id n v kept at = at
  run-lookup (e ∷ es) s id n v kept at =
      run-lookup es (step e s) id (node_step id e n) (step-Inv e s v) (ground (arith, kept))
        (step-lookup e s id n v (ground (arith, kept)) at)

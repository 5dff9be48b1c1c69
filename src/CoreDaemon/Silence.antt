-- ===== src/CoreDaemon/Silence.antt =====
-- The health checker of cmd/core/main.go: the nodes that send heartbeats, and those that do not.
use router_ui.Base.{
  ℕ, ◌-◌, Bool, true, false, not, ◌&&◌, ◌||◌, List, [], ◌∷◌, some, String, ◌==◌, ◌≡◌, refl, arith,
  if◌then◌else◌, ltb, leb, Bool-cases, inl, inr,
}
use router_ui.Base.Dict.{lookup}
use router_ui.Registry.{Node, Env}
use router_ui.Registry.Store.{is_down, beaten}
use router_ui.Registry.Invariant.{Inv}
use router_ui.Registry.States.{downed}
use router_ui.CoreDaemon.{Logged}
use router_ui.CoreDaemon.Sweep.{is_lapsed}
use router_ui.CoreDaemon.Timely.{
  Event, registers, deletes, beats, sweeps, run, node_run, is_kept, run-lookup,
}

module _ (env : Env) (timeout interval : ℕ) where
  -- No sweep finds the node silent for longer than the timeout, as its heartbeats come.
  abbrev pub is_timely : String → ℕ → List Event → Bool
  is_timely id last [] = true
  is_timely id last (registers now req key ∷ es) = is_timely id last es
  is_timely id last (deletes j ∷ es) = is_timely id last es
  is_timely id last (beats now j up ∷ es) = is_timely id (if j == id then now else last) es
  is_timely id last (sweeps now ∷ es) = leb (now - last) timeout && is_timely id last es

  timely_up :
      (es : List Event) (id : String) (n : Node)
      → is_down n.state ≡ false
      → is_timely id n.last_heartbeat es ≡ true
      → is_down (node_run env timeout interval id es n).state ≡ false
  timely_up [] id n up timely = up
  timely_up (registers now req key ∷ es) id n up timely = timely_up es id n up timely
  timely_up (deletes j ∷ es) id n up timely = timely_up es id n up timely
  timely_up (beats now j b ∷ es) id n up timely = elim (Bool-cases (j == id)) [
    | inl same ↦
        rw (same, is_down) (timely_up es id (beaten now b n) refl (ground (arith, timely, same)))
    | inr other ↦ rw (other, is_down) (timely_up es id n up (ground (arith, timely, other)))
  ]
  timely_up (sweeps now ∷ es) id n up timely =
      let awake : is_lapsed timeout now n ≡ false = ground (arith, timely) in
      rw (awake, is_down) (timely_up es id n up (ground (arith, timely)))

  -- A registered node that is up and whose heartbeats come in time for every sweep is up after any
  -- such history in which it is not deleted.
  pub timely-up :
      (es : List Event) (s : Logged) (id : String) (n : Node)
      → Inv s.0
      → is_kept env timeout interval id es ≡ true
      → lookup id s.0.nodes ≡ some n
      → is_down n.state ≡ false
      → is_timely id n.last_heartbeat es ≡ true
      → (m : Node) × (lookup id (run env timeout interval es s).0.nodes ≡ some m)
        × (is_down m.state ≡ false)
  timely-up es s id n v kept at up timely = (
    node_run env timeout interval id es n,
    run-lookup env timeout interval es s id n v kept at,
    timely_up es id n up timely,
  )

  -- The node sends no heartbeat.
  abbrev pub is_silent : String → List Event → Bool
  is_silent id [] = true
  is_silent id (beats now j up ∷ es) = not (j == id) && is_silent id es
  is_silent id (_ ∷ es) = is_silent id es

  -- Some sweep comes later than the timeout after `last`.
  abbrev pub has_late_sweep : ℕ → List Event → Bool
  has_late_sweep last [] = false
  has_late_sweep last (sweeps now ∷ es) = ltb timeout (now - last) || has_late_sweep last es
  has_late_sweep last (_ ∷ es) = has_late_sweep last es

  silent_down :
      (es : List Event) (id : String) (n : Node)
      → is_silent id es ≡ true
      → (is_down n.state || has_late_sweep n.last_heartbeat es) ≡ true
      → is_down (node_run env timeout interval id es n).state ≡ true
  silent_down [] id n quiet late = ground (arith, late)
  silent_down (registers now req key ∷ es) id n quiet late = silent_down es id n quiet late
  silent_down (deletes j ∷ es) id n quiet late = silent_down es id n quiet late
  silent_down (beats now j b ∷ es) id n quiet late =
      let other : (j == id) ≡ false = ground (arith, quiet) in
      rw (other, is_down) (silent_down es id n (ground (arith, quiet)) late)
  silent_down (sweeps now ∷ es) id n quiet late = elim (Bool-cases (is_lapsed timeout now n)) [
    | inl lapsed ↦ rw (lapsed, is_down) (silent_down es id (downed n) quiet refl)
    | inr awake ↦ rw (awake, is_down) (silent_down es id n quiet (ground (arith, late, awake)))
  ]

  -- A registered node that falls silent is marked down: after any such history in which it sends no
  -- heartbeat and is not deleted, and which has a sweep more than the timeout after its last
  -- heartbeat, it is down.
  pub silent-down :
      (es : List Event) (s : Logged) (id : String) (n : Node)
      → Inv s.0
      → is_kept env timeout interval id es ≡ true
      → lookup id s.0.nodes ≡ some n
      → is_silent id es ≡ true
      → has_late_sweep n.last_heartbeat es ≡ true
      → (m : Node) × (lookup id (run env timeout interval es s).0.nodes ≡ some m)
        × (is_down m.state ≡ true)
  silent-down es s id n v kept at quiet late = (
    node_run env timeout interval id es n,
    run-lookup env timeout interval es s id n v kept at,
    silent_down es id n quiet (ground (arith, late)),
  )

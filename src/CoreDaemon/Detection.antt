-- ===== src/CoreDaemon/Detection.antt =====
-- Checker.Run of internal/health/checker.go in the core: when a node that fell silent is marked down.
use native.Mathlib.Nat.{mul-div-le, lt-mul-div-succ}
use router_ui.Base.{
  ℕ, zero, suc, ◌+◌, ◌*◌, ◌-◌, ◌/◌, ◌≤◌, ◌<◌, true, false, List, [], ◌∷◌, some, String, ◌≡◌, refl,
  arith, if◌then◌else◌, ltb, Bool-cases, inl, inr,
}
use router_ui.Base.Dict.{lookup}
use router_ui.Base.Powers.{mul_next}
use router_ui.Health
use router_ui.Health.{sweep}
use router_ui.Registry.{Node, Env}
use router_ui.Registry.Store.{is_down}
use router_ui.Registry.Invariant.{Inv}
use router_ui.Registry.States.{downed}
use router_ui.CoreDaemon.{Logged, core_checker}
use router_ui.CoreDaemon.Sweep.{is_lapsed}
use router_ui.CoreDaemon.Timely.{Event, sweeps, run, node_run, is_kept, run-lookup}

-- `n` ticks at equal distances from the start on.
unfoldable pub regular_ticks : ℕ → ℕ → ℕ → List ℕ
regular_ticks started interval zero = []
regular_ticks started interval (suc n) =
    (started + interval) ∷ regular_ticks (started + interval) interval n

abbrev sweeps_at : List ℕ → List Event
sweeps_at [] = []
sweeps_at (now ∷ ticks) = sweeps now ∷ sweeps_at ticks

module _ (env : Env) (timeout interval : ℕ) where
  checked :
      (ticks : List ℕ) (s : Logged)
      → (Health.run (core_checker env.texts timeout interval) ticks s).0
        ≡ run env timeout interval (sweeps_at ticks) s
  unfolding Health.run
  checked [] s = refl
  checked (now ∷ ticks) s = checked ticks (sweep (core_checker env.texts timeout interval) now s).0

  sweeps-kept :
      (ticks : List ℕ) (id : String) → is_kept env timeout interval id (sweeps_at ticks) ≡ true
  sweeps-kept [] id = refl
  sweeps-kept (now ∷ ticks) id = sweeps-kept ticks id

  down_stays :
      (ticks : List ℕ) (id : String) (n : Node)
      → is_down n.state ≡ true
      → node_run env timeout interval id (sweeps_at ticks) n ≡ n
  down_stays [] id n down = refl
  down_stays (now ∷ ticks) id n down =
      let skipped : is_lapsed timeout now n ≡ false = ground (arith, down) in
      rw (node_run, skipped) (down_stays ticks id n down)

  node_ticks :
      (m started : ℕ) (id : String) (n : Node)
      → is_down n.state ≡ false
      → started ≤ n.last_heartbeat + timeout
      → node_run env timeout interval id (sweeps_at (regular_ticks started interval m)) n
        ≡ (if ltb (n.last_heartbeat + timeout) (started + m * interval) then downed n else n)
  unfolding regular_ticks
  node_ticks zero started id n up early = ground (arith, early)
  node_ticks (suc m) started id n up early =
      elim (Bool-cases (is_lapsed timeout (started + interval) n)) [
        | inl lapsed ↦
            let late : ltb (n.last_heartbeat + timeout) (started + suc m * interval) ≡ true =
              ground (arith, lapsed) in
            rw (node_run, lapsed, late)
              (down_stays (regular_ticks (started + interval) interval m) id (downed n) refl)
        | inr awake ↦
            let same : started + interval + m * interval ≡ started + suc m * interval =
              omega arith in
            rw (node_run, awake, ← same)
              (node_ticks m (started + interval) id n up (ground (arith, awake, up)))
      ]

  -- A node that is up and whose last heartbeat is no more than the timeout before the checker's
  -- start is found by a tick `k` of the checker's ticker, more than the timeout after the heartbeat
  -- and at most one interval later: when only the checker acts, and its ticks come at the interval,
  -- which is not 0, the node is unchanged after fewer ticks than `k`, and down after `k` ticks or
  -- more. The registry satisfies the invariant.
  pub detected :
      (started : ℕ) (s : Logged) (id : String) (n : Node)
      → Inv s.0
      → lookup id s.0.nodes ≡ some n
      → is_down n.state ≡ false
      → started ≤ n.last_heartbeat + timeout
      → 0 < interval
      → (k : ℕ) × (n.last_heartbeat + timeout < started + k * interval)
        × (started + k * interval ≤ n.last_heartbeat + timeout + interval)
        × ((m : ℕ)
            → let checker = core_checker env.texts timeout interval in
              lookup id (Health.run checker (regular_ticks started interval m) s).0.0.nodes
              ≡ some (if ltb m k then n else downed n))
  detected started s id n v at up early on =
      let due = n.last_heartbeat + timeout in
      let rounds = (due - started) / interval in
      let below = mul-div-le (due - started) interval in
      let above = lt-mul-div-succ (due - started) {b = interval} on in
      (
        suc rounds,
        omega (arith, above, early),
        omega (arith, below, early),
        λ m.
            rw
              (
                checked (regular_ticks started interval m) s,
                run-lookup env timeout interval (sweeps_at (regular_ticks started interval m)) s id
                    n v (sweeps-kept (regular_ticks started interval m) id) at,
                node_ticks m started id n up early,
              )
              (ground (
                arith,
                below,
                above,
                early,
                mul_next m (suc rounds) interval,
                mul_next rounds m interval,
              )),
      )

-- ===== src/CoreDaemon/Paced.antt =====
-- The heartbeats of cmd/agent/main.go against the health checker of cmd/core/main.go.
use router_ui.Base.{
  ℕ, zero, suc, ◌+◌, ◌-◌, ◌*◌, ◌≤◌, Bool, true, false, ◌&&◌, List, [], ◌∷◌, some, String, ◌==◌, ◌≡◌,
  refl, arith, if◌then◌else◌, leb, nat_eq, Bool-cases, inl, inr,
}
use router_ui.Base.Dict.{lookup}
use router_ui.Registry.{Node, Env}
use router_ui.Registry.Store.{is_down}
use router_ui.Registry.Invariant.{Inv}
use router_ui.CoreDaemon.{Logged}
use router_ui.CoreDaemon.Timely.{Event, registers, deletes, beats, sweeps, run, is_kept}
use router_ui.CoreDaemon.Silence.{is_timely, timely-up}

-- What happens at the core, and what fails to get there.
pub data Moment : Type 0 where
  happens : Event → Moment
  beat_lost : Moment

abbrev pub events_of : List Moment → List Event
events_of [] = []
events_of (happens e ∷ ms) = e ∷ events_of ms
events_of (beat_lost ∷ ms) = events_of ms

-- The node's heartbeats are due at `next` and every `interval` from then on; each arrives when it
-- is due or is lost, `left` more in a row at most and `tolerated` after one that arrives; and no
-- sweep comes after a heartbeat that is due without that heartbeat before it.
abbrev pub is_paced : String → ℕ → ℕ → ℕ → ℕ → List Moment → Bool
is_paced id interval tolerated next left [] = true
is_paced id interval tolerated next zero (beat_lost ∷ ms) = false
is_paced id interval tolerated next (suc left) (beat_lost ∷ ms) =
    is_paced id interval tolerated (next + interval) left ms
is_paced id interval tolerated next left (happens (registers now req key) ∷ ms) =
    is_paced id interval tolerated next left ms
is_paced id interval tolerated next left (happens (deletes j) ∷ ms) =
    is_paced id interval tolerated next left ms
is_paced id interval tolerated next left (happens (beats now j up) ∷ ms) =
    let arrived = is_paced id interval tolerated (next + interval) tolerated ms in
    let other = is_paced id interval tolerated next left ms in
    if j == id then nat_eq now next && arrived else other
is_paced id interval tolerated next left (happens (sweeps now) ∷ ms) =
    leb now next && is_paced id interval tolerated next left ms

module _ (env : Env) (timeout check_interval interval tolerated : ℕ)
    (enough : suc tolerated * interval ≤ timeout) where
  paced_timely :
      (ms : List Moment) (id : String) (last next left : ℕ)
      → next + left * interval ≤ last + timeout
      → is_paced id interval tolerated next left ms ≡ true
      → is_timely env timeout check_interval id last (events_of ms) ≡ true
  paced_timely [] id last next left slack paced = refl
  paced_timely (beat_lost ∷ ms) id last next zero slack paced = absurd (ground (arith, paced))
  paced_timely (beat_lost ∷ ms) id last next (suc left) slack paced =
      paced_timely ms id last (next + interval) left (omega (arith, slack)) paced
  paced_timely (happens (registers now req key) ∷ ms) id last next left slack paced =
      paced_timely ms id last next left slack paced
  paced_timely (happens (deletes j) ∷ ms) id last next left slack paced =
      paced_timely ms id last next left slack paced
  paced_timely (happens (beats now j up) ∷ ms) id last next left slack paced =
      elim (Bool-cases (j == id)) [
        | inl same ↦
            rw (is_timely, same)
              (paced_timely ms id now (next + interval) tolerated (ground (arith, paced, same))
                (ground (arith, paced, same)))
        | inr other ↦
            rw (is_timely, other)
              (paced_timely ms id last next left slack (ground (arith, paced, other)))
      ]
  paced_timely (happens (sweeps now) ∷ ms) id last next left slack paced =
      let rest : is_paced id interval tolerated next left ms ≡ true = ground (arith, paced) in
      let in_time : leb (now - last) timeout ≡ true = ground (arith, paced, slack) in
      rw (in_time, paced_timely ms id last next left slack rest) refl

  -- From a registry that satisfies the invariant, where the timeout is at least one more interval
  -- than the heartbeats that may be lost in a row: a registered node that is up and whose first heartbeat is due one interval after its last one
  -- is up after any such history in which it is not deleted.
  pub paced-up :
      (ms : List Moment) (s : Logged) (id : String) (n : Node)
      → Inv s.0
      → is_kept env timeout check_interval id (events_of ms) ≡ true
      → lookup id s.0.nodes ≡ some n
      → is_down n.state ≡ false
      → is_paced id interval tolerated (n.last_heartbeat + interval) tolerated ms ≡ true
      → (m : Node) × (lookup id (run env timeout check_interval (events_of ms) s).0.nodes ≡ some m)
        × (is_down m.state ≡ false)
  paced-up ms s id n v kept at up paced =
      timely-up env timeout check_interval (events_of ms) s id n v kept at up (
        paced_timely ms id n.last_heartbeat (n.last_heartbeat + interval) tolerated
          (omega (arith, enough)) paced)

-- ===== src/Agent/Waiting.antt =====
-- waitForWGTunnel of cmd/agent/main.go: it ends.
use router_ui.Base.{ℕ, zero, suc, ◌+◌, ◌*◌, ◌≤◌, Bool, ◌≢◌, arith}
use router_ui.Agent.Start.{out_of_fuel, wait_from, wait_for_wg_tunnel}

module _ (deadline : ℕ) (late takes : ℕ → ℕ) (dials stops : ℕ → Bool) where
  wait_from_ends :
      (fuel now i : ℕ)
      → deadline ≤ now + fuel * 3_000_000_000
      → ((wait_from deadline late takes dials stops now i (suc fuel)).0 ≢ out_of_fuel)
        × ((wait_from deadline late takes dials stops now i (suc fuel)).1 ≤ fuel)
  unfolding wait_from
  wait_from_ends zero now i past = ground arith
  wait_from_ends (suc fuel) now i past =
      let next = now + late i + takes i + 3_000_000_000 in
      let later : deadline ≤ next + fuel * 3_000_000_000 = omega (arith, past) in
      let rest = wait_from_ends fuel next (i + 1) later in ground (arith, rest)

-- The loop ends, however long its dials take and however late its timers fire: with fuel for one
-- round more than the timeout has pauses of three seconds it never runs out, and it dials at most
-- once for each of these pauses, a last one that the timeout cuts short included.
pub wait_for_wg_tunnel-ends :
    (started timeout rounds : ℕ) (late takes : ℕ → ℕ) (dials stops : ℕ → Bool)
    → timeout ≤ rounds * 3_000_000_000
    → ((wait_for_wg_tunnel (suc rounds) started timeout late takes dials stops).0 ≢ out_of_fuel)
      × ((wait_for_wg_tunnel (suc rounds) started timeout late takes dials stops).1 ≤ rounds)
unfolding wait_for_wg_tunnel
wait_for_wg_tunnel-ends started timeout rounds late takes dials stops enough =
    wait_from_ends (started + timeout) late takes dials stops rounds started 0
      (omega (arith, enough))

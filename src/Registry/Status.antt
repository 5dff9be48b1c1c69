-- ===== src/Registry/Status.antt =====
-- handleStatus of internal/registry/registry.go: its counts.
use router_ui.Base.{
  ℕ, ◌+◌, Bool, true, false, List, [], ◌∷◌, ◌≡◌, ◌↔◌, arith, length, keep, nat_eq, All,
}
use native.Mathlib.Nat.{zero-add}
use router_ui.Api.{NodeState, pending, active}
use router_ui.Registry.{Node}
use router_ui.Registry.Store.{is_down}
use router_ui.Registry.Views.{count_states, status_of}

abbrev pub is_active : NodeState → Bool
is_active active = true
is_active _ = false

abbrev pub is_pending : NodeState → Bool
is_pending pending = true
is_pending _ = false

count_states_lem :
    (a d : ℕ) (ns : List Node)
    → count_states a d ns
      ≡ (a + length (keep (λ n. is_active n.state) ns), d + length (keep (λ n. is_down n.state) ns))
unfolding count_states
count_states_lem a d [] = ground arith
count_states_lem a d (n ∷ ns) =
    ground
      (arith, count_states_lem (a + 1) d ns, count_states_lem a (d + 1) ns, count_states_lem a d ns)

keep-partition :
    (ns : List Node)
    → length (keep (λ n. is_active n.state) ns)
        + length (keep (λ n. is_down n.state) ns)
        + length (keep (λ n. is_pending n.state) ns)
      ≡ length ns
keep-partition [] = omega arith
keep-partition (n ∷ ns) = ground (arith, keep-partition ns)

none_down :
    (ns : List Node)
    → (nat_eq (length (keep (λ n. is_down n.state) ns)) 0 ≡ true)
      ↔ All (λ n. is_down n.state ≡ false) ns
none_down [] = ground arith
none_down (n ∷ ns) = ground (arith, none_down ns)

-- The summary counts the active and the down nodes, which with the pending ones make up the total,
-- and is `ok` exactly when no node is down.
pub status_of_lem :
    (ns : List Node)
    → ((status_of ns).nodes_active ≡ length (keep (λ n. is_active n.state) ns))
      × ((status_of ns).nodes_down ≡ length (keep (λ n. is_down n.state) ns))
      × ((status_of ns).nodes_active
            + (status_of ns).nodes_down
            + length (keep (λ n. is_pending n.state) ns)
          ≡ (status_of ns).nodes_total)
      × (((status_of ns).is_ok ≡ true) ↔ All (λ n. is_down n.state ≡ false) ns)
status_of_lem ns =
    rw (count_states_lem 0 0 ns)
      (omega arith, omega arith, omega (arith, keep-partition ns), rw zero-add (none_down ns))

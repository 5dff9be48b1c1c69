-- ===== src/CoreDaemon/Sweep.antt =====
-- A sweep of the health checker over the registry, through the adapter.
use text.Mathlib.TextEquality.{eq_iff}
use router_ui.Base.{
  ℕ, ◌-◌, Bool, true, false, not, ◌&&◌, ◌||◌, List, [], ◌∷◌, map, Option, none, some, String, ◌==◌,
  ◌≡◌, refl, arith, if◌then◌else◌, ltb, keep,
}
use router_ui.Base.Dict.{Dict, lookup, values, HasDistinctKeys}
use router_ui.Net.{Texts}
use router_ui.Api.{NodeState, pending, active, down, state_text}
use router_ui.Health.{NodeSnapshot, sweep_from, sweep}
use router_ui.Registry.{Node, Registry}
use router_ui.Registry.Store.{is_down, list_nodes, mark_down}
use router_ui.Registry.States.{downed, on_some, mark_down-lookup}
use router_ui.Registry.Invariant.{Inv, first_name, tail_names}
use router_ui.CoreDaemon.{Logged, snapshot, adapter_list_nodes, adapter_mark_down, core_checker}

-- A node that is not down and has been silent for longer than the timeout.
abbrev pub is_lapsed : ℕ → ℕ → Node → Bool
is_lapsed timeout now n = not (is_down n.state) && ltb timeout (now - n.last_heartbeat)

-- Some lapsed node of the list has that name.
abbrev pub any_lapsed : ℕ → ℕ → String → List Node → Bool
any_lapsed timeout now j [] = false
any_lapsed timeout now j (n ∷ ns) =
    (is_lapsed timeout now n && n.id == j) || any_lapsed timeout now j ns

pub state_text-down : (s : NodeState) → (state_text s == "down") ≡ is_down s
state_text-down pending = refl
state_text-down active = refl
state_text-down down = refl

-- What MarkDown keeps, a sweep keeps.
module _ (t : Texts) (timeout interval now : ℕ) (IsKept : Registry → Type 0)
    (keeps : (id : String) (r : Registry) → IsKept r → IsKept (mark_down t id r).0) where
  either_kept :
      (b : Bool) (x y : Logged × List String)
      → IsKept x.0.0
      → IsKept y.0.0
      → IsKept (if b then x else y).0.0
  either_kept true x y v w = v
  either_kept false x y v w = w

  pub sweep_from-keeps :
      (ns : List NodeSnapshot) (s : Logged)
      → IsKept s.0
      → IsKept (sweep_from (core_checker t timeout interval) now ns s).0.0
  unfolding sweep_from adapter_mark_down
  sweep_from-keeps [] s v = v
  sweep_from-keeps (n ∷ ns) s v =
      let checker = core_checker t timeout interval in
      let skipped = sweep_from checker now ns s in
      let marked = sweep_from checker now ns (adapter_mark_down t n.id s) in
      let after_mark = sweep_from-keeps ns (adapter_mark_down t n.id s) (keeps n.id s.0 v) in
      let unmarked = sweep_from-keeps ns s v in
      either_kept (n.state == "down") skipped
        (if ltb timeout (now - n.last_heartbeat) then (marked.0, n.id ∷ marked.1) else skipped)
        unmarked
        (either_kept (ltb timeout (now - n.last_heartbeat)) (marked.0, n.id ∷ marked.1) skipped
          after_mark unmarked)

module _ (t : Texts) (timeout interval now : ℕ) where
  pub sweep_from-lookup :
      (j : String) (ns : List Node) (s : Logged)
      → lookup j (sweep_from (core_checker t timeout interval) now (map snapshot ns) s).0.0.nodes
        ≡ (if any_lapsed timeout now j ns
            then on_some downed (lookup j s.0.nodes)
            else lookup j s.0.nodes)
  unfolding sweep_from adapter_mark_down
  sweep_from-lookup j [] s = refl
  sweep_from-lookup j (n ∷ ns) s = ground (
    arith,
    eq_iff n.id j,
    state_text-down n.state,
    mark_down-lookup t n.id j s.0,
    sweep_from-lookup j ns s,
    sweep_from-lookup j ns (adapter_mark_down t n.id s),
  )

  pub sweep_from-failures :
      (ns : List Node) (s : Logged)
      → (sweep_from (core_checker t timeout interval) now (map snapshot ns) s).1
        ≡ map (λ n. n.id) (keep (is_lapsed timeout now) ns)
  unfolding sweep_from
  sweep_from-failures [] s = refl
  sweep_from-failures (n ∷ ns) s = ground (
    arith,
    state_text-down n.state,
    sweep_from-failures ns s,
    sweep_from-failures ns (adapter_mark_down t n.id s),
  )

abbrev pub lapsed_at : ℕ → ℕ → Option Node → Bool
lapsed_at timeout now none = false
lapsed_at timeout now (some n) = is_lapsed timeout now n

pub any_lapsed-values :
    (timeout now : ℕ) (j : String) (m : Dict Node)
    → HasDistinctKeys m
    → ((id : String) (n : Node) → lookup id m ≡ some n → n.id ≡ id)
    → any_lapsed timeout now j (values m) ≡ lapsed_at timeout now (lookup j m)
unfolding lookup HasDistinctKeys
any_lapsed-values timeout now j [] keys names = refl
any_lapsed-values timeout now j ((k, n) ∷ m) keys names =
    let rest = any_lapsed-values timeout now j m keys.1 (tail_names k n m keys.0 names) in
    ground (arith, rest, first_name k n m names, eq_iff n.id j, eq_iff k j, keys.0)

-- From a registry that satisfies the invariant, after a sweep each node that had lapsed is down
-- and every other node is as it was, and `onFailure` was called for the lapsed nodes, in the order
-- of the list.
pub sweep-lookup :
    (t : Texts) (timeout interval now : ℕ) (j : String) (s : Logged)
    → Inv s.0
    → let done = sweep (core_checker t timeout interval) now s in
      (lookup j done.0.0.nodes
        ≡ on_some (λ n. if is_lapsed timeout now n then downed n else n) (lookup j s.0.nodes))
      × (done.1 ≡ map (λ n. n.id) (keep (is_lapsed timeout now) (list_nodes s.0)))
unfolding sweep adapter_list_nodes list_nodes
sweep-lookup t timeout interval now j s v = (
  ground (
    arith,
    sweep_from-lookup t timeout interval now j (values s.0.nodes) s,
    any_lapsed-values timeout now j s.0.nodes v.keys v.names,
  ),
  sweep_from-failures t timeout interval now (values s.0.nodes) s,
)

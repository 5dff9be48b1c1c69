-- ===== src/Health.antt =====
-- internal/health/checker.go: the sweep that marks silent nodes down. The registry is behind the
-- interface NodeLister, as in the source; time is an argument, and the failures that the callback is
-- told of are a list.
use router_ui.Base.{ℕ, ◌-◌, List, [], ◌∷◌, String, ◌==◌, ltb, if◌then◌else◌, ◌++◌}

pub record NodeSnapshot : Type 0 where
  pub id : String
  pub state : String
  pub last_heartbeat : ℕ

-- What the checker needs of the registry, whose state is `S`.
pub record NodeLister (S : Type 0) : Type 0 where
  pub list_nodes : S → List NodeSnapshot
  pub mark_down : String → S → S

pub record Checker (S : Type 0) : Type 0 where
  pub registry : NodeLister S
  pub timeout : ℕ
  pub interval : ℕ

-- NewChecker. The callback and the logger are no part of the record.
abbrev pub new_checker : {S : Type 0} → NodeLister S → ℕ → ℕ → Checker S
new_checker lister timeout interval = record {
  registry = lister;
  timeout = timeout;
  interval = interval;
}

module _ {S : Type 0} (c : Checker S) (now : ℕ) where
  -- The loop of sweep over the snapshots: the state, and the nodes that `onFailure` is called for.
  -- A heartbeat in the future gives a negative difference, which is not above the timeout.
  unfoldable pub sweep_from : List NodeSnapshot → S → S × List String
  sweep_from [] s = (s, [])
  sweep_from (n ∷ ns) s =
      let skipped = sweep_from ns s in
      let marked = sweep_from ns (c.registry.mark_down n.id s) in
      if n.state == "down"
      then skipped
      else if ltb c.timeout (now - n.last_heartbeat)
      then (marked.0, n.id ∷ marked.1)
      else skipped

  unfoldable pub sweep : S → S × List String
  sweep s = sweep_from (c.registry.list_nodes s) s

-- Run: a sweep at each tick that comes before the context ends.
unfoldable pub run : {S : Type 0} → Checker S → List ℕ → S → S × List String
run c [] s = (s, [])
run c (now ∷ ticks) s =
    let swept = sweep c now s in let rest = run c ticks swept.0 in (rest.0, swept.1 ++ rest.1)

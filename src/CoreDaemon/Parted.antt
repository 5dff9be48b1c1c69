-- ===== src/CoreDaemon/Parted.antt =====
-- A sweep of the health checker in its parts, with the registry's handlers in between: the snapshots
-- are taken under the registry's mutex, and each call of MarkDown takes it again.
use router_ui.Base.{
  ℕ, ◌-◌, Bool, true, false, not, ◌&&◌, ◌||◌, List, [], ◌∷◌, ◌++◌, map, some, String, ◌==◌, eq_iff,
  ◌≡◌, refl, ◌∙◌, arith, if◌then◌else◌, ltb, leb, Bool-cases, inl, inr,
}
use router_ui.Base.Dict.{lookup, values}
use router_ui.Api.{RegisterRequest}
use router_ui.Health.{NodeSnapshot, sweep_from}
use router_ui.Registry.{Node, Env}
use router_ui.Registry.Store.{is_down, list_nodes, beaten}
use router_ui.Registry.Invariant.{Inv}
use router_ui.Registry.Preserve.{mark_down-Inv}
use router_ui.Registry.Pending.{is_listed}
use router_ui.Registry.States.{mark_down-lookup}
use router_ui.CoreDaemon.{Logged, adapter_list_nodes, adapter_mark_down, core_checker, snapshot}
use router_ui.CoreDaemon.Sweep.{any_lapsed, any_lapsed-values, state_text-down}
use router_ui.CoreDaemon.Timely
use router_ui.CoreDaemon.Timely.{Event, registers, deletes, beats, step-Inv, run-lookup}

-- A part of a sweep, or something else.
pub data Part : Type 0 where
  -- ListNodes, and the test of each snapshot against the time.
  looks : ℕ → Part
  -- MarkDown of the next node that was found silent.
  marks : Part
  joins : ℕ → RegisterRequest → String → Part
  leaves : String → Part
  hears : ℕ → String → Bool → Part

-- The names that sweep marks, from its snapshots.
unfoldable pub silent : ℕ → ℕ → List NodeSnapshot → List String
silent timeout now [] = []
silent timeout now (n ∷ ns) =
    let rest = silent timeout now ns in
    if n.state == "down"
    then rest
    else if ltb timeout (now - n.last_heartbeat)
    then n.id ∷ rest
    else rest

module _ (env : Env) (timeout interval : ℕ) where
  abbrev pub mark_all : List String → Logged → Logged
  mark_all [] s = s
  mark_all (id ∷ ids) s = mark_all ids (adapter_mark_down env.texts id s)

  -- A sweep that nothing comes between is its parts.
  sweep_parts :
      (now : ℕ) (ns : List NodeSnapshot) (s : Logged)
      → (sweep_from (core_checker env.texts timeout interval) now ns s).0
        ≡ mark_all (silent timeout now ns) s
  unfolding sweep_from silent
  sweep_parts now [] s = refl
  sweep_parts now (n ∷ ns) s =
      ground (arith, sweep_parts now ns s, sweep_parts now ns (adapter_mark_down env.texts n.id s))

  -- The core, and the names that are still to be marked.
  abbrev pub part_step : Part → Logged × List String → Logged × List String
  part_step (looks now) (s, ids) = (s, ids ++ silent timeout now (adapter_list_nodes s))
  part_step marks (s, []) = (s, [])
  part_step marks (s, id ∷ ids) = (adapter_mark_down env.texts id s, ids)
  part_step (joins now req key) (s, ids) =
      (Timely.step env timeout interval (registers now req key) s, ids)
  part_step (leaves j) (s, ids) = (Timely.step env timeout interval (deletes j) s, ids)
  part_step (hears now j up) (s, ids) = (Timely.step env timeout interval (beats now j up) s, ids)

  abbrev pub part_run : List Part → Logged × List String → Logged × List String
  part_run [] s = s
  part_run (p ∷ ps) s = part_run ps (part_step p s)

  -- The node is not deleted, and no sweep finds it silent for longer than the timeout at the time
  -- of its snapshots, as its heartbeats come.
  abbrev pub is_punctual : String → ℕ → List Part → Bool
  is_punctual id last [] = true
  is_punctual id last (looks now ∷ ps) = leb (now - last) timeout && is_punctual id last ps
  is_punctual id last (marks ∷ ps) = is_punctual id last ps
  is_punctual id last (joins now req key ∷ ps) = is_punctual id last ps
  is_punctual id last (leaves j ∷ ps) = not (j == id) && is_punctual id last ps
  is_punctual id last (hears now j up ∷ ps) = is_punctual id (if j == id then now else last) ps

  silent-listed :
      (now : ℕ) (id : String) (ns : List Node)
      → is_listed id (silent timeout now (map snapshot ns)) ≡ any_lapsed timeout now id ns
  unfolding silent
  silent-listed now id [] = refl
  silent-listed now id (n ∷ ns) =
      ground (arith, state_text-down n.state, eq_iff n.id id, silent-listed now id ns)

  is_listed-append :
      (id : String) (xs ys : List String)
      → is_listed id (xs ++ ys) ≡ (is_listed id xs || is_listed id ys)
  is_listed-append id [] ys = refl
  is_listed-append id (x ∷ xs) ys = ground (arith, is_listed-append id xs ys)

  looked :
      (now : ℕ) (s : Logged) (id : String) (n : Node)
      → Inv s.0
      → lookup id s.0.nodes ≡ some n
      → leb (now - n.last_heartbeat) timeout ≡ true
      → is_listed id (silent timeout now (adapter_list_nodes s)) ≡ false
  unfolding adapter_list_nodes list_nodes
  looked now s id n v at timely =
      let seen = any_lapsed-values timeout now id s.0.nodes v.keys v.names in
      silent-listed now id (values s.0.nodes) ∙ ground (arith, seen, at, timely)

  marked_other :
      (j id : String) (n : Node) (s : Logged)
      → Inv s.0
      → lookup id s.0.nodes ≡ some n
      → (j == id) ≡ false
      → Inv (adapter_mark_down env.texts j s).0
        × (lookup id (adapter_mark_down env.texts j s).0.nodes ≡ some n)
  unfolding adapter_mark_down
  marked_other j id n s v at other = (
    mark_down-Inv env.texts j s.0 v,
    ground (arith, mark_down-lookup env.texts j id s.0, at, other),
  )

  -- Also where handlers, each on its own, come between the snapshots of a sweep and its calls of
  -- MarkDown, from a registry that satisfies the invariant: a registered node that is up and is not
  -- among the nodes to be marked, which is not deleted and whose heartbeats come in time for the
  -- snapshots of every sweep, is up after any such history.
  pub punctual-up :
      (ps : List Part) (s : Logged) (ids : List String) (id : String) (n : Node)
      → Inv s.0
      → lookup id s.0.nodes ≡ some n
      → is_down n.state ≡ false
      → is_listed id ids ≡ false
      → is_punctual id n.last_heartbeat ps ≡ true
      → (m : Node) × (lookup id (part_run ps (s, ids)).0.0.nodes ≡ some m)
        × (is_down m.state ≡ false)
  punctual-up [] s ids id n v at up free timely = (n, at, up)
  punctual-up (looks now ∷ ps) s ids id n v at up free timely =
      punctual-up ps s (ids ++ silent timeout now (adapter_list_nodes s)) id n v at up
        (ground (
          arith,
          is_listed-append id ids (silent timeout now (adapter_list_nodes s)),
          looked now s id n v at (ground (arith, timely)),
          free,
        ))
        (ground (arith, timely))
  punctual-up (marks ∷ ps) s [] id n v at up free timely =
      punctual-up ps s [] id n v at up free timely
  punctual-up (marks ∷ ps) s (j ∷ ids) id n v at up free timely =
      let (inv, kept) = marked_other j id n s v at (ground (arith, free)) in
      punctual-up ps (adapter_mark_down env.texts j s) ids id n inv kept up (ground (arith, free))
        timely
  punctual-up (joins now req key ∷ ps) s ids id n v at up free timely =
      let e = registers now req key in
      punctual-up ps (Timely.step env timeout interval e s) ids id n
        (step-Inv env timeout interval e s v)
        (run-lookup env timeout interval (e ∷ []) s id n v refl at) up free timely
  punctual-up (leaves j ∷ ps) s ids id n v at up free timely =
      let e = deletes j in
      punctual-up ps (Timely.step env timeout interval e s) ids id n
        (step-Inv env timeout interval e s v)
        (run-lookup env timeout interval (e ∷ []) s id n v (ground (arith, timely)) at) up free
        (ground (arith, timely))
  punctual-up (hears now j b ∷ ps) s ids id n v at up free timely =
      let e = beats now j b in
      let after = step-Inv env timeout interval e s v in
      let at_after = run-lookup env timeout interval (e ∷ []) s id n v refl at in
      elim (Bool-cases (j == id)) [
        | inl same ↦
            punctual-up ps (Timely.step env timeout interval e s) ids id (beaten now b n) after
              (ground (arith, at_after, same)) refl free (ground (arith, timely, same))
        | inr other ↦
            punctual-up ps (Timely.step env timeout interval e s) ids id n after
              (ground (arith, at_after, other)) up free (ground (arith, timely, other))
      ]

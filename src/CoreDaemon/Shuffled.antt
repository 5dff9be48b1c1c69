-- ===== src/CoreDaemon/Shuffled.antt =====
-- A sweep of the health checker in the core, in whatever order the range over the registry's map
-- meets the nodes.
use mathlib.Core.List.Perm
use mathlib.Core.List.{Perm, foldr, filter_map}
use router_ui.Base.{
  ℕ, Bool, false, ◌&&◌, ◌||◌, List, [], ◌∷◌, map, Option, some, none, String, ◌==◌, ◌≡◌, refl, sym,
  ap, ◌∙◌, arith, if◌then◌else◌, keep, Bool-cases, inl, inr,
}
use router_ui.Base.Dict.{lookup}
use router_ui.Net.{Texts}
use router_ui.Health.{sweep_from}
use router_ui.Registry.{Node}
use router_ui.Registry.States.{downed, on_some}
use router_ui.CoreDaemon.{Logged, snapshot, core_checker}
use router_ui.CoreDaemon.Sweep.{is_lapsed, any_lapsed, sweep_from-lookup, sweep_from-failures}

-- any_lapsed as a fold, in which two steps may be swapped.
abbrev seen : ℕ → ℕ → String → Node → Bool → Bool
seen timeout now j n found = (is_lapsed timeout now n && n.id == j) || found

any_lapsed-foldr :
    (timeout now : ℕ) (j : String) (ns : List Node)
    → any_lapsed timeout now j ns ≡ foldr (seen timeout now j) false ns
any_lapsed-foldr timeout now j [] = refl
any_lapsed-foldr timeout now j (n ∷ ns) =
    ap (seen timeout now j n) (any_lapsed-foldr timeout now j ns)

any_lapsed-Perm :
    (timeout now : ℕ) (j : String) (ns ms : List Node)
    → Perm ns ms
    → any_lapsed timeout now j ns ≡ any_lapsed timeout now j ms
any_lapsed-Perm timeout now j ns ms p =
    let set : IsSet Bool = hlevel in
    any_lapsed-foldr timeout now j ns
    ∙ Perm.foldr-eq set (seen timeout now j) (λ a b x. ground arith) p false
    ∙ sym (any_lapsed-foldr timeout now j ms)

abbrev lapsed_id : ℕ → ℕ → Node → Option String
lapsed_id timeout now n = if is_lapsed timeout now n then some n.id else none

lapsed_ids :
    (timeout now : ℕ) (ns : List Node)
    → map (λ n. n.id) (keep (is_lapsed timeout now) ns) ≡ filter_map (lapsed_id timeout now) ns
unfolding filter_map
lapsed_ids timeout now [] = refl
lapsed_ids timeout now (n ∷ ns) = elim (Bool-cases (is_lapsed timeout now n)) [
  | inl lapsed ↦ rw (lapsed, lapsed_id) (ap (λ ids. n.id ∷ ids) (lapsed_ids timeout now ns))
  | inr awake ↦ rw (awake, lapsed_id) (lapsed_ids timeout now ns)
]

-- A sweep over the nodes in one order and in another, as the range over Go's map may meet them:
-- each node is in the end the same in both, and `onFailure` is called for the same nodes, for each
-- as often.
pub sweep_from-Perm :
    (t : Texts) (timeout interval now : ℕ) (ns ms : List Node) (s : Logged)
    → Perm ns ms
    → let checker = core_checker t timeout interval in
      ((j : String)
        → lookup j (sweep_from checker now (map snapshot ns) s).0.0.nodes
          ≡ lookup j (sweep_from checker now (map snapshot ms) s).0.0.nodes)
      × Perm
          (sweep_from checker now (map snapshot ns) s).1
          (sweep_from checker now (map snapshot ms) s).1
sweep_from-Perm t timeout interval now ns ms s p = (
  λ j.
      sweep_from-lookup t timeout interval now j ns s
      ∙ ap (λ b. if b then on_some downed (lookup j s.0.nodes) else lookup j s.0.nodes)
          (any_lapsed-Perm timeout now j ns ms p)
      ∙ sym (sweep_from-lookup t timeout interval now j ms s),
  rw
      (
        sweep_from-failures t timeout interval now ns s,
        sweep_from-failures t timeout interval now ms s,
        lapsed_ids timeout now ns,
        lapsed_ids timeout now ms,
      )
      (Perm.filter_map (lapsed_id timeout now) p),
)

-- ===== src/Policy/Refused.antt =====
-- internal/bgp/policy.go with a BGP server that refuses an assignment to no table.
use router_ui.Base.{List, [], String, ok, err, ◌≡◌, ◌≢◌, refl, ap, ◌∙◌, sym}
use router_ui.Base.Calls.{World, wrapped, and_then_ok, ◌>>◌}
use router_ui.Net.{Texts}
use router_ui.Policy.{
  Assignment, Call, set_policy_assignment, refused, PolicyManager, global_import, add_prefix_sets,
  add_policies, assign_global_import, apply,
}

-- GoBGP wants the name of a table, "global" or that of a route server's client, and answers an
-- assignment without one with an error.
abbrev pub WantsTable : World Call → Type 0
WantsTable bgp =
    (calls : List Call) (a : Assignment)
    → a.name ≡ ""
    → (e : String) × (bgp calls (set_policy_assignment a) ≡ err e)

pub apply_refused :
    (t : Texts) (pm : PolicyManager) (bgp : World Call) (text : String)
    → WantsTable bgp
    → (apply t pm bgp []).0 ≢ ok text
unfolding apply add_prefix_sets add_policies assign_global_import
apply_refused t pm bgp text wants applied =
    let (_, _, after_sets, _) =
      and_then_ok (add_prefix_sets t pm bgp []) (λ _. add_policies >> assign_global_import) bgp text
        applied in
    let done = (add_prefix_sets t pm bgp []).1 in
    let (_, _, after_policies, _) =
      and_then_ok (add_policies bgp done) (λ _. assign_global_import) bgp text after_sets in
    let (e, failed) = wants (add_policies bgp done).1 global_import refl in
    absurd (cc (sym after_policies ∙ ap (wrapped refused) failed))

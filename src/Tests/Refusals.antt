-- ===== src/Tests/Refusals.antt =====
-- A BGP server that wants the name of a table, and a core over it.
use router_ui.Base.{
  [], String, ◌==◌, ◌≡◌, ◌≢◌, refl, ok, err, Result, true, false, none, if◌then◌else◌, All,
}
use router_ui.Base.Calls.{World}
use router_ui.Policy
use router_ui.Policy.{apply, set_policy_assignment, add_defined_set, add_policy}
use router_ui.Policy.Refused.{WantsTable}
use router_ui.CoreDaemon.Start.{Call, apply_policies}
use router_ui.CoreDaemon.Ordered.{opens}
use router_ui.CoreDaemon.Running.{run, bgp_ended}
use router_ui.CoreDaemon.Unstarted.{AppliesBy, run-refused}
use router_ui.Tests.{texts}
use router_ui.Tests.Files.{viper}

abbrev server : World Policy.Call
server calls (set_policy_assignment a) = if a.name == "" then err "empty table name" else ok ""
server calls (add_defined_set s) = ok ""
server calls (add_policy p) = ok ""

wants : WantsTable server
wants calls a unnamed = ("empty table name", rw unnamed refl)

abbrev answer_of : Result Policy.Error String → Result String String
answer_of (ok text) = ok text
answer_of (err e) = err "refused"

abbrev core : World Call
core calls (apply_policies prefix bits) =
    answer_of (apply texts (record { aggregate_prefix = prefix; subnet_bits = bits }) server []).0
core calls c = ok "key"

answer_went :
    (x : Result Policy.Error String) (text : String)
    → answer_of x ≡ ok text
    → (made : String) × (x ≡ ok made)
answer_went (ok made) text e = (made, refl)
answer_went (err e) text failed = absurd (cc failed)

applies : AppliesBy texts server core
applies calls prefix bits text went =
    answer_went (apply texts (record { aggregate_prefix = prefix; subnet_bits = bits }) server []).0
      text went

run-refused_example :
    ((run 5 viper texts (bgp_ended none) "core.yaml" core []).0 ≢ ok true)
    × All (λ c. opens c ≡ false) (run 5 viper texts (bgp_ended none) "core.yaml" core []).1
run-refused_example =
    run-refused 5 viper texts (bgp_ended none) "core.yaml" server core wants applies

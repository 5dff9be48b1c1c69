-- ===== src/CoreDaemon/Unstarted.antt =====
-- cmd/core/main.go with internal/bgp/policy.go: a core whose BGP server wants the name of a table.
use router_ui.Base.{
  ℕ, true, false, List, [], ◌∷◌, String, ok, ◌≡◌, ◌≢◌, refl, All, arith, Result-cases, inl, inr,
}
use router_ui.Base.Calls.{World}
use router_ui.Net.{Texts}
use router_ui.Config.Load.{Viper}
use router_ui.Policy
use router_ui.Policy.{PolicyManager, apply}
use router_ui.Policy.Refused.{WantsTable, apply_refused}
use router_ui.CoreDaemon.Start.{Call, apply_policies, start}
use router_ui.CoreDaemon.Ordered.{opens, is_filtered, is_ordered, start_filtered}
use router_ui.CoreDaemon.Running.{Ending, run}
use router_ui.CoreDaemon.Ended.{run-ok_iff, run-ordered}

-- The call of Apply goes through only where Apply does, in the BGP server.
abbrev pub AppliesBy : Texts → World Policy.Call → World Call → Type 0
AppliesBy t bgp w =
    (calls : List Call) (prefix : String) (bits : ℕ) (text : String)
    → w calls (apply_policies prefix bits) ≡ ok text
    → (made : String) × ((apply t (record { aggregate_prefix = prefix; subnet_bits = bits }) bgp
          []).0
        ≡ ok made)

module _ (t : Texts) (bgp : World Policy.Call) (w : World Call) (wants : WantsTable bgp)
    (by : AppliesBy t bgp w) where
  never_filtered : (calls : List Call) → is_filtered w calls ≡ false
  never_filtered [] = refl
  never_filtered (apply_policies prefix bits ∷ rest) =
      elim (Result-cases (w rest (apply_policies prefix bits))) [
        | inl (e, failed) ↦ rw failed (never_filtered rest)
        | inr (text, went) ↦
            let (made, applied) = by rest prefix bits text went in
            absurd (
              apply_refused t (record { aggregate_prefix = prefix; subnet_bits = bits }) bgp made
                wants applied)
      ]
  never_filtered (c ∷ rest) = never_filtered rest

  unopened : (calls : List Call) → is_ordered w calls ≡ true → All (λ c. opens c ≡ false) calls
  unopened [] o = tt
  unopened (c ∷ rest) o = (
    ground (arith, never_filtered rest, o),
    unopened rest (ground (arith, never_filtered rest, o)),
  )

-- Where the BGP server answers an assignment to no table with an error, and Apply goes through only
-- where that server accepts its requests, no run of the core returns without an error, and none adds
-- a peer, announces a route or opens the HTTP server, whatever the configuration and the other
-- answers.
pub run-refused :
    {V : Type 0} (fuel : ℕ) (v : Viper V) (t : Texts) (ending : Ending) (path : String)
    (bgp : World Policy.Call) (w : World Call)
    → WantsTable bgp
    → AppliesBy t bgp w
    → ((run fuel v t ending path w []).0 ≢ ok true)
      × All (λ c. opens c ≡ false) (run fuel v t ending path w []).1
run-refused fuel v t ending path bgp w wants by = (
  λ ended.
      let (cfg, _, r, started, _) = (run-ok_iff fuel v t ending path w).0 ended in
      let filtered = start_filtered fuel t cfg w r started in
      absurd (ground (arith, filtered, never_filtered t bgp w wants by (start fuel t cfg w []).1)),
  unopened t bgp w wants by (run fuel v t ending path w []).1 (run-ordered fuel v t ending path w),
)

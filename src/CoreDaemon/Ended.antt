-- ===== src/CoreDaemon/Ended.antt =====
-- run of cmd/core/main.go as a whole: its result and the order of its calls.
use router_ui.Base.{
  ℕ, Bool, true, List, [], ◌∷◌, String, none, some, ◌≡◌, ◌↔◌, refl, arith, ok, Result-cases, inl,
  inr, ap, sym, subst, ◌∙◌, ◌==◌, Bool-cases,
}
use router_ui.Base.Calls.{
  World, Act, pure, attempt, succeeded, and_then_ok, and_then_went, and_then_stopped, ◌>>◌,
}
use router_ui.Net.{Texts}
use router_ui.Config.{CoreConfig, ApiConfig}
use router_ui.Config.Load.{Viper, Loaded, valid, invalid, unread, load_core_config}
use router_ui.Registry.{Registry}
use router_ui.CoreDaemon.Start.{Call, Error, run_checker, new_web_ui, shutdown, start}
use router_ui.CoreDaemon.Ordered.{is_filtered, is_ordered, start-ordered, start_filtered}
use router_ui.CoreDaemon.Running.{
  Ending, signalled, bgp_ended, http_ended, listening, report, serve_until, run_loaded, run,
}

-- The call of webui.New goes through.
abbrev pub has_web_ui : World Call → List Call → CoreConfig → Bool
has_web_ui w done cfg = succeeded (
    w (run_checker cfg.health.heartbeat_timeout cfg.health.check_interval ∷ done)
      (new_web_ui cfg.api.api_key))

-- The end of serve_until.
abbrev closing : Ending → Act Call Error Bool
closing ending = report ending >> (attempt shutdown >> pure true)

closing_ok :
    (ending : Ending) (w : World Call) (done : List Call) → (closing ending w done).0 ≡ ok true
closing_ok signalled w done = refl
closing_ok (bgp_ended none) w done = refl
closing_ok (bgp_ended (some e)) w done = refl
closing_ok (http_ended none) w done = refl
closing_ok (http_ended (some e)) w done = elim (Bool-cases (e == "http: Server closed")) [
  | inl closed ↦ rw closed refl
  | inr failed ↦ rw failed refl
]

serve_until-ok :
    (ending : Ending) (cfg : CoreConfig) (w : World Call) (done : List Call)
    → ((serve_until ending cfg w done).0 ≡ ok true) ↔ (has_web_ui w done cfg ≡ true)
unfolding serve_until
serve_until-ok ending cfg w done =
    let key = new_web_ui cfg.api.api_key in
    let checking = run_checker cfg.health.heartbeat_timeout cfg.health.check_interval ∷ done in
    elim (Result-cases (w checking key)) [
      | inl (e, failed) ↦ rw failed (λ ended. absurd (cc ended), λ built. absurd (cc built))
      | inr (page, built) ↦
          rw built (λ _. refl, λ _. closing_ok ending w (listening cfg.api ∷ key ∷ checking))
    ]

loaded_run :
    (fuel : ℕ) (t : Texts) (ending : Ending) (loaded : Loaded CoreConfig) (w : World Call)
    → (run_loaded fuel t ending loaded w []).0 ≡ ok true
    → (cfg : CoreConfig) × (loaded ≡ valid cfg)
      × (((start fuel t cfg >> serve_until ending cfg) w []).0 ≡ ok true)
loaded_run fuel t ending (valid cfg) w ended = (cfg, refl, ended)
loaded_run fuel t ending (invalid cfg e) w ended = absurd (cc ended)
loaded_run fuel t ending (unread e) w ended = absurd (cc ended)

-- The core's run returns without an error exactly when its configuration is loaded and valid, its
-- start succeeds and the dashboard is built, whatever it is that ends it: an error of the BGP
-- server or of the HTTP server is not returned.
pub run-ok_iff :
    {V : Type 0} (fuel : ℕ) (v : Viper V) (t : Texts) (ending : Ending) (path : String)
    (w : World Call)
    → ((run fuel v t ending path w []).0 ≡ ok true) ↔ (
        (cfg : CoreConfig) × (load_core_config v path ≡ valid cfg)
        × (r : Registry) × ((start fuel t cfg w []).0 ≡ ok r)
        × (has_web_ui w (start fuel t cfg w []).1 cfg ≡ true))
unfolding run
run-ok_iff fuel v t ending path w = (
  λ ended.
      let (cfg, loaded, went) = loaded_run fuel t ending (load_core_config v path) w ended in
      let (r, started, served, _) =
        and_then_ok (start fuel t cfg w []) (λ _. serve_until ending cfg) w true went in
      (cfg, loaded, r, started, (serve_until-ok ending cfg w (start fuel t cfg w []).1).0 served),
  λ all.
      let (cfg, loaded, r, started, built) = all in
      let served = (serve_until-ok ending cfg w (start fuel t cfg w []).1).1 built in
      rw loaded (
        ap (λ x. x.0)
          (and_then_went (start fuel t cfg w []) (λ _. serve_until ending cfg) w r started)
        ∙ served),
)

closing_ordered :
    (ending : Ending) (w : World Call) (done : List Call)
    → is_ordered w done ≡ true
    → is_ordered w (closing ending w done).1 ≡ true
closing_ordered signalled w done o = o
closing_ordered (bgp_ended none) w done o = o
closing_ordered (bgp_ended (some e)) w done o = o
closing_ordered (http_ended none) w done o = o
closing_ordered (http_ended (some e)) w done o = elim (Bool-cases (e == "http: Server closed")) [
  | inl closed ↦ rw closed o
  | inr failed ↦ rw failed o
]

listening_ordered :
    (c : ApiConfig) (w : World Call) (done : List Call)
    → is_filtered w done ≡ true
    → is_ordered w done ≡ true
    → is_ordered w (listening c ∷ done) ≡ true
listening_ordered c w done f o = ground arith

serving_ordered :
    (ending : Ending) (cfg : CoreConfig) (w : World Call) (done : List Call)
    → is_filtered w done ≡ true
    → is_ordered w done ≡ true
    → is_ordered w (serve_until ending cfg w done).1 ≡ true
unfolding serve_until
serving_ordered ending cfg w done f o =
    let key = new_web_ui cfg.api.api_key in
    let checking = run_checker cfg.health.heartbeat_timeout cfg.health.check_interval ∷ done in
    elim (Result-cases (w checking key)) [
      | inl (e, failed) ↦ rw failed o
      | inr (page, built) ↦ rw built (
          closing_ordered ending w (listening cfg.api ∷ key ∷ checking)
            (listening_ordered cfg.api w (key ∷ checking) f o))
    ]

-- In whatever way a run of the core goes, no peer was added, no route announced and the HTTP server
-- not opened before the policies had been applied with success.
pub run-ordered :
    {V : Type 0} (fuel : ℕ) (v : Viper V) (t : Texts) (ending : Ending) (path : String)
    (w : World Call)
    → is_ordered w (run fuel v t ending path w []).1 ≡ true
unfolding run
run-ordered fuel v t ending path w = loaded_ordered (load_core_config v path)
  where
    loaded_ordered :
        (loaded : Loaded CoreConfig) → is_ordered w (run_loaded fuel t ending loaded w []).1 ≡ true
    loaded_ordered (invalid cfg e) = refl
    loaded_ordered (unread e) = refl
    loaded_ordered (valid cfg) = elim (Result-cases (start fuel t cfg w []).0) [
      | inl (e, failed) ↦
          subst (λ calls. is_ordered w calls ≡ true)
            (sym
              (and_then_stopped (start fuel t cfg w []) (λ _. serve_until ending cfg) w e failed))
            (start-ordered fuel t cfg w)
      | inr (r, started) ↦
          subst (λ x. is_ordered w x.1 ≡ true)
            (sym (and_then_went (start fuel t cfg w []) (λ _. serve_until ending cfg) w r started))
            (serving_ordered ending cfg w (start fuel t cfg w []).1
              (start_filtered fuel t cfg w r started) (start-ordered fuel t cfg w))
    ]

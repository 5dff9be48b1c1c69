-- ===== src/CoreDaemon/Running.antt =====
-- run of cmd/core/main.go, from its first line to its last: the configuration, the start-up, the
-- health checker, the HTTP server, and the end. The end of the context, on which Speaker.Start and
-- Checker.Run return, and the deferred Close of the WireGuard manager are no calls here; of the log
-- only the errors at the end are.
use router_ui.Base.{ℕ, Bool, true, not, ◌&&◌, Option, none, some, String, ◌==◌, if◌then◌else◌}
use router_ui.Base.Calls.{Act, pure, fail, perform, attempt, ◌>>◌}
use router_ui.Net.{Texts}
use router_ui.Config.{CoreConfig, ApiConfig}
use router_ui.Config.Load.{Viper, Loaded, valid, invalid, unread, load_core_config}
use router_ui.CoreDaemon.Start.{
  Call, run_checker, new_web_ui, listen_and_serve, listen_and_serve_tls, log_error, shutdown,
  HttpServer, Error, not_loaded, no_web_ui, start,
}

-- What the select at the end meets first: a signal, or the end of the BGP server or of the HTTP
-- server with its error.
pub data Ending : Type 0 where
  signalled : Ending
  bgp_ended http_ended : Option String → Ending

abbrev pub http_server : ApiConfig → HttpServer
http_server c = record {
  addr = c.listen;
  read_timeout = 10;
  write_timeout = 10;
  idle_timeout = 60;
  min_version = if not (c.tls_cert == "") && not (c.tls_key == "") then some "TLS 1.2" else none;
}

-- The goroutine of the HTTP server.
abbrev pub listening : ApiConfig → Call
listening c =
    if not (c.tls_cert == "")
    then listen_and_serve_tls (http_server c) c.tls_cert c.tls_key
    else listen_and_serve (http_server c)

-- The branches of the select. The text of http.ErrServerClosed is not an error here.
abbrev pub report : Ending → Act Call Error Bool
report signalled = pure true
report (bgp_ended none) = pure true
report (bgp_ended (some e)) = attempt (log_error "BGP server exited with error")
report (http_ended none) = pure true
report (http_ended (some e)) =
    if not (e == "http: Server closed")
    then attempt (log_error "HTTP server exited with error")
    else pure true

-- What follows the registry.
unfoldable pub serve_until : Ending → CoreConfig → Act Call Error Bool
serve_until ending cfg = do
  attempt (run_checker cfg.health.heartbeat_timeout cfg.health.check_interval)
  perform no_web_ui (new_web_ui cfg.api.api_key)
  attempt (listening cfg.api)
  report ending
  attempt shutdown
  pure true

abbrev pub run_loaded : ℕ → Texts → Ending → Loaded CoreConfig → Act Call Error Bool
run_loaded fuel t ending (valid cfg) = start fuel t cfg >> serve_until ending cfg
run_loaded fuel t ending (invalid cfg e) = fail (not_loaded e)
run_loaded fuel t ending (unread e) = fail (not_loaded e)

unfoldable pub run : {V : Type 0} → ℕ → Viper V → Texts → Ending → String → Act Call Error Bool
run fuel v t ending path = run_loaded fuel t ending (load_core_config v path)

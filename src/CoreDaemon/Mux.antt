-- ===== src/CoreDaemon/Mux.antt =====
-- The HTTP server of cmd/core/main.go: the registry's API and the dashboard behind one mux.
use router_ui.Base.{
  ℕ, List, Option, some, none, String, ◌==◌, eq_iff, ◌≡◌, arith, true, if◌then◌else◌, Result,
}
use router_ui.Webui.{Handler, Answer, page, serve_http}
use router_ui.Registry.{Registry, Env, Request, Outcome}
use router_ui.Registry.Store.{has_api_key}
use router_ui.Registry.Views.{RibEntry}
use router_ui.Registry.Serve.{serve}

-- An answer of http.ServeMux itself is a redirection.
pub data Served : Type 0 where
  by_registry : Outcome → Served
  by_dashboard : Answer → Served
  by_mux : Served

-- `mux` has the pattern that http.ServeMux finds for a path, of the two that are registered.
unfoldable pub serve_core :
    (String → Option String)
    → Handler
    → Env
    → ℕ
    → Result String (List RibEntry)
    → Request
    → Registry
    → Served
serve_core mux ui env now rib req r = elim (mux req.path) [
  | none ↦ by_mux
  | some pattern ↦
      if pattern == "/api/v1/"
      then by_registry (serve env now rib req r)
      else by_dashboard (serve_http ui req.method)
]

-- Whatever key a GET request carries that the mux gives to the dashboard, it is answered with a page that has the
-- key which the registry asks for, where the dashboard was given the registry's key: a second
-- request with the key of the page passes the registry's test.
pub dashboard_leaks :
    (mux : String → Option String) (ui : Handler) (env : Env) (now : ℕ)
    (rib : Result String (List RibEntry)) (req : Request) (r : Registry)
    → ui.api_key ≡ r.core.api_key
    → req.method ≡ "GET"
    → mux req.path ≡ some "/"
    → (key : String) × (serve_core mux ui env now rib req r ≡ by_dashboard (page key))
      × ((second : Request) → has_api_key r (record second { api_key = key }) ≡ true)
unfolding serve_core serve_http
dashboard_leaks mux ui env now rib req r same get outside = (
  ui.api_key,
  ground (arith, outside, eq_iff req.method "GET", get),
  λ second. ground (arith, eq_iff ui.api_key r.core.api_key, same),
)

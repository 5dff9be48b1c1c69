-- ===== src/Webui.antt =====
-- internal/webui/handler.go: the dashboard. Its template is a file of the repository that
-- html/template executes; here a page is the value that the template is given.
use router_ui.Base.{String, ◌==◌, if◌then◌else◌}

pub record Handler : Type 0 where
  pub api_key : String

pub data Answer : Type 0 where
  method_not_allowed : Answer
  -- The page, with the API key in it.
  page : String → Answer

unfoldable pub serve_http : Handler → String → Answer
serve_http h method = if method == "GET" then page h.api_key else method_not_allowed

-- ===== src/Bgpctl.antt =====
-- cmd/bgpctl/main.go: the operator's command line client of the core's HTTP API.
-- A command is a function from its arguments to what it prints or the error it returns. The client
-- and the texts of net/http, encoding/json and time are a record of functions. A table is the list
-- of its rows, without the two lines of headings.
pub mod Commands
pub mod Served
pub mod Routes
use Prim.Native.Char.{code}
use Prim.Native.String
use router_ui.Base.{
  ℕ, ◌&&◌, ◌||◌, Bool, List, [], ◌∷◌, map, Option, none, some, String, ◌==◌, if◌then◌else◌, Result,
  ok, err, nat_eq, ltb, ◌>>=◌,
}
use router_ui.Base.Text.{◌+++◌}
use router_ui.Api.{NodeInfo, RouteSource, RouteEntry, StatusResponse, state_text}

pub record HttpRequest : Type 0 where
  pub method : String
  pub url : String
  pub api_key : String

-- The status code, and what could be read of the body.
pub record Reply : Type 0 where
  pub status : ℕ
  pub body : String

pub record Tools : Type 0 where
  -- http.NewRequest's error, and http.Client.Do.
  pub new_request : String → String → Option String
  pub send : HttpRequest → Result String Reply
  -- json.Unmarshal at the types of the answers; an error answer gives its text, or the empty one.
  pub decode_nodes : String → Result String (List NodeInfo)
  pub decode_routes : String → Result String (List RouteEntry)
  pub decode_status : String → Result String StatusResponse
  pub decode_error : String → String
  -- The rounded time since the second instant, at the first, and the text of an instant.
  pub age : ℕ → ℕ → String
  pub format_time : ℕ → String

-- The variables apiURL and apiKey.
pub record Settings : Type 0 where
  pub api_url : String
  pub api_key : String

pub data Error : Type 0 where
  bad_request bad_body node_missing : String → Error
  request_failed : String → String → String → Error
  api_error : ℕ → String → Error

-- What a flag leaves empty comes from the environment.
unfoldable pub pre_run : Settings → Settings → Settings
pre_run flags environment = record {
  api_url = if flags.api_url == "" then environment.api_url else flags.api_url;
  api_key = if flags.api_key == "" then environment.api_key else flags.api_key;
}

-- strings.TrimRight with a slash for the set of characters.
unfoldable pub trim_slashes : String → String
trim_slashes String.[] = ""
trim_slashes (String.◌∷◌ c s) =
    let rest = trim_slashes s in
    if rest == "" && nat_eq (code c) b'/' then "" else String.◌∷◌ c rest

unfoldable pub api_base : Settings → String
api_base settings = trim_slashes settings.api_url

unfoldable pub state_color : String → String
state_color state =
    if state == "active"
    then "\u{1b}[32m" +++ (state +++ "\u{1b}[0m")
    else if state == "down"
    then "\u{1b}[31m" +++ (state +++ "\u{1b}[0m")
    else "\u{1b}[33m" +++ (state +++ "\u{1b}[0m")

module _ (t : Tools) (settings : Settings) where
  -- The request that apiGet and apiDelete begin with.
  unfoldable pub exchange : String → String → Result Error Reply
  exchange method path =
      let url = api_base settings +++ ("/api/v1" +++ path) in
      elim (t.new_request method url) [
        | some e ↦ err (bad_request e)
        | none ↦ elim (t.send (record { method = method; url = url; api_key = settings.api_key })) [
          | err e ↦ err (request_failed method url e)
          | ok reply ↦ ok reply
        ]
      ]

  abbrev pub decoded : {A : Type 0} → Result String A → Result Error A
  decoded (ok a) = ok a
  decoded (err e) = err (bad_body e)

  unfoldable pub api_get : {A : Type 0} → (String → Result String A) → String → Result Error A
  api_get decode path = do
    reply ← exchange "GET" path
    if nat_eq reply.status 200
        then decoded (decode reply.body)
        else err (api_error reply.status (t.decode_error reply.body))

  -- What is printed.
  unfoldable pub api_delete : String → Result Error String
  api_delete path = do
    reply ← exchange "DELETE" path
    if nat_eq reply.status 204 || nat_eq reply.status 200
        then ok "OK"
        else err (api_error reply.status (t.decode_error reply.body))

pub record NodeRow : Type 0 where
  pub node_id : String
  pub asn : ℕ
  pub state : String
  pub wg_ip : String
  pub subnet : String
  pub age : String
  pub bgp_up : Bool

pub record NodeDetail : Type 0 where
  pub row : NodeRow
  pub public_ip : String
  pub last_heartbeat : String

pub record SubnetRow : Type 0 where
  pub subnet : String
  pub node_id : String
  pub state : String

pub record RouteRow : Type 0 where
  pub prefix : String
  pub next_hop : String
  pub source : RouteSource
  pub active : String

pub record StatusReport : Type 0 where
  pub health : String
  pub version : String
  pub aggregate : String
  pub nodes_total : ℕ
  pub nodes_active : ℕ
  pub nodes_down : ℕ
  pub warns : Bool

abbrev pub node_row : Tools → ℕ → NodeInfo → NodeRow
unfolding state_color
node_row t now n = record {
  node_id = n.node_id;
  asn = n.asn;
  state = state_color (state_text n.state);
  wg_ip = n.wg_ip;
  subnet = n.assigned_subnet;
  age = t.age now n.last_heartbeat;
  bgp_up = n.bgp_session_up;
}

abbrev pub node_detail : Tools → ℕ → NodeInfo → NodeDetail
node_detail t now n = record {
  row = node_row t now n;
  public_ip = n.public_ip;
  last_heartbeat = t.format_time n.last_heartbeat;
}

abbrev pub subnet_row : NodeInfo → SubnetRow
subnet_row n = record {
  subnet = n.assigned_subnet;
  node_id = n.node_id;
  state = state_color (state_text n.state);
}

abbrev pub route_row : RouteEntry → RouteRow
route_row r = record {
  prefix = r.prefix;
  next_hop = r.next_hop;
  source = r.source;
  active = if r.active then "yes" else "no";
}

abbrev pub health_text : Bool → String
health_text is_ok = if is_ok then "HEALTHY" else "DEGRADED"

abbrev pub status_report : StatusResponse → StatusReport
status_report s = record {
  health = health_text s.is_ok;
  version = s.version;
  aggregate = s.aggregate_prefix;
  nodes_total = s.nodes_total;
  nodes_active = s.nodes_active;
  nodes_down = s.nodes_down;
  warns = ltb 0 s.nodes_down;
}

-- ===== src/Bgpctl/Served.antt =====
-- cmd/bgpctl/main.go against internal/registry/registry.go: what a command gets from a registry.
use router_ui.Base.{
  ℕ, Bool, true, false, not, ◌&&◌, List, [], ◌∷◌, map, none, some, String, ◌==◌, eq_iff, ◌≡◌, refl,
  ◌↔◌, arith, if◌then◌else◌, Result, ok, err, All, Option-cases, inl, inr, ap,
}
use router_ui.Base.Text.{◌+++◌, trim_prefix, has_suffix, has_prefix}
use router_ui.Base.Dict.{Dict, lookup, lookup-delete, values, HasDistinctKeys}
use router_ui.Net.{Texts}
use router_ui.Api.{NodeInfo, NodeState, pending, active, down, state_text}
use router_ui.Registry.{
  Node, Registry, Env, Request, Response, json_ok, json_error, unauthorized, no_content, not_found,
  Payload, Message, node_list, summary, node_not_found,
}
use router_ui.Registry.Store.{list_nodes, is_down}
use router_ui.Registry.Views.{RibEntry, node_info, status_of, handle_list_nodes, handle_status}
use router_ui.Registry.Delete.{delete_node, handle_delete_node, delete_entry, release_resources}
use router_ui.Registry.Serve.{route, dispatch, serve}
use router_ui.Registry.Routing.{node_path, route_delete}
use router_ui.Registry.Invariant.{Inv, first_name, tail_names}
use router_ui.Registry.Status.{status_of_lem}
use router_ui.Bgpctl.Commands.{find_node, node_show, node_delete, status}
use router_ui.Bgpctl.{
  Reply, Tools, Settings, api_error, node_missing, api_base, exchange, api_get, api_delete,
  node_detail, node_row, state_color, health_text, status_report,
}

node_detail_lem :
    (t : Tools) (te : Texts) (now : ℕ) (n : Node)
    → node_detail t now (node_info te n) ≡ record {
      row = record {
        node_id = n.id;
        asn = n.asn;
        state = elim n.state [
          | pending ↦ "\u{1b}[33mpending\u{1b}[0m"
          | active ↦ "\u{1b}[32mactive\u{1b}[0m"
          | down ↦ "\u{1b}[31mdown\u{1b}[0m"
        ];
        wg_ip = te.ip_string n.wg_ip;
        subnet = te.cidr_string n.subnet;
        age = t.age now n.last_heartbeat;
        bgp_up = n.bgp_session_up;
      };
      public_ip = te.ip_string n.public_ip;
      last_heartbeat = t.format_time n.last_heartbeat;
    }
unfolding state_color
node_detail_lem t te now n =
    ap
      (λ state. record {
        row = record (node_row t now (node_info te n)) { state = state };
        public_ip = te.ip_string n.public_ip;
        last_heartbeat = t.format_time n.last_heartbeat;
      })
      (colored n.state)
  where
    colored :
        (state : NodeState)
        → state_color (state_text state) ≡ elim state [
          | pending ↦ "\u{1b}[33mpending\u{1b}[0m"
          | active ↦ "\u{1b}[32mactive\u{1b}[0m"
          | down ↦ "\u{1b}[31mdown\u{1b}[0m"
        ]
    colored pending = refl
    colored active = refl
    colored down = refl

-- The bodies that the registry writes.
pub record Bodies : Type 0 where
  pub payload : Payload → String
  pub message : Message → String
  pub unauthorized_body : String
  pub not_found_body : String

abbrev pub reply_of : Bodies → Response → Reply
reply_of b (json_ok p) = record { status = 200; body = b.payload p }
reply_of b (json_error m code) = record { status = code; body = b.message m }
reply_of b unauthorized = record { status = 401; body = b.unauthorized_body }
reply_of b no_content = record { status = 204; body = "" }
reply_of b not_found = record { status = 404; body = b.not_found_body }

degraded : ("DEGRADED" == "HEALTHY") ≡ false
degraded = refl

health_good : (is_ok : Bool) → (health_text is_ok ≡ "HEALTHY") ↔ (is_ok ≡ true)
health_good true = ((λ good. refl), λ h. refl)
health_good false = ((λ bad. cc ((eq_iff "DEGRADED" "HEALTHY").1 bad, degraded)), λ h. cc h)

module _ (t : Tools) (b : Bodies) (settings : Settings) where
  abbrev pub request_to : String → String → Request
  request_to method path = record {
    method = method;
    path = path;
    api_key = settings.api_key;
    body = "";
  }

  -- The network and net/http carry a request of that method for a path to the registry, and its
  -- answer back.
  pub record IsServed (env : Env) (now : ℕ) (rib : Result String (List RibEntry)) (r : Registry)
      (method path : String) : Type 0 where
    pub accepts : t.new_request method (api_base settings +++ path) ≡ none
    pub answers :
        t.send
          (record { method = method; url = api_base settings +++ path; api_key = settings.api_key })
        ≡ ok (reply_of b (serve env now rib (request_to method path) r).response)

  module _ (env : Env) (now : ℕ) (rib : Result String (List RibEntry)) (r : Registry) where
    exchange_served :
        (method path : String)
        → IsServed env now rib r method ("/api/v1" +++ path)
        → exchange t settings method path
          ≡ ok (reply_of b (serve env now rib (request_to method ("/api/v1" +++ path)) r).response)
    unfolding exchange
    exchange_served method path h = rw (h.accepts, h.answers, exchange)

    pub api_get-served :
        {A : Type 0} (decode : String → Result String A) (path : String) (p : Payload) (a : A)
        → IsServed env now rib r "GET" ("/api/v1" +++ path)
        → (serve env now rib (request_to "GET" ("/api/v1" +++ path)) r).response ≡ json_ok p
        → decode (b.payload p) ≡ ok a
        → api_get t settings decode path ≡ ok a
    unfolding api_get
    api_get-served decode path p a h answered read =
        rw (exchange_served "GET" path h, answered, read) refl

    -- `node delete` prints OK exactly when the key is right and the node is registered, and then the
    -- registry has the node no more and every other node as before; else it gives the registry's
    -- error and the registry keeps all nodes.
    pub node_delete-verdict :
        (id : String)
        → IsServed env now rib r "DELETE" (node_path id)
        → (node_delete t settings now id ≡ (
            if settings.api_key == r.core.api_key
            then elim (lookup id r.nodes) [
              | none ↦ err (api_error 404 (t.decode_error (b.message (node_not_found id))))
              | some n ↦ ok "OK"
            ]
            else err (api_error 401 (t.decode_error b.unauthorized_body))))
          × ((j : String)
              → lookup j (serve env now rib (request_to "DELETE" (node_path id)) r).registry.nodes
                ≡ (if (settings.api_key == r.core.api_key) && (id == j)
                    then none
                    else lookup j r.nodes))
    unfolding node_delete api_delete serve dispatch handle_delete_node delete_node delete_entry
        release_resources
    node_delete-verdict id h =
        rw (exchange_served "DELETE" ("/nodes/" +++ id) h, route_delete id)
          (
            ground (arith, eq_iff settings.api_key r.core.api_key),
            λ j. ground (
              arith,
              eq_iff settings.api_key r.core.api_key,
              eq_iff id j,
              lookup-delete id j r.nodes,
            ),
          )

    find_node-values :
        (te : Texts) (id : String) (m : Dict Node)
        → HasDistinctKeys m
        → ((j : String) (n : Node) → lookup j m ≡ some n → n.id ≡ j)
        → find_node id (map (node_info te) (values m))
          ≡ elim (lookup id m) [ none ↦ err (node_missing id) | some n ↦ ok (node_info te n) ]
    unfolding find_node lookup HasDistinctKeys
    find_node-values te id [] keys names = refl
    find_node-values te id ((k, n) ∷ m) keys names =
        let rest = find_node-values te id m keys.1 (tail_names k n m keys.0 names) in
        ground (arith, rest, first_name k n m names, eq_iff n.id id, eq_iff k id)

    listed :
        settings.api_key ≡ r.core.api_key
        → (serve env now rib (request_to "GET" "/api/v1/nodes") r).response
          ≡ json_ok (node_list (map (node_info env.texts) (list_nodes r)))
    unfolding serve dispatch route handle_list_nodes trim_prefix has_suffix has_prefix
    listed key = ground (arith, eq_iff settings.api_key r.core.api_key, key)

    -- With the right key, and if the list of nodes that the registry answers with is decoded as it was
    -- encoded, `node show` prints what the registry stores for the node, each field of it: the tunnel
    -- address, the public address and the block as texts, the state in its color, and the last
    -- heartbeat with its age; and it reports a node that is not registered as missing.
    pub node_show-verdict :
        (id : String)
        → IsServed env now rib r "GET" "/api/v1/nodes"
        → ((infos : List NodeInfo)
            → (serve env now rib (request_to "GET" "/api/v1/nodes") r).response
              ≡ json_ok (node_list infos)
            → t.decode_nodes (b.payload (node_list infos)) ≡ ok infos)
        → Inv r
        → settings.api_key ≡ r.core.api_key
        → node_show t settings now id ≡ elim (lookup id r.nodes) [
          | none ↦ err (node_missing id)
          | some n ↦ ok (record {
            row = record {
              node_id = n.id;
              asn = n.asn;
              state = elim n.state [
                | pending ↦ "\u{1b}[33mpending\u{1b}[0m"
                | active ↦ "\u{1b}[32mactive\u{1b}[0m"
                | down ↦ "\u{1b}[31mdown\u{1b}[0m"
              ];
              wg_ip = env.texts.ip_string n.wg_ip;
              subnet = env.texts.cidr_string n.subnet;
              age = t.age now n.last_heartbeat;
              bgp_up = n.bgp_session_up;
            };
            public_ip = env.texts.ip_string n.public_ip;
            last_heartbeat = t.format_time n.last_heartbeat;
          })
        ]
    unfolding node_show list_nodes
    node_show-verdict id h read v key =
        let infos = map (node_info env.texts) (list_nodes r) in
        let answered = listed key in
        rw
          (
            api_get-served t.decode_nodes "/nodes" (node_list infos) infos h answered
                (read infos answered),
            find_node-values env.texts id r.nodes v.keys v.names,
          )
          (elim (Option-cases (lookup id r.nodes)) [
            | inl missing ↦ rw missing refl
            | inr (n, there) ↦ rw there (ap ok (node_detail_lem t env.texts now n))
          ])

    -- Whatever the key, and if the summary is decoded as it was encoded, `status` reports the summary
    -- of the registry's nodes, the health as good exactly when no node is down, and warns exactly when
    -- the summary is not ok.
    pub status-verdict :
        IsServed env now rib r "GET" "/api/v1/status"
        → t.decode_status (b.payload (summary (status_of (list_nodes r))))
          ≡ ok (status_of (list_nodes r))
        → (status t settings now ≡ ok (status_report (status_of (list_nodes r))))
          × (((status_report (status_of (list_nodes r))).health ≡ "HEALTHY")
              ↔ All (λ n. is_down n.state ≡ false) (list_nodes r))
          × ((status_report (status_of (list_nodes r))).warns
              ≡ not (status_of (list_nodes r)).is_ok)
    unfolding status serve dispatch route handle_status trim_prefix has_suffix has_prefix
    status-verdict h read =
        let summary_of = status_of (list_nodes r) in
        let counted = (status_of_lem (list_nodes r)).3 in
        (
          rw (api_get-served t.decode_status "/status" (summary summary_of) summary_of h refl read)
              refl,
          (
            (λ good. counted.0 ((health_good summary_of.is_ok).0 good)),
            λ up. (health_good summary_of.is_ok).1 (counted.1 up),
          ),
          ground arith,
        )

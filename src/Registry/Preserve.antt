-- ===== src/Registry/Preserve.antt =====
-- internal/registry/registry.go: the invariant and the handlers, each run on its own.
use router_ui.Base.{
  ℕ, Bool, ◌||◌, List, String, ◌==◌, refl, arith, Result, Result-cases, Option-cases, inl, inr,
  Bool-cases,
}
use router_ui.Base.Dict.{lookup}
use router_ui.Net.{Texts}
use router_ui.Api.{RegisterRequest}
use router_ui.Registry.{Registry, Env, Request}
use router_ui.Registry.Store.{mark_down, record_heartbeat, has_api_key}
use router_ui.Registry.Register.{register_node, register_checked, handle_register}
use router_ui.Registry.Delete.{delete_entry, release_resources, delete_node, handle_delete_node}
use router_ui.Registry.Views.{
  RibEntry, handle_heartbeat, handle_list_nodes, handle_list_routes, handle_status,
}
use router_ui.Registry.Serve.{Route, to_register, to_heartbeat, to_delete, route, dispatch, serve}
use router_ui.Registry.Invariant.{Inv}
use router_ui.Registry.Alone.{remove-Inv}
use router_ui.Registry.Pending.{settled, settled-Inv, unsettled-Inv}
use router_ui.Registry.Interleaved.{registered-Inv, marked-Inv, beaten-Inv}

pub register_node-Inv :
    (env : Env) (now : ℕ) (req : RegisterRequest) (key : String) (r : Registry)
    → Inv r
    → Inv (register_node env now req key r).registry
register_node-Inv env now req key r v =
    settled-Inv _ (registered-Inv env now req key (settled r) (unsettled-Inv r v) refl refl) refl
      refl

pub mark_down-Inv : (t : Texts) (id : String) (r : Registry) → Inv r → Inv (mark_down t id r).0
mark_down-Inv t id r v = settled-Inv _ (marked-Inv t id (settled r) (unsettled-Inv r v)) refl refl

pub record_heartbeat-Inv :
    (t : Texts) (now : ℕ) (id : String) (bgp_up : Bool) (r : Registry)
    → Inv r
    → Inv (record_heartbeat t now id bgp_up r).1
record_heartbeat-Inv t now id bgp_up r v =
    settled-Inv _ (beaten-Inv t now id bgp_up (settled r) (unsettled-Inv r v)) refl refl

pub delete_node-Inv :
    (t : Texts) (id : String) (r : Registry) → Inv r → Inv (delete_node t id r).registry
unfolding delete_node release_resources delete_entry
delete_node-Inv t id r v = elim (Option-cases (lookup id r.nodes)) [
  | inl new ↦ rw (new, delete_node) v
  | inr (n, at) ↦ rw (at, delete_node) (remove-Inv id r v)
]

register_checked-Inv :
    (env : Env) (now : ℕ) (req : RegisterRequest) (r : Registry)
    → Inv r
    → Inv (register_checked env now req r).registry
unfolding register_checked
register_checked-Inv env now req r v =
    elim (Bool-cases (req.node_id == "" || req.public_ip == "" || req.wg_public_key == "")) [
      | inl missing ↦ rw (missing, register_checked) v
      | inr whole ↦
          rw (whole, register_checked)
            (elim (Result-cases (env.parse_key req.wg_public_key)) [
              | inl (e, bad) ↦ rw bad v
              | inr (key, good) ↦ rw good (register_node-Inv env now req key r v)
            ])
    ]

handle_register-Inv :
    (env : Env) (now : ℕ) (req : Request) (r : Registry)
    → Inv r
    → Inv (handle_register env now req r).registry
unfolding handle_register
handle_register-Inv env now req r v = elim (Bool-cases (has_api_key r req)) [
  | inl key ↦
      rw (key, handle_register)
        (elim (Result-cases (env.decode_register req.body)) [
          | inl (e, bad) ↦ rw bad v
          | inr (body, good) ↦ rw good (register_checked-Inv env now body r v)
        ])
  | inr other ↦ rw (other, handle_register) v
]

handle_heartbeat-Inv :
    (env : Env) (now : ℕ) (id : String) (req : Request) (r : Registry)
    → Inv r
    → Inv (handle_heartbeat env now id req r).registry
unfolding handle_heartbeat
handle_heartbeat-Inv env now id req r v = elim (Bool-cases (has_api_key r req)) [
  | inl key ↦
      rw (key, handle_heartbeat)
        (elim (Result-cases (env.decode_heartbeat req.body)) [
          | inl (e, bad) ↦ rw bad v
          | inr (hb, good) ↦
              rw good (ground (arith, record_heartbeat-Inv env.texts now id hb.bgp_session_up r v))
        ])
  | inr other ↦ rw (other, handle_heartbeat) v
]

dispatch-Inv :
    (env : Env) (now : ℕ) (rib : Result String (List RibEntry)) (req : Request) (r : Registry)
    (to : Route)
    → Inv r
    → Inv (dispatch env now rib req r to).registry
unfolding dispatch handle_delete_node handle_list_nodes handle_list_routes handle_status
dispatch-Inv env now rib req r to_register v = handle_register-Inv env now req r v
dispatch-Inv env now rib req r (to_heartbeat id) v = handle_heartbeat-Inv env now id req r v
dispatch-Inv env now rib req r (to_delete id) v = ground (arith, delete_node-Inv env.texts id r v)
dispatch-Inv env now rib req r _ v = ground arith

-- Whatever request is served, on its own, the registry satisfies the invariant afterwards if it
-- did before: it agrees with the allocator of blocks and the pool of addresses.
pub serve-Inv :
    (env : Env) (now : ℕ) (rib : Result String (List RibEntry)) (req : Request) (r : Registry)
    → Inv r
    → Inv (serve env now rib req r).registry
unfolding serve
serve-Inv env now rib req r v = dispatch-Inv env now rib req r (route req.method req.path) v

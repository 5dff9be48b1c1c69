-- ===== src/Registry/Routing.antt =====
-- ServeHTTP against the paths that the agent and bgpctl build.
use text.Mathlib.TextLemmas.{append_assoc}
use router_ui.Base.{
  true, false, String, ◌==◌, eq_iff, ◌≡◌, refl, sym, ap, ◌∙◌, arith, Bool-cases, inl, inr,
}
use router_ui.Base.Text.{
  ◌+++◌, has_suffix, trim_prefix-append, trim_suffix-append, has_prefix-append, has_suffix-append,
}
use router_ui.Registry.Serve.{to_heartbeat, to_delete, route}

-- The path of the agent's heartbeat URL.
abbrev pub heartbeat_path : String → String
heartbeat_path id = "/api/v1" +++ ("/nodes/" +++ (id +++ "/heartbeat"))

-- The path of bgpctl's delete request.
abbrev pub node_path : String → String
node_path id = "/api/v1" +++ ("/nodes/" +++ id)

ends_differently : has_suffix "/nodes/register" "/heartbeat" ≡ false
unfolding has_suffix
ends_differently = refl

not_register : (s : String) → has_suffix s "/heartbeat" ≡ true → (s == "/nodes/register") ≡ false
not_register s h = elim (Bool-cases (s == "/nodes/register")) [
  | inl same ↦
      absurd (cc (ends_differently, h, ap (λ p. has_suffix p "/heartbeat") ((eq_iff _ _).0 same)))
  | inr other ↦ other
]

suffix : (id : String) → has_suffix ("/nodes/" +++ (id +++ "/heartbeat")) "/heartbeat" ≡ true
suffix id =
    ap (λ s. has_suffix s "/heartbeat") (sym (append_assoc "/nodes/" id "/heartbeat"))
    ∙ has_suffix-append ("/nodes/" +++ id) "/heartbeat"

-- The heartbeat of any node reaches the heartbeat handler under the node's own name.
pub route_heartbeat : (id : String) → route "POST" (heartbeat_path id) ≡ to_heartbeat id
unfolding route
route_heartbeat id =
    let path : String = "/nodes/" +++ (id +++ "/heartbeat") in
    rw (trim_prefix-append "/api/v1" path) (
      ground (
        arith,
        eq_iff "POST" "POST",
        suffix id,
        not_register path (suffix id),
        trim_prefix-append "/nodes/" (id +++ "/heartbeat"),
        trim_suffix-append id "/heartbeat",
      ))

-- A delete of any node reaches the delete handler under the node's own name.
pub route_delete : (id : String) → route "DELETE" (node_path id) ≡ to_delete id
unfolding route
route_delete id =
    rw (trim_prefix-append "/api/v1" ("/nodes/" +++ id))
      (ground (arith, has_prefix-append "/nodes/" id, trim_prefix-append "/nodes/" id))

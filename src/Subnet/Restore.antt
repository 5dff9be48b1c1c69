-- ===== src/Subnet/Restore.antt =====
-- internal/subnet/allocator.go, AssignSpecific: its answers, and what the nodes hold after it.
use router_ui.Base.{
  ◌≡◌, refl, ◌≢◌, false, not, ◌&&◌, List, [], ◌∷◌, Option, none, some, String, ◌==◌, eq_iff, arith,
  if◌then◌else◌, Result, ok, err,
}
use router_ui.Net.{IpNet, Texts}
use router_ui.Subnet.{
  Subnet, Allocator, Error, not_in_pool, assigned_to, find_held, release_in, release, assign_in,
  assign_specific, subnet_for_node,
}

-- The first entry whose block has that text.
unfoldable pub entry_at : Texts → String → List Subnet → Option Subnet
entry_at t cidr [] = none
entry_at t cidr (s ∷ ss) = if t.cidr_string s.cidr == cidr then some s else entry_at t cidr ss

-- What AssignSpecific answers, for an entry or none.
unfoldable pub verdict : String → Option Subnet → Result Error (Unit {0})
verdict id none = err not_in_pool
verdict id (some s) =
    if s.in_use && not (s.node_id == id) then err (assigned_to s.node_id) else ok tt

assign_in-result :
    (t : Texts) (cidr id : String) (ss : List Subnet)
    → (assign_in t cidr id ss).0 ≡ verdict id (entry_at t cidr ss)
unfolding assign_in entry_at verdict
assign_in-result t cidr id [] = refl
assign_in-result t cidr id (s ∷ ss) = ground (arith, assign_in-result t cidr id ss)

-- AssignSpecific fails on a text that no block has and on a block that another node holds, and on
-- nothing else.
pub assign_specific-result :
    (t : Texts) (cidr id : String) (a : Allocator)
    → (assign_specific t cidr id a).0 ≡ verdict id (entry_at t cidr a.subnets)
unfolding assign_specific
assign_specific-result t cidr id a = assign_in-result t cidr id a.subnets

-- A failed call changes nothing.
pub assign_in_failed :
    (t : Texts) (cidr id : String) (ss : List Subnet) (e : Error)
    → (assign_in t cidr id ss).0 ≡ err e
    → (assign_in t cidr id ss).1 ≡ ss
unfolding assign_in
assign_in_failed t cidr id [] e h = refl
assign_in_failed t cidr id (s ∷ ss) e h = ground (arith, assign_in_failed t cidr id ss e)

-- No other node gains or loses a block.
pub find_held-assign_in :
    (t : Texts) (cidr id j : String) (ss : List Subnet)
    → id ≢ j
    → find_held j (assign_in t cidr id ss).1 ≡ find_held j ss
unfolding assign_in find_held
find_held-assign_in t cidr id j [] ne = refl
find_held-assign_in t cidr id j (s ∷ ss) ne = ground (
  arith,
  eq_iff id j,
  eq_iff s.node_id j,
  eq_iff s.node_id id,
  find_held-assign_in t cidr id j ss ne,
)

-- Assigning a free entry leaves the node with a block.
find_held-assign_in_self :
    (t : Texts) (cidr id : String) (ss : List Subnet) (s : Subnet)
    → entry_at t cidr ss ≡ some s
    → s.in_use ≡ false
    → find_held id (assign_in t cidr id ss).1 ≢ none
unfolding entry_at assign_in find_held
find_held-assign_in_self t cidr id [] s at free e = cc
find_held-assign_in_self t cidr id (x ∷ ss) s at free e =
    ground (arith, eq_iff id id, find_held-assign_in_self t cidr id ss s)

assign_in_second :
    (t : Texts) (cidr id : String) (ss : List Subnet) (s : Subnet) (c : IpNet)
    → entry_at t cidr ss ≡ some s
    → s.in_use ≡ false
    → find_held id ss ≡ some c
    → find_held id (release_in id (assign_in t cidr id ss).1).1 ≢ none
unfolding entry_at assign_in find_held release_in
assign_in_second t cidr id [] s c at free h e = cc
assign_in_second t cidr id (x ∷ ss) s c at free h e = ground (
  arith,
  eq_iff x.node_id id,
  eq_iff id id,
  find_held-assign_in_self t cidr id ss s,
  assign_in_second t cidr id ss s c,
)

-- A node that holds a block can be assigned a free block by its text: the call succeeds, and a
-- Release of the node then leaves it with a block.
pub assign_specific_second :
    (t : Texts) (cidr id : String) (a : Allocator) (s : Subnet) (c : IpNet)
    → entry_at t cidr a.subnets ≡ some s
    → s.in_use ≡ false
    → subnet_for_node id a ≡ some c
    → ((assign_specific t cidr id a).0 ≡ ok tt)
      × (subnet_for_node id (release id (assign_specific t cidr id a).1).1 ≢ none)
unfolding assign_specific release subnet_for_node verdict
assign_specific_second t cidr id a s c at free h = (
  ground (arith, assign_in-result t cidr id a.subnets),
  assign_in_second t cidr id a.subnets s c at free h,
)

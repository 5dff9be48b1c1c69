-- ===== src/Subnet.antt =====
-- internal/subnet/allocator.go: the aggregate block is carved into sub-prefixes of one length, and
-- each is free or held by a node. Each method of Allocator is a function from the state to its
-- result and the state after it; the methods hold one mutex, so they do not interleave.
-- `Carve` has the carving, `Owners` the assignment.
pub mod Carve
pub mod Owners
pub mod Methods
pub mod Create
pub mod History
pub mod Restore
pub mod Shape
use router_ui.Base.{
  ℕ, zero, suc, ◌+◌, ◌-◌, ◌*◌, ◌%◌, ◌^◌, ◌≡◌, refl, Bool, true, false, not, ◌&&◌, List, [], ◌∷◌,
  Option, none, some, String, ◌==◌, arith, nat_eq, ltb, leb, if◌then◌else◌, length, Result, ok, err,
  ◌>>=◌,
}
use router_ui.Net.{Ip, IpNet, be_value, to4, put_uint32, mask_ip4, Texts}

pub record Subnet : Type 0 where
  pub cidr : IpNet
  pub in_use : Bool
  pub node_id : String

pub record Allocator : Type 0 where
  pub base : IpNet
  pub subnets : List Subnet

pub data Error : Type 0 where
  parse_base not_ip4 bits_too_short bits_too_long no_free not_in_pool no_subnet : Error
  assigned_to : String → Error

-- One sub-prefix of `carve`'s loop: the address of block `i`, masked.
abbrev pub carved : ℕ → ℕ → ℕ → Subnet
carved base_int subnet_bits i = record {
  cidr = record {
    ip =
        mask_ip4 subnet_bits
          (put_uint32 ((base_int + (i % 2 ^ 32) * 2 ^ (32 - subnet_bits) % 2 ^ 32) % 2 ^ 32));
    ones = subnet_bits;
    bits = 32;
  };
  in_use = false;
  node_id = "";
}

-- The loop from index `i`, with `left` rounds to go.
unfoldable pub carve_from : ℕ → ℕ → ℕ → ℕ → List Subnet
carve_from base_int subnet_bits i zero = []
carve_from base_int subnet_bits i (suc left) =
    carved base_int subnet_bits i ∷ carve_from base_int subnet_bits (i + 1) left

unfoldable pub carve : IpNet → ℕ → Result Error (List Subnet)
carve base subnet_bits =
    if nat_eq (length (to4 base.ip)) 0
    then err not_ip4
    else ok (carve_from (be_value (to4 base.ip)) subnet_bits 0 (2 ^ (subnet_bits - base.ones)))

-- `subnet_bits` is an int in the source; a negative one fails the first test, as 0 does.
new_checked : IpNet → ℕ → Result Error Allocator
new_checked base subnet_bits =
    if nat_eq (length (to4 base.ip)) 0
    then err not_ip4
    else if leb subnet_bits base.ones
    then err bits_too_short
    else if ltb 30 subnet_bits
    then err bits_too_long
    else do subnets ← carve base subnet_bits; ok (record { base = base; subnets = subnets })

unfoldable pub new_allocator : Texts → String → ℕ → Result Error Allocator
unfolding new_checked
new_allocator t base_prefix subnet_bits = elim (t.parse_cidr base_prefix) [
  | none ↦ err parse_base
  | some base ↦ new_checked base subnet_bits
]

abbrev pub held_by : String → Subnet → Bool
held_by node_id s = s.in_use && s.node_id == node_id

-- The loop of SubnetForNode, and the first loop of Allocate.
unfoldable pub find_held : String → List Subnet → Option IpNet
find_held node_id [] = none
find_held node_id (s ∷ ss) = if held_by node_id s then some s.cidr else find_held node_id ss

abbrev pub taken : String → Subnet → Subnet
taken node_id s = record s { in_use = true; node_id = node_id }

-- The second loop of Allocate: the first free entry is taken.
unfoldable pub take_free : String → List Subnet → Option IpNet × List Subnet
take_free node_id [] = (none, [])
take_free node_id (s ∷ ss) =
    let rest = take_free node_id ss in
    if not s.in_use then (some s.cidr, taken node_id s ∷ ss) else (rest.0, s ∷ rest.1)

abbrev pub or_fail {ℓ} : {A : Type ℓ} → Option A → Error → Result Error A
or_fail none e = err e
or_fail (some a) e = ok a

-- Each method returns its result and the allocator after it.
unfoldable pub allocate : String → Allocator → Result Error IpNet × Allocator
allocate node_id a = elim (find_held node_id a.subnets) [
  | some cidr ↦ (ok cidr, a)
  | none ↦
      let found = take_free node_id a.subnets in
      (or_fail found.0 no_free, record a { subnets = found.1 })
]

abbrev pub freed : Subnet → Subnet
freed s = record s { in_use = false; node_id = "" }

-- The loop of Release: the first entry that the node holds is freed.
unfoldable pub release_in : String → List Subnet → Bool × List Subnet
release_in node_id [] = (false, [])
release_in node_id (s ∷ ss) =
    let rest = release_in node_id ss in
    if held_by node_id s then (true, freed s ∷ ss) else (rest.0, s ∷ rest.1)

unfoldable pub release : String → Allocator → Result Error (Unit {0}) × Allocator
release node_id a =
    let done = release_in node_id a.subnets in
    (if done.0 then ok tt else err no_subnet, record a { subnets = done.1 })

-- The loop of AssignSpecific, up to the first entry with that text.
unfoldable pub assign_in :
    Texts → String → String → List Subnet → Result Error (Unit {0}) × List Subnet
assign_in t cidr node_id [] = (err not_in_pool, [])
assign_in t cidr node_id (s ∷ ss) =
    let rest = assign_in t cidr node_id ss in
    if t.cidr_string s.cidr == cidr
    then (if s.in_use && not (s.node_id == node_id)
        then (err (assigned_to s.node_id), s ∷ ss)
        else (ok tt, taken node_id s ∷ ss))
    else (rest.0, s ∷ rest.1)

unfoldable pub assign_specific :
    Texts → String → String → Allocator → Result Error (Unit {0}) × Allocator
assign_specific t cidr node_id a =
    let done = assign_in t cidr node_id a.subnets in (done.0, record a { subnets = done.1 })

-- SubnetForNode, List (a deep copy: equal values) and Base.
unfoldable pub subnet_for_node : String → Allocator → Option IpNet
subnet_for_node node_id a = find_held node_id a.subnets

abbrev pub list : Allocator → List Subnet
list a = a.subnets

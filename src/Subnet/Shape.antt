-- ===== src/Subnet/Shape.antt =====
-- internal/subnet/allocator.go: the form of the blocks, and where they lie.
use router_ui.Base.{
  ℕ, zero, suc, ◌+◌, ◌-◌, ◌^◌, ◌≤◌, ◌<◌, ◌≡◌, refl, true, List, [], ◌∷◌, some, String, arith,
  length, All, ok, sym, subst, Bool-cases, inl, inr,
}
use router_ui.Net.{IpNet, IsIp4Net, be_value, contains, put_uint32, mask_ip4, Texts}
use router_ui.Subnet.{
  Subnet, Allocator, held_by, find_held, allocate, release, subnet_for_node, carve_from,
  new_allocator,
}
use router_ui.Subnet.Owners.{cidrs}
use router_ui.Subnet.Methods.{cidrs-allocate, cidrs-release, holder-covering}
use router_ui.Subnet.Create.{IsTiling, new_allocator_carved}
use router_ui.Subnet.History.{allocates, releases, Call, run}

-- Four bytes, and one length.
abbrev pub IsBlock : ℕ → IpNet → Type 0
IsBlock bits c = (length c.ip ≡ 4) × (c.ones ≡ bits)

pub record HasShape (bits : ℕ) (a : Allocator) : Type 0 where
  pub blocks : All (IsBlock bits) (cidrs a.subnets)

carve_from-IsBlock :
    (base_int bits i n : ℕ) → All (IsBlock bits) (cidrs (carve_from base_int bits i n))
unfolding carve_from mask_ip4 put_uint32
carve_from-IsBlock base_int bits i zero = tt
carve_from-IsBlock base_int bits i (suc n) =
    ((refl, refl), carve_from-IsBlock base_int bits (i + 1) n)

find_held-All :
    (P : IpNet → Type 0) (id : String) (ss : List Subnet) (c : IpNet)
    → All P (cidrs ss)
    → find_held id ss ≡ some c
    → P c
unfolding find_held
find_held-All P id [] c h e = absurd (cc)
find_held-All P id (s ∷ ss) c h e = elim (Bool-cases (held_by id s)) [
  | inl yes_held ↦ let same : s.cidr ≡ c = cc (rw yes_held at e) in subst P same h.0
  | inr other ↦ find_held-All P id ss c h.1 (rw other at e)
]

-- The bounds that NewAllocator checks, and the form of the blocks that it makes.
pub new_allocator-HasShape :
    (t : Texts) (prefix : String) (base : IpNet) (bits : ℕ) (a : Allocator)
    → t.parse_cidr prefix ≡ some base
    → IsIp4Net base
    → new_allocator t prefix bits ≡ ok a
    → HasShape bits a × (base.ones < bits) × (bits ≤ 30)
new_allocator-HasShape t prefix base bits a parsed net e =
    let (carved_as, longer, short) = new_allocator_carved t prefix base bits a parsed net e in
    (
      record {
        blocks =
            subst (λ ss. All (IsBlock bits) (cidrs ss)) (sym carved_as)
              (carve_from-IsBlock (be_value base.ip) bits 0 (2 ^ (bits - base.ones)));
      },
      longer,
      short,
    )

pub allocate-HasShape :
    (bits : ℕ) (id : String) (a : Allocator) → HasShape bits a → HasShape bits (allocate id a).1
allocate-HasShape bits id a h = record {
  blocks = subst (All (IsBlock bits)) (sym (cidrs-allocate id a)) h.blocks;
}

pub release-HasShape :
    (bits : ℕ) (id : String) (a : Allocator) → HasShape bits a → HasShape bits (release id a).1
release-HasShape bits id a h = record {
  blocks = subst (All (IsBlock bits)) (sym (cidrs-release id a)) h.blocks;
}

pub run-HasShape :
    (bits : ℕ) (calls : List Call) (a : Allocator) → HasShape bits a → HasShape bits (run calls a)
unfolding run
run-HasShape bits [] a h = h
run-HasShape bits (allocates id ∷ calls) a h =
    run-HasShape bits calls (allocate id a).1 (allocate-HasShape bits id a h)
run-HasShape bits (releases id ∷ calls) a h =
    run-HasShape bits calls (release id a).1 (release-HasShape bits id a h)

-- A network contains its own address.
pub contains_self : (c : IpNet) → contains c c.ip ≡ true
unfolding contains
contains_self c = ground arith

pub holder-IsBlock :
    (bits : ℕ) (id : String) (a : Allocator) (c : IpNet)
    → HasShape bits a
    → subnet_for_node id a ≡ some c
    → IsBlock bits c
unfolding subnet_for_node
holder-IsBlock bits id a c h e = find_held-All (IsBlock bits) id a.subnets c h.blocks e

-- The block of a node begins in the base.
pub contains-holder :
    (bits : ℕ) (id : String) (a : Allocator) (c : IpNet)
    → HasShape bits a
    → IsTiling a
    → subnet_for_node id a ≡ some c
    → contains a.base c.ip ≡ true
unfolding subnet_for_node
contains-holder bits id a c h tiling e =
    let (four, _) = holder-IsBlock bits id a c h e in
    ground (arith, tiling.tiles c.ip four, holder-covering id c.ip a.subnets c e (contains_self c))

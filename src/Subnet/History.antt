-- ===== src/Subnet/History.antt =====
-- An allocator after any sequence of Allocate and Release calls.
use router_ui.Base.{
  ◌≡◌, refl, ◌≢◌, true, false, List, [], ◌∷◌, some, String, arith, if◌then◌else◌, length, keep, ap,
  sym, ◌∙◌, Bool-cases, inl, inr,
}
use router_ui.Net.{Ip, IpNet, contains}
use router_ui.Subnet.{Subnet, Allocator, allocate, release, subnet_for_node}
use router_ui.Subnet.Carve.{covering}
use router_ui.Subnet.Owners.{cidrs}
use router_ui.Subnet.Methods.{
  IsValid, allocate-IsValid, release-IsValid, cidrs-allocate, cidrs-release, two_holders-covering,
}
use router_ui.Subnet.Create.{IsTiling}

-- `covering` looks at the blocks alone.
covering-cidrs :
    (ip : Ip) (ss : List Subnet) → covering ip ss ≡ length (keep (λ c. contains c ip) (cidrs ss))
covering-cidrs ip [] = refl
covering-cidrs ip (s ∷ ss) = ground (arith, covering-cidrs ip ss)

IsTiling-of_cidrs :
    (a b : Allocator)
    → b.base ≡ a.base
    → cidrs b.subnets ≡ cidrs a.subnets
    → IsTiling a
    → IsTiling b
IsTiling-of_cidrs a b base same tiling = record {
  tiles = λ ip four.
      covering-cidrs ip b.subnets
      ∙ ap (λ cs. length (keep (λ c. contains c ip) cs)) same
      ∙ sym (covering-cidrs ip a.subnets)
      ∙ tiling.tiles ip four
      ∙ ap (λ net. if contains net ip then 1 else 0) (sym base);
}

base-allocate : (id : String) (a : Allocator) → (allocate id a).1.base ≡ a.base
unfolding allocate
base-allocate id a = ground arith

pub allocate-IsTiling : (id : String) (a : Allocator) → IsTiling a → IsTiling (allocate id a).1
allocate-IsTiling id a =
    IsTiling-of_cidrs a (allocate id a).1 (base-allocate id a) (cidrs-allocate id a)

pub release-IsTiling : (id : String) (a : Allocator) → IsTiling a → IsTiling (release id a).1
unfolding release
release-IsTiling id a = IsTiling-of_cidrs a (release id a).1 refl (cidrs-release id a)

pub data Call : Type 0 where
  allocates releases : String → Call

unfoldable pub run : List Call → Allocator → Allocator
run [] a = a
run (allocates id ∷ calls) a = run calls (allocate id a).1
run (releases id ∷ calls) a = run calls (release id a).1

-- Whatever calls of Allocate and Release are made on an allocator whose blocks tile the base, in
-- which no node holds two and no free block has a name, it stays so.
pub run-IsTiling :
    (calls : List Call) (a : Allocator)
    → IsTiling a
    → IsValid a
    → IsTiling (run calls a) × IsValid (run calls a)
unfolding run
run-IsTiling [] a t v = (t, v)
run-IsTiling (allocates id ∷ calls) a t v =
    run-IsTiling calls (allocate id a).1 (allocate-IsTiling id a t) (allocate-IsValid id a v)
run-IsTiling (releases id ∷ calls) a t v =
    run-IsTiling calls (release id a).1 (release-IsTiling id a t) (release-IsValid id a v)

-- In an allocator whose blocks tile the base, an IPv4 address in the block of a node is not in the
-- block of another one.
pub holders_disjoint :
    (a : Allocator) (i j : String) (c d : IpNet) (ip : Ip)
    → IsTiling a
    → i ≢ j
    → subnet_for_node i a ≡ some c
    → subnet_for_node j a ≡ some d
    → length ip ≡ 4
    → contains c ip ≡ true
    → contains d ip ≡ false
unfolding subnet_for_node
holders_disjoint a i j c d ip tiling ne h k four p = elim (Bool-cases (contains d ip)) [
  | inl both ↦ absurd (
      ground (arith, tiling.tiles ip four, two_holders-covering i j ip a.subnets c d ne h k p both))
  | inr other ↦ other
]

pub run-base : (calls : List Call) (a : Allocator) → (run calls a).base ≡ a.base
unfolding run release
run-base [] a = refl
run-base (allocates id ∷ calls) a = run-base calls (allocate id a).1 ∙ base-allocate id a
run-base (releases id ∷ calls) a = run-base calls (release id a).1

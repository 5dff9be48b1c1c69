-- ===== src/Tests/Blocks.antt =====
-- The allocator of blocks over 203.0.113.0/24, cut into four /26.
use router_ui.Base.{
  ◌^◌, ◌-◌, ◌≤◌, ◌<◌, ◌≡◌, ◌≢◌, ◌↔◌, refl, List, [], ◌∷◌, false, true, arith, none, ok, inl, length,
  if◌then◌else◌, String,
}
use router_ui.Net.{Ip, IsIp4Net, be_value, to4, contains, put_uint32, mask_ip4}
use router_ui.Subnet.{
  Subnet, Allocator, carve, carve_from, new_allocator, allocate, release, assign_specific,
  subnet_for_node, find_held, take_free,
}
use router_ui.Subnet.Carve.{covering, carve-tiles}
use router_ui.Subnet.Methods.{IsValid, allocate-IsValid}
use router_ui.Subnet.Create.{IsTiling, new_allocator-ok_iff, new_allocator-IsTiling}
use router_ui.Subnet.History.{allocate-IsTiling}
use router_ui.Subnet.Restore.{entry_at, assign_specific_second}
use router_ui.Tests.{texts, aggregate, block, new_blocks}
use router_ui.Tests.Nets.{aggregate-IsIp4Net}

created : new_allocator texts "203.0.113.0/24" 26 ≡ ok new_blocks
unfolding new_allocator carve carve_from to4 be_value put_uint32 mask_ip4
created = refl

abbrev laid_out :
    IsTiling new_blocks
    × IsValid new_blocks
    × (new_blocks.base ≡ aggregate)
    × (length new_blocks.subnets ≡ 2 ^ (26 - aggregate.ones))
    × ((id : String) → subnet_for_node id new_blocks ≡ none)
laid_out =
    new_allocator-IsTiling texts "203.0.113.0/24" aggregate 26 new_blocks refl aggregate-IsIp4Net
      created

pub new_blocks-IsTiling : IsTiling new_blocks
new_blocks-IsTiling = laid_out.0

pub new_blocks-IsValid : IsValid new_blocks
new_blocks-IsValid = laid_out.1

pub new_blocks_unheld : (id : String) → subnet_for_node id new_blocks ≡ none
new_blocks_unheld = laid_out.4

abbrev two_held : Allocator
two_held = record {
  base = aggregate;
  subnets = block 0 true "a" ∷ block 64 true "b" ∷ block 128 false "" ∷ block 192 false "" ∷ [];
}

two_held-IsTiling : IsTiling two_held
unfolding allocate find_held take_free
two_held-IsTiling =
    allocate-IsTiling "b" (allocate "a" new_blocks).1
      (allocate-IsTiling "a" new_blocks new_blocks-IsTiling)

abbrev one_held : Allocator
one_held = record {
  base = aggregate;
  subnets = block 0 true "a" ∷ block 64 false "" ∷ block 128 false "" ∷ block 192 false "" ∷ [];
}

one_held-IsValid : IsValid one_held
unfolding allocate find_held take_free
one_held-IsValid = allocate-IsValid "a" new_blocks new_blocks-IsValid

abbrev ip_9 : Ip
ip_9 = 203 ∷ 0 ∷ 113 ∷ 9 ∷ []

carve-tiles_example :
    (ss : List Subnet) × (carve aggregate 26 ≡ ok ss)
    × (length ss ≡ 2 ^ 2)
    × (covering ip_9 ss ≡ (if contains aggregate ip_9 then 1 else 0))
carve-tiles_example =
    carve-tiles aggregate 26 ip_9 aggregate-IsIp4Net (omega arith) (omega arith) refl

new_allocator-ok_iff_example :
    ((a : Allocator) × (new_allocator texts "203.0.113.0/24" 31 ≡ ok a))
    ↔ (IsIp4Net aggregate × (24 < 31) × (31 ≤ 30))
new_allocator-ok_iff_example =
    new_allocator-ok_iff texts "203.0.113.0/24" aggregate 31 refl (inl aggregate-IsIp4Net)

assign_specific_second_example :
    ((assign_specific texts "203.0.113.64/26" "a" one_held).0 ≡ ok tt)
    × (subnet_for_node "a" (release "a" (assign_specific texts "203.0.113.64/26" "a" one_held).1).1
        ≢ none)
unfolding entry_at subnet_for_node find_held
assign_specific_second_example =
    assign_specific_second texts "203.0.113.64/26" "a" one_held (block 64 false "")
      (block 0 true "a").cidr refl refl refl

-- ===== src/Subnet/Owners.antt =====
-- Who holds which sub-prefix: Allocate and Release as updates of one map from nodes to blocks.
use router_ui.Base.{
  ◌≡◌, refl, true, false, List, [], ◌∷◌, Option, none, some, String, ◌==◌, eq_iff, arith,
  if◌then◌else◌, map, sym,
}
use router_ui.Net.{IpNet}
use router_ui.Subnet.{Subnet, find_held, taken, take_free, freed, release_in}

-- No node stands in two entries.
unfoldable pub HasUniqueOwners : List Subnet → Type 0
HasUniqueOwners [] = Unit
HasUniqueOwners (s ∷ ss) =
    ((if s.in_use then find_held s.node_id ss else none) ≡ none) × HasUniqueOwners ss

abbrev pub cidrs : List Subnet → List IpNet
cidrs ss = map (λ s. s.cidr) ss

-- The first free block.
unfoldable pub first_free : List Subnet → Option IpNet
first_free [] = none
first_free (s ∷ ss) = if s.in_use then first_free ss else some s.cidr

pub take_free-first : (id : String) (ss : List Subnet) → (take_free id ss).0 ≡ first_free ss
unfolding take_free first_free
take_free-first id [] = refl
take_free-first id (s ∷ ss) = ground (arith, take_free-first id ss)

pub cidrs-take_free : (id : String) (ss : List Subnet) → cidrs (take_free id ss).1 ≡ cidrs ss
unfolding take_free
cidrs-take_free id [] = refl
cidrs-take_free id (s ∷ ss) = ground (arith, cidrs-take_free id ss)

pub cidrs-release_in : (id : String) (ss : List Subnet) → cidrs (release_in id ss).1 ≡ cidrs ss
unfolding release_in
cidrs-release_in id [] = refl
cidrs-release_in id (s ∷ ss) = ground (arith, cidrs-release_in id ss)

-- Taking a block for a node that holds none gives it to that node and moves no other.
pub find_held-take_free :
    (id j : String) (ss : List Subnet)
    → find_held id ss ≡ none
    → find_held j (take_free id ss).1 ≡ (if id == j then first_free ss else find_held j ss)
unfolding take_free first_free find_held
find_held-take_free id j [] h = ground (arith, eq_iff id j)
find_held-take_free id j (s ∷ ss) h =
    ground
      (arith, eq_iff id j, eq_iff s.node_id j, eq_iff s.node_id id, find_held-take_free id j ss)

pub find_held-release_in :
    (id j : String) (ss : List Subnet)
    → HasUniqueOwners ss
    → find_held j (release_in id ss).1 ≡ (if id == j then none else find_held j ss)
unfolding release_in find_held HasUniqueOwners
find_held-release_in id j [] h = ground arith
find_held-release_in id j (s ∷ ss) h =
    ground (
      arith,
      eq_iff id j,
      eq_iff s.node_id j,
      eq_iff s.node_id id,
      find_held-release_in id j ss h.1,
    )

pub take_free-HasUniqueOwners :
    (id : String) (ss : List Subnet)
    → find_held id ss ≡ none
    → HasUniqueOwners ss
    → HasUniqueOwners (take_free id ss).1
unfolding take_free find_held HasUniqueOwners
take_free-HasUniqueOwners id [] h u = tt
take_free-HasUniqueOwners id (s ∷ ss) h u = ground (
  arith,
  eq_iff id s.node_id,
  eq_iff s.node_id id,
  find_held-take_free id s.node_id ss,
  take_free-HasUniqueOwners id ss,
)

pub release_in-HasUniqueOwners :
    (id : String) (ss : List Subnet) → HasUniqueOwners ss → HasUniqueOwners (release_in id ss).1
unfolding release_in find_held HasUniqueOwners
release_in-HasUniqueOwners id [] u = tt
release_in-HasUniqueOwners id (s ∷ ss) u = ground (
  arith,
  eq_iff s.node_id id,
  eq_iff id s.node_id,
  find_held-release_in id s.node_id ss,
  release_in-HasUniqueOwners id ss u.1,
)

-- With no free entry the loop leaves the list as it is.
pub take_free_full :
    (id : String) (ss : List Subnet) → first_free ss ≡ none → (take_free id ss).1 ≡ ss
unfolding take_free first_free
take_free_full id [] h = refl
take_free_full id (s ∷ ss) h = ground (arith, take_free_full id ss)

pub release_in-found :
    (id : String) (ss : List Subnet)
    → (release_in id ss).0 ≡ (elim (find_held id ss) [ none ↦ false | some _ ↦ true ])
unfolding release_in find_held
release_in-found id [] = refl
release_in-found id (s ∷ ss) = ground (arith, release_in-found id ss)

-- Free entries name no node, as `carve` makes them and Release leaves them.
unfoldable pub HasBlankFree : List Subnet → Type 0
HasBlankFree [] = Unit
HasBlankFree (s ∷ ss) = ((if s.in_use then s.node_id else "") ≡ s.node_id) × HasBlankFree ss

freed-taken :
    (id : String) (s : Subnet) → s.in_use ≡ false → s.node_id ≡ "" → freed (taken id s) ≡ s
freed-taken id s free blank =
    λ i. record { cidr = s.cidr; in_use = sym free i; node_id = sym blank i }

pub release_in-take_free :
    (id : String) (ss : List Subnet) (c : IpNet)
    → HasBlankFree ss
    → find_held id ss ≡ none
    → first_free ss ≡ some c
    → release_in id (take_free id ss).1 ≡ (true, ss)
unfolding release_in take_free find_held first_free HasBlankFree
release_in-take_free id [] c b h f = absurd (cc)
release_in-take_free id (s ∷ ss) c b h f =
    ground (arith, eq_iff id id, freed-taken id s, release_in-take_free id ss c b.1)

pub take_free-HasBlankFree :
    (id : String) (ss : List Subnet) → HasBlankFree ss → HasBlankFree (take_free id ss).1
unfolding take_free HasBlankFree
take_free-HasBlankFree id [] b = tt
take_free-HasBlankFree id (s ∷ ss) b = ground (arith, take_free-HasBlankFree id ss b.1)

pub release_in-HasBlankFree :
    (id : String) (ss : List Subnet) → HasBlankFree ss → HasBlankFree (release_in id ss).1
unfolding release_in HasBlankFree
release_in-HasBlankFree id [] b = tt
release_in-HasBlankFree id (s ∷ ss) b = ground (arith, release_in-HasBlankFree id ss b.1)

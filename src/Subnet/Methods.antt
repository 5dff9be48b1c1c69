-- ===== src/Subnet/Methods.antt =====
-- The methods of Allocator against a map from nodes to blocks.
use router_ui.Base.{
  suc, ◌≤◌, ◌≡◌, ◌≢◌, true, List, [], ◌∷◌, Option, none, some, String, ◌==◌, eq_iff, arith,
  if◌then◌else◌, Result, ok, err, Option-cases, inl, inr,
}
use router_ui.Net.{Ip, IpNet, contains}
use router_ui.Subnet.{
  Subnet, Allocator, Error, no_free, no_subnet, find_held, or_fail, allocate, release,
  subnet_for_node,
}
use router_ui.Subnet.Carve.{covering}
use router_ui.Subnet.Owners.{
  HasUniqueOwners, HasBlankFree, cidrs, first_free, take_free-first, cidrs-take_free,
  cidrs-release_in, find_held-take_free, find_held-release_in, take_free-HasUniqueOwners,
  release_in-HasUniqueOwners, release_in-found, release_in-take_free, take_free-HasBlankFree,
  release_in-HasBlankFree,
}

-- What the methods keep: no node in two entries, and no name on a free entry.
pub record IsValid (a : Allocator) : Type 0 where
  pub unique : HasUniqueOwners a.subnets
  pub blank : HasBlankFree a.subnets

abbrev pub granted : Result Error IpNet → Option IpNet
granted (ok cidr) = some cidr
granted (err e) = none

-- Allocate answers with the node's own block, else with the first free one, else with an error.
pub allocate-result :
    (id : String) (a : Allocator)
    → (allocate id a).0 ≡ (elim (subnet_for_node id a) [
      | some cidr ↦ ok cidr
      | none ↦ or_fail (first_free a.subnets) no_free
    ])
unfolding allocate subnet_for_node
allocate-result id a = ground (arith, take_free-first id a.subnets)

-- After Allocate the node holds the answer, or nothing if that is an error, and every other node
-- what it held before.
pub allocate-holder :
    (id j : String) (a : Allocator)
    → subnet_for_node j (allocate id a).1
      ≡ (if id == j then granted (allocate id a).0 else subnet_for_node j a)
unfolding allocate subnet_for_node
allocate-holder id j a =
    ground (arith, eq_iff id j, take_free-first id a.subnets, find_held-take_free id j a.subnets)

pub allocate-IsValid : (id : String) (a : Allocator) → IsValid a → IsValid (allocate id a).1
unfolding allocate
allocate-IsValid id a v = elim (Option-cases (find_held id a.subnets)) [
  | inl e ↦
      rw (e, allocate)
        (record {
          unique = take_free-HasUniqueOwners id a.subnets e v.unique;
          blank = take_free-HasBlankFree id a.subnets v.blank;
        })
  | inr (c, e) ↦ rw (e, allocate) v
]

pub cidrs-allocate :
    (id : String) (a : Allocator) → cidrs (allocate id a).1.subnets ≡ cidrs a.subnets
unfolding allocate
cidrs-allocate id a = ground (arith, cidrs-take_free id a.subnets)

-- Release fails exactly when the node holds nothing.
pub release-result :
    (id : String) (a : Allocator)
    → (release id a).0 ≡ (elim (subnet_for_node id a) [ none ↦ err no_subnet | some _ ↦ ok tt ])
unfolding release subnet_for_node
release-result id a = ground (arith, release_in-found id a.subnets)

-- In a well-formed allocator, after Release the node holds nothing, and every other node what it
-- held before.
pub release-holder :
    (id j : String) (a : Allocator)
    → IsValid a
    → subnet_for_node j (release id a).1 ≡ (if id == j then none else subnet_for_node j a)
unfolding release subnet_for_node
release-holder id j a v = find_held-release_in id j a.subnets v.unique

pub release-IsValid : (id : String) (a : Allocator) → IsValid a → IsValid (release id a).1
unfolding release
release-IsValid id a v = record {
  unique = release_in-HasUniqueOwners id a.subnets v.unique;
  blank = release_in-HasBlankFree id a.subnets v.blank;
}

pub cidrs-release : (id : String) (a : Allocator) → cidrs (release id a).1.subnets ≡ cidrs a.subnets
unfolding release
cidrs-release id a = cidrs-release_in id a.subnets

-- In a well-formed allocator and for a node that holds nothing, a successful Allocate followed by
-- Release succeeds and gives back the very same allocator.
pub release-allocate :
    (id : String) (a : Allocator) (c : IpNet)
    → IsValid a
    → subnet_for_node id a ≡ none
    → (allocate id a).0 ≡ ok c
    → release id (allocate id a).1 ≡ (ok tt, a)
unfolding release allocate subnet_for_node
release-allocate id a c v h e =
    ground (arith, take_free-first id a.subnets, release_in-take_free id a.subnets c v.blank)

covering-cons :
    (ip : Ip) (s : Subnet) (ss : List Subnet)
    → covering ip (s ∷ ss) ≡ (if contains s.cidr ip then suc (covering ip ss) else covering ip ss)
covering-cons ip s ss = ground arith

-- A block that a node holds is counted among those that contain an address of it.
pub holder-covering :
    (i : String) (ip : Ip) (ss : List Subnet) (c : IpNet)
    → find_held i ss ≡ some c
    → contains c ip ≡ true
    → 1 ≤ covering ip ss
unfolding find_held
holder-covering i ip [] c h p = absurd (cc)
holder-covering i ip (s ∷ ss) c h p =
    ground (arith, covering-cons ip s ss, holder-covering i ip ss c)

pub two_holders-covering :
    (i j : String) (ip : Ip) (ss : List Subnet) (c d : IpNet)
    → i ≢ j
    → find_held i ss ≡ some c
    → find_held j ss ≡ some d
    → contains c ip ≡ true
    → contains d ip ≡ true
    → 2 ≤ covering ip ss
unfolding find_held
two_holders-covering i j ip [] c d ne h k p q = absurd (cc)
two_holders-covering i j ip (s ∷ ss) c d ne h k p q = ground (
  arith,
  eq_iff s.node_id i,
  eq_iff s.node_id j,
  covering-cons ip s ss,
  holder-covering i ip ss c,
  holder-covering j ip ss d,
  two_holders-covering i j ip ss c d ne,
)

-- A node that holds a block is answered with it, and nothing changes.
pub allocate_held_lem :
    (id : String) (a : Allocator) (c : IpNet)
    → subnet_for_node id a ≡ some c
    → allocate id a ≡ (ok c, a)
unfolding allocate subnet_for_node
allocate_held_lem id a c h = rw (h, allocate)

-- ===== src/WgPool/Lease.antt =====
-- wgIPAllocator.Allocate and Release: the addresses of the pool and those of the nodes.
use mathlib.Core.List.{Nodup, Nodup-append, Perm, perm_append_singleton}
use mathlib.Core.List.Perm
use router_ui.Base.{
  ◌≡◌, refl, ◌≢◌, List, [], ◌∷◌, ◌++◌, Option, none, some, String, ◌==◌, eq_iff, arith,
  if◌then◌else◌, Result, ok, err, ap, sym, ◌∙◌, Option-cases, inl, inr, append_assoc,
}
use router_ui.Base.Dict.{
  lookup, values, HasDistinctKeys, lookup-insert, lookup-delete, insert-HasDistinctKeys,
  delete-HasDistinctKeys, values-insert_fresh, values-delete-perm, lookup-distinct,
}
use router_ui.Net.{Ip}
use router_ui.WgPool.{WgIpAllocator, Error, pool_exhausted, allocate, allocate_from, release}

-- Every address of the allocator: those in the pool, then those that nodes have.
abbrev pub owned : WgIpAllocator → List Ip
owned a = a.pool ++ values a.assigned

pub record IsValid (a : WgIpAllocator) : Type 0 where
  pub distinct : Nodup (owned a)
  pub keys : HasDistinctKeys a.assigned

abbrev pub granted : Result Error Ip → Option Ip
granted (ok ip) = some ip
granted (err e) = none

-- The answer: the node's own address, else the first of the pool, else an error.
unfoldable pub answer : Option Ip → List Ip → Result Error Ip
answer (some ip) pool = ok ip
answer none [] = err pool_exhausted
answer none (ip ∷ pool) = ok ip

pub allocate-result :
    (id : String) (a : WgIpAllocator) → (allocate id a).0 ≡ answer (lookup id a.assigned) a.pool
unfolding allocate answer
allocate-result id a = ground arith

-- Afterwards the node has the answer, and every other node what it had before.
pub allocate-holder :
    (id j : String) (a : WgIpAllocator)
    → lookup j (allocate id a).1.assigned
      ≡ (if id == j then granted (allocate id a).0 else lookup j a.assigned)
unfolding allocate
allocate-holder id j a = elim (Option-cases (lookup id a.assigned)) [
  | inl e ↦ rw (e, allocate) (from_pool a.pool e)
  | inr (ip, e) ↦ rw (e, allocate) (ground (arith, eq_iff id j))
]
  where
    from_pool :
        (pool : List Ip)
        → lookup id a.assigned ≡ none
        → lookup j (allocate_from id a pool).1.assigned
          ≡ (if id == j then granted (allocate_from id a pool).0 else lookup j a.assigned)
    from_pool [] e = ground (arith, eq_iff id j)
    from_pool (ip ∷ pool) e = ground (arith, eq_iff id j, lookup-insert id j ip a.assigned)

pub release-holder :
    (id j : String) (a : WgIpAllocator)
    → lookup j (release id a).assigned ≡ (if id == j then none else lookup j a.assigned)
unfolding release
release-holder id j a = ground (arith, eq_iff id j, lookup-delete id j a.assigned)

-- No address is lost or made up by Allocate.
pub owned-allocate : (id : String) (a : WgIpAllocator) → Perm (owned (allocate id a).1) (owned a)
unfolding allocate
owned-allocate id a = elim (Option-cases (lookup id a.assigned)) [
  | inl e ↦ rw (e, allocate) (from_pool a.pool refl e)
  | inr (ip, e) ↦ rw (e, allocate) Perm.rfl
]
  where
    from_pool :
        (pool : List Ip)
        → pool ≡ a.pool
        → lookup id a.assigned ≡ none
        → Perm (owned (allocate_from id a pool).1) (owned a)
    from_pool [] p e = Perm.rfl
    from_pool (ip ∷ pool) p e =
        rw (values-insert_fresh id ip a.assigned e, ← p)
          (rw (← append_assoc) (perm_append_singleton ip (pool ++ values a.assigned)))

-- No address is lost or made up by Release, where no node has two entries.
pub owned-release :
    (id : String) (a : WgIpAllocator)
    → HasDistinctKeys a.assigned
    → Perm (owned (release id a)) (owned a)
unfolding release
owned-release id a keys = elim (Option-cases (lookup id a.assigned)) [
  | inl e ↦ rw (e, release) Perm.rfl
  | inr (ip, e) ↦
      rw (e, release)
        (rw append_assoc
          (Perm.append_left a.pool (Perm.symm (values-delete-perm id ip a.assigned keys e))))
]

allocate_keys :
    (id : String) (a : WgIpAllocator)
    → HasDistinctKeys a.assigned
    → HasDistinctKeys (allocate id a).1.assigned
unfolding allocate
allocate_keys id a k = elim (Option-cases (lookup id a.assigned)) [
  | inl e ↦ rw (e, allocate) (from_pool a.pool)
  | inr (ip, e) ↦ rw (e, allocate) k
]
  where
    from_pool : (pool : List Ip) → HasDistinctKeys (allocate_from id a pool).1.assigned
    from_pool [] = k
    from_pool (ip ∷ pool) = insert-HasDistinctKeys id ip a.assigned k

release_keys :
    (id : String) (a : WgIpAllocator)
    → HasDistinctKeys a.assigned
    → HasDistinctKeys (release id a).assigned
unfolding release
release_keys id a k = elim (Option-cases (lookup id a.assigned)) [
  | inl e ↦ rw (e, release) k
  | inr (ip, e) ↦ rw (e, release) (delete-HasDistinctKeys id a.assigned k)
]

pub allocate-IsValid : (id : String) (a : WgIpAllocator) → IsValid a → IsValid (allocate id a).1
allocate-IsValid id a v = record {
  distinct = Perm.nodup (Perm.symm (owned-allocate id a)) v.distinct;
  keys = allocate_keys id a v.keys;
}

pub release-IsValid : (id : String) (a : WgIpAllocator) → IsValid a → IsValid (release id a)
release-IsValid id a v = record {
  distinct = Perm.nodup (Perm.symm (owned-release id a v.keys)) v.distinct;
  keys = release_keys id a v.keys;
}

-- Two nodes have two addresses.
pub holders_distinct :
    (a : WgIpAllocator) (i j : String) (ip jp : Ip)
    → IsValid a
    → i ≢ j
    → lookup i a.assigned ≡ some ip
    → lookup j a.assigned ≡ some jp
    → ip ≢ jp
holders_distinct a i j ip jp v ne at_i at_j same = ne (
    lookup-distinct i j ip a.assigned ((Nodup-append.0 v.distinct).1) at_i
      (at_j ∙ ap some (sym same)))

-- A node that has an address is answered with it, and nothing changes.
pub allocate_held_lem :
    (id : String) (a : WgIpAllocator) (ip : Ip)
    → lookup id a.assigned ≡ some ip
    → allocate id a ≡ (ok ip, a)
unfolding allocate
allocate_held_lem id a ip h = rw (h, allocate)

-- ===== src/WgPool/Leases.antt =====
-- What wgIPAllocator promises: a table of who has which address, without the order of the pool.
use mathlib.Core.List.{
  Mem, Nodup-append, mem-cons, not-mem-nil, Perm, mem-cons_self, mem-append_left,
}
use mathlib.Core.List.Perm
use mathlib.Core.Logic.Or
use mathlib.Core.Logic.{∥∥₁_elim}
use router_ui.Base.{
  ◌≡◌, refl, ◌≢◌, List, [], ◌∷◌, ◌++◌, Option, none, some, String, ◌==◌, eq_iff, eq_refl, arith,
  if◌then◌else◌, Result, ok, err, ap, sym, subst, ◌∙◌, Option-cases, inl, inr, ◌⊎◌,
}
use router_ui.Base.Dict.{Dict, lookup, values, HasDistinctKeys, lookup-Mem}
use router_ui.Net.{Ip}
use router_ui.WgPool.{WgIpAllocator, Error, allocate, allocate_from, release, pool_exhausted}
use router_ui.WgPool.Lease.{
  owned, IsValid, granted, answer, allocate-result, allocate-holder, release-holder, owned-allocate,
  owned-release, allocate-IsValid, release-IsValid, allocate_held_lem,
}

pub data Call : Type 0 where
  allocates releases : String → Call

-- The answer to Allocate, and to Release.
pub data Answer : Type 0 where
  grants : Ip → Answer
  refuses : Answer
  returns : Answer

-- Who has which address.
abbrev pub Holders : Type 0
Holders = String → Option Ip

abbrev pub update : Holders → String → Option Ip → Holders
update m id held j = if id == j then held else m j

-- The promise, over a set of addresses: a name that has an address is granted it again; another is
-- granted some address of the set that no one has, and is refused only if there is none; a name
-- that returns its address has none.
pub data Follows (IsOurs : Ip → Type 0) : Holders → List Call → List Answer → Holders → Type 0 where
  ends : (m : Holders) → Follows IsOurs m [] [] m
  again :
      {m e : Holders} {calls : List Call} {answers : List Answer} (id : String) (ip : Ip)
      → m id ≡ some ip
      → Follows IsOurs m calls answers e
      → Follows IsOurs m (allocates id ∷ calls) (grants ip ∷ answers) e
  anew :
      {m e : Holders} {calls : List Call} {answers : List Answer} (id : String) (ip : Ip)
      → m id ≡ none
      → IsOurs ip
      → ((j : String) → m j ≢ some ip)
      → Follows IsOurs (update m id (some ip)) calls answers e
      → Follows IsOurs m (allocates id ∷ calls) (grants ip ∷ answers) e
  full :
      {m e : Holders} {calls : List Call} {answers : List Answer} (id : String)
      → m id ≡ none
      → ((ip : Ip) → IsOurs ip → ∥ ((j : String) × (m j ≡ some ip)) ∥₁)
      → Follows IsOurs m calls answers e
      → Follows IsOurs m (allocates id ∷ calls) (refuses ∷ answers) e
  back :
      {m e : Holders} {calls : List Call} {answers : List Answer} (id : String)
      → Follows IsOurs (update m id none) calls answers e
      → Follows IsOurs m (releases id ∷ calls) (returns ∷ answers) e

abbrev pub answered : Result Error Ip → Answer
answered (ok ip) = grants ip
answered (err e) = refuses

abbrev pub run : List Call → WgIpAllocator → List Answer × WgIpAllocator
run [] a = ([], a)
run (allocates id ∷ calls) a =
    let done = allocate id a in let rest = run calls done.1 in (answered done.0 ∷ rest.0, rest.1)
run (releases id ∷ calls) a = let rest = run calls (release id a) in (returns ∷ rest.0, rest.1)

abbrev pub holders : WgIpAllocator → Holders
holders a id = lookup id a.assigned

values-held :
    (ip : Ip) (d : Dict Ip)
    → HasDistinctKeys d
    → Mem ip (values d)
    → ∥ ((j : String) × (lookup j d ≡ some ip)) ∥₁
unfolding lookup HasDistinctKeys
values-held ip [] keys m = absurd (not-mem-nil m)
values-held ip ((k, held) ∷ d) keys m =
    Or.«elim» (hlevel) (mem-cons.0 m) (λ same. ∣ (k, ground (arith, eq_refl k, same)) ∣₁)
      (λ rest.
        ∥∥₁_elim (values-held ip d keys.1 rest) (hlevel)
          (λ p. ∣ (p.0, ground (arith, p.1, keys.0, eq_iff k p.0)) ∣₁))

module _ (base : List Ip) where
  abbrev InBase : Ip → Type 0
  InBase ip = Mem ip base

  abbrev Refines : List Call → WgIpAllocator → Type 0
  Refines calls a = Follows InBase (holders a) calls (run calls a).0 (holders (run calls a).1)

  granted_new :
      (id : String) (calls : List Call) (a : WgIpAllocator) (ip : Ip) (pool : List Ip)
      → IsValid a
      → Perm (owned a) base
      → lookup id a.assigned ≡ none
      → a.pool ≡ ip ∷ pool
      → Refines calls (allocate id a).1
      → Refines (allocates id ∷ calls) a
  unfolding answer
  granted_new id calls a ip pool v same new first rest =
      let result : (allocate id a).0 ≡ ok ip = allocate-result id a ∙ rw (new, first) refl in
      let held : holders (allocate id a).1 ≡ update (holders a) id (some ip) = λ i j.
        (allocate-holder id j a
            ∙ ap (λ r. if id == j then granted r else lookup j a.assigned) result)
          i in
      let in_pool : Mem ip a.pool = subst (Mem ip) (sym first) mem-cons_self in
      let apart = (Nodup-append.0 v.distinct).2 in
      subst
        (λ r.
          Follows InBase (holders a) (allocates id ∷ calls)
            (answered r ∷ (run calls (allocate id a).1).0)
            (holders (run calls (allocate id a).1).1))
        (sym result)
        (anew id ip new ((Perm.mem_iff same).0 (mem-append_left (values a.assigned) in_pool))
          (λ j at. apart ip in_pool (lookup-Mem j ip a.assigned at))
          (subst
            (λ m.
              Follows InBase m calls (run calls (allocate id a).1).0
                (holders (run calls (allocate id a).1).1))
            held rest))

  refused_all :
      (id : String) (calls : List Call) (a : WgIpAllocator)
      → IsValid a
      → Perm (owned a) base
      → lookup id a.assigned ≡ none
      → a.pool ≡ []
      → Refines calls a
      → Refines (allocates id ∷ calls) a
  unfolding allocate allocate_from
  refused_all id calls a v same new empty rest =
      let stays : allocate id a ≡ (err pool_exhausted, a) =
        rw (new, allocate) (ap (λ pool. allocate_from id a pool) empty) in
      let given : owned a ≡ values a.assigned = ap (λ pool. pool ++ values a.assigned) empty in
      subst
        (λ (r : Result Error Ip × WgIpAllocator).
          Follows InBase (holders a) (allocates id ∷ calls) (answered r.0 ∷ (run calls r.1).0)
            (holders (run calls r.1).1))
        (sym stays)
        (full id new
          (λ ip ours.
            values-held ip a.assigned v.keys
              (subst (Mem ip) given ((Perm.mem_iff (Perm.symm same)).0 ours)))
          rest)

  granted_again :
      (id : String) (calls : List Call) (a : WgIpAllocator) (ip : Ip)
      → lookup id a.assigned ≡ some ip
      → Refines calls a
      → Refines (allocates id ∷ calls) a
  granted_again id calls a ip at rest =
      subst
        (λ (r : Result Error Ip × WgIpAllocator).
          Follows InBase (holders a) (allocates id ∷ calls) (answered r.0 ∷ (run calls r.1).0)
            (holders (run calls r.1).1))
        (sym (allocate_held_lem id a ip at)) (again id ip at rest)

  pool_cases : (pool : List Ip) → (pool ≡ []) ⊎ ((ip : Ip) × (rest : List Ip) × (pool ≡ ip ∷ rest))
  pool_cases [] = inl refl
  pool_cases (ip ∷ rest) = inr (ip, rest, refl)

  -- Over any calls of Allocate and Release, from an allocator in which no address stands twice,
  -- over the addresses of a list that are in its pool or given away: its answers, and who has which
  -- address before and after, are those of the table, in which a new name is granted an address
  -- that no one has, and is refused only when all are given away.
  pub run-Follows :
      (calls : List Call) (a : WgIpAllocator)
      → IsValid a
      → Perm (owned a) base
      → Follows (λ ip. Mem ip base) (holders a) calls (run calls a).0 (holders (run calls a).1)
  run-Follows [] a v same = ends (holders a)
  run-Follows (releases id ∷ calls) a v same = back id (
      subst
        (λ m.
          Follows InBase m calls (run calls (release id a)).0
            (holders (run calls (release id a)).1))
        (λ i j. release-holder id j a i)
        (run-Follows calls (release id a) (release-IsValid id a v)
          (Perm.trans (owned-release id a v.keys) same)))
  run-Follows (allocates id ∷ calls) a v same = elim (Option-cases (lookup id a.assigned)) [
    | inr (ip, at) ↦ granted_again id calls a ip at (run-Follows calls a v same)
    | inl new ↦ elim (pool_cases a.pool) [
      | inl empty ↦ refused_all id calls a v same new empty (run-Follows calls a v same)
      | inr (ip, pool, first) ↦ granted_new id calls a ip pool v same new first (
          run-Follows calls (allocate id a).1 (allocate-IsValid id a v)
            (Perm.trans (owned-allocate id a) same))
    ]
  ]

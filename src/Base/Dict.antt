-- ===== src/Base/Dict.antt =====
-- A Go map with text keys, as an association list: `m[k]`, `m[k] = v` and `delete(m, k)`.
-- The order of the list stands for the order in which a `range` over the map meets the entries.
use mathlib.Core.List.Perm
use mathlib.Core.List.{Perm, Mem, Nodup, Nodup-cons, mem-cons_self, mem-cons_of_mem}
use router_ui.Base.{
  ◌≡◌, refl, subst, Option, none, some, List, [], ◌∷◌, ◌++◌, String, ◌==◌, eq_iff, arith,
  if◌then◌else◌, Bool-cases, inl, inr,
}

abbrev pub Dict {ℓ} : Type ℓ → Type ℓ
Dict V = List (String × V)

module _ {ℓ} {V : Type ℓ} where
  unfoldable pub lookup : String → Dict V → Option V
  lookup key [] = none
  lookup key ((name, held) ∷ rest) = if name == key then some held else lookup key rest

  unfoldable pub delete : String → Dict V → Dict V
  delete key [] = []
  delete key ((name, held) ∷ rest) =
      if name == key then delete key rest else (name, held) ∷ delete key rest

  pub lookup-delete :
      (gone key : String) (d : Dict V)
      → lookup key (delete gone d) ≡ (if gone == key then none else lookup key d)
  unfolding lookup delete
  lookup-delete gone key [] = ground arith
  lookup-delete gone key ((name, held) ∷ rest) =
      ground
        (arith, lookup-delete gone key rest, eq_iff name gone, eq_iff name key, eq_iff gone key)

  unfoldable pub insert : String → V → Dict V → Dict V
  insert key new [] = (key, new) ∷ []
  insert key new ((name, held) ∷ rest) =
      if name == key then (key, new) ∷ rest else (name, held) ∷ insert key new rest

  pub lookup-insert :
      (set key : String) (new : V) (d : Dict V)
      → lookup key (insert set new d) ≡ (if set == key then some new else lookup key d)
  unfolding lookup insert
  lookup-insert set key new [] = refl
  lookup-insert set key new ((name, held) ∷ rest) =
      ground
        (arith, lookup-insert set key new rest, eq_iff name set, eq_iff name key, eq_iff set key)

  abbrev pub values : Dict V → List V
  values [] = []
  values ((name, held) ∷ rest) = held ∷ values rest

  -- No key stands twice.
  unfoldable pub HasDistinctKeys : Dict V → Type ℓ
  HasDistinctKeys [] = Unit
  HasDistinctKeys ((name, held) ∷ rest) = (lookup name rest ≡ none) × HasDistinctKeys rest

  pub insert-HasDistinctKeys :
      (k : String) (v : V) (m : Dict V) → HasDistinctKeys m → HasDistinctKeys (insert k v m)
  unfolding HasDistinctKeys insert lookup
  insert-HasDistinctKeys k v [] h = (refl, tt)
  insert-HasDistinctKeys k v ((i, w) ∷ m) h =
      ground
        (arith, eq_iff i k, eq_iff k i, lookup-insert k i v m, insert-HasDistinctKeys k v m h.1)

  pub delete-HasDistinctKeys :
      (k : String) (m : Dict V) → HasDistinctKeys m → HasDistinctKeys (delete k m)
  unfolding HasDistinctKeys delete lookup
  delete-HasDistinctKeys k [] h = tt
  delete-HasDistinctKeys k ((i, w) ∷ m) h =
      ground (arith, eq_iff i k, lookup-delete k i m, delete-HasDistinctKeys k m h.1)

  -- A new key goes to the end.
  pub values-insert_fresh :
      (k : String) (v : V) (m : Dict V)
      → lookup k m ≡ none
      → values (insert k v m) ≡ values m ++ v ∷ []
  unfolding lookup insert
  values-insert_fresh k v [] h = refl
  values-insert_fresh k v ((i, w) ∷ m) h = ground (arith, values-insert_fresh k v m)

  -- Deleting a key that is not there changes nothing.
  pub delete_fresh : (k : String) (m : Dict V) → lookup k m ≡ none → delete k m ≡ m
  unfolding lookup delete
  delete_fresh k [] h = refl
  delete_fresh k ((i, w) ∷ m) h = ground (arith, delete_fresh k m)

  -- Deleting a key takes its value out, and no other.
  pub values-delete-perm :
      (k : String) (v : V) (m : Dict V)
      → HasDistinctKeys m
      → lookup k m ≡ some v
      → Perm (values m) (v ∷ values (delete k m))
  unfolding HasDistinctKeys lookup delete
  values-delete-perm k v [] h e = absurd (cc)
  values-delete-perm k v ((i, w) ∷ m) h e = elim (Bool-cases (i == k)) [
    | inl hit ↦
        let same : i ≡ k = (eq_iff i k).0 hit in
        let fresh : delete k m ≡ m = delete_fresh k m (subst (λ x. lookup x m ≡ none) same h.0) in
        rw (hit, fresh) (Perm.cons' (ground arith) Perm.rfl)
    | inr miss ↦
        rw miss
          (Perm.trans (Perm.cons w (values-delete-perm k v m h.1 (ground arith))) (Perm.swap v w _))
  ]

  pub lookup-Mem : (k : String) (v : V) (m : Dict V) → lookup k m ≡ some v → Mem v (values m)
  unfolding lookup
  lookup-Mem k v [] e = absurd (cc)
  lookup-Mem k v ((i, w) ∷ m) e = elim (Bool-cases (i == k)) [
    | inl hit ↦
        let same : w ≡ v = ground arith in subst (λ x. Mem x (w ∷ values m)) same mem-cons_self
    | inr miss ↦ mem-cons_of_mem w (lookup-Mem k v m (ground arith))
  ]

  -- With no value twice, two keys have two values.
  pub lookup-distinct :
      (i j : String) (v : V) (m : Dict V)
      → Nodup (values m)
      → lookup i m ≡ some v
      → lookup j m ≡ some v
      → i ≡ j
  unfolding lookup
  lookup-distinct i j v [] n p q = absurd (cc)
  lookup-distinct i j v ((k, w) ∷ m) n p q =
      let (new, rest) = Nodup-cons.0 n in
      ground (
        arith,
        eq_iff k i,
        eq_iff k j,
        lookup-distinct i j v m rest,
        absent i w new,
        absent j w new,
      )
    where
      absent : (k : String) (w : V) → ¬ Mem w (values m) → lookup k m ≡ some w → ⊥
      absent k w new e = new (lookup-Mem k w m e)

-- ===== src/Base/Calls.antt =====
-- Code that calls other packages one after the other and stops at the first error. The answer to a
-- call may depend on the calls before it; a list of calls has the newest first.
use mathlib.Core.Path.{◌≡◌, refl, ap, subst, ◌∙◌}
use mathlib.Core.Bool.{Bool, true, false}
use mathlib.Core.List.{List, ◌∷◌}
use Prim.Native.String.{String}
use router_ui.Base.Results.{Result, ok, err}

abbrev pub World : Type 0 → Type 0
World C = List C → C → Result String String

abbrev pub Act : Type 0 → Type 0 → Type 0 → Type 0
Act C E A = World C → List C → Result E A × List C

abbrev pub wrapped : {E : Type 0} → (String → E) → Result String String → Result E String
wrapped wrap (ok text) = ok text
wrapped wrap (err text) = err (wrap text)

abbrev pub succeeded : Result String String → Bool
succeeded (ok text) = true
succeeded (err text) = false

module _ {C E : Type 0} where
  abbrev pub pure : {A : Type 0} → A → Act C E A
  pure a w done = (ok a, done)

  abbrev pub fail : {A : Type 0} → E → Act C E A
  fail e w done = (err e, done)

  abbrev pub and_then :
      {A B : Type 0} → Result E A × List C → (A → Act C E B) → World C → Result E B × List C
  and_then (ok a, done) f w = f a w done
  and_then (err e, done) f w = (err e, done)

  infixl 5 ◌>>=◌ ◌>>◌
  abbrev pub ◌>>=◌ : {A B : Type 0} → Act C E A → (A → Act C E B) → Act C E B
  ◌>>=◌ m f w done = and_then (m w done) f w

  abbrev pub ◌>>◌ : {A B : Type 0} → Act C E A → Act C E B → Act C E B
  m >> k = m >>= λ _. k

  -- A call whose error is returned.
  abbrev pub perform : (String → E) → C → Act C E String
  perform wrap c w done = (wrapped wrap (w done c), c ∷ done)

  -- A call of which only the success counts; where it is ignored, the error was only logged.
  abbrev pub attempt : C → Act C E Bool
  attempt c w done = (ok (succeeded (w done c)), c ∷ done)

-- Code that succeeds has its first part succeed.
pub and_then_ok :
    {C E A B : Type 0} (x : Result E A × List C) (f : A → Act C E B) (w : World C) (b : B)
    → (and_then x f w).0 ≡ ok b
    → (a : A) × (x.0 ≡ ok a) × ((f a w x.1).0 ≡ ok b) × (and_then x f w ≡ f a w x.1)
and_then_ok (ok a, done) f w b e = (a, refl, e, refl)
and_then_ok (err e, done) f w b failed = absurd (cc failed)

-- Where the first part succeeds, the whole does what the rest does.
pub and_then_went :
    {C E A B : Type 0} (x : Result E A × List C) (f : A → Act C E B) (w : World C) (a : A)
    → x.0 ≡ ok a
    → and_then x f w ≡ f a w x.1
and_then_went (ok b, done) f w a e = let same : b ≡ a = cc e in ap (λ c. f c w done) same
and_then_went (err e, done) f w a failed = absurd (cc failed)

-- Where the first part fails, its calls are all there are.
pub and_then_stopped :
    {C E A B : Type 0} (x : Result E A × List C) (f : A → Act C E B) (w : World C) (e : E)
    → x.0 ≡ err e
    → (and_then x f w).1 ≡ x.1
and_then_stopped (ok b, done) f w e failed = absurd (cc failed)
and_then_stopped (err x, done) f w e failed = refl

-- The same as and_then_ok where the calls of the first part are known.
pub and_then_at :
    {C E A B : Type 0} (x : Result E A × List C) (f : A → Act C E B) (w : World C) (b : B)
    (calls : List C)
    → x.1 ≡ calls
    → (and_then x f w).0 ≡ ok b
    → (a : A) × (x.0 ≡ ok a) × ((f a w calls).0 ≡ ok b) × (and_then x f w ≡ f a w calls)
and_then_at x f w b calls known e =
    let (a, first, rest, whole) = and_then_ok x f w b e in
    (
      a,
      first,
      subst (λ done. (f a w done).0 ≡ ok b) known rest,
      whole ∙ ap (λ done. f a w done) known,
    )

-- What each part keeps of the calls, the whole keeps.
pub and_then_keeps :
    {C E A B : Type 0} (IsKept : List C → Type 0) (x : Result E A × List C) (f : A → Act C E B)
    (w : World C)
    → IsKept x.1
    → ((a : A) (done : List C) → IsKept done → IsKept (f a w done).1)
    → IsKept (and_then x f w).1
and_then_keeps IsKept (ok a, done) f w kept keeps = keeps a done kept
and_then_keeps IsKept (err e, done) f w kept keeps = kept

-- Two answerers under which code does the same.
module _ {C E : Type 0} (w v : World C) where
  abbrev pub RunsAlike : {A : Type 0} → Act C E A → Type 0
  RunsAlike m = (done : List C) → m w done ≡ m v done

  and_then-alike :
      {A B : Type 0} (f : A → Act C E B) (x : Result E A × List C)
      → ((a : A) → RunsAlike (f a))
      → and_then x f w ≡ and_then x f v
  and_then-alike f (ok a, done) alike = alike a done
  and_then-alike f (err e, done) alike = refl

  pub bind-RunsAlike :
      {A B : Type 0} (m : Act C E A) (f : A → Act C E B)
      → RunsAlike m
      → ((a : A) → RunsAlike (f a))
      → RunsAlike (m >>= f)
  bind-RunsAlike m f first rest done =
      ap (λ x. and_then x f w) (first done) ∙ and_then-alike f (m v done) rest

  pub perform-RunsAlike :
      (wrap : String → E) (c : C)
      → ((calls : List C) → w calls c ≡ v calls c)
      → RunsAlike (perform wrap c)
  perform-RunsAlike wrap c same done = ap (λ x. (wrapped wrap x, c ∷ done)) (same done)

  pub attempt-RunsAlike :
      (c : C) → ((calls : List C) → w calls c ≡ v calls c) → RunsAlike {A = Bool} (attempt c)
  attempt-RunsAlike c same done = ap (λ x. (ok (succeeded x), c ∷ done)) (same done)

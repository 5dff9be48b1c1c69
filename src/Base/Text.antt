-- ===== src/Base/Text.antt =====
-- strings.TrimPrefix, TrimSuffix, HasPrefix and HasSuffix of Go, character by character, and their
-- laws at a text that is put together from the parts.
use Prim.Native.Char.{Char, code}
use Prim.Native.String
use text.Mathlib.TextLemmas.{nil-append, cons-append, length-cons, length-append}
use router_ui.Base.{
  ◌≡◌, refl, ap, Bool, true, false, ◌||◌, Option, none, some, String, ◌==◌, eq_iff, eq_refl, arith,
  if◌then◌else◌, nat_eq, Bool-cases, inl, inr,
}

infixr 65 ◌+++◌
abbrev pub ◌+++◌ : String → String → String
s +++ t = String.◌++◌ s t

-- What follows the prefix, if the text begins with it.
unfoldable pub strip_prefix : String → String → Option String
strip_prefix String.[] s = some s
strip_prefix (String.◌∷◌ c p) String.[] = none
strip_prefix (String.◌∷◌ c p) (String.◌∷◌ d s) =
    if nat_eq (code c) (code d) then strip_prefix p s else none

unfoldable pub has_prefix : String → String → Bool
unfolding strip_prefix
has_prefix s p = elim (strip_prefix p s) [ none ↦ false | some _ ↦ true ]

unfoldable pub trim_prefix : String → String → String
unfolding strip_prefix
trim_prefix s p = elim (strip_prefix p s) [ none ↦ s | some t ↦ t ]

unfoldable pub has_suffix : String → String → Bool
has_suffix String.[] p = p == ""
has_suffix (String.◌∷◌ c s) p = String.◌∷◌ c s == p || has_suffix s p

unfoldable pub trim_suffix : String → String → String
trim_suffix String.[] p = ""
trim_suffix (String.◌∷◌ c s) p = if String.◌∷◌ c s == p then "" else String.◌∷◌ c (trim_suffix s p)

strip_prefix-append : (p s : String) → strip_prefix p (p +++ s) ≡ some s
unfolding strip_prefix
strip_prefix-append String.[] s = rw nil-append refl
strip_prefix-append (String.◌∷◌ c p) s = rw cons-append (ground (arith, strip_prefix-append p s))

pub trim_prefix-append : (p s : String) → trim_prefix (p +++ s) p ≡ s
unfolding trim_prefix
trim_prefix-append p s = ground (arith, strip_prefix-append p s)

pub has_prefix-append : (p s : String) → has_prefix (p +++ s) p ≡ true
unfolding has_prefix
has_prefix-append p s = ground (arith, strip_prefix-append p s)

has_suffix_self : (p : String) → has_suffix p p ≡ true
unfolding has_suffix
has_suffix_self String.[] = refl
has_suffix_self (String.◌∷◌ c p) = ground (arith, eq_refl (String.◌∷◌ c p))

pub has_suffix-append : (s p : String) → has_suffix (s +++ p) p ≡ true
unfolding has_suffix
has_suffix-append String.[] p = rw nil-append (has_suffix_self p)
has_suffix-append (String.◌∷◌ c s) p = rw cons-append (ground (arith, has_suffix-append s p))

-- A text is not longer than itself, so a longer one never equals the suffix.
cons-append-ne : (c : Char) (s p : String) → (String.◌∷◌ c (s +++ p) == p) ≡ false
cons-append-ne c s p = elim (Bool-cases (String.◌∷◌ c (s +++ p) == p)) [
  | inl same ↦ absurd (
      omega
        (arith, ap String.count ((eq_iff _ _).0 same), length-cons c (s +++ p), length-append s p))
  | inr other ↦ other
]

trim_suffix_self : (p : String) → trim_suffix p p ≡ ""
unfolding trim_suffix
trim_suffix_self String.[] = refl
trim_suffix_self (String.◌∷◌ c p) = rw (eq_refl (String.◌∷◌ c p))

pub trim_suffix-append : (s p : String) → trim_suffix (s +++ p) p ≡ s
unfolding trim_suffix
trim_suffix-append String.[] p = rw nil-append (trim_suffix_self p)
trim_suffix-append (String.◌∷◌ c s) p =
    rw (cons-append c s p) (rw (cons-append-ne c s p) (rw (trim_suffix-append s p)))

tests :
    (trim_prefix "/api/v1/nodes" "/api/v1" ≡ "/nodes")
    × (trim_prefix "/v1" "/api" ≡ "/v1")
    × (trim_suffix "n1/heartbeat" "/heartbeat" ≡ "n1")
    × (trim_suffix "n1" "/heartbeat" ≡ "n1")
    × (has_suffix "n1/heartbeat" "/heartbeat" ≡ true)
    × (has_prefix "/nodes/x" "/nodes/" ≡ true)
unfolding trim_prefix trim_suffix has_suffix has_prefix
tests = (refl, refl, refl, refl, refl, refl)

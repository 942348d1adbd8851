-- ===== src/Prelude/Text.antt =====
-- Texts, which the program compares and joins, and dictionaries keyed by them.
pub use Prim.Native.String.{String, ◌++◌ as ◌<>◌}
use Prim.Native.String.{len, slice}
pub use text.Mathlib.Text.{◌==◌, starts_with}
pub use text.Mathlib.TextEquality.{eq_iff}
pub use text.Mathlib.TextPositions.{eq_refl}
use text.Mathlib.TextPositions.{len-append, slice-append_right, starts_with-append}
use mathlib.Core.Path.{◌≡◌, refl, ap}
use mathlib.Core.Option.{Option, none, some}
use mathlib.Core.List.{List, [], ◌∷◌}
use mathlib.Core.Bool.{Bool, true, false}
use native.Mathlib.Omega.{arith}
use tensor_fusion_operator.Prelude.Tests.{if◌then◌else◌}

-- A Go map with text keys.
abbrev pub Dict {ℓ} : Type ℓ → Type ℓ
Dict V = List (String × V)

module _ {ℓ} {V : Type ℓ} where
  abbrev pub lookup : String → Dict V → Option V
  lookup k [] = none
  lookup k ((j, v) ∷ d) = if j == k then some v else lookup k d

  -- `d[k] = v`
  abbrev pub insert : String → V → Dict V → Dict V
  insert k v [] = (k, v) ∷ []
  insert k v ((j, w) ∷ d) = if j == k then (k, v) ∷ d else (j, w) ∷ insert k v d

  -- `delete(d, k)`
  abbrev pub erase : String → Dict V → Dict V
  erase k [] = []
  erase k ((j, v) ∷ d) = let rest = erase k d in if j == k then rest else (j, v) ∷ rest

  pub lookup-insert :
      (k j : String) (v : V) (d : Dict V)
      → lookup j (insert k v d) ≡ (if k == j then some v else lookup j d)
  lookup-insert k j v [] = refl
  lookup-insert k j v ((i, w) ∷ d) =
      ground (arith, eq_iff k j, eq_iff i k, eq_iff i j, lookup-insert k j v d)

  pub lookup-erase :
      (k j : String) (d : Dict V) → lookup j (erase k d) ≡ (if k == j then none else lookup j d)
  lookup-erase k j [] = ground arith
  lookup-erase k j ((i, w) ∷ d) =
      ground (arith, eq_iff k j, eq_iff i k, eq_iff i j, lookup-erase k j d)

-- `d[k] == v` on a map of texts: a missing key reads as the empty text.
abbrev pub label : String → Dict String → String
label k d = elim (lookup k d) [ none ↦ "" | some v ↦ v ]

abbrev pub is_empty : String → Bool
is_empty s = s == ""

-- `slices.Contains`
abbrev pub contains : List String → String → Bool
contains [] item = false
contains (s ∷ rest) item = if s == item then true else contains rest item

-- `strings.CutPrefix`
abbrev pub cut_prefix : String → String → Option String
cut_prefix s prefix = if starts_with s prefix then some (slice s (len prefix) (len s)) else none

-- `CutPrefix` of a prefix and a text gives the text.
pub cut_prefix-append : (p s : String) → cut_prefix (p <> s) p ≡ some s
cut_prefix-append p s =
    rw (starts_with-append p s, len-append p s) (ap some (slice-append_right p s))

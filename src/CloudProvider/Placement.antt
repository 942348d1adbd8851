-- ===== src/CloudProvider/Placement.antt =====
-- What `CalculateLeastCostGPUNodes` of internal/cloudprovider/common/utils.go reads in the
-- requirements, and the random names of the nodes.
use tensor_fusion_operator.Prelude.{
  ℕ, zero, suc, String, ◌<>◌, ◌==◌, Bool, true, false, ◌&&◌, not, List, [], ◌∷◌, any, Option, none,
  some, Outcome, ok, err, panicked, if◌then◌else◌,
}
use tensor_fusion_operator.Api.{Requirement, NodeRequirementKey}
use tensor_fusion_operator.CloudProvider.Types.{capacity_type_spot}
use tensor_fusion_operator.CloudProvider.Instances.{is_in}

abbrev pub letters : List String
letters =
    "a" ∷ "b" ∷ "c" ∷ "d" ∷ "e" ∷ "f" ∷ "g" ∷ "h" ∷ "i" ∷ "j" ∷ "k" ∷ "l" ∷ "m" ∷ "n" ∷ "o" ∷ "p"
    ∷ "q" ∷ "r" ∷ "s" ∷ "t" ∷ "u" ∷ "v" ∷ "w" ∷ "x" ∷ "y" ∷ "z" ∷ []

unfoldable pub get_elem? {ℓ} : {A : Type ℓ} → List A → ℕ → Option A
get_elem? [] n = none
get_elem? (x ∷ xs) zero = some x
get_elem? (x ∷ xs) (suc n) = get_elem? xs n

-- `draw j` is the `j`-th `rand.Intn(26)`.
unfoldable pub generate_random_string : (ℕ → ℕ) → ℕ → Option String
unfolding get_elem?
generate_random_string draw zero = some ""
generate_random_string draw (suc n) = elim (get_elem? letters (draw n)) [
  | none ↦ none
  | some letter ↦ elim (generate_random_string draw n) [
    | none ↦ none
    | some rest ↦ some (rest <> letter)
  ]
]

-- What the loop over the requirements reads: the capacity type, the region and the zones.
pub record Place : Type 0 where
  pub capacity_type : String
  pub region : String
  pub zones : List String

-- `values[0]`
abbrev first_value : List String → Outcome String
first_value [] = panicked
first_value (v ∷ vs) = ok v

abbrev is_region : NodeRequirementKey → Bool
is_region NodeRequirementKey.region = true
is_region _ = false

unfoldable pub region_override : List Requirement → String → Outcome String
region_override [] region = ok region
region_override (req ∷ reqs) region =
    if is_region req.key then first_value req.values else region_override reqs region

with_first : Requirement → (String → Place) → Outcome Place
with_first req place = elim (first_value req.values) [
  | ok v ↦ ok (place v)
  | err e ↦ err e
  | panicked ↦ panicked
]

unfoldable pub place_requirement : NodeRequirementKey → Requirement → Place → Outcome Place
unfolding with_first
place_requirement NodeRequirementKey.capacity_type req place =
    if is_in req.operator && not (any (λ (v : String). v == capacity_type_spot) req.values)
    then with_first req (λ v. record place { capacity_type = v })
    else ok place
place_requirement NodeRequirementKey.region req place =
    if is_in req.operator then with_first req (λ v. record place { region = v }) else ok place
place_requirement NodeRequirementKey.zone req place =
    if is_in req.operator then ok (record place { zones = req.values }) else ok place
place_requirement _ req place = ok place

unfoldable pub place_of : List Requirement → Place → Outcome Place
unfolding place_requirement
place_of [] place = ok place
place_of (req ∷ reqs) place = elim (place_requirement req.key req place) [
  | ok place' ↦ place_of reqs place'
  | err e ↦ err e
  | panicked ↦ panicked
]

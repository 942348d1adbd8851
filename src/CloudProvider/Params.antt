-- ===== src/CloudProvider/Params.antt =====
-- The parameters of the nodes that `CalculateLeastCostGPUNodes` asks for.
use tensor_fusion_operator.Prelude.{
  ℕ, zero, suc, String, ◌<>◌, List, [], ◌∷◌, length, All, Any, ◌≡◌, refl, ap, ◌⊎◌, inl, inr,
  Option-cases, none, some, Dict, Outcome, ok, err, failed, if◌then◌else◌, ltb, arith, ◌<◌,
}
use tensor_fusion_operator.Prelude.Int.{ℤ, pos}
use tensor_fusion_operator.Float.{Float}
use tensor_fusion_operator.Api.{GpuNodeClass}
use tensor_fusion_operator.CloudProvider.Types.{Catalogue, GpuNodeInstanceInfo, NodeCreationParam}
use tensor_fusion_operator.CloudProvider.LeastCost.{
  Best, Draws, offer, best_of, capped, node_param, node_params, param_of, if_zones, create_params,
  choose,
}
use tensor_fusion_operator.CloudProvider.Placement.{
  letters, get_elem?, generate_random_string, Place,
}
use tensor_fusion_operator.CloudProvider.Cheapest.{
  Beaten, Offered, Order, best_of-Beaten, best_of-Offered,
}

-- The random numbers are in the range they are drawn from.
pub record InRange {Q : Type 0} (draws : Draws Q) : Type 0 where
  pub intn_range : (i n : ℕ) → 0 < n → draws.intn i n < n
  pub letter_range : (i j : ℕ) → draws.letter i j < 26

get_elem?-range :
    {A : Type 0} (xs : List A) (n : ℕ)
    → n < length xs
    → (x : A) × (get_elem? xs n ≡ some x) × Any (λ y. y ≡ x) xs
unfolding get_elem?
get_elem?-range [] n h = absurd (omega arith)
get_elem?-range (x ∷ xs) zero h = (x, refl, inl refl)
get_elem?-range (x ∷ xs) (suc n) h =
    let (y, e, m) = get_elem?-range xs n (omega arith) in (y, e, inr m)

generate_random_string-ok :
    (draw : ℕ → ℕ)
    → ((j : ℕ) → draw j < 26)
    → (n : ℕ) → (s : String) × (generate_random_string draw n ≡ some s)
unfolding generate_random_string
generate_random_string-ok draw range zero = ("", refl)
generate_random_string-ok draw range (suc n) =
    let (letter, e, m) = get_elem?-range letters (draw n) (range n) in
    let (rest, e') = generate_random_string-ok draw range n in (rest <> letter, rw (e, e') refl)

first_of : {A B : Type 0} {b : B} → A ⊎ (none ≡ some b) → A
first_of (inl a) = a
first_of (inr e) = absurd (cc)

if_zones_lem :
    {A : Type 0} (zones : List String)
    → 0 < length zones
    → (rest : Outcome A) → if_zones zones rest ≡ rest
if_zones_lem [] h rest = absurd (omega arith)
if_zones_lem (z ∷ zs) h rest = refl

module _ {Q : Type 0} (draws : Draws Q) (range : InRange draws) where
  -- A parameter asks for an instance of the given type, at the place and in one of its zones.
  abbrev pub AsksFor : Place → GpuNodeInstanceInfo → NodeCreationParam Q → Type 0
  AsksFor place info param =
      (param.instance_type ≡ info.instance_type)
      × (param.region ≡ place.region)
      × (param.capacity_type ≡ place.capacity_type)
      × (param.gpu_device_offered ≡ info.gpu_count)
      × Any (λ zone. zone ≡ param.zone) place.zones

  module _ (pool_name : String) (node_class : GpuNodeClass) (extra_params : Dict String)
      (place : Place) (info : GpuNodeInstanceInfo) where
    node_param-ok :
        0 < length place.zones
        → (i : ℕ)
        → (p : NodeCreationParam Q) × (node_param draws pool_name node_class extra_params place info
              i
            ≡ some p)
          × AsksFor place info p
    unfolding node_param
    node_param-ok some_zone i =
        let (suffix, e) = generate_random_string-ok (draws.letter i) (range.letter_range i) 8 in
        let (zone, e', m) =
          get_elem?-range place.zones (draws.intn i (length place.zones))
            (range.intn_range i (length place.zones) some_zone) in
        (
          param_of draws pool_name node_class extra_params place info suffix zone,
          rw (e, e') refl,
          (refl, refl, refl, refl, m),
        )

    node_params-ok :
        0 < length place.zones
        → (i n : ℕ)
        → (ps : List (NodeCreationParam Q)) × (node_params draws pool_name node_class extra_params
              place info i n
            ≡ ok ps)
          × (length ps ≡ n)
          × All (AsksFor place info) ps
    unfolding node_params
    node_params-ok some_zone i zero = ([], refl, refl, tt)
    node_params-ok some_zone i (suc n) =
        let (p, e, asks) = node_param-ok some_zone i in
        let (ps, e', l, all) = node_params-ok some_zone (suc i) n in
        (p ∷ ps, rw (node_params, e, e') refl, ap suc l, (asks, all))

  abbrev pub at_most_100 : ℕ → ℕ
  at_most_100 n = if ltb 100 n then 100 else n

  capped_pos : (n : ℕ) → capped (pos n) ≡ pos (at_most_100 n)
  unfolding capped
  capped_pos n = ground arith

  module _ {F : Type 0} ⦃f : Float F⦄ (order : Order F) (provider : Catalogue F) where
    -- Every one of the eligible instance types that has an offer asks for a number that is not
    -- negative, as the ceilings of the code do for a positive gap within float64's range.
    abbrev pub Countable : Place → List GpuNodeInstanceInfo → ℤ → ℤ → Type 0
    Countable place infos tflops_gap vram_gap =
        (best : Best F)
        → Offered (offer provider place tflops_gap vram_gap) infos best
        → (n : ℕ) × (best.num_instances ≡ pos n)

    -- Where the requirements name a zone, the random numbers are in range and no offer's number is
    -- negative, the choice does one of two things. If no eligible instance type has an offer cheaper
    -- than the largest float64, it returns that error. Else it returns parameters that all ask for one
    -- eligible instance type, in the region, with the capacity type and in one of the zones; none of
    -- the other offers costs less; and there are as many of them as the offer says, or 100 if it says
    -- more.
    pub choose_lem :
        (pool_name : String) (node_class : GpuNodeClass) (extra_params : Dict String)
        (place : Place) (infos : List GpuNodeInstanceInfo) (tflops_gap vram_gap : ℤ)
        → 0 < length place.zones
        → Countable place infos tflops_gap vram_gap
        → ((choose draws provider pool_name node_class extra_params place infos tflops_gap vram_gap
              ≡ err (failed "no eligible instances found"))
            × All (λ info. Beaten (offer provider place tflops_gap vram_gap info) none) infos)
          ⊎ ((best : Best F) × (n : ℕ) × (params : List (NodeCreationParam Q)) × (choose draws
                  provider pool_name node_class extra_params place infos tflops_gap vram_gap
                ≡ ok params)
              × Offered (offer provider place tflops_gap vram_gap) infos best
              × All
                  (λ info. Beaten (offer provider place tflops_gap vram_gap info) (some best))
                  infos
              × All (AsksFor place best.info) params
              × (best.num_instances ≡ pos n)
              × (length params ≡ at_most_100 n))
    unfolding choose create_params
    choose_lem pool_name node_class extra_params place infos tflops_gap vram_gap some_zone
          countable =
        let beaten = best_of-Beaten provider place tflops_gap vram_gap order infos none in
        rw (if_zones_lem place.zones some_zone)
          (elim (Option-cases (best_of provider place tflops_gap vram_gap infos none)) [
            | inl e ↦ inl (rw e refl, rw e at beaten)
            | inr (best, e) ↦
                let offered =
                  first_of (best_of-Offered provider place tflops_gap vram_gap infos none best e) in
                let (n, num) = countable best offered in
                let (ps, e', l, all) =
                  node_params-ok pool_name node_class extra_params place best.info some_zone 0
                    (at_most_100 n) in
                inr
                  (best, n, ps, rw (e, num, capped_pos n) e', offered, rw e at beaten, all, num, l)
          ])

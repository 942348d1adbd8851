-- ===== src/CloudProvider/LeastCost.antt =====
-- `CalculateLeastCostGPUNodes` of internal/cloudprovider/common/utils.go. The provider, the random
-- numbers, float64 and `resource.MustParse` are parameters.
use tensor_fusion_operator.Prelude.{
  ℕ, zero, suc, String, ◌<>◌, Bool, ◌&&◌, ◌||◌, List, [], ◌∷◌, length, Option, none, some, Dict,
  failed, Outcome, ok, err, panicked, done, fail, if◌then◌else◌,
}
use tensor_fusion_operator.Prelude.Int.{ℤ, pos, negsuc, leb_ℤ, ltb_ℤ, ◌*ℤ◌, int32}
use tensor_fusion_operator.Float.{Float}
use tensor_fusion_operator.Api.{GpuNodeClass, Requirement, TensorFusionCluster, GpuPool}
use tensor_fusion_operator.CloudProvider.Types.{
  Catalogue, GpuNodeInstanceInfo, NodeCreationParam, capacity_type_spot,
}
use tensor_fusion_operator.CloudProvider.Placement.{
  Place, get_elem?, generate_random_string, region_override, place_of,
}
use tensor_fusion_operator.CloudProvider.Instances.{get_eligible_instances}

abbrev pub max_nodes_per_reconcile_loop : ℤ
max_nodes_per_reconcile_loop = pos 100

-- The best instance so far, with the number of instances and their cost.
pub record Best (F : Type 0) : Type 0 where
  pub info : GpuNodeInstanceInfo
  pub num_instances : ℤ
  pub cost : F

abbrev pub tflops_per_instance : GpuNodeInstanceInfo → ℤ
tflops_per_instance info = int32 (info.fp16_tflops_per_gpu *ℤ info.gpu_count)

abbrev pub vram_per_instance : GpuNodeInstanceInfo → ℤ
vram_per_instance info = int32 (info.vram_gigabytes_per_gpu *ℤ info.gpu_count)

abbrev pub offers_nothing : GpuNodeInstanceInfo → Bool
offers_nothing info =
    leb_ℤ (tflops_per_instance info) (pos 0) || leb_ℤ (vram_per_instance info) (pos 0)

abbrev pub num_instances : (F : Type 0) ⦃f : Float F⦄ → ℤ → ℤ → GpuNodeInstanceInfo → ℤ
num_instances F ⦃f⦄ tflops_gap vram_gap info =
    let tflops_required =
      f.ceil (f.div (f.of_int tflops_gap) (f.of_int (tflops_per_instance info))) in
    let vram_required = f.ceil (
      f.div (f.div (f.of_int vram_gap) (f.of_int (vram_per_instance info)))
        (f.of_int (pos 1073741824))) in
    f.to_int64 (f.fmax tflops_required vram_required)

module _ {F : Type 0} ⦃f : Float F⦄ where
  open f use {of_int, to_int64, mul, div, ceil, fmax, lt, max_float}

  -- The offer of an instance type; there is none without a price or with nothing to offer.
  unfoldable pub offer : Catalogue F → Place → ℤ → ℤ → GpuNodeInstanceInfo → Option (Best F)
  offer provider place tflops_gap vram_gap info =
      elim (provider.get_instance_pricing info.instance_type place.region place.capacity_type) [
        | fail e ↦ none
        | done cost_per_hour ↦
            let n = num_instances F tflops_gap vram_gap info in
            if offers_nothing info
            then none
            else some
                (record { info = info; num_instances = n; cost = mul cost_per_hour (of_int n) })
      ]

  abbrev pub min_cost : Option (Best F) → F
  min_cost none = max_float
  min_cost (some best) = best.cost

  unfoldable pub better : Option (Best F) → Option (Best F) → Option (Best F)
  better none best = best
  better (some candidate) best = if lt candidate.cost (min_cost best) then some candidate else best

  -- The loop over the eligible instances
  unfoldable pub best_of :
      Catalogue F → Place → ℤ → ℤ → List GpuNodeInstanceInfo → Option (Best F) → Option (Best F)
  unfolding offer better
  best_of provider place tflops_gap vram_gap [] best = best
  best_of provider place tflops_gap vram_gap (info ∷ infos) best =
      best_of provider place tflops_gap vram_gap infos
        (better (offer provider place tflops_gap vram_gap info) best)

abbrev pub if_zones : {A : Type 0} → List String → Outcome A → Outcome A
if_zones [] rest = err (failed "no zones found in node requirements")
if_zones (zone ∷ zones) rest = rest

-- What the creation of the parameters draws and parses: `intn i n` is `rand.Intn(n)` in round `i`,
-- `letter i j` its `j`-th draw of a letter, and the others are `resource.MustParse` of `%d` and `%dGi`.
pub record Draws (Q : Type 0) : Type 0 where
  pub intn : ℕ → ℕ → ℕ
  pub letter : ℕ → ℕ → ℕ
  pub parse_count : ℤ → Q
  pub parse_gibibytes : ℤ → Q

unfoldable pub capped : ℤ → ℤ
capped n = if ltb_ℤ max_nodes_per_reconcile_loop n then max_nodes_per_reconcile_loop else n

module _ {Q : Type 0} (draws : Draws Q) where
  abbrev pub param_of :
      String
      → GpuNodeClass
      → Dict String
      → Place
      → GpuNodeInstanceInfo
      → String
      → String
      → NodeCreationParam Q
  param_of pool_name node_class extra_params place info suffix zone = record {
    node_name = pool_name <> "-" <> suffix;
    region = place.region;
    zone = zone;
    instance_type = info.instance_type;
    node_class = node_class;
    capacity_type = place.capacity_type;
    tflops_offered = draws.parse_count (tflops_per_instance info);
    vram_offered = draws.parse_gibibytes (vram_per_instance info);
    gpu_device_offered = info.gpu_count;
    extra_params = extra_params;
  }

  -- The parameters of the node of round `i`; an index out of range panics.
  unfoldable pub node_param :
      String
      → GpuNodeClass
      → Dict String
      → Place
      → GpuNodeInstanceInfo
      → ℕ
      → Option (NodeCreationParam Q)
  unfolding get_elem? generate_random_string
  node_param pool_name node_class extra_params place info i =
      elim (generate_random_string (draws.letter i) 8) [
        | none ↦ none
        | some suffix ↦ elim (get_elem? place.zones (draws.intn i (length place.zones))) [
          | none ↦ none
          | some zone ↦ some (param_of pool_name node_class extra_params place info suffix zone)
        ]
      ]

  -- `todo` rounds from round `i` on
  unfoldable pub node_params :
      String
      → GpuNodeClass
      → Dict String
      → Place
      → GpuNodeInstanceInfo
      → ℕ
      → ℕ
      → Outcome (List (NodeCreationParam Q))
  unfolding node_param
  node_params pool_name node_class extra_params place info i zero = ok []
  node_params pool_name node_class extra_params place info i (suc todo) =
      let rest = node_params pool_name node_class extra_params place info (suc i) todo in
      elim (node_param pool_name node_class extra_params place info i) [
        | none ↦ panicked
        | some param ↦ elim rest [
          | ok params ↦ ok (param ∷ params)
          | err e ↦ err e
          | panicked ↦ panicked
        ]
      ]

  -- `make([]types.NodeCreationParam, 0, n)` panics for a negative capacity.
  unfoldable pub create_params :
      String
      → GpuNodeClass
      → Dict String
      → Place
      → GpuNodeInstanceInfo
      → ℤ
      → Outcome (List (NodeCreationParam Q))
  unfolding node_params
  create_params pool_name node_class extra_params place info (pos n) =
      node_params pool_name node_class extra_params place info 0 n
  create_params pool_name node_class extra_params place info (negsuc n) = panicked

  module _ {F : Type 0} ⦃f : Float F⦄ (provider : Catalogue F) where
    abbrev pub create_best :
        String
        → GpuNodeClass
        → Dict String
        → Place
        → Option (Best F)
        → Outcome (List (NodeCreationParam Q))
    create_best pool_name node_class extra_params place none =
        err (failed "no eligible instances found")
    create_best pool_name node_class extra_params place (some best) =
        create_params pool_name node_class extra_params place best.info (capped best.num_instances)

    -- What follows on the eligible instances and the place.
    unfoldable pub choose :
        String
        → GpuNodeClass
        → Dict String
        → Place
        → List GpuNodeInstanceInfo
        → ℤ
        → ℤ
        → Outcome (List (NodeCreationParam Q))
    unfolding best_of create_params capped
    choose pool_name node_class extra_params place infos tflops_gap vram_gap =
        if_zones place.zones (
          create_best pool_name node_class extra_params place
            (best_of provider place tflops_gap vram_gap infos none))

    -- With the requirements of the pool's provisioner and the vendor's default region.
    unfoldable pub calculate :
        String
        → GpuNodeClass
        → Dict String
        → List Requirement
        → String
        → ℤ
        → ℤ
        → Outcome (List (NodeCreationParam Q))
    unfolding choose region_override place_of get_eligible_instances
    calculate pool_name node_class extra_params requirements default_region tflops_gap vram_gap =
        elim (region_override requirements default_region) [
          | err e ↦ err e
          | panicked ↦ panicked
          | ok region ↦
              elim (get_eligible_instances requirements
                (provider.get_gpu_node_instance_type_info region)) [
                  | [] ↦
                      err (failed "no eligible instances types found, can not start creating nodes")
                  | info ∷ infos ↦
                      elim (place_of requirements (record {
                        capacity_type = capacity_type_spot;
                        region = region;
                        zones = [];
                      })) [
                        | err e ↦ err e
                        | panicked ↦ panicked
                        | ok place ↦
                            choose pool_name node_class extra_params place (info ∷ infos) tflops_gap
                              vram_gap
                      ]
                ]
        ]

    -- `pool.Spec.NodeManagerConfig.NodeProvisioner` and `cluster.Spec.ComputingVendor` are pointers.
    unfoldable pub calculate_least_cost_gpu_nodes :
        TensorFusionCluster Q
        → GpuPool Q
        → GpuNodeClass
        → ℤ
        → ℤ
        → Outcome (List (NodeCreationParam Q))
    unfolding calculate
    calculate_least_cost_gpu_nodes cluster pool node_class tflops_gap vram_gap =
        if leb_ℤ tflops_gap (pos 0) && leb_ℤ vram_gap (pos 0)
        then ok []
        else elim pool.spec.node_manager_config [
          | none ↦ panicked
          | some manager ↦ elim manager.node_provisioner [
            | none ↦ panicked
            | some provisioner ↦ elim cluster.spec.computing_vendor [
              | none ↦ panicked
              | some vendor ↦
                  calculate pool.meta.name node_class vendor.params.extra_params
                    provisioner.gpu_requirements vendor.params.default_region tflops_gap vram_gap
            ]
          ]
        ]

-- ===== src/CloudProvider/Tests.antt =====
-- The theorems of the choice of nodes at concrete inputs.
use tensor_fusion_operator.Prelude.{
  ap, sym, ◌∙◌, ℕ, ◌≡◌, refl, some, none, ok, err, failed, done, List, [], ◌∷◌, length, All, Any,
  ◌↔◌, ◌⊎◌, arith, inl, inr,
}
use tensor_fusion_operator.Prelude.Int.{ℤ, pos, int32, ◌*ℤ◌}
use tensor_fusion_operator.Api.{Requirement, NodeRequirementKey, NodeSelectorOperator}
use tensor_fusion_operator.Samples.{plain_class, int_quantity, int_float}
use tensor_fusion_operator.CloudProvider.Types.{Catalogue, GpuNodeInstanceInfo, NodeCreationParam}
use tensor_fusion_operator.CloudProvider.Instances.{get_eligible_instances}
use tensor_fusion_operator.CloudProvider.Eligible.{Admits, get_eligible_instances_lem}
use tensor_fusion_operator.CloudProvider.LeastCost.{Best, Draws, choose, offer}
use tensor_fusion_operator.CloudProvider.Placement.{Place}
use tensor_fusion_operator.CloudProvider.Cheapest.{Beaten, Offered, Order}
use tensor_fusion_operator.CloudProvider.Params.{
  AsksFor, Countable, InRange, at_most_100, choose_lem,
}

abbrev info : GpuNodeInstanceInfo
info = record {
  instance_type = "g1";
  fp16_tflops_per_gpu = pos 10;
  vram_gigabytes_per_gpu = pos 16;
  gpu_count = pos 2;
  cpu_architecture = "amd64";
  gpu_architecture = "NVIDIA_Ampere";
}

abbrev requirements : List Requirement
requirements =
    record {
      key = NodeRequirementKey.instance_type;
      operator = NodeSelectorOperator.op_in;
      values = "g1" ∷ [];
    }
    ∷ []

get_eligible_instances_lem_example :
    Any (λ i. i ≡ info) (get_eligible_instances requirements (info ∷ []))
    ↔ (Any (λ i. i ≡ info) (info ∷ []) × All (Admits info) requirements)
get_eligible_instances_lem_example = get_eligible_instances_lem requirements (info ∷ []) info

abbrev catalogue : Catalogue ℤ
catalogue = record {
  get_instance_pricing = λ t r c. done (pos 2);
  get_gpu_node_instance_type_info = λ r. info ∷ [];
}

abbrev draws : Draws ℤ
draws = record {
  intn = λ i n. 0;
  letter = λ i j. 0;
  parse_count = λ n. n;
  parse_gibibytes = λ n. n;
}

abbrev place : Place
place = record { capacity_type = "Spot"; region = "region"; zones = "zone" ∷ [] }

draws-InRange : InRange draws
draws-InRange = record { intn_range = λ i n h. h; letter_range = λ i j. omega arith }

int_order : Order ℤ
int_order = record { lt_irrefl = λ a. ground arith; lt_trans = λ a b c h k. ground arith }

abbrev only_offer : Best ℤ
only_offer = record { info = info; num_instances = pos 1; cost = pos 2 }

offered_once : offer catalogue place (pos 25) (pos 0) info ≡ some only_offer
unfolding offer int32 ◌*ℤ◌
offered_once = refl

same_best : {a b : Best ℤ} → some a ≡ some b → a ≡ b
same_best h = cc

countable : Countable draws draws-InRange int_order catalogue place (info ∷ []) (pos 25) (pos 0)
countable best (inl e) =
    (1, ap (λ (b : Best ℤ). b.num_instances) (same_best (sym e ∙ offered_once)))
countable best (inr absent) = absurd absent

choose_lem_example :
    ((choose draws catalogue "pool" plain_class [] place (info ∷ []) (pos 25) (pos 0)
        ≡ err (failed "no eligible instances found"))
      × All (λ i. Beaten (offer catalogue place (pos 25) (pos 0) i) none) (info ∷ []))
    ⊎ ((best : Best ℤ) × (n : ℕ) × (params : List (NodeCreationParam ℤ)) × (choose draws catalogue
            "pool" plain_class [] place
            (info ∷ [])
            (pos 25)
            (pos 0)
          ≡ ok params)
        × Offered (offer catalogue place (pos 25) (pos 0)) (info ∷ []) best
        × All (λ i. Beaten (offer catalogue place (pos 25) (pos 0) i) (some best)) (info ∷ [])
        × All (AsksFor draws draws-InRange place best.info) params
        × (best.num_instances ≡ pos n)
        × (length params ≡ at_most_100 draws draws-InRange n))
choose_lem_example =
    choose_lem draws draws-InRange int_order catalogue "pool" plain_class [] place (info ∷ [])
      (pos 25) (pos 0) (omega arith) countable

-- ===== src/CloudProvider/Instances.antt =====
-- `getEligibleInstances` and `contains` of internal/cloudprovider/common/utils.go.
use tensor_fusion_operator.Prelude.{String, ◌==◌, Bool, true, false, List, [], ◌∷◌, if◌then◌else◌}
use tensor_fusion_operator.Api.{Requirement, NodeRequirementKey, NodeSelectorOperator}
use tensor_fusion_operator.CloudProvider.Types.{GpuNodeInstanceInfo}

unfoldable pub contains : List String → String → Bool
contains [] item = false
contains (s ∷ rest) item = if s == item then true else contains rest item

abbrev pub is_in : NodeSelectorOperator → Bool
is_in NodeSelectorOperator.op_in = true
is_in _ = false

-- `if req.Operator == In { if !contains(req.Values, text) { meetsRequirements = false } }`
unfoldable pub drop_if_missing : Requirement → String → Bool → Bool
unfolding contains
drop_if_missing req text meets =
    if is_in req.operator then (if contains req.values text then meets else false) else meets

-- One round of the loop over the requirements; the capacity type and the other keys change nothing.
unfoldable pub check_requirement :
    GpuNodeInstanceInfo → NodeRequirementKey → Requirement → Bool → Bool
unfolding drop_if_missing
check_requirement instance_info NodeRequirementKey.instance_type req meets =
    drop_if_missing req instance_info.instance_type meets
check_requirement instance_info NodeRequirementKey.architecture req meets =
    drop_if_missing req instance_info.cpu_architecture meets
check_requirement instance_info NodeRequirementKey.gpu_architecture req meets =
    drop_if_missing req instance_info.gpu_architecture meets
check_requirement instance_info _ req meets = meets

unfoldable pub meets_requirements : GpuNodeInstanceInfo → List Requirement → Bool → Bool
unfolding check_requirement
meets_requirements instance_info [] meets = meets
meets_requirements instance_info (req ∷ reqs) meets =
    meets_requirements instance_info reqs (check_requirement instance_info req.key req meets)

unfoldable pub get_eligible_instances :
    List Requirement → List GpuNodeInstanceInfo → List GpuNodeInstanceInfo
unfolding meets_requirements
get_eligible_instances reqs [] = []
get_eligible_instances reqs (info ∷ infos) =
    let rest = get_eligible_instances reqs infos in
    if meets_requirements info reqs true then info ∷ rest else rest

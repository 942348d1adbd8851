-- ===== src/Vendors/Unidentified.antt =====
-- What `CreateNode` of AWS reports.
use tensor_fusion_operator.Prelude.{
  Bool, true, false, ◌≢◌, is_empty, List, ◌∷◌, Reply, done, fail, Error, failed, wrapped, Outcome,
  ok, err, Bool-cases, Reply-cases, ◌≡◌, refl, ◌⊎◌, inl, inr, eq_iff,
}
use tensor_fusion_operator.CloudProvider.Types.{NodeCreationParam}
use tensor_fusion_operator.Vendors.Request.{first_id}
use tensor_fusion_operator.Vendors.Alibaba.{NodeStatus}
use tensor_fusion_operator.Vendors.Aws.{
  AwsCall, AwsEnv, RunInstancesInput, create_node, input_of, run_input, run_instances,
}

-- What a caller of `CreateNode` gets for each answer of the vendor, which carries no id.
abbrev pub aws_reported : Reply (Unit {0}) → Outcome NodeStatus
aws_reported (fail e) = err (wrapped "failed to create instance" e)
aws_reported (done answer) = ok (record { instance_id = ""; private_ip = ""; public_ip = "" })

module _ {K Q : Type 0} (env : AwsEnv K) (client : K) (param : NodeCreationParam Q)
    (calls : List AwsCall) where
  abbrev pub Unidentified : Type 0
  Unidentified =
      ((first_id param.node_class.spec.os_image_selector_terms ≡ "")
        × ((create_node env client param calls).1 ≡ calls)
        × ((e : Error) × ((create_node env client param calls).0 ≡ err e)))
      ⊎ ((first_id param.node_class.spec.os_image_selector_terms ≢ "")
          × (r : RunInstancesInput) × (r.instance_type ≡ param.instance_type)
          × (r.image_id ≡ first_id param.node_class.spec.os_image_selector_terms)
          × (r.min_count ≡ 1)
          × (r.max_count ≡ 1)
          × (create_node env client param calls
              ≡ (aws_reported (env.run calls client r), run_instances r ∷ calls)))

  run_input-reported :
      (r : RunInstancesInput)
      → run_input env client r calls
        ≡ (aws_reported (env.run calls client r), run_instances r ∷ calls)
  unfolding run_input
  run_input-reported r = elim (Reply-cases (env.run calls client r)) [
    | inl (answer, a) ↦ rw a refl
    | inr (e, a) ↦ rw a refl
  ]

  named : {b : Bool} → b ≡ false → b ≡ true → ⊥
  named h k = cc

  -- `CreateNode` of AWS makes no call, and fails, if the class has no image or the first one has no id; only
  -- then. Otherwise it asks for exactly one instance of the parameters' type from that image, and the
  -- status of the new instance has an empty id.
  pub aws_create_node_lem : Unidentified
  unfolding create_node
  aws_create_node_lem =
      elim (Bool-cases (is_empty (first_id param.node_class.spec.os_image_selector_terms))) [
        | inl a ↦ inl (
          (eq_iff (first_id param.node_class.spec.os_image_selector_terms) "").0 a,
          (rw a refl),
          (failed "no OS image selector terms found", (rw a refl)),
        )
        | inr a ↦ inr (
          λ p.
              absurd (
                named a ((eq_iff (first_id param.node_class.spec.os_image_selector_terms) "").1 p)),
          input_of env client param calls,
          refl,
          refl,
          refl,
          refl,
          (rw a (run_input-reported (input_of env client param calls))),
        )
      ]

-- ===== src/Vendors/Created.antt =====
-- What `CreateNode` did, in every case.
use tensor_fusion_operator.Prelude.{
  String, ◌<>◌, label, failed, wrapped, true, ◌∷◌, Reply, done, fail, Error, Outcome, ok, err,
  Reply-cases, Bool-cases, ◌≡◌, refl, ap, ◌∙◌, sym, ◌⊎◌, inl, inr, if◌then◌else◌,
}
use tensor_fusion_operator.CloudProvider.Types.{NodeCreationParam, NodeIdentityParam}
use tensor_fusion_operator.Vendors.World.{
  Env, RunInstancesRequest, RunInstancesResponse, World, delete_instance, run_instances,
}
use tensor_fusion_operator.Vendors.Request.{request_of, tags}
use tensor_fusion_operator.Vendors.Alibaba.{
  NodeStatus, create_if, create_node, created, run_request, terminate_node,
}
use tensor_fusion_operator.Vendors.Requested.{ForNode, Makes, Parsed, Unparsed, request_of-Makes}

-- What a caller of `CreateNode` gets for each answer to the call.
abbrev pub reported : Reply RunInstancesResponse → Outcome NodeStatus
reported (fail e) = err (wrapped "failed to create instance" e)
reported (done response) =
    if response.is_success
    then ok (record { instance_id = response.request_id; private_ip = ""; public_ip = "" })
    else err (failed ("instance creation failed: " <> response.text))

module _ {F K Q : Type 0} (env : Env F K) (client : K) (param : NodeCreationParam Q)
    (w : World F K) where
  -- No request was made, since a price limit or a duration of a spot instance cannot be read.
  abbrev pub Refused : Type 0
  Refused = Unparsed env param × ((e : Error) × (create_node env client param w ≡ (err e, w)))

  -- The parameters that are needed can be read, and one request was sent.
  abbrev pub Sent : Type 0
  Sent =
      Parsed env param
      × (r : RunInstancesRequest F) × ForNode env param r
      × (label "tensor-fusion.ai/node-name" r.tag ≡ param.node_name)
      × (create_node env client param w
          ≡ (reported (env.run w.calls client r), record w { calls = run_instances r ∷ w.calls }))

  run_request-reported :
      (r : RunInstancesRequest F)
      → run_request env client r w
        ≡ (reported (env.run w.calls client r), record w { calls = run_instances r ∷ w.calls })
  unfolding run_request created
  run_request-reported r = elim (Reply-cases (env.run w.calls client r)) [
    | inl (response, a) ↦ elim (Bool-cases response.is_success) [
      | inl b ↦ rw (a, b) refl
      | inr b ↦ rw (a, b) refl
    ]
    | inr (e, a) ↦ rw a refl
  ]

  Result : Reply (RunInstancesRequest F) → Type 0
  Result o =
      (Unparsed env param × ((e : Error) × (create_if env client param o w ≡ (err e, w))))
      ⊎ (Parsed env param
          × (r : RunInstancesRequest F) × ForNode env param r
          × (label "tensor-fusion.ai/node-name" r.tag ≡ param.node_name)
          × (create_if env client param o w ≡ (
            reported (env.run w.calls client r),
            record w { calls = run_instances r ∷ w.calls },
          )))

  sent_if : (o : Reply (RunInstancesRequest F)) → Makes env param o → Result o
  unfolding Result
  sent_if (fail e) h = inl (h, (e, refl))
  sent_if (done r) (h, parsed) =
      let t = record r {
        tag = tags env param (env.tag_order w.calls param.node_class.spec.tags);
      } in
      inr (
        parsed,
        t,
        record {
          one = h.one;
          type = h.type;
          region = h.region;
          name = h.name;
          template = h.template;
          user_data = h.user_data;
        },
        refl,
        run_request-reported t,
      )

  -- `CreateNode` fails before any request if the extra parameters ask for a spot instance and give a price
  -- limit or a duration that is no number; only then. Otherwise it sends exactly one request, for one
  -- instance of the parameters' type, region and name, from the class's launch template, tagged with
  -- that name, and reports what the answer says.
  pub create_node_lem : Refused ⊎ Sent
  unfolding create_node Result
  create_node_lem = sent_if (request_of env param) (request_of-Makes env param)

-- A status is reported only of a successful answer.
answered_by :
    (answer : Reply RunInstancesResponse) {status : NodeStatus}
    → reported answer ≡ ok status
    → (response : RunInstancesResponse) × (answer ≡ done response)
      × (response.is_success ≡ true)
      × (status.instance_id ≡ response.request_id)
answered_by (fail e) h = absurd (cc)
answered_by (done response) {status} h = elim (Bool-cases response.is_success) [
  | inl b ↦ (response, refl, b, sym (id_of (rw b at h)))
  | inr b ↦ absurd (not_err (rw b at h))
]
  where
    id_of : {e : NodeStatus} → ok e ≡ ok status → e.instance_id ≡ status.instance_id
    id_of p = cc

    not_err : {e : Error} → err e ≡ ok status → ⊥
    not_err p = cc

module _ {F K Q : Type 0} (env : Env F K) (client : K) (param : NodeCreationParam Q) (w : World F K)
    (status : NodeStatus) (created_it : (create_node env client param w).0 ≡ ok status) where
  abbrev pub identity : NodeIdentityParam
  identity = record { instance_id = status.instance_id; region = param.region }

  -- The call by which `TerminateNode` deletes what `CreateNode` reported.
  terminate_node-calls :
      (v : World F K)
      → (terminate_node env client identity v).1.calls
        ≡ delete_instance status.instance_id param.region ∷ v.calls
  unfolding terminate_node
  terminate_node-calls v =
      elim (Reply-cases (env.deleted v.calls client status.instance_id param.region)) [
        | inl (success, a) ↦ elim (Bool-cases success) [
          | inl b ↦ rw (a, b) refl
          | inr b ↦ rw (a, b) refl
        ]
        | inr (e, a) ↦ rw a refl
      ]

  refused_not_ok : {e : Error} → err e ≡ ok status → ⊥
  refused_not_ok h = cc

  abbrev pub Deletes : World F K → RunInstancesRequest F → RunInstancesResponse → Type 0
  Deletes v r response =
      (env.run w.calls client r ≡ done response)
      × (response.is_success ≡ true)
      × ((terminate_node env client identity v).1.calls
          ≡ delete_instance response.request_id param.region ∷ v.calls)

  -- `TerminateNode` of a node that `CreateNode` reported asks for the deletion of an instance under the id of the request that
  -- `CreateNode` had sent, whatever the ids of the instances in the response are.
  pub terminate_node-create_node :
      (v : World F K)
      → (r : RunInstancesRequest F) × (response : RunInstancesResponse) × ForNode env param r
        × Deletes v r response
  terminate_node-create_node v = elim (create_node_lem env client param w) [
    | inl (a, (e, b)) ↦
        absurd
          (refused_not_ok (ap (λ (x : Outcome NodeStatus × World F K). x.0) (sym b) ∙ created_it))
    | inr (parsed, r, f, t, b) ↦
        let (response, p, s, i) =
          answered_by (env.run w.calls client r)
            (sym (ap (λ (x : Outcome NodeStatus × World F K). x.0) b) ∙ created_it) in
        (
          r,
          response,
          f,
          (
            p,
            s,
            terminate_node-calls v
                ∙ ap (λ (id : String). delete_instance id param.region ∷ v.calls) i,
          ),
        )
  ]

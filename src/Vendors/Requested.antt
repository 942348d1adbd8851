-- ===== src/Vendors/Requested.antt =====
-- The request that `handleNodeClassAndExtraParams` makes: for one instance of what was asked for.
use tensor_fusion_operator.Prelude.{
  String, Error, ◌==◌, ◌⊎◌, ◌∙◌, label, is_empty, true, false, Reply, done, fail, Reply-cases,
  Bool-cases, ◌≡◌, refl, inl, inr,
}
use tensor_fusion_operator.CloudProvider.Types.{NodeCreationParam}
use tensor_fusion_operator.Vendors.World.{Env, RunInstancesRequest}
use tensor_fusion_operator.Vendors.Request.{
  base_request, then_duration, request_if, request_of, with_duration, with_price_limit,
}

module _ {F K Q : Type 0} (env : Env F K) (param : NodeCreationParam Q) where
  -- A request for one instance of the parameters' type, region and name, from the class's template.
  pub record ForNode (r : RunInstancesRequest F) : Type 0 where
    pub one : r.amount ≡ "1"
    pub type : r.instance_type ≡ param.instance_type
    pub region : r.region_id ≡ param.region
    pub name : r.instance_name ≡ param.node_name
    pub template : r.launch_template_id ≡ param.node_class.spec.launch_template.id
    pub user_data : r.user_data ≡ (base_request env param).user_data

  -- What an extra parameter that is given has to be, and how it fails to be that.
  abbrev pub Reads : {A : Type 0} → (String → Reply A) → String → Type 0
  Reads {A} parse key =
      is_empty (label key param.extra_params) ≡ false
      → (x : A) × (parse (label key param.extra_params) ≡ done x)

  abbrev pub Misreads : {A : Type 0} → (String → Reply A) → String → Type 0
  Misreads parse key =
      (is_empty (label key param.extra_params) ≡ false)
      × ((e : Error) × (parse (label key param.extra_params) ≡ fail e))

  -- The extra parameters name a capacity type that is not `OnDemand`.
  abbrev pub AsksSpot : Type 0
  AsksSpot =
      (is_empty (label "karpenter.sh/capacity-type" param.extra_params) ≡ false)
      × ((label "karpenter.sh/capacity-type" param.extra_params == "OnDemand") ≡ false)

  abbrev pub Unparsed : Type 0
  Unparsed =
      AsksSpot × (Misreads env.parse_float "spotPriceLimit" ⊎ Misreads env.atoi "spotDuration")

  abbrev pub Parsed : Type 0
  Parsed = AsksSpot → Reads env.parse_float "spotPriceLimit" × Reads env.atoi "spotDuration"

  -- A failure is one of this parameter, and a request stands for one that can be read.
  abbrev Step : {A : Type 0} → (String → Reply A) → String → Reply (RunInstancesRequest F) → Type 0
  Step parse key (fail e) = Misreads parse key
  Step parse key (done r) = ForNode r × Reads parse key

  abbrev pub Makes : Reply (RunInstancesRequest F) → Type 0
  Makes (fail e) = Unparsed
  Makes (done r) = ForNode r × Parsed

  same_fields :
      (r r' : RunInstancesRequest F)
      → r'.amount ≡ r.amount
      → r'.instance_type ≡ r.instance_type
      → r'.region_id ≡ r.region_id
      → r'.instance_name ≡ r.instance_name
      → r'.launch_template_id ≡ r.launch_template_id
      → r'.user_data ≡ r.user_data
      → ForNode r
      → ForNode r'
  same_fields r r' a t g n l u h = record {
    one = a ∙ h.one;
    type = t ∙ h.type;
    region = g ∙ h.region;
    name = n ∙ h.name;
    template = l ∙ h.template;
    user_data = u ∙ h.user_data;
  }

  with_price_limit-Step :
      (r : RunInstancesRequest F)
      → ForNode r
      → Step env.parse_float "spotPriceLimit" (with_price_limit env param r)
  unfolding with_price_limit
  with_price_limit-Step r h =
      elim (Bool-cases (is_empty (label "spotPriceLimit" param.extra_params))) [
        | inl a ↦ rw a (same_fields r _ refl refl refl refl refl refl h, λ b. absurd (cc))
        | inr a ↦ elim (Reply-cases (env.parse_float (label "spotPriceLimit" param.extra_params))) [
          | inl (x, b) ↦ rw (a, b) (same_fields r _ refl refl refl refl refl refl h, λ c. (x, b))
          | inr (e, b) ↦ rw (a, b) (a, (e, b))
        ]
      ]

  with_duration-Step :
      (r : RunInstancesRequest F)
      → ForNode r
      → Step env.atoi "spotDuration" (with_duration env param r)
  unfolding with_duration
  with_duration-Step r h = elim (Bool-cases (is_empty (label "spotDuration" param.extra_params))) [
    | inl a ↦ rw a (same_fields r _ refl refl refl refl refl refl h, λ b. absurd (cc))
    | inr a ↦ elim (Reply-cases (env.atoi (label "spotDuration" param.extra_params))) [
      | inl (x, b) ↦ rw (a, b) (same_fields r _ refl refl refl refl refl refl h, λ c. (x, b))
      | inr (e, b) ↦ rw (a, b) (a, (e, b))
    ]
  ]

  base-ForNode : ForNode (base_request env param)
  unfolding base_request
  base-ForNode = record {
    one = refl;
    type = refl;
    region = refl;
    name = refl;
    template = refl;
    user_data = refl;
  }

  joined :
      AsksSpot
      → Reads env.parse_float "spotPriceLimit"
      → (o : Reply (RunInstancesRequest F)) → Step env.atoi "spotDuration" o
      → Makes o
  joined spot price (fail e) h = (spot, inr h)
  joined spot price (done r) (f, duration) = (f, λ _. (price, duration))

  then_duration-Makes :
      AsksSpot
      → (o : Reply (RunInstancesRequest F)) → Step env.parse_float "spotPriceLimit" o
      → Makes (then_duration env param o)
  then_duration-Makes spot (fail e) h = (spot, inl h)
  then_duration-Makes spot (done r) (f, price) =
      joined spot price (with_duration env param r) (with_duration-Step r f)

  -- The request for a spot instance.
  spot_request-Makes : AsksSpot → Makes (request_if env param true)
  spot_request-Makes spot =
      then_duration-Makes spot (with_price_limit env param (base_request env param))
        (with_price_limit-Step (base_request env param) base-ForNode)

  pub request_of-Makes : Makes (request_of env param)
  unfolding request_of
  request_of-Makes =
      let t = label "karpenter.sh/capacity-type" param.extra_params in
      elim (Bool-cases (is_empty t)) [
        | inl a ↦ rw a (base-ForNode, λ (b, c). absurd (cc))
        | inr a ↦ elim (Bool-cases (t == "OnDemand")) [
          | inl b ↦ rw (a, b) (base-ForNode, λ (c, d). absurd (cc))
          | inr b ↦ rw (a, b) (spot_request-Makes (a, b))
        ]
      ]

-- ===== src/Webhook/Annotated.antt =====
-- What `ParseTFResources` finds.
use tensor_fusion_operator.Prelude.{
  String, Bool, arith, ◌||◌, Any, Option, true, false, ◌⊎◌, done, fail, Reply-cases, List, [], ◌∷◌,
  none, some, lookup, Dict, Reply, ◌≡◌, refl, inl, inr, Bool-cases,
}
use tensor_fusion_operator.Quantity.{Quantity}
use tensor_fusion_operator.Api.{Container, Pod}
use tensor_fusion_operator.Webhook.{
  TfResource, has, text_of, tflops_limit_key, vram_limit_key, asks, container_resource,
  container_resources, gpu_pool_annotation_key, parse_tf_resources, parsed_if, tflops_request_key,
  vram_request_key,
}

-- An annotation of one of the four keys is there.
abbrev pub Given : Dict String → String → Type 0
Given annotations key = (text : String) × (lookup key annotations ≡ some text)

abbrev pub AsksFor : Dict String → Container → Type 0
AsksFor annotations c =
    Any (λ key. Given annotations key)
      (tflops_request_key c.name
        ∷ vram_request_key c.name
        ∷ tflops_limit_key c.name
        ∷ vram_limit_key c.name
        ∷ [])

abbrev Present : Option String → Type 0
Present o = (text : String) × (o ≡ some text)

some_given :
    (a b c d : Option String)
    → has a || has b || has c || has d ≡ true
    → Present a ⊎ (Present b ⊎ (Present c ⊎ (Present d ⊎ ⊥)))
some_given (some x) b c d h = inl (x, refl)
some_given none (some x) c d h = inr (inl (x, refl))
some_given none none (some x) d h = inr (inr (inl (x, refl)))
some_given none none none (some x) h = inr (inr (inr (inl (x, refl))))
some_given none none none none h = absurd (cc)

absent : {o : Option String} → has o ≡ false → Present o → ⊥
absent {o} h (x, e) = let k = rw e at h in different k
  where
    different : true ≡ false → ⊥
    different k = cc

all_absent :
    (a b c d : Bool)
    → a || b || c || d ≡ false
    → (a ≡ false) × (b ≡ false) × (c ≡ false) × (d ≡ false)
all_absent a b c d h = (ground arith, ground arith, ground arith, ground arith)

none_given :
    (a b c d : Option String)
    → has a || has b || has c || has d ≡ false
    → Present a ⊎ (Present b ⊎ (Present c ⊎ (Present d ⊎ ⊥)))
    → ⊥
none_given a b c d h p =
    let (k, l, m, n) = all_absent (has a) (has b) (has c) (has d) h in
    elim p [
      | inl x ↦ absent k x
      | inr p ↦ elim p [
        | inl x ↦ absent l x
        | inr p ↦ elim p [ inl x ↦ absent m x | inr p ↦ elim p [ inl x ↦ absent n x | inr x ↦ x ] ]
      ]
    ]

module _ {Q : Type 0} ⦃q : Quantity Q⦄ (parse : String → Reply Q) where
  -- An unreadable amount counts as zero.
  abbrev pub read : Reply Q → Q
  read (done amount) = amount
  read (fail e) = q.zero

  -- A request and its limit: zero without an annotation for the request, whatever the limit says, and
  -- otherwise what the annotations say, where a missing limit is read as the empty text.
  abbrev pub Amounts : Option String → Option String → Q → Q → Type 0
  Amounts none limit r l = (r ≡ q.zero) × (l ≡ q.zero)
  Amounts (some text) none r l = (r ≡ read (parse text)) × (l ≡ read (parse ""))
  Amounts (some text) (some bound) r l = (r ≡ read (parse text)) × (l ≡ read (parse bound))

  pub record Requested (annotations : Dict String) (r : TfResource Q) : Type 0 where
    pub tflops :
        Amounts
          (lookup (tflops_request_key r.container_name) annotations)
          (lookup (tflops_limit_key r.container_name) annotations)
          r.tflops_request
          r.tflops_limit
    pub vram :
        Amounts
          (lookup (vram_request_key r.container_name) annotations)
          (lookup (vram_limit_key r.container_name) annotations)
          r.vram_request
          r.vram_limit

  parsed : (text : String) → parsed_if parse true text ≡ read (parse text)
  unfolding parsed_if
  parsed text = elim (Reply-cases (parse text)) [
    | inl (amount, e) ↦ rw (parsed_if, e) refl
    | inr (e, f) ↦ rw (parsed_if, f) refl
  ]

  parsed-Amounts :
      (request limit : Option String)
      → Amounts request limit
          (parsed_if parse (has request) (text_of request))
          (parsed_if parse (has request) (text_of limit))
  unfolding parsed_if
  parsed-Amounts none limit = (refl, refl)
  parsed-Amounts (some text) none = (parsed text, parsed "")
  parsed-Amounts (some text) (some bound) = (parsed text, parsed bound)

  container_resource-Requested :
      (annotations : Dict String) (c : Container)
      → Requested annotations (container_resource parse annotations c)
  unfolding container_resource
  container_resource-Requested annotations c = record {
    tflops =
        parsed-Amounts (lookup (tflops_request_key c.name) annotations)
          (lookup (tflops_limit_key c.name) annotations);
    vram =
        parsed-Amounts (lookup (vram_request_key c.name) annotations)
          (lookup (vram_limit_key c.name) annotations);
  }

  -- The containers that some annotation asks resources for, in order, and their resources.
  abbrev pub Parses : Dict String → List Container → List (TfResource Q) → Type 0
  Parses annotations [] rs = rs ≡ []
  Parses annotations (c ∷ cs) rs =
      ((AsksFor annotations c → ⊥) × Parses annotations cs rs)
      ⊎ (AsksFor annotations c
          × ((r : TfResource Q) × (rest : List (TfResource Q)) × (rs ≡ r ∷ rest)
              × (r.container_name ≡ c.name)
              × Requested annotations r
              × Parses annotations cs rest))

  container_resource-name :
      (annotations : Dict String) (c : Container)
      → (container_resource parse annotations c).container_name ≡ c.name
  unfolding container_resource
  container_resource-name annotations c = refl

  asks-AsksFor :
      (annotations : Dict String) (c : Container)
      → asks annotations c ≡ true
      → AsksFor annotations c
  unfolding asks
  asks-AsksFor annotations c h =
      some_given (lookup (tflops_request_key c.name) annotations)
        (lookup (vram_request_key c.name) annotations)
        (lookup (tflops_limit_key c.name) annotations) (lookup (vram_limit_key c.name) annotations)
        h

  not_asks-AsksFor :
      (annotations : Dict String) (c : Container)
      → asks annotations c ≡ false
      → AsksFor annotations c
      → ⊥
  unfolding asks
  not_asks-AsksFor annotations c h =
      none_given (lookup (tflops_request_key c.name) annotations)
        (lookup (vram_request_key c.name) annotations)
        (lookup (tflops_limit_key c.name) annotations) (lookup (vram_limit_key c.name) annotations)
        h

  container_resources-Parses :
      (annotations : Dict String) (cs : List Container)
      → Parses annotations cs (container_resources parse annotations cs)
  unfolding container_resources
  container_resources-Parses annotations [] = refl
  container_resources-Parses annotations (c ∷ cs) = elim (Bool-cases (asks annotations c)) [
    | inl on ↦
        rw (container_resources, on)
          (inr (
            asks-AsksFor annotations c on,
            (
              container_resource parse annotations c,
              container_resources parse annotations cs,
              refl,
              container_resource-name annotations c,
              container_resource-Requested annotations c,
              container_resources-Parses annotations cs,
            ),
          ))
    | inr off ↦
        rw (container_resources, off)
          (inl (not_asks-AsksFor annotations c off, container_resources-Parses annotations cs))
  ]

  -- `ParseTFResources` of a pod with the pool's annotation gives the pool and, in order, one resource for
  -- each container that an annotation for a TFLOPS or VRAM request or limit stands for, and for no other,
  -- with the amounts of these annotations; a limit without the request of the same kind is ignored.
  -- Without the pool's annotation it gives nothing.
  pub parse_tf_resources_lem :
      (pod : Pod)
      → (lookup gpu_pool_annotation_key pod.meta.annotations ≡ none
          → parse_tf_resources parse pod ≡ ("", []))
        × ((pool_name : String)
            → lookup gpu_pool_annotation_key pod.meta.annotations ≡ some pool_name
            → ((parse_tf_resources parse pod).0 ≡ pool_name)
              × Parses pod.meta.annotations pod.spec.containers (parse_tf_resources parse pod).1)
  unfolding parse_tf_resources
  parse_tf_resources_lem pod = (
    λ e. rw (parse_tf_resources, e) refl,
    λ pool_name e.
        rw (parse_tf_resources, e)
          (refl, container_resources-Parses pod.meta.annotations pod.spec.containers),
  )

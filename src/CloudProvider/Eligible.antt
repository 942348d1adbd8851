-- ===== src/CloudProvider/Eligible.antt =====
-- Which instance types are eligible.
use tensor_fusion_operator.Prelude.{
  String, ◌==◌, eq_iff, Bool, true, List, [], ◌∷◌, All, Any, ◌≡◌, refl, sym, ap, ◌↔◌, inl, inr,
  Bool-cases, Option, none, some, arith,
}
use tensor_fusion_operator.Api.{Requirement, NodeRequirementKey}
use tensor_fusion_operator.CloudProvider.Types.{GpuNodeInstanceInfo}
use tensor_fusion_operator.CloudProvider.Instances.{
  contains, is_in, drop_if_missing, check_requirement, meets_requirements, get_eligible_instances,
}

-- The text of an instance type that a requirement with this key is about, if it is about any.
abbrev pub subject : GpuNodeInstanceInfo → NodeRequirementKey → Option String
subject info NodeRequirementKey.instance_type = some info.instance_type
subject info NodeRequirementKey.architecture = some info.cpu_architecture
subject info NodeRequirementKey.gpu_architecture = some info.gpu_architecture
subject info _ = none

-- The values of a requirement with the operator `In` contain the text that it is about.
abbrev pub Admits : GpuNodeInstanceInfo → Requirement → Type 0
Admits info req =
    (text : String)
    → subject info req.key ≡ some text
    → is_in req.operator ≡ true
    → Any (λ v. v ≡ text) req.values

contains_if :
    (values : List String) (item : String)
    → contains values item ≡ true
    → Any (λ v. v ≡ item) values
unfolding contains
contains_if [] item h = absurd (cc)
contains_if (v ∷ vs) item h = elim (Bool-cases (v == item)) [
  | inl e ↦ inl ((eq_iff v item).0 e)
  | inr e ↦ inr (contains_if vs item (rw e at h))
]

contains_only_if :
    (values : List String) (item : String)
    → Any (λ v. v ≡ item) values
    → contains values item ≡ true
unfolding contains
contains_only_if [] item h = absurd h
contains_only_if (v ∷ vs) item (inl e) = rw ((eq_iff v item).1 e) refl
contains_only_if (v ∷ vs) item (inr h) = elim (Bool-cases (v == item)) [
  | inl e ↦ rw e refl
  | inr e ↦ rw e (contains_only_if vs item h)
]

-- A test that is kept exactly where the requirement admits.
abbrev Keeps : Bool → Bool → Type 0 → Type 0
Keeps after before A = (after ≡ true → (before ≡ true) × A) × (before ≡ true → A → after ≡ true)

drop_if_missing_lem :
    (req : Requirement) (text : String) (meets : Bool)
    → Keeps
        (drop_if_missing req text meets)
        meets
        (is_in req.operator ≡ true → Any (λ v. v ≡ text) req.values)
unfolding drop_if_missing
drop_if_missing_lem req text meets = elim (Bool-cases (is_in req.operator)) [
  | inr off ↦ rw off (λ h. (h, λ u. absurd (cc)), λ h u. h)
  | inl on ↦ elim (Bool-cases (contains req.values text)) [
    | inl c ↦ rw (on, c) (λ h. (h, λ u. contains_if req.values text c), λ h u. h)
    | inr c ↦
        rw (on, c)
          (λ h. absurd (cc), λ h u. absurd (cc (c, contains_only_if req.values text (u refl))))
  ]
]

same_text : {o : Option String} {s t : String} → o ≡ some s → o ≡ some t → s ≡ t
same_text h k = ground arith

Admits-some :
    (info : GpuNodeInstanceInfo) (req : Requirement) (text : String) (after before : Bool)
    → subject info req.key ≡ some text
    → Keeps after before (is_in req.operator ≡ true → Any (λ v. v ≡ text) req.values)
    → Keeps after before (Admits info req)
Admits-some info req text after before s (k, l) = (
  λ a. ((k a).0, λ text' s' on. rw (same_text s' s) ((k a).1 on)),
  λ b admits. l b (admits text s),
)

Admits-none :
    (info : GpuNodeInstanceInfo) (req : Requirement) (meets : Bool)
    → subject info req.key ≡ none
    → Keeps meets meets (Admits info req)
Admits-none info req meets s = (λ a. (a, λ text' s' on. absurd (cc)), λ b admits. b)

check_lem :
    (info : GpuNodeInstanceInfo) (key : NodeRequirementKey) (req : Requirement) (meets : Bool)
    → req.key ≡ key
    → Keeps (check_requirement info key req meets) meets (Admits info req)
unfolding check_requirement
check_lem info NodeRequirementKey.instance_type req meets e =
    Admits-some info req info.instance_type _ meets (ap (subject info) e)
      (drop_if_missing_lem req info.instance_type meets)
check_lem info NodeRequirementKey.architecture req meets e =
    Admits-some info req info.cpu_architecture _ meets (ap (subject info) e)
      (drop_if_missing_lem req info.cpu_architecture meets)
check_lem info NodeRequirementKey.gpu_architecture req meets e =
    Admits-some info req info.gpu_architecture _ meets (ap (subject info) e)
      (drop_if_missing_lem req info.gpu_architecture meets)
check_lem info _ req meets e = Admits-none info req meets (ap (subject info) e)

meets_requirements_lem :
    (info : GpuNodeInstanceInfo) (reqs : List Requirement) (meets : Bool)
    → Keeps (meets_requirements info reqs meets) meets (All (Admits info) reqs)
unfolding meets_requirements
meets_requirements_lem info [] meets = (λ h. (h, tt), λ h u. h)
meets_requirements_lem info (req ∷ reqs) meets =
    let (k, l) = check_lem info req.key req meets refl in
    let (k', l') = meets_requirements_lem info reqs (check_requirement info req.key req meets) in
    (λ h. let (c, rest) = k' h in ((k c).0, ((k c).1, rest)), λ m all. l' (l m all.0) all.1)

-- `getEligibleInstances` returns an instance type if and only if the provider offers it and every
-- requirement on the instance type, the CPU architecture or the GPU architecture with the operator
-- `In` lists its text.
pub get_eligible_instances_lem :
    (reqs : List Requirement) (infos : List GpuNodeInstanceInfo) (info : GpuNodeInstanceInfo)
    → Any (λ i. i ≡ info) (get_eligible_instances reqs infos)
      ↔ (Any (λ i. i ≡ info) infos × All (Admits info) reqs)
unfolding get_eligible_instances
get_eligible_instances_lem reqs [] info = (λ h. absurd h, λ h. absurd h.0)
get_eligible_instances_lem reqs (i ∷ infos) info =
    let (k, l) = get_eligible_instances_lem reqs infos info in
    let (m, n) = meets_requirements_lem i reqs true in
    elim (Bool-cases (meets_requirements i reqs true)) [
      | inl yep ↦
          rw (get_eligible_instances, yep)
            (
              λ h. elim h [
                | inl e ↦ (inl e, rw (sym e) ((m yep).1))
                | inr t ↦ (inr (k t).0, (k t).1)
              ],
              λ h. elim h.0 [ inl e ↦ inl e | inr t ↦ inr (l (t, h.1)) ],
            )
      | inr nope ↦
          rw (get_eligible_instances, nope)
            (
              λ h. (inr (k h).0, (k h).1),
              λ h. elim h.0 [ inl e ↦ absurd (cc (nope, n refl (rw e h.1))) | inr t ↦ l (t, h.1) ],
            )
    ]

-- ===== src/CloudProvider/Cheapest.antt =====
-- What `CalculateLeastCostGPUNodes` returns.
use tensor_fusion_operator.Prelude.{
  true, false, List, [], ◌∷◌, All, Any, ◌≡◌, sym, ◌⊎◌, inl, inr, Bool-cases, Option, none, some,
}
use tensor_fusion_operator.Prelude.Int.{ℤ}
use tensor_fusion_operator.Float.{Float}
use tensor_fusion_operator.CloudProvider.Types.{Catalogue, GpuNodeInstanceInfo}
use tensor_fusion_operator.CloudProvider.LeastCost.{Best, offer, better, best_of, min_cost}
use tensor_fusion_operator.CloudProvider.Placement.{Place}

-- The order on float64 that `<` is.
pub record Order (F : Type 0) ⦃f : Float F⦄ : Type 0 where
  pub lt_irrefl : (a : F) → f.lt a a ≡ false
  pub lt_trans : (a b c : F) → f.lt a b ≡ true → f.lt b c ≡ true → f.lt a c ≡ true

same_best : {A : Type 0} {a b : A} → some a ≡ some b → a ≡ b
same_best h = cc

module _ {F : Type 0} ⦃f : Float F⦄ where
  open f use {lt}

  -- No offer of an instance type is cheaper than the best one.
  abbrev pub Beaten : Option (Best F) → Option (Best F) → Type 0
  Beaten candidate best = (c : Best F) → candidate ≡ some c → lt c.cost (min_cost best) ≡ false

  -- What was not cheaper stays so when the best gets better.
  abbrev NotAbove : Option (Best F) → Option (Best F) → Type 0
  NotAbove before after = (x : F) → lt x (min_cost before) ≡ false → lt x (min_cost after) ≡ false

  not_below : Order F → (a b c : F) → lt b c ≡ true → lt a c ≡ false → lt a b ≡ false
  not_below order a b c h k = elim (Bool-cases (lt a b)) [
    | inl e ↦ absurd (cc (k, order.lt_trans a b c e h))
    | inr e ↦ e
  ]

  better-NotAbove :
      Order F → (candidate best : Option (Best F)) → NotAbove best (better candidate best)
  unfolding better
  better-NotAbove order none best x h = h
  better-NotAbove order (some c) best x h = elim (Bool-cases (lt c.cost (min_cost best))) [
    | inl cheaper ↦ rw cheaper (not_below order x c.cost (min_cost best) cheaper h)
    | inr dearer ↦ rw dearer h
  ]

  better-Beaten :
      Order F → (candidate best : Option (Best F)) → Beaten candidate (better candidate best)
  unfolding better
  better-Beaten order none best c e = absurd (cc)
  better-Beaten order (some c) best c' e = elim (Bool-cases (lt c.cost (min_cost best))) [
    | inl cheaper ↦ rw (cheaper, sym (same_best e)) (order.lt_irrefl c.cost)
    | inr dearer ↦ rw (dearer, sym (same_best e)) dearer
  ]

  -- The chosen one is the offer of an instance type of the list.
  abbrev pub Offered :
      (GpuNodeInstanceInfo → Option (Best F)) → List GpuNodeInstanceInfo → Best F → Type 0
  Offered offers infos best = Any (λ info. offers info ≡ some best) infos

  module _ (provider : Catalogue F) (place : Place) (tflops_gap vram_gap : ℤ) where
    abbrev offers : GpuNodeInstanceInfo → Option (Best F)
    offers = offer provider place tflops_gap vram_gap

    best_of-NotAbove :
        Order F
        → (infos : List GpuNodeInstanceInfo) (best : Option (Best F))
        → NotAbove best (best_of provider place tflops_gap vram_gap infos best)
    unfolding best_of
    best_of-NotAbove order [] best x h = h
    best_of-NotAbove order (info ∷ infos) best x h =
        best_of-NotAbove order infos (better (offers info) best) x
          (better-NotAbove order (offers info) best x h)

    pub best_of-Beaten :
        Order F
        → (infos : List GpuNodeInstanceInfo) (best : Option (Best F))
        → All
            (λ info. Beaten (offers info) (best_of provider place tflops_gap vram_gap infos best))
            infos
    unfolding best_of
    best_of-Beaten order [] best = tt
    best_of-Beaten order (info ∷ infos) best = (
      λ c e.
          best_of-NotAbove order infos (better (offers info) best) c.cost
            (better-Beaten order (offers info) best c e),
      best_of-Beaten order infos (better (offers info) best),
    )

    better_cases :
        (candidate best : Option (Best F)) (b : Best F)
        → better candidate best ≡ some b
        → (candidate ≡ some b) ⊎ (best ≡ some b)
    unfolding better
    better_cases none best b h = inr h
    better_cases (some c) best b h = elim (Bool-cases (lt c.cost (min_cost best))) [
      | inl cheaper ↦ inl (rw cheaper at h)
      | inr dearer ↦ inr (rw dearer at h)
    ]

    pub best_of-Offered :
        (infos : List GpuNodeInstanceInfo) (best : Option (Best F)) (b : Best F)
        → best_of provider place tflops_gap vram_gap infos best ≡ some b
        → Offered offers infos b ⊎ (best ≡ some b)
    unfolding best_of
    best_of-Offered [] best b h = inr h
    best_of-Offered (info ∷ infos) best b h =
        elim (best_of-Offered infos (better (offers info) best) b h) [
          | inl later ↦ inl (inr later)
          | inr e ↦ elim (better_cases (offers info) best b e) [
            | inl now ↦ inl (inl now)
            | inr old ↦ inr old
          ]
        ]

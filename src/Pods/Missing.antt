-- ===== src/Pods/Missing.antt =====
-- Which connections the pod reconciler creates.
use tensor_fusion_operator.Prelude.{
  Outcome, ok, err, panicked, ◌⊎◌, false, Reply-cases, ◌>>◌, true, List, [], ◌∷◌, Error, wrapped,
  is_not_found, done, fail, ◌≡◌, refl, inl, inr, Bool-cases,
}
use tensor_fusion_operator.Quantity.{Quantity}
use tensor_fusion_operator.Api.{TensorFusionConnection}
use tensor_fusion_operator.Pods.{
  get_connection, create_connection, History, Env, apply_all, apply_one, create, create_if_missing,
  key_of,
}

module _ {Q : Type 0} ⦃q : Quantity Q⦄ (env : Env Q) where
  -- The connection is asked for by its own key after the calls `h`. It is created right after that if
  -- the API server says that there is none; if there is one, or the answer is another error, nothing
  -- else is done.
  abbrev pub Applied : TensorFusionConnection Q → History Q → History Q → Type 0
  Applied c h h' =
      ((h' ≡ create_connection c ∷ get_connection (key_of c) ∷ h)
        × ((e : Error) × (env.connection h (key_of c) ≡ fail e) × (is_not_found e ≡ true)))
      ⊎ ((h' ≡ get_connection (key_of c) ∷ h)
          × (((e : Error) × (env.connection h (key_of c) ≡ fail e) × (is_not_found e ≡ false))
              ⊎ ((found : TensorFusionConnection Q) × (env.connection h (key_of c) ≡ done found))))

  -- The connections are applied one after the other; an error of one ends the loop.
  abbrev pub AppliedAll :
      List (TensorFusionConnection Q) → History Q → Outcome (Unit {0}) × History Q → Type 0
  AppliedAll [] h x = (x.0 ≡ ok tt) × (x.1 ≡ h)
  AppliedAll (c ∷ cs) h x =
      (mid : History Q) × Applied c h mid
      × (((e : Error) × (x.0 ≡ err e) × (x.1 ≡ mid)) ⊎ AppliedAll cs mid x)

  Ran : TensorFusionConnection Q → History Q → Outcome (Unit {0}) × History Q → Type 0
  Ran c h (o, mid) = Applied c h mid × ((o ≡ ok tt) ⊎ ((e : Error) × (o ≡ err e)))

  apply_one-Ran : (c : TensorFusionConnection Q) (h : History Q) → Ran c h (apply_one env c h)
  unfolding apply_one create_if_missing create Ran
  apply_one-Ran c h = elim (Reply-cases (env.connection h (key_of c))) [
    | inl (found, a) ↦ rw a (inr (refl, inr (found, refl)), inl refl)
    | inr (e, a) ↦ elim (Bool-cases (is_not_found e)) [
      | inl gone ↦ elim (Reply-cases (env.connection_created (get_connection (key_of c) ∷ h) c)) [
        | inl (u, b) ↦ rw (a, gone, b) (inl (refl, (e, refl, gone)), inl refl)
        | inr (f, b) ↦
            rw (a, gone, b) (inl (refl, (e, refl, gone)), inr (wrapped "create connection" f, refl))
      ]
      | inr other ↦ rw (a, other) (inr (refl, inl (e, refl, other)), inl refl)
    ]
  ]

  applied :
      (c : TensorFusionConnection Q) (cs : List (TensorFusionConnection Q)) (h : History Q)
      (o : Outcome (Unit {0})) (mid : History Q)
      → Ran c h (o, mid)
      → AppliedAll cs mid (apply_all env cs mid)
      → AppliedAll (c ∷ cs) h (((λ (g : History Q). (o, mid)) >> apply_all env cs) h)
  unfolding Ran
  applied c cs h (ok u) mid (a, end) rest = (mid, a, inr rest)
  applied c cs h (err e) mid (a, end) rest = (mid, a, inl (e, refl, refl))
  applied c cs h panicked mid (a, inl end) rest = absurd (cc)
  applied c cs h panicked mid (a, inr (e, end)) rest = absurd (cc)

  -- Of the connections generated for a pod, the loop asks for each by its own key, in order, creates
  -- exactly those that the API server then says there is none of, and makes no other call; it ends
  -- early only with an error.
  pub apply_all-AppliedAll :
      (cs : List (TensorFusionConnection Q)) (h : History Q) → AppliedAll cs h (apply_all env cs h)
  unfolding apply_all
  apply_all-AppliedAll [] h = (refl, refl)
  apply_all-AppliedAll (c ∷ cs) h =
      let (o, mid) = apply_one env c h in
      applied c cs h o mid (apply_one-Ran c h) (apply_all-AppliedAll cs mid)

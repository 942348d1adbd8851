-- ===== src/Webhook/Connected.antt =====
-- What the webhook makes of each container, and what is read from it later.
use tensor_fusion_operator.Prelude.{
  Option-cases, ℕ, ◌==◌, Bool, true, false, List, [], ◌∷◌, Option, some, done, Outcome, ok, err,
  panicked, Action, ◌>>=◌, pure, Post, >>=-Post, Reply-cases, ◌≡◌, refl, ◌⊎◌, inl, inr,
  if◌then◌else◌,
}
use tensor_fusion_operator.Quantity.{Quantity}
use tensor_fusion_operator.Api.{ClientConfig, Container, Pod}
use tensor_fusion_operator.Webhook.{TfResource}
use tensor_fusion_operator.Webhook.Patch.{
  draw, Env, merged, patch_all, patch_container, patch_containers, with_connection,
}

module _ {A : Type 0} where
  -- Two lists of one length, related place by place.
  abbrev pub Pairwise : (A → A → Type 0) → List A → List A → Type 0
  Pairwise R [] [] = Unit
  Pairwise R [] (y ∷ ys) = ⊥
  Pairwise R (x ∷ xs) [] = ⊥
  Pairwise R (x ∷ xs) (y ∷ ys) = R x y × Pairwise R xs ys

  Pairwise-self : (R : A → A → Type 0) → ((x : A) → R x x) → (xs : List A) → Pairwise R xs xs
  Pairwise-self R h [] = tt
  Pairwise-self R h (x ∷ xs) = (h x, Pairwise-self R h xs)

  Pairwise-trans :
      (R S T : A → A → Type 0)
      → ((x y z : A) → R x y → S y z → T x z)
      → (xs ys zs : List A) → Pairwise R xs ys
      → Pairwise S ys zs
      → Pairwise T xs zs
  Pairwise-trans R S T h [] [] [] r s = tt
  Pairwise-trans R S T h [] [] (z ∷ zs) r s = absurd s
  Pairwise-trans R S T h [] (y ∷ ys) zs r s = absurd r
  Pairwise-trans R S T h (x ∷ xs) [] zs r s = absurd r
  Pairwise-trans R S T h (x ∷ xs) (y ∷ ys) [] r s = absurd s
  Pairwise-trans R S T h (x ∷ xs) (y ∷ ys) (z ∷ zs) (a, r) (b, s) =
      (h x y z a b, Pairwise-trans R S T h xs ys zs r s)

module _ {Q J R P : Type 0} ⦃q : Quantity Q⦄ (env : Env Q J R P) (client : Option ClientConfig)
    (pod : Pod) where
  -- The configured patch made the container `m` of `c`.
  abbrev pub Merged : ClientConfig → Container → Container → Type 0
  Merged config c m =
      (json : J) × (patch : J) × (both : J) × (env.marshal_container c ≡ done json)
      × (env.marshal_raw config.patch_to_container ≡ done patch)
      × (env.merge_container json patch ≡ done both)
      × (env.unmarshal_container both ≡ done m)

  abbrev pub Connected : Container → Container → Type 0
  Connected c c' =
      (config : ClientConfig) × (m : Container) × (n : ℕ) × (client ≡ some config)
      × Merged config c m
      × (c' ≡ with_connection env config pod m n)

  -- What one resource does to a container.
  abbrev pub Step : TfResource Q → Container → Container → Type 0
  Step res c c' =
      (((c.name == res.container_name) ≡ false) × (c' ≡ c))
      ⊎ (((c.name == res.container_name) ≡ true) × Connected c c')

  -- What the resources do to a container, one after the other.
  abbrev pub Steps : List (TfResource Q) → Container → Container → Type 0
  Steps [] c c' = c' ≡ c
  Steps (res ∷ resources) c c' = (mid : Container) × Step res c mid × Steps resources mid c'

  abbrev Gives : {A : Type 0} → (A → Type 0) → Outcome A × ℕ → Type 0
  Gives R = Post (λ _. Unit) (λ a _. R a)

  merged-Gives :
      (config : ClientConfig) (c : Container) (json : J) (n : ℕ)
      → env.marshal_container c ≡ done json
      → Gives (Merged config c) (merged env config c json n)
  unfolding merged
  merged-Gives config c json n a = elim (Reply-cases (env.marshal_raw config.patch_to_container)) [
    | inr (e, d) ↦ rw d tt
    | inl (patch, d) ↦ elim (Reply-cases (env.merge_container json patch)) [
      | inr (e, f) ↦ rw (d, f) tt
      | inl (both, f) ↦ elim (Reply-cases (env.unmarshal_container both)) [
        | inr (e, g) ↦ rw (d, f, g) tt
        | inl (m, g) ↦ rw (d, f, g) (json, patch, both, a, refl, f, g)
      ]
    ]
  ]

  finish : ClientConfig → Container → Action ℕ Container
  finish config m = draw >>= λ n. pure (with_connection env config pod m n)

  finish-Gives :
      (config : ClientConfig) (c m : Container) (n : ℕ)
      → client ≡ some config
      → Merged config c m
      → Gives (Connected c) (finish config m n)
  unfolding finish
  finish-Gives config c m n b r = (config, m, n, b, r, refl)

  patch_container-merged :
      (c : Container) (json : J) (config : ClientConfig) (n : ℕ)
      → env.marshal_container c ≡ done json
      → client ≡ some config
      → patch_container env client pod c n ≡ (merged env config c json >>= finish config) n
  unfolding patch_container finish
  patch_container-merged c json config n a b = rw (a, b) refl

  configured-Gives :
      (c : Container) (json : J) (config : ClientConfig) (n : ℕ)
      → env.marshal_container c ≡ done json
      → client ≡ some config
      → Gives (Connected c) (patch_container env client pod c n)
  configured-Gives c json config n a b = rw (patch_container-merged c json config n a b) (
      >>=-Post (λ _. Unit) (λ m _. Merged config c m) (λ c' _. Connected c c')
        (merged env config c json) (finish config) n (merged-Gives config c json n a)
        (λ m k r. finish-Gives config c m k b r))

  patch_container-Gives :
      (c : Container) (n : ℕ) → Gives (Connected c) (patch_container env client pod c n)
  unfolding patch_container
  patch_container-Gives c n = elim (Reply-cases (env.marshal_container c)) [
    | inr (e, a) ↦ rw a tt
    | inl (json, a) ↦ elim (Option-cases client) [
      | inl b ↦ rw (a, b) tt
      | inr (config, b) ↦ configured-Gives c json config n a b
    ]
  ]

  Gives-Step :
      (res : TfResource Q) (c : Container) (o : Outcome Container) (n : ℕ)
      → (c.name == res.container_name) ≡ true
      → Gives (Connected c) (o, n)
      → Gives (Step res c) (o, n)
  Gives-Step res c (ok c') n h r = inr (h, r)
  Gives-Step res c (err e) n h r = tt
  Gives-Step res c panicked n h r = tt

  one :
      (res : TfResource Q) (c : Container) (n : ℕ) (b : Bool)
      → (c.name == res.container_name) ≡ b
      → Gives (Step res c) ((if b then patch_container env client pod c else pure c) n)
  one res c n true h =
      Gives-Step res c (patch_container env client pod c n).0 (patch_container env client pod c n).1
        h (patch_container-Gives c n)
  one res c n false h = inl (h, refl)

  patch_containers-Gives :
      (res : TfResource Q) (containers : List Container) (n : ℕ)
      → Gives (Pairwise (Step res) containers) (patch_containers env client pod res containers n)
  unfolding patch_containers
  patch_containers-Gives res [] n = tt
  patch_containers-Gives res (c ∷ containers) n =
      >>=-Post (λ _. Unit) (λ c' _. Step res c c') (λ cs _. Pairwise (Step res) (c ∷ containers) cs)
        (if c.name == res.container_name then patch_container env client pod c else pure c)
        (λ c'. patch_containers env client pod res containers >>= λ rest. pure (c' ∷ rest)) n
        (one res c n (c.name == res.container_name) refl)
        (λ c' n' r.
          >>=-Post (λ _. Unit) (λ cs _. Pairwise (Step res) containers cs)
            (λ cs _. Pairwise (Step res) (c ∷ containers) cs)
            (patch_containers env client pod res containers) (λ rest. pure (c' ∷ rest)) n'
            (patch_containers-Gives res containers n') (λ cs n'' rs. (r, rs)))

  Gives-Steps :
      (res : TfResource Q) (resources : List (TfResource Q)) (containers mid : List Container)
      (o : Outcome (List Container)) (n : ℕ)
      → Pairwise (Step res) containers mid
      → Gives (Pairwise (Steps resources) mid) (o, n)
      → Gives (Pairwise (Steps (res ∷ resources)) containers) (o, n)
  Gives-Steps res resources containers mid (ok cs) n r s =
      Pairwise-trans (Step res) (Steps resources) (Steps (res ∷ resources)) (λ x y z a b. (y, a, b))
        containers mid cs r s
  Gives-Steps res resources containers mid (err e) n r s = tt
  Gives-Steps res resources containers mid panicked n r s = tt

  patch_all-Gives :
      (resources : List (TfResource Q)) (containers : List Container) (n : ℕ)
      → Gives
          (Pairwise (Steps resources) containers)
          (patch_all env client pod resources containers n)
  unfolding patch_all
  patch_all-Gives [] containers n = Pairwise-self (Steps []) (λ x. refl) containers
  patch_all-Gives (res ∷ resources) containers n =
      >>=-Post (λ _. Unit) (λ cs _. Pairwise (Step res) containers cs)
        (λ cs _. Pairwise (Steps (res ∷ resources)) containers cs)
        (patch_containers env client pod res containers) (patch_all env client pod resources) n
        (patch_containers-Gives res containers n)
        (λ mid n' r.
          Gives-Steps res resources containers mid (patch_all env client pod resources mid n').0
            (patch_all env client pod resources mid n').1 r (patch_all-Gives resources mid n'))

  -- When the containers of a pod are patched without an error, the nested loops over resources and containers
  -- did to each container, in its place, what the resources do to it one after the other: a resource
  -- leaves a container of another name alone, and gives one of its name the configured patch and then
  -- the variables that `with_connection` adds for a new connection.
  pub patch_all-Steps :
      (resources : List (TfResource Q)) (containers containers' : List Container) (n n' : ℕ)
      → patch_all env client pod resources containers n ≡ (ok containers', n')
      → Pairwise (Steps resources) containers containers'
  patch_all-Steps resources containers containers' n n' h =
      rw h at (patch_all-Gives resources containers n)

-- ===== src/Vendors/Cached.antt =====
-- The client that `NewAlibabaGPUNodeProvider` keeps.
use tensor_fusion_operator.Prelude.{
  String, ◌==◌, is_empty, ◌||◌, ◌∷◌, Option, none, some, Reply, Outcome, ok, err, panicked, Action,
  ◌>>=◌, raise, check, same_error, failed, wrapped, Post, >>=-Post, Bool-cases, ◌≡◌, refl, inl, inr,
  if◌then◌else◌,
}
use mathlib.Core.Path.{subst}
use tensor_fusion_operator.Api.{ComputingVendorConfig}
use tensor_fusion_operator.Vendors.World.{Env, World, new_client}
use tensor_fusion_operator.Vendors.Alibaba.{
  cache, connect, get_access_key_or_secret_from_path, key_or_empty, new_alibaba_gpu_node_provider,
  send, test_connection,
}

module _ {F K : Type 0} (env : Env F K) where
  abbrev Keeps : Outcome K × World F K → Type 0
  Keeps = Post (λ _. Unit) (λ c v. v.cached_client ≡ some c)

  ends : {A : Type 0} (x : Outcome A × World F K) → Post (λ _. Unit) (λ _ _. Unit) x
  ends (ok a, v) = tt
  ends (err e, v) = tt
  ends (panicked, v) = tt

  -- What a sequence keeps is what its second part keeps.
  after :
      {A : Type 0} (m : Action (World F K) A) (f : A → Action (World F K) K) (w : World F K)
      → ((a : A) (v : World F K) → Keeps (f a v))
      → Keeps ((m >>= f) w)
  after m f w k =
      >>=-Post (λ _. Unit) (λ _ _. Unit) (λ c v. v.cached_client ≡ some c) m f w (ends (m w))
        (λ a v _. k a v)

  -- The parts of `connect`, from the last to the first.
  finish : K → Action (World F K) K
  finish client = test_connection env client >>= λ _. cache env client

  with_made : Reply K → Action (World F K) K
  with_made made = check (wrapped "failed to create ECS client") made >>= finish

  with_secret : ComputingVendorConfig → String → String → Action (World F K) K
  with_secret config ak sk =
      send env (λ h. env.client_made h config.params.default_region ak sk)
        (new_client config.params.default_region)
      >>= with_made

  with_keys : ComputingVendorConfig → String → Reply String → Action (World F K) K
  with_keys config ak second =
      if is_empty ak || is_empty (key_or_empty second)
      then raise (failed "empty access key or secret key, can not create alicloud provider")
      else (check same_error second >>= with_secret config ak)

  with_access : ComputingVendorConfig → String → Action (World F K) K
  with_access config ak =
      get_access_key_or_secret_from_path env config.params.secret_key_path >>= with_keys config ak

  with_first : ComputingVendorConfig → Reply String → Action (World F K) K
  with_first config first = check same_error first >>= with_access config

  finish-Keeps : (client : K) (w : World F K) → Keeps (finish client w)
  unfolding finish
  finish-Keeps client w = after (test_connection env client) (λ _. cache env client) w (λ _ v. refl)

  with_made-Keeps : (made : Reply K) (w : World F K) → Keeps (with_made made w)
  unfolding with_made
  with_made-Keeps made w =
      after (check (wrapped "failed to create ECS client") made) finish w finish-Keeps

  with_secret-Keeps :
      (config : ComputingVendorConfig) (ak sk : String) (w : World F K)
      → Keeps (with_secret config ak sk w)
  unfolding with_secret
  with_secret-Keeps config ak sk w =
      with_made-Keeps (env.client_made w.calls config.params.default_region ak sk)
        (record w { calls = new_client config.params.default_region ∷ w.calls })

  with_keys-Keeps :
      (config : ComputingVendorConfig) (ak : String) (second : Reply String) (w : World F K)
      → Keeps (with_keys config ak second w)
  unfolding with_keys
  with_keys-Keeps config ak second w =
      elim (Bool-cases (is_empty ak || is_empty (key_or_empty second))) [
        | inl b ↦ rw b tt
        | inr b ↦ rw b (
            after (check same_error second) (with_secret config ak) w (with_secret-Keeps config ak))
      ]

  with_access-Keeps :
      (config : ComputingVendorConfig) (ak : String) (w : World F K)
      → Keeps (with_access config ak w)
  unfolding with_access
  with_access-Keeps config ak w =
      after (get_access_key_or_secret_from_path env config.params.secret_key_path)
        (with_keys config ak) w (with_keys-Keeps config ak)

  with_first-Keeps :
      (config : ComputingVendorConfig) (first : Reply String) (w : World F K)
      → Keeps (with_first config first w)
  unfolding with_first
  with_first-Keeps config first w =
      after (check same_error first) (with_access config) w (with_access-Keeps config)

  connect-parts :
      (config : ComputingVendorConfig)
      → connect env config ≡ (
          get_access_key_or_secret_from_path env config.params.access_key_path
          >>= with_first config)
  unfolding connect with_first with_access with_keys with_secret with_made finish
  connect-parts config = refl

  connect-Keeps : (config : ComputingVendorConfig) (w : World F K) → Keeps (connect env config w)
  connect-Keeps config w = rw (connect-parts config) (
      after (get_access_key_or_secret_from_path env config.params.access_key_path)
        (with_first config) w (with_first-Keeps config))

  provider_if :
      (cached : Option K) (config : ComputingVendorConfig) (w : World F K)
      → w.cached_client ≡ cached
      → Keeps (new_alibaba_gpu_node_provider env config w)
  unfolding new_alibaba_gpu_node_provider
  provider_if (some client) config w h = rw h refl
  provider_if none config w h = elim (Bool-cases (config.auth_type == "accessKey")) [
    | inl b ↦ rw (h, b) (connect-Keeps config (record w { cached_client = none }))
    | inr b ↦ rw (h, b) tt
  ]

  -- What the cache gives to any configuration.
  cached-again :
      (config : ComputingVendorConfig) (client : K) (v : World F K)
      → v.cached_client ≡ some client
      → new_alibaba_gpu_node_provider env config v ≡ (ok client, v)
  unfolding new_alibaba_gpu_node_provider
  cached-again config client v h = rw h refl

  -- Once a provider was made, every later one has its client, whatever its configuration is: other keys, another region, and
  -- even a kind of authentication that is not supported. No call is made for it.
  pub new_alibaba_gpu_node_provider-again :
      (first later : ComputingVendorConfig) (client : K) (w v : World F K)
      → new_alibaba_gpu_node_provider env first w ≡ (ok client, v)
      → new_alibaba_gpu_node_provider env later v ≡ (ok client, v)
  new_alibaba_gpu_node_provider-again first later client w v h =
      cached-again later client v (subst Keeps h (provider_if w.cached_client first w refl))

-- ===== src/NodeDiscovery/Totals.antt =====
-- The totals that the discovery job writes, against the GPUs that it has written.
use tensor_fusion_operator.Prelude.{
  Reply, done, fail, Option-cases, failed, >>=-ok, ◌⊎◌, ask, inl, inr, Error, ℕ, zero, suc, String,
  List, [], ◌∷◌, Option, none, some, Action, Outcome, ok, err, ◌>>=◌, Post, >>=-Post, Reply-cases,
  ◌≡◌, refl, ap, ◌∙◌,
}
use tensor_fusion_operator.Prelude.Int.{ℤ, pos, ◌+ℤ◌}
use tensor_fusion_operator.Quantity.{Quantity}
use tensor_fusion_operator.Api.{Gpu, GpuNode, GpuNodeStatus, Resource}
use tensor_fusion_operator.Scheduler.Amounts.{Dimension, amount}
use tensor_fusion_operator.NodeDiscovery.World.{
  Env, GpuInfo, History, kube_client, read_file, init, shutdown, device_get_count, get_gpu_node,
  device_get_handle, get_uuid, get_name, get_memory_info, create_or_update, patch_gpu_status,
  patch_node_status,
}
use tensor_fusion_operator.NodeDiscovery.Main.{
  plus as add_gpu, with_nvml, exits, write_totals, Totals, discover, filled, gpu_node_name,
  gpu_status, load_gpu_info, main, no_totals, node_status, report_device, report_devices, store_gpu,
  tflops_of,
}

module _ {Q : Type 0} ⦃q : Quantity Q⦄ where
  open q use {value, value-add, value-zero}

  -- The two totals, and the two available amounts.
  abbrev pub total : Dimension → Totals Q → ℤ
  total Dimension.tflops t = value t.total_tflops
  total Dimension.vram t = value t.total_vram

  abbrev pub left : Dimension → Totals Q → ℤ
  left Dimension.tflops t = value t.available_tflops
  left Dimension.vram t = value t.available_vram

  abbrev pub capacity : Dimension → Option (Resource Q) → ℤ
  capacity d none = pos 0
  capacity d (some c) = amount d c

  -- The amounts in the status of a GPUNode.
  abbrev pub written_total : Dimension → GpuNodeStatus Q → ℤ
  written_total Dimension.tflops st = value st.total_tflops
  written_total Dimension.vram st = value st.total_vram

  abbrev pub written_left : Dimension → GpuNodeStatus Q → ℤ
  written_left Dimension.tflops st = value st.available_tflops
  written_left Dimension.vram st = value st.available_vram

  abbrev plus : Totals Q → Resource Q → Resource Q → Totals Q
  plus t c a = record {
    total_tflops = q.add t.total_tflops c.tflops;
    total_vram = q.add t.total_vram c.vram;
    available_tflops = q.add t.available_tflops a.tflops;
    available_vram = q.add t.available_vram a.vram;
  }

  added :
      (t : Totals Q) (c a : Resource Q) (sum free : Dimension → ℤ)
      → ((d : Dimension) → (total d t ≡ sum d) × (left d t ≡ free d))
      → (d : Dimension)
      → (total d (plus t c a) ≡ sum d +ℤ amount d c) × (left d (plus t c a) ≡ free d +ℤ amount d a)
  unfolding amount
  added t c a sum free e Dimension.tflops =
      let (x, y) = e Dimension.tflops in
      (
        value-add t.total_tflops c.tflops ∙ ap (λ z. z +ℤ value c.tflops) x,
        value-add t.available_tflops a.tflops ∙ ap (λ z. z +ℤ value a.tflops) y,
      )
  added t c a sum free e Dimension.vram =
      let (x, y) = e Dimension.vram in
      (
        value-add t.total_vram c.vram ∙ ap (λ z. z +ℤ value c.vram) x,
        value-add t.available_vram a.vram ∙ ap (λ z. z +ℤ value a.vram) y,
      )

  abbrev pub capacity_in : Dimension → Reply (Gpu Q) → ℤ
  capacity_in d (fail e) = pos 0
  capacity_in d (done g) = capacity d g.status.capacity

  abbrev pub available_in : Dimension → Reply (Gpu Q) → ℤ
  available_in d (fail e) = pos 0
  available_in d (done g) = capacity d g.status.available

  module _ {D : Type 0} where
    -- Every GPU whose status was written is wholly available.
    abbrev pub AllFull : History Q D → Type 0
    AllFull [] = Unit
    AllFull (patch_gpu_status g ∷ h) = (g.status.available ≡ g.status.capacity) × AllFull h
    AllFull (_ ∷ h) = AllFull h

    module _ (env : Env Q D) where
      -- The sums, over all GPUs whose status was written, of the capacities and of the available amounts
      -- that the API server answered.
      abbrev pub patched : Dimension → History Q D → ℤ
      patched d [] = pos 0
      patched d (patch_gpu_status g ∷ h) = patched d h +ℤ capacity_in d (env.gpu_patched h g)
      patched d (_ ∷ h) = patched d h

      abbrev pub patched_available : Dimension → History Q D → ℤ
      patched_available d [] = pos 0
      patched_available d (patch_gpu_status g ∷ h) =
          patched_available d h +ℤ available_in d (env.gpu_patched h g)
      patched_available d (_ ∷ h) = patched_available d h

      abbrev pub Exact : Totals Q → History Q D → Type 0
      Exact t h =
          ((d : Dimension) → (total d t ≡ patched d h) × (left d t ≡ patched_available d h))
          × AllFull h

      abbrev Done : {A : Type 0} → (A → History Q D → Type 0) → Outcome A × History Q D → Type 0
      Done = Post AllFull

      -- What the answer to the patch of a GPU is added to.
      added-Exact :
          (sent answer : Gpu Q) (t : Totals Q) (h : History Q D)
          → env.gpu_patched h sent ≡ done answer
          → sent.status.available ≡ sent.status.capacity
          → Exact t h
          → Done Exact (
              add_gpu env t answer.status.capacity answer.status.available
                (patch_gpu_status sent ∷ h))
      added-Exact sent answer t h answered full (e, f) =
          elim (Option-cases answer.status.capacity) [
            | inl x ↦ rw x (full, f)
            | inr (c, x) ↦ elim (Option-cases answer.status.available) [
              | inl y ↦ rw (x, y) (full, f)
              | inr (a, y) ↦
                  rw (x, y)
                    (
                      rw (answered, x, y)
                          (added t c a (λ d. patched d h) (λ d. patched_available d h) e),
                      (full, f),
                    )
            ]
          ]

      store_gpu-Exact :
          (node : GpuNode Q) (uuid name : String) (tf : Q) (n : ℕ) (t : Totals Q) (h : History Q D)
          → Exact t h
          → Done Exact (store_gpu env node (gpu_status env uuid name tf n) t h)
      unfolding store_gpu
      store_gpu-Exact node uuid name tf n t h (e, f) =
          let st = gpu_status env uuid name tf n in
          elim (Reply-cases (env.controlled_by node (env.new_gpu uuid))) [
            | inr (x, a) ↦ rw a f
            | inl (g, a) ↦ elim (Reply-cases (env.gpu_ensured h g)) [
              | inr (x, b) ↦ rw (a, b) f
              | inl (s, b) ↦
                  let g' : Gpu Q = record s { status = filled env st } in
                  elim (Reply-cases (env.gpu_patched (create_or_update g ∷ h) g')) [
                    | inr (x, c) ↦ rw (a, b, c) (refl, f)
                    | inl (u, c) ↦
                        rw (a, b, c) (added-Exact g' u t (create_or_update g ∷ h) c refl (e, f))
                  ]
            ]
          ]

      report_device-Exact :
          (node : GpuNode Q) (infos : List (GpuInfo Q)) (i : ℕ) (t : Totals Q) (h : History Q D)
          → Exact t h
          → Done Exact (report_device env node infos i t h)
      unfolding report_device
      report_device-Exact node infos i t h (e, f) = elim (Reply-cases (env.handle h i)) [
        | inr (x, a) ↦ rw a f
        | inl (device, a) ↦
            let h1 = device_get_handle i ∷ h in
            elim (Reply-cases (env.uuid h1 device)) [
              | inr (x, b) ↦ rw (a, b) f
              | inl (uuid, b) ↦
                  let h2 = get_uuid device ∷ h1 in
                  elim (Reply-cases (env.device_name h2 device)) [
                    | inr (x, c) ↦ rw (a, b, c) f
                    | inl (name, c) ↦
                        let h3 = get_name device ∷ h2 in
                        elim (Reply-cases (env.memory h3 device)) [
                          | inr (x, m) ↦ rw (a, b, c, m) f
                          | inl (n, m) ↦
                              rw (a, b, c, m)
                                (store_gpu-Exact node (env.to_lower uuid) name
                                  (tflops_of env infos name) n t (get_memory_info device ∷ h3)
                                  (e, f))
                        ]
                  ]
            ]
      ]

      report_devices-Exact :
          (node : GpuNode Q) (infos : List (GpuInfo Q)) (n i : ℕ) (t : Totals Q) (h : History Q D)
          → Exact t h
          → Done Exact (report_devices env node infos n i t h)
      unfolding report_devices
      report_devices-Exact node infos zero i t h e = e
      report_devices-Exact node infos (suc n) i t h e =
          >>=-Post AllFull Exact Exact (report_device env node infos i t)
            (report_devices env node infos n (suc i)) h (report_device-Exact node infos i t h e)
            (report_devices-Exact node infos n (suc i))

      -- The job has written the totals of the GPUNode: the last patch of a GPUNode has the sums over the
      -- GPUs written before.
      abbrev pub Written : Unit {0} → History Q D → Type 0
      Written u [] = ⊥
      Written u (patch_node_status node ∷ h) =
          ((d : Dimension)
            → (written_total d node.status ≡ patched d h)
              × (written_left d node.status ≡ patched_available d h))
          × AllFull h
      Written u (shutdown ∷ h) = Written u h
      Written u (_ ∷ h) = ⊥

      abbrev pub Ended : Unit {0} → History Q D → Type 0
      Ended u h = Written u h × AllFull h

      status_lem :
          (t : Totals Q) (h : History Q D)
          → ((d : Dimension) → (total d t ≡ patched d h) × (left d t ≡ patched_available d h))
          → (d : Dimension)
          → (written_total d (node_status env t) ≡ patched d h)
            × (written_left d (node_status env t) ≡ patched_available d h)
      status_lem t h e Dimension.tflops = e Dimension.tflops
      status_lem t h e Dimension.vram = e Dimension.vram

      write-Written :
          (node : GpuNode Q) (t : Totals Q) (h : History Q D)
          → Exact t h
          → Done Ended (write_totals env node t h)
      unfolding write_totals
      write-Written node t h e =
          elim (Reply-cases (env.node_patched h (record node { status = node_status env t }))) [
            | inr (x, a) ↦ rw a e.1
            | inl (u, a) ↦ rw a ((status_lem t h e.0, e.1), e.1)
          ]

      discover-Written :
          (infos : List (GpuInfo Q)) (count : ℕ) (h : History Q D)
          → Exact (no_totals env) h
          → Done Ended (discover env infos count h)
      unfolding discover
      discover-Written infos count h e = elim (Reply-cases (env.gpu_node h (gpu_node_name env))) [
        | inr (x, a) ↦ rw a e.1
        | inl (node, a) ↦ rw a (
            >>=-Post AllFull Exact Ended (report_devices env node infos count 0 (no_totals env))
              (write_totals env node) (get_gpu_node (gpu_node_name env) ∷ h)
              (report_devices-Exact node infos count 0 (no_totals env) _ e) (write-Written node))
      ]

      abbrev stop : Unit {0} → Action (History Q D) (Unit {0})
      stop u =
          ask env.nvml_stopped shutdown >>= λ stopped. exits env "unable to shutdown NVML" stopped

      stop-Written : (u : Unit {0}) (h : History Q D) → Ended u h → Done Ended (stop u h)
      stop-Written u h w = elim (Reply-cases (env.nvml_stopped h)) [
        | inl (v, a) ↦ rw a w
        | inr (x, a) ↦ rw a w.1
      ]

      with_nvml-Written :
          (infos : List (GpuInfo Q)) (h : History Q D)
          → Exact (no_totals env) h
          → Done Ended (with_nvml env infos h)
      unfolding with_nvml
      with_nvml-Written infos h e = elim (Reply-cases (env.nvml_started h)) [
        | inr (x, a) ↦ rw a e.1
        | inl (u, a) ↦ elim (Reply-cases (env.device_count (init ∷ h))) [
          | inr (x, b) ↦ rw (a, b) e.1
          | inl (count, b) ↦
              rw (a, b)
                (>>=-Post AllFull Ended Ended (discover env infos count) stop
                  (device_get_count ∷ init ∷ h)
                  (discover-Written infos count (device_get_count ∷ init ∷ h) e) stop-Written)
        ]
      ]

      load_gpu_info_lem :
          (h : History Q D)
          → (infos : List (GpuInfo Q)) × (load_gpu_info env h
              ≡ (ok infos, read_file env.gpu_info_config ∷ h))
      unfolding load_gpu_info
      load_gpu_info_lem h = elim (Reply-cases (env.file h env.gpu_info_config)) [
        | inr (x, a) ↦ ([], rw (load_gpu_info, a) refl)
        | inl (text, a) ↦ elim (Reply-cases (env.unmarshal text)) [
          | inr (x, b) ↦ ([], rw (load_gpu_info, a, b) refl)
          | inl (infos, b) ↦ (infos, rw (load_gpu_info, a, b) refl)
        ]
      ]

      no_totals-Exact :
          (d : Dimension) → (total d (no_totals env) ≡ pos 0) × (left d (no_totals env) ≡ pos 0)
      no_totals-Exact Dimension.tflops = (value-zero, value-zero)
      no_totals-Exact Dimension.vram = (value-zero, value-zero)

      main_lem :
          ((e : Error) × (main env [] ≡ (err e, kube_client ∷ [])))
          ⊎ ((infos : List (GpuInfo Q)) × (main env []
                ≡ with_nvml env infos (read_file env.gpu_info_config ∷ kube_client ∷ [])))
      unfolding main
      main_lem = elim (Reply-cases (env.client [])) [
        | inr (x, a) ↦ inl (failed "unable to create kubeClient", rw a refl)
        | inl (u, a) ↦
            let (infos, loaded) = load_gpu_info_lem (kube_client ∷ []) in
            inr (infos, rw a (>>=-ok (load_gpu_info env) (with_nvml env) (kube_client ∷ []) loaded))
      ]

      pub main-Ended : Done Ended (main env [])
      main-Ended = elim main_lem [
        | inl (e, a) ↦ rw a tt
        | inr (infos, a) ↦ rw a (
            with_nvml-Written infos (read_file env.gpu_info_config ∷ kube_client ∷ [])
              (no_totals-Exact, tt))
      ]

      -- When the job ends well, the last status of the GPUNode that it wrote has, in TFLOPS and in VRAM, the
      -- exact sums of the capacities and of the available amounts that the API server answered for the
      -- GPUs whose status the job wrote; and every such GPU was sent as wholly available, whatever the
      -- scheduler had granted of it.
      pub main-Written : (h : History Q D) → main env [] ≡ (ok tt, h) → Ended tt h
      main-Written h e = rw e at main-Ended

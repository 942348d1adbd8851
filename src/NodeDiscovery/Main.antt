-- ===== src/NodeDiscovery/Main.antt =====
-- `main`, in which `os.Exit(1)` is an error with the logged message, and `nodeStatus`.
use tensor_fusion_operator.Prelude.{
  ℕ, zero, suc, ◌/◌, String, ◌==◌, is_empty, List, [], ◌∷◌, Option, none, some, find, Reply, done,
  fail, failed, Action, ◌>>=◌, ◌>>◌, pure, panic, check, ask, if◌then◌else◌,
}
use tensor_fusion_operator.Prelude.Int.{pos}
use tensor_fusion_operator.Quantity.{Quantity}
use tensor_fusion_operator.Api.{Gpu, GpuStatus, GpuNode, GpuNodeStatus, Phase, Resource}
use tensor_fusion_operator.NodeDiscovery.World.{
  Env, GpuInfo, History, kube_client, read_file, init, shutdown, device_get_count, get_gpu_node,
  device_get_handle, get_uuid, get_name, get_memory_info, create_or_update, patch_gpu_status,
  patch_node_status,
}

pub record Totals (Q : Type 0) : Type 0 where
  pub total_tflops : Q
  pub total_vram : Q
  pub available_tflops : Q
  pub available_vram : Q

module _ {Q D : Type 0} ⦃q : Quantity Q⦄ (env : Env Q D) where
  -- The environment is read before the flags are parsed.
  abbrev pub k8s_node_name : String
  k8s_node_name = elim env.hostname_flag [ none ↦ env.hostname_env | some name ↦ name ]

  abbrev pub gpu_node_name : String
  gpu_node_name =
      if is_empty env.report_gpu_node_env then env.hostname_env else env.report_gpu_node_env

  -- `LoadGpuInfoFromFile`, and an error is answered with no entry.
  unfoldable pub load_gpu_info : Action (History Q D) (List (GpuInfo Q))
  load_gpu_info = do
    content ← ask (λ h. env.file h env.gpu_info_config) (read_file env.gpu_info_config)
    elim content [
      | fail e ↦ pure []
      | done text ↦ elim (env.unmarshal text) [ fail e ↦ pure [] | done infos ↦ pure infos ]
    ]

  abbrev pub tflops_of : List (GpuInfo Q) → String → Q
  tflops_of infos name = elim (find (λ (i : GpuInfo Q). i.full_model_name == name) infos) [
    | none ↦ q.zero
    | some info ↦ info.fp16_tflops
  ]

  abbrev pub gpu_status : String → String → Q → ℕ → GpuStatus Q
  gpu_status uuid name tflops total = record {
    phase = Phase.running;
    capacity = some (record { tflops = tflops; vram = env.ki (total / 1024) });
    available = none;
    uuid = uuid;
    node_selector = ("kubernetes.io/hostname", k8s_node_name) ∷ [];
    gpu_model = name;
    message = "";
  }

  -- `available := gpuStatus.Available` and what follows it.
  abbrev pub filled : GpuStatus Q → GpuStatus Q
  filled st = elim st.available [ none ↦ record st { available = st.capacity } | some a ↦ st ]

  -- A nil capacity or availability is dereferenced.
  abbrev pub plus :
      Totals Q → Option (Resource Q) → Option (Resource Q) → Action (History Q D) (Totals Q)
  plus t none available = panic
  plus t (some c) none = panic
  plus t (some c) (some a) = pure (record {
    total_tflops = q.add t.total_tflops c.tflops;
    total_vram = q.add t.total_vram c.vram;
    available_tflops = q.add t.available_tflops a.tflops;
    available_vram = q.add t.available_vram a.vram;
  })

  abbrev pub exits : {A : Type 0} → String → Reply A → Action (History Q D) A
  exits message answer = check (λ _. failed message) answer

  -- One GPU is created if need be, and gets its status. The patch overwrites it with the server's answer,
  -- which is what the totals add.
  unfoldable pub store_gpu : GpuNode Q → GpuStatus Q → Totals Q → Action (History Q D) (Totals Q)
  store_gpu gpunode status t = do
    gpu ←
        exits "failed to set controller reference"
          (env.controlled_by gpunode (env.new_gpu status.uuid))
    answer ← ask (λ h. env.gpu_ensured h gpu) (create_or_update gpu)
    stored ← exits "failed to create GPU" answer
    let gpu' : Gpu Q = record stored { status = filled status }
    patched ← ask (λ h. env.gpu_patched h gpu') (patch_gpu_status gpu')
    written ← exits "failed to update status of GPU" patched
    plus t written.status.capacity written.status.available

  unfoldable pub report_device :
      GpuNode Q → List (GpuInfo Q) → ℕ → Totals Q → Action (History Q D) (Totals Q)
  unfolding store_gpu
  report_device gpunode infos i t = do
    handle ← ask (λ h. env.handle h i) (device_get_handle i)
    device ← exits "unable to get device" handle
    id ← ask (λ h. env.uuid h device) (get_uuid device)
    uuid ← exits "unable to get uuid of device" id
    label ← ask (λ h. env.device_name h device) (get_name device)
    name ← exits "unable to get name of device" label
    memory ← ask (λ h. env.memory h device) (get_memory_info device)
    total ← exits "unable to get memory info of device" memory
    store_gpu gpunode (gpu_status (env.to_lower uuid) name (tflops_of infos name) total) t

  -- `n` more devices, the first of which has index `i`.
  unfoldable pub report_devices :
      GpuNode Q → List (GpuInfo Q) → ℕ → ℕ → Totals Q → Action (History Q D) (Totals Q)
  unfolding report_device
  report_devices gpunode infos zero i t = pure t
  report_devices gpunode infos (suc n) i t = do
    t' ← report_device gpunode infos i t
    report_devices gpunode infos n (suc i) t'

  -- `nodeStatus` with the totals; all else gets its zero value.
  abbrev pub node_status : Totals Q → GpuNodeStatus Q
  node_status t = record {
    kubernetes_node_name = k8s_node_name;
    phase = Phase.running;
    total_tflops = t.total_tflops;
    total_vram = t.total_vram;
    virtual_tflops = q.zero;
    virtual_vram = q.zero;
    available_tflops = t.available_tflops;
    available_vram = t.available_vram;
    node_info = record {
      instance_id = "";
      region = "";
      ip = "";
      ram_size = q.zero;
      data_disk_size = q.zero;
    };
    total_gpus = pos 0;
  }

  abbrev pub no_totals : Totals Q
  no_totals = record {
    total_tflops = q.zero;
    total_vram = q.zero;
    available_tflops = q.zero;
    available_vram = q.zero;
  }

  unfoldable pub write_totals : GpuNode Q → Totals Q → Action (History Q D) (Unit {0})
  write_totals gpunode t = do
    let node : GpuNode Q = record gpunode { status = node_status t }
    patched ← ask (λ h. env.node_patched h node) (patch_node_status node)
    exits "failed to update status of GPUNode" patched

  unfoldable pub discover : List (GpuInfo Q) → ℕ → Action (History Q D) (Unit {0})
  unfolding report_devices write_totals
  discover infos count = do
    answer ← ask (λ h. env.gpu_node h gpu_node_name) (get_gpu_node gpu_node_name)
    gpunode ← exits "unable to get gpuNode" answer
    t ← report_devices gpunode infos count 0 no_totals
    write_totals gpunode t

  -- From `nvml.Init` to the deferred `nvml.Shutdown`, which `os.Exit` skips.
  unfoldable pub with_nvml : List (GpuInfo Q) → Action (History Q D) (Unit {0})
  unfolding discover
  with_nvml infos = do
    started ← ask env.nvml_started init
    exits "unable to initialize NVML" started
    counted ← ask env.device_count device_get_count
    count ← exits "unable to get device count" counted
    discover infos count
    stopped ← ask env.nvml_stopped shutdown
    exits "unable to shutdown NVML" stopped

  unfoldable pub main : Action (History Q D) (Unit {0})
  unfolding with_nvml load_gpu_info
  main = do
    client ← ask env.client kube_client
    exits "unable to create kubeClient" client
    infos ← load_gpu_info
    with_nvml infos

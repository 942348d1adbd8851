-- ===== src/NodeDiscovery/Tests.antt =====
-- The theorems of the discovery job at a node with one device.
use tensor_fusion_operator.Prelude.{◌≡◌, refl, none, some, done, [], ◌∷◌, String, ok, Any, inl, inr}
use tensor_fusion_operator.Prelude.Int.{◌-ℤ◌, ℤ, pos}
use tensor_fusion_operator.Api.{Gpu, Phase}
use tensor_fusion_operator.Samples.{
  gpu_with, gpu_served, int_quantity, node_in, resource, table_of_one,
}
use tensor_fusion_operator.Scheduler.{deduct, on_update, schedule, with_available, fits}
use tensor_fusion_operator.NodeDiscovery.World.{Env, patch_gpu_status}
use tensor_fusion_operator.NodeDiscovery.Main.{
  discover, load_gpu_info, main, report_device, report_devices, store_gpu, with_nvml, write_totals,
}
use tensor_fusion_operator.NodeDiscovery.Totals.{Ended, main-Written}
use tensor_fusion_operator.NodeDiscovery.Forgets.{rediscovered-Grants}

-- One A100 with 20 KiB, and quantities in KiB. The API server has its GPU with an allocation.
abbrev env : Env ℤ String
env = record {
  client = λ h. done tt;
  file = λ h f. done "gpus";
  unmarshal = λ t. done (
      record {
        model = "A100";
        vendor = "NVIDIA";
        fp16_tflops = pos 10;
        full_model_name = "NVIDIA A100";
      }
      ∷ []);
  nvml_started = λ h. done tt;
  nvml_stopped = λ h. done tt;
  device_count = λ h. done 1;
  gpu_node = λ h n. done (node_in n Phase.pending (pos 0));
  handle = λ h i. done "device";
  uuid = λ h d. done "gpu-0";
  device_name = λ h d. done "NVIDIA A100";
  memory = λ h d. done 20_480;
  gpu_ensured = λ h g. done gpu_served;
  gpu_patched = λ h g. done g;
  node_patched = λ h n. done tt;
  controlled_by = λ n g. done g;
  new_gpu = λ n. gpu_with n (pos 0) (pos 0);
  to_lower = λ s. s;
  ki = λ n. pos n;
  hostname_env = "node-0";
  report_gpu_node_env = "";
  hostname_flag = none;
  gpu_info_config = "gpu-info.yaml";
}

-- The GPU that the job writes.
abbrev found : Gpu ℤ
found = record gpu_served {
  status = record {
    phase = Phase.running;
    capacity = some (resource (pos 10) (pos 20));
    available = some (resource (pos 10) (pos 20));
    uuid = "gpu-0";
    node_selector = ("kubernetes.io/hostname", "node-0") ∷ [];
    gpu_model = "NVIDIA A100";
    message = "";
  };
}

ended : main env [] ≡ (ok tt, (main env []).1)
unfolding main load_gpu_info with_nvml discover report_devices report_device store_gpu write_totals
ended = refl

main-Written_example : Ended env tt (main env []).1
main-Written_example = main-Written env (main env []).1 ended

written : Any (λ call. call ≡ patch_gpu_status found) (main env []).1
unfolding main load_gpu_info with_nvml discover report_devices report_device store_gpu write_totals
written = inr (inr (inl refl))

-- GPU 0 is granted in full although 3 TFLOPS and 4 units of memory are in use.
rediscovered-Grants_example :
    (schedule
      ("gpu-0" ∷ [])
      (resource (pos 10) (pos 20))
      (on_update gpu_served found table_of_one)).0
    ≡ ok (with_available found (deduct (resource (pos 10) (pos 20)) (resource (pos 10) (pos 20))))
unfolding fits ◌-ℤ◌
rediscovered-Grants_example =
    rediscovered-Grants env (main env []).1 ended table_of_one gpu_served found
      (resource (pos 10) (pos 20)) (resource (pos 10) (pos 20)) [] written refl refl

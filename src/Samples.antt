-- ===== src/Samples.antt =====
-- Concrete instances of the interfaces, on which the theorems are applied in the tests.
use tensor_fusion_operator.Prelude.{
  ◌≡◌, refl, arith, none, some, [], ◌∷◌, String, ◌==◌, eq_refl, any, keep, not, List, inl, inr,
  Bool-cases, false, if◌then◌else◌, ◌/◌,
}
use tensor_fusion_operator.Prelude.Int.{ℤ, pos, ◌+ℤ◌, ◌-ℤ◌, ◌*ℤ◌, leb_ℤ, ltb_ℤ, -ℤ_parts}
use tensor_fusion_operator.Quantity.{Quantity}
use tensor_fusion_operator.Float.{Float}
use tensor_fusion_operator.Api.{
  GpuNodeClass, ObjectMeta, Resource, Gpu, Phase, TensorFusionConnection,
  TensorFusionConnectionPhase, GpuPool, TensorFusionCluster, GpuNode, GpuNodeManageMode,
}
use tensor_fusion_operator.Utils.Finalizer.{ControllerUtil}
use tensor_fusion_operator.Scheduler.{NaiveScheduler}

pub sign-sub : (a b : ℤ) → leb_ℤ (pos 0) (a -ℤ b) ≡ leb_ℤ b a
sign-sub a b = ground (arith, -ℤ_parts a b)

-- Quantities as whole numbers.
instance abbrev pub int_quantity : Quantity ℤ
int_quantity = record {
  value = λ a. a;
  zero = pos 0;
  add = ◌+ℤ◌;
  sub = ◌-ℤ◌;
  cmp = ◌-ℤ◌;
  as_int64 = λ a. a;
  value-zero = refl;
  value-add = λ a b. refl;
  value-sub = λ a b. refl;
  cmp_lem = sign-sub;
}

abbrev pub named : String → ObjectMeta
named s = record {
  name = s;
  namespace = "default";
  labels = [];
  annotations = [];
  owner_references = [];
  finalizers = [];
  creation_timestamp = pos 0;
  deletion_timestamp = none;
}

abbrev pub resource : ℤ → ℤ → Resource ℤ
resource t v = record { tflops = t; vram = v }

-- A float64 stand-in on the whole numbers, whose division rounds down.
abbrev divide : ℤ → ℤ → ℤ
divide (pos a) (pos b) = pos (a / b)
divide a b = pos 0

instance abbrev pub int_float : Float ℤ
int_float = record {
  of_int = λ a. a;
  to_int64 = λ a. a;
  mul = ◌*ℤ◌;
  div = divide;
  pow = λ a b. a;
  ceil = λ a. a;
  fmax = λ a b. if ltb_ℤ a b then b else a;
  lt = ltb_ℤ;
  max_float = pos 1_000_000_000_000;
}

pub contains-remove_lem :
    (f : String) (fs : List String) → any (λ g. g == f) (keep (λ g. not (g == f)) fs) ≡ false
contains-remove_lem f [] = refl
contains-remove_lem f (g ∷ fs) = elim (Bool-cases (g == f)) [
  | inl e ↦ rw e (contains-remove_lem f fs)
  | inr e ↦ rw (e, e) (contains-remove_lem f fs)
]

abbrev pub list_util : ControllerUtil
list_util = record {
  contains_finalizer = λ m f. any (λ g. g == f) m.finalizers;
  add_finalizer = λ m f. record m { finalizers = f ∷ m.finalizers };
  remove_finalizer = λ m f. record m { finalizers = keep (λ g. not (g == f)) m.finalizers };
  contains-add = λ m f. rw (eq_refl f) refl;
  contains-remove = λ m f. contains-remove_lem f m.finalizers;
}

-- A GPU with some amounts available.
abbrev pub gpu_with : String → ℤ → ℤ → Gpu ℤ
gpu_with name t v = record {
  meta = named name;
  status = record {
    phase = Phase.running;
    capacity = some (resource t v);
    available = some (resource t v);
    uuid = "uuid";
    node_selector = [];
    gpu_model = "A100";
    message = "";
  };
}

-- The GPU of the table after the connection's request was granted.
abbrev pub gpu_served : Gpu ℤ
gpu_served =
    let g = gpu_with "gpu-0" (pos 10) (pos 20) in
    let st = g.status in
    record g { status = record st { available = some (resource (pos 7) (pos 16)) } }

abbrev pub table_of_one : NaiveScheduler ℤ
table_of_one = record { gpus = ("gpu-0", gpu_with "gpu-0" (pos 10) (pos 20)) ∷ [] }

-- A connection in a phase, which asks for 3 TFLOPS and 4 units of VRAM.
abbrev pub connection_in : TensorFusionConnectionPhase → String → TensorFusionConnection ℤ
connection_in phase gpu = record {
  meta = named "connection";
  spec = record {
    pool_name = "pool";
    resources = record { requests = resource (pos 3) (pos 4); limits = resource (pos 3) (pos 4) };
  };
  status = record { phase = phase; connection_url = ""; qos_class = ""; gpu = gpu };
}

abbrev pub pool_in : String → Phase → ℤ → GpuPool ℤ
pool_in name phase t = record {
  meta = named name;
  spec = record { capacity_config = none; node_manager_config = none; component_config = none };
  status = record {
    phase = phase;
    total_nodes = pos 1;
    total_gpus = pos 1;
    ready_nodes = pos 1;
    not_ready_nodes = pos 0;
    total_tflops = t;
    total_vram = t;
    virtual_tflops = t;
    virtual_vram = t;
    available_tflops = t;
    available_vram = t;
  };
}

abbrev pub node_in : String → Phase → ℤ → GpuNode ℤ
node_in name phase t = record {
  meta = named name;
  spec = record { manage_mode = GpuNodeManageMode.provisioned; cost_per_hour = "1" };
  status = record {
    kubernetes_node_name = name;
    phase = phase;
    total_tflops = t;
    total_vram = t;
    virtual_tflops = t;
    virtual_vram = t;
    available_tflops = t;
    available_vram = t;
    node_info = record {
      instance_id = "";
      region = "";
      ip = "";
      ram_size = pos 0;
      data_disk_size = pos 0;
    };
    total_gpus = pos 1;
  };
}

-- A cluster with one pool in its spec.
abbrev pub cluster_of_one : TensorFusionCluster ℤ
cluster_of_one = record {
  meta = named "cluster";
  spec = record {
    gpu_pools =
        record {
          name = "a";
          spec_template = record {
            capacity_config = none;
            node_manager_config = none;
            component_config = none;
          };
        }
        ∷ [];
    computing_vendor = none;
  };
  status = record {
    phase = Phase.running;
    conditions = [];
    total_pools = pos 0;
    total_nodes = pos 0;
    total_gpus = pos 0;
    total_tflops = pos 0;
    total_vram = pos 0;
    available_tflops = pos 0;
    available_vram = pos 0;
    ready_gpu_pools = [];
    not_ready_gpu_pools = [];
    retry_count = pos 0;
    cloud_vendor_config_hash = "";
  };
}

-- A pool that the cluster owns, with a name that its spec does not give.
abbrev pub owned_pool : GpuPool ℤ
owned_pool =
    let p = pool_in "cluster-old" Phase.running (pos 1) in
    let m = p.meta in record p { meta = record m { owner_references = "cluster" ∷ [] } }

abbrev pub plain_class : GpuNodeClass
plain_class = record {
  name = "class";
  spec = record {
    launch_template = record { id = "lt-0"; name = "" };
    os_image_selector_terms = [];
    security_group_selector_terms = [];
    subnet_selector_terms = [];
    block_device_mappings = [];
    tags = [];
    user_data = "";
  };
}

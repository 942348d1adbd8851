-- ===== src/Api/PodTypes.antt =====
-- The part of Kubernetes' `Pod` that the operator reads or writes, and a reconciler's answer.
use tensor_fusion_operator.Prelude.{String, List, Dict, Bool, true, false}
use tensor_fusion_operator.Prelude.Int.{ℤ}
use tensor_fusion_operator.Api.Metadata.{ObjectMeta}

pub record EnvVar : Type 0 where
  pub name : String
  pub value : String

pub record Container : Type 0 where
  pub name : String
  pub env : List EnvVar

pub record PodSpec : Type 0 where
  pub node_selector : Dict String
  pub containers : List Container

pub data PodPhase : Type 0 where
  unset pending running succeeded failed unknown : PodPhase

pub record PodStatus : Type 0 where
  pub phase : PodPhase
  pub pod_ip : String

pub record Pod : Type 0 where
  pub meta : ObjectMeta
  pub spec : PodSpec
  pub status : PodStatus

abbrev pub is_pod_running : PodPhase → Bool
is_pod_running PodPhase.running = true
is_pod_running _ = false

pub record NamespacedName : Type 0 where
  pub name : String
  pub namespace : String

-- `ctrl.Result`: nothing, `Requeue`, or `RequeueAfter` with a delay in nanoseconds.
pub data Requeue : Type 0 where
  stop : Requeue
  again : Requeue
  after : ℤ → Requeue

-- ===== src/Lib.antt =====
-- TensorFusion operator: a Kubernetes operator that shares GPUs among pods. This library models its
-- core logic and proves what makes it correct.
--
-- The parts and how they interact. Users describe clusters, pools and connections as custom resources
-- (api/v1). The cluster reconciler creates the pools of a cluster. The pool reconciler adds up the
-- nodes of a pool, decides whether to grow it, chooses the cheapest instance type and creates nodes at
-- a cloud vendor; the compaction takes idle nodes away. The connection reconciler asks the scheduler
-- for a GPU, stores it in the connection, starts a worker pod and gives the GPU back at deletion. The
-- pod reconciler creates the connections that a pod's annotations ask for. The GPU node reconciler gives
-- each GPU node a discovery job and a hypervisor pod, and terminates a provisioned node at its vendor.
-- The node reconciler makes GPUNodes of the Kubernetes nodes that a pool selects. The discovery job writes
-- the GPUs of a node. The connection router tells HTTP clients the URL of a connection, once it runs.
--
-- The files.
-- - Api: the custom resources of api/v1, field by field, for the fields that the logic uses, and the
--   phases and labels of internal/constants/constants.go.
-- - Scheduler: internal/scheduler/naive.go. `schedule`, `release`, `on_add`, `on_update` and
--   `on_delete` are its methods as actions on the table; `System` describes a run of many calls.
-- - Connection: internal/controller/tensorfusionconnection_controller.go. `reconcile`, `place`,
--   `try_start_worker`, `handle_deletion` and `must_update_tf_connection_status` are its methods.
-- - Worker: internal/worker/worker.go.
-- - Cluster: api/v1/tensorfusioncluster_funcs.go in `Status`, and
--   internal/controller/tensorfusioncluster_controller.go in `Pools` and `Reconcile`.
-- - Pool: internal/controller/gpupool_controller.go in `Capacity`, gpupool_node_provision.go in `Gap`
--   and `Provision`, gpupool_compaction_controller.go in `Compaction`.
-- - CloudProvider: internal/cloudprovider/types/type.go in `Types`, and
--   internal/cloudprovider/common/utils.go in `Instances`, `Placement` and `LeastCost`.
-- - Webhook: internal/webhook/v1/pod_webhook.go; `handle` and `patch_tf_client` are in `Patch`. Pods:
--   internal/controller/pod_controller.go.
-- - GpuNodes: internal/controller/gpunode_controller.go. `reconcile`, `delete_hook`,
--   `reconcile_node_discovery_job` and `reconcile_hypervisor_pod` are its methods, in `Reconcile`,
--   `Discovery` and `Hypervisor`.
-- - Router: internal/server/router/connection.go. `subscribe`, `cancel` and `publish` are the watcher's
--   operations; `Router.System` interleaves any number of requests with the watcher and the API server.
-- - Nodes: internal/controller/node_controller.go. `reconcile` is its Reconcile, with `link` for nodes that
--   were provisioned and `select` for nodes that a pool selects.
-- - NodeDiscovery: cmd/nodediscovery/main.go and internal/config/gpu_info.go. `main` is its `main`.
-- - Vendors: internal/cloudprovider/alibaba/ecs.go. `create_node`, `terminate_node` and `get_node_status` are
--   methods of its provider, which `new_alibaba_gpu_node_provider` makes; `request_of` is
--   `handleNodeClassAndExtraParams` with the fields that `CreateNode` sets. `Aws` has the same methods of
--   internal/cloudprovider/aws/ec2.go.
-- - Utils: internal/utils/reconcile.go.
-- - Prelude, Quantity, Float, Samples: shared helpers, the parameters for library types, and test data.
--
-- How the code is modelled. A method that calls a service is an action: it takes the world, answers a
-- value, an error or a panic, and leaves a new world. The world holds the calls made so far, newest
-- first; what a service answers is a parameter that may depend on all of them, so services may change
-- between two calls in any way. The order of a loop over a Go map is such a parameter too. A nil
-- dereference, an index out of range and `panic` are the outcome `panicked`. `resource.Quantity` is a
-- type with its documented laws, float64 a type with operations, int32 and int64 are integers with
-- their wrap-around. Every loop is structural recursion on its list or on its number of rounds, so no
-- definition takes fuel.
--
-- The GPU that `Schedule` returns shares its pointer to the available amounts with the scheduler's table;
-- the model copies the amounts, and so supposes that the API server answers the update of a GPU's status
-- with the amounts that it was sent.
--
-- What is not modelled: logging and metrics; the messages of errors that carry `%v` of another; the
-- virtual capacity of a GPU node, the set-up of the HTTP server and of watches,
-- the prices and the mock vendor; what the vendors' SDKs and the Kubernetes API server do with a call.
pub mod Prelude
pub mod Quantity
pub mod Samples
pub mod Api
pub mod Float
pub mod Utils
pub mod Scheduler
pub mod Worker
pub mod Connection
pub mod Cluster
pub mod CloudProvider
pub mod Pool
pub mod Webhook
pub mod Pods
pub mod Router
pub mod GpuNodes
pub mod NodeDiscovery
pub mod Nodes
pub mod Vendors

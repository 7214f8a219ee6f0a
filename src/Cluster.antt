-- ===== src/Cluster.antt =====
-- The processes of cmd/ over one store: the API server's registries (pkg/registry), the scheduler's pass
-- (pkg/scheduler/scheduler.go) and the controller's reconciliation
-- (pkg/controller/replica_set_controller.go). A step is one call, whatever it returns, with every call
-- to the store in it; calls do not overlap.
pub mod Soundness
mod Examples
use gokube.Prelude.{ℕ, zero, suc, Text}
use gokube.Exec.{Exec}
use gokube.Api.{Pod, Node, ReplicaSet, Validator}
use gokube.Storage.{Storage}
use gokube.Names.{NameGenerator}
use gokube.Registry.PathJoin.{IsPlain}
use gokube.Registry.Pods.{create_pod, update_pod, delete_pod, get_pod, list_pods}
use gokube.Registry.Nodes.{create_node, update_node, delete_node}
use gokube.Registry.ReplicaSets
use gokube.Scheduler.{schedule_pending_pods}
use gokube.Controller.{reconcile}

module _ {S : Type 0} (v : Validator) (sp : Storage S Pod) (sn : Storage S Node)
    (sr : Storage S ReplicaSet) where
  -- The names of nodes that are written are plain.
  pub data Step : S → S → Type 1 where
    pod_created : {s : S} (pod : Pod) → Step s (create_pod v sp pod s).1
    pod_updated : {s : S} (pod : Pod) → Step s (update_pod v sp pod s).1
    pod_deleted : {s : S} (name : Text) → Step s (delete_pod sp name s).1
    node_created : {s : S} (node : Node) → IsPlain node.name → Step s (create_node v sn node s).1
    node_updated : {s : S} (node : Node) → IsPlain node.name → Step s (update_node v sn node s).1
    node_deleted : {s : S} (name : Text) → IsPlain name → Step s (delete_node sn name s).1
    set_created : {s : S} (rs : ReplicaSet) → Step s (ReplicaSets.create sr rs s).1
    set_updated : {s : S} (rs : ReplicaSet) → Step s (ReplicaSets.update sr rs s).1
    set_deleted : {s : S} (name : Text) → Step s (ReplicaSets.delete sr name s).1
    scheduled : {s : S} (draws : ℕ → ℕ) → Step s (schedule_pending_pods v sp draws sn s).1
    reconciled :
        {s : S} {G : Type 0} (gen : NameGenerator G) (g : G) (rs : ReplicaSet)
        → Step s (reconcile v gen sp sr rs (s, g)).1.0

  pub data Steps : S → S → Type 1 where
    start : {s : S} → Steps s s
    then : {s t u : S} → Steps s t → Step t u → Steps s u

-- ===== src/Scheduler.antt =====
-- pkg/scheduler/scheduler.go: one pass over the pending pods. rand.Intn(n) is the next number of a
-- stream, reduced to its range. A pass runs to its end before another process writes.
pub mod Interleaving
pub mod Loop
pub mod Passes
pub mod Ticks
mod Examples
use gokube.Prelude.{ℕ, suc, ◌%◌, Text, List, [], ◌∷◌, length, get_or}
use gokube.Exec.{
  Exec, Error, Result, ok, err, pure, raise, replace_error, ◌>>=◌, ◌>>◌, pending_list_failed,
  node_list_failed, no_nodes, update_failed,
}
use gokube.Api.{Pod, pod_scheduled, Node, Validator}
use gokube.Storage.{Storage}
use gokube.Registry.Pods.{list_pending_pods, update_pod}
use gokube.Registry.Nodes.{list_nodes}

-- `if err := m; err != nil { return fmt.Errorf(…) }`
abbrev pub failing_as : {S A : Type 0} → Error → Exec S A → Exec S A
failing_as e m s = replace_error e (m s)

-- `pod.NodeName = node.Name; pod.Status = api.PodScheduled`
abbrev pub assign : Pod → Node → Pod
assign pod node = record pod { node_name = node.name; status = pod_scheduled }

module _ {S : Type 0} (v : Validator) (sp : Storage S Pod) (draws : ℕ → ℕ) where
  -- `nodes[rand.Intn(len(nodes))]`, of a slice whose first element is `node`.
  abbrev pub pick : Node → List Node → ℕ → Node
  pick node nodes i = get_or (node ∷ nodes) (draws i % length (node ∷ nodes)) node

  -- The loop, at the draw `i`: the first update that fails ends it.
  unfoldable pub assign_all : Node → List Node → ℕ → List Pod → Exec S (Unit {0})
  assign_all node nodes i [] = pure tt
  assign_all node nodes i (pod ∷ rest) = do
    failing_as update_failed (update_pod v sp (assign pod (pick node nodes i)))
    assign_all node nodes (suc i) rest

  unfoldable pub assign_among : List Node → List Pod → Exec S (Unit {0})
  assign_among [] pods = raise no_nodes
  assign_among (node ∷ nodes) pods = assign_all node nodes 0 pods

  unfoldable pub schedule_pending_pods : Storage S Node → Exec S (Unit {0})
  unfolding assign_among
  schedule_pending_pods sn = do
    pods ← failing_as pending_list_failed (list_pending_pods sp)
    nodes ← failing_as node_list_failed (list_nodes sn)
    assign_among nodes pods

-- A tick of Start: what other processes do to the store before it, and the draws of its pass.
pub record Tick (S : Type 0) : Type 0 where
  pub others : S → S
  pub draws : ℕ → ℕ

module _ {S : Type 0} (v : Validator) (sp : Storage S Pod) (sn : Storage S Node) where
  -- Start, over the ticks before its context is done. The error of a pass is printed.
  unfoldable pub start : List (Tick S) → S → S
  start [] s = s
  start (t ∷ ticks) s = start ticks (schedule_pending_pods v sp t.draws sn (t.others s)).1

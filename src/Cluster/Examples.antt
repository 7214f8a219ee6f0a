-- ===== src/Cluster/Examples.antt =====
-- A run over an etcd in memory: a node, a pod, a pass of the scheduler, a set and its reconciliation.
use gokube.Prelude.{ℕ, false, arith}
use gokube.Storage.Etcd.Refinement.{slot_of}
use gokube.Memory.{Table, cell}
use gokube.Memory.Samples.{
  checks, counting, web, n1, rs, empty_table, pods, pods-Lawful, pod_written, nodes, sets,
  nodes_beside_pods, sets_beside_pods,
}
use gokube.Registry.PathJoin.{IsPlain}
use gokube.Registry.Pods.{create_pod}
use gokube.Registry.Pods.Creation.{IsSound}
use gokube.Registry.Nodes.{create_node}
use gokube.Registry.ReplicaSets
use gokube.Scheduler.{schedule_pending_pods}
use gokube.Controller.{reconcile}
use gokube.Cluster.{
  Steps, start, then, node_created, pod_created, scheduled, set_created, reconciled,
}
use gokube.Cluster.Soundness.{Steps-IsSound}

abbrev draws : ℕ → ℕ
draws i = i

abbrev with_a_node : Table
with_a_node = (create_node checks nodes n1 empty_table).1

abbrev with_a_pod : Table
with_a_pod = (create_pod checks (pods false) web with_a_node).1

abbrev with_a_pass : Table
with_a_pass = (schedule_pending_pods checks (pods false) draws nodes with_a_pod).1

abbrev with_a_set : Table
with_a_set = (ReplicaSets.create sets rs with_a_pass).1

abbrev at_the_end : Table
at_the_end = (reconcile checks counting (pods false) sets rs (with_a_set, 0)).1.0

n1-IsPlain : IsPlain n1.name
n1-IsPlain = record {
  no_slash = (λ e. ground arith, (λ e. ground arith, tt));
  some_byte = λ e. ground arith;
  not_dot = λ e. ground arith;
  not_dots = λ e. ground arith;
}

run : Steps checks (pods false) nodes sets empty_table at_the_end
run =
    then
      (then
        (then (then (then start (node_created n1 n1-IsPlain)) (pod_created web)) (scheduled draws))
        (set_created rs))
      (reconciled counting 0 rs)

nothing-IsSound : IsSound checks (pods-Lawful false).slot empty_table
unfolding pods-Lawful cell slot_of
nothing-IsSound = record { valid = λ j p pre h. cc; named = λ j p pre h. cc }

Steps-IsSound_example : IsSound checks (pods-Lawful false).slot at_the_end
Steps-IsSound_example =
    Steps-IsSound checks (pods false) nodes sets (pods-Lawful false) (pod_written false)
      nodes_beside_pods sets_beside_pods empty_table at_the_end run nothing-IsSound

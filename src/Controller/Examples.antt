-- ===== src/Controller/Examples.antt =====
-- A reconciliation over an etcd in memory: a set of two, and no pod yet.
use gokube.Prelude.{
  ℕ, ◌+◌, ◌*◌, ◌≤◌, pos, arith, Text, ◌≡◌, ◌↔◌, refl, false, List, [], ◌∷◌, length, Elem, text_eq,
  starts_with, select,
}
use gokube.Exec.{Result, ok, err}
use gokube.Api.{Pod, ReplicaSet, validate_pod, status_eq, is_pod_active_and_owned_by}
use gokube.Storage.Etcd.{pairs_of}
use gokube.Names.{truncate}
use gokube.Memory.{Table, memory, cell, without, keys, remove_key, set_object}
use gokube.Memory.Samples.{
  checks, counting, rs, pods, pods-Lawful, pod_written, pods_answer, sets, sets-Lawful,
  sets_beside_pods,
}
use gokube.Registry.Pods.{create_pod, list_pods, default_status}
use gokube.Registry.Pods.Listing.{IsStored}
use gokube.Registry.ReplicaSets
use gokube.Registry.ReplicaSets.{replica_set_key}
use gokube.Controller.{
  compare_counts, reconcile, create_rounds, create_for_containers, create_one,
  get_pods_for_replica_set,
}
use gokube.Controller.Comparison.{Compared, shortfall}
use gokube.Controller.Outcome.{reconcile_creates}
use gokube.Controller.Convergence.{active_count, reconcile_reaches, reconcile_converges}
use gokube.Storage.{Distinct, read_all}

abbrev with_the_set : Table
with_the_set = (replica_set_key rs.name, set_object rs) ∷ []

reconciled : (reconcile checks counting (pods false) sets rs (with_the_set, 0)).0 ≡ ok tt
unfolding reconcile create_rounds create_for_containers create_one create_pod list_pods
    default_status ReplicaSets.get ReplicaSets.update validate_pod is_pod_active_and_owned_by pods
    sets memory cell without keys remove_key starts_with pairs_of select status_eq text_eq truncate
reconciled = refl

reconcile_creates_example :
    (current : ReplicaSet) × (all : List Pod) × ((ReplicaSets.get sets rs.name with_the_set).0
      ≡ ok current)
    × ((p : Pod) → Elem p all ↔ IsStored (pods false) (pods-Lawful false) p with_the_set)
    × ((ks : List Text) × Distinct ks
        × (read_all ((pods-Lawful false).slot with_the_set) ks ≡ ok all))
    × Compared
        (pods-Lawful false).slot
        sets-Lawful.slot
        sets-Lawful.written
        current
        (length (get_pods_for_replica_set current all is_pod_active_and_owned_by))
        with_the_set
        (reconcile checks counting (pods false) sets rs (with_the_set, 0)).1.0
reconcile_creates_example =
    reconcile_creates checks counting (pods false) sets (pods-Lawful false) pods_answer
      (pod_written false) sets-Lawful sets_beside_pods rs (with_the_set, 0) reconciled

abbrev pods_of : Result (List Pod) → List Pod
pods_of (ok ps) = ps
pods_of (err _) = []

abbrev listed_after : List Pod
listed_after =
    pods_of
      (list_pods (pods false)
        (reconcile checks counting (pods false) sets rs (with_the_set, 0)).1.0).0

read_before :
    ((ReplicaSets.get sets rs.name with_the_set).0 ≡ ok rs)
    × ((list_pods (pods false) (ReplicaSets.get sets rs.name with_the_set).1).0 ≡ ok [])
unfolding list_pods ReplicaSets.get pods sets memory cell keys remove_key starts_with pairs_of
    text_eq
read_before = (refl, refl)

read_after :
    (list_pods
      (pods false)
      (reconcile checks counting (pods false) sets rs (with_the_set, 0)).1.0).0
    ≡ ok listed_after
unfolding reconcile create_rounds create_for_containers create_one create_pod list_pods
    default_status ReplicaSets.get ReplicaSets.update validate_pod is_pod_active_and_owned_by pods
    sets memory cell without keys remove_key starts_with pairs_of select status_eq text_eq truncate
read_after = refl

reconcile_reaches_example :
    active_count rs listed_after ≡ active_count rs [] + shortfall (active_count rs []) (pos 2) * 1
reconcile_reaches_example =
    reconcile_reaches checks counting (pods false) sets (pods-Lawful false) pods_answer
      (pod_written false) sets-Lawful sets_beside_pods rs rs [] listed_after (with_the_set, 0)
      read_before (omega arith) reconciled read_after

none_before : active_count rs [] ≤ 2
unfolding get_pods_for_replica_set select
none_before = omega arith

reconcile_converges_example :
    (active_count rs listed_after ≡ 2)
    × ((u : Table × ℕ)
        → compare_counts checks counting
            (pods false)
            sets
            rs
            (active_count rs listed_after)
            (pos 2)
            u
          ≡ (ok tt, u))
reconcile_converges_example =
    reconcile_converges checks counting (pods false) sets (pods-Lawful false) pods_answer
      (pod_written false) sets-Lawful sets_beside_pods rs rs [] listed_after (with_the_set, 0) 2
      read_before (omega arith) refl refl none_before reconciled read_after

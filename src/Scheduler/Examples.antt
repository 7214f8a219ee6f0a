-- ===== src/Scheduler/Examples.antt =====
-- A scheduling pass over an etcd in memory with one node, one pending pod and one running pod.
use gokube.Prelude.{
  ℕ, inl, Text, codes, ◌≡◌, ◌≢◌, refl, false, List, [], ◌∷◌, Elem, text_eq, starts_with, select,
  arith,
}
use gokube.Exec.{ok}
use gokube.Api.{pod_scheduled, Pod, pod_pending, Node, validate_pod, status_eq}
use gokube.Storage.{holds}
use gokube.Storage.Etcd.{pairs_of}
use gokube.Storage.Etcd.Refinement.{slot_of}
use gokube.Memory.{Table, memory, cell, without, keys, remove_key, node_object}
use gokube.Memory.Samples.{
  checks, n1, at, pod_in, running_web, pods, pods-Lawful, pod_written, nodes, nodes_beside_pods,
}
use gokube.Registry.Pods.{pod_key, list_pending_pods}
use gokube.Registry.Pods.Creation.{IsSound}
use gokube.Registry.Pods.Listing.{IsStored}
use gokube.Registry.Nodes.{list_nodes}
use gokube.Scheduler.{assign_all, schedule_pending_pods, Tick, start}
use gokube.Scheduler.Ticks.{start_schedules}
use gokube.Scheduler.Interleaving.{stale_pods_win}
use gokube.Scheduler.Passes.{schedule_assigns}
use gokube.Registry.Pods.{update_pod}
use gokube.Registry.Pods.Creation.{update_pod-IsSound}

abbrev draws : ℕ → ℕ
draws i = i

abbrev nodes_only : Table
nodes_only = (codes "/registry/nodes/n1", node_object n1) ∷ []

abbrev db : Pod
db = pod_in pod_pending [] (codes "db")

abbrev settled : Table
settled = at running_web ∷ nodes_only

abbrev cluster : Table
cluster = at db ∷ settled

nodes_only-IsSound : IsSound checks (pods-Lawful false).slot nodes_only
unfolding pods-Lawful cell slot_of
nodes_only-IsSound = record {
  valid = λ j p pre h. absurd (no_pod j p h);
  named = λ j p pre h. absurd (no_pod j p h);
}
  where
    no_pod : (j : Text) (p : Pod) → (pods-Lawful false).slot nodes_only j ≢ holds p
    no_pod j p h = ground arith

settled-IsSound : IsSound checks (pods-Lawful false).slot settled
unfolding update_pod validate_pod pods memory cell without text_eq
settled-IsSound =
    update_pod-IsSound checks (pods false) (pods-Lawful false) running_web nodes_only
      (pod_written false running_web) nodes_only-IsSound

cluster-IsSound : IsSound checks (pods-Lawful false).slot cluster
unfolding update_pod validate_pod pods memory cell without text_eq
cluster-IsSound =
    update_pod-IsSound checks (pods false) (pods-Lawful false) db settled (pod_written false db)
      settled-IsSound

db-IsStored : IsStored (pods false) (pods-Lawful false) db cluster
unfolding pods-Lawful cell slot_of text_eq starts_with
db-IsStored = (pod_key (codes "db"), refl, refl)

passed : (schedule_pending_pods checks (pods false) draws nodes cluster).0 ≡ ok tt
unfolding schedule_pending_pods list_pending_pods list_nodes assign_all update_pod validate_pod pods
    nodes memory cell without keys remove_key starts_with pairs_of select status_eq text_eq
passed = refl

schedule_assigns_example :
    (all : List Node) × (n : Node) × ((list_nodes nodes
        (list_pending_pods (pods false) cluster).1).0
      ≡ ok all)
    × Elem n all
    × ((pods-Lawful false).slot
          (schedule_pending_pods checks (pods false) draws nodes cluster).1
          (pod_key (codes "db"))
        ≡ holds (record db { node_name = n.name; status = pod_scheduled }))
schedule_assigns_example =
    schedule_assigns checks (pods false) nodes draws (pods-Lawful false) nodes_beside_pods
      (pod_written false) cluster db passed cluster-IsSound db-IsStored refl

abbrev db_only : Table
db_only = at db ∷ []

-- A tick at which nothing is pending, and one before which `db` was created.
abbrev idle : Tick Table
idle = record { others = λ s. s; draws = draws }

abbrev busy : Tick Table
busy = record { others = λ _. cluster; draws = draws }

start_schedules_example :
    (all : List Node) × (n : Node) × ((list_nodes nodes
        (list_pending_pods (pods false) cluster).1).0
      ≡ ok all)
    × Elem n all
    × ((pods-Lawful false).slot
          (start checks (pods false) nodes (idle ∷ busy ∷ []) nodes_only)
          (pod_key (codes "db"))
        ≡ holds (record db { node_name = n.name; status = pod_scheduled }))
start_schedules_example =
    start_schedules checks (pods false) nodes (pods-Lawful false) nodes_beside_pods
      (pod_written false) (idle ∷ []) busy nodes_only db nodes_only-IsSound (λ s k. k, tt)
      (λ s k. cluster-IsSound) db-IsStored refl passed

-- `db` is listed, deleted, and written back.
listed_db : (list_pending_pods (pods false) cluster).0 ≡ ok (db ∷ [])
unfolding list_pending_pods pods memory cell keys remove_key starts_with pairs_of select status_eq
    text_eq
listed_db = refl

wrote_db : (assign_all checks (pods false) draws n1 [] 0 (db ∷ []) settled).0 ≡ ok tt
unfolding assign_all update_pod validate_pod pods memory text_eq
wrote_db = refl

stale_pods_win_example :
    (n : Node) × Elem n (n1 ∷ [])
    × ((pods-Lawful false).slot
          (assign_all checks (pods false) draws n1 [] 0 (db ∷ []) settled).1
          (pod_key (codes "db"))
        ≡ holds (record db { node_name = n.name; status = pod_scheduled }))
stale_pods_win_example =
    stale_pods_win checks (pods false) draws (pods-Lawful false) (pod_written false) cluster settled
      n1 [] (db ∷ []) db cluster-IsSound listed_db (inl refl) wrote_db

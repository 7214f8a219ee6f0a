-- ===== src/Handlers/Pods/Examples.antt =====
-- Requests for pods over an etcd in memory.
use gokube.Prelude.{codes, ◌≡◌, ◌≢◌, refl, false, [], ◌∷◌, some, text_eq, arith}
use gokube.Exec.{err, etcd_client}
use gokube.Storage.{absent, holds}
use gokube.Storage.Etcd.Refinement.{slot_of}
use gokube.Memory.{memory, cell}
use gokube.Memory.Samples.{checks, web, running_web, with_running, pods, pods-Lawful}
use gokube.Registry.Pods.{pod_key}
use gokube.Handlers.{error_write, entity_write}
use gokube.Handlers.Pods.{one, create_pod, get_route, put_route, delete_route}
use gokube.Handlers.Pods.Laws.{create_pod_conflict, routes_missing}

stored : (pods-Lawful false).slot with_running (pod_key (codes "web")) ≡ holds running_web
unfolding pods-Lawful cell slot_of text_eq
stored = refl

answered : ((pods false).get (pod_key (codes "web")) with_running).0 ≢ err etcd_client
unfolding pods memory cell text_eq
answered x = ground arith

create_pod_conflict_example :
    ((create_pod checks (pods false) (some web) with_running).0
      ≡ error_write 409 ∷ entity_write 201 (one web) ∷ [])
    × ((pods-Lawful false).slot
          (create_pod checks (pods false) (some web) with_running).1
          (codes "j")
        ≡ (pods-Lawful false).slot with_running (codes "j"))
create_pod_conflict_example =
    create_pod_conflict checks (pods false) (pods-Lawful false) web running_web with_running
      (codes "j") stored answered

free : (pods-Lawful false).slot with_running (pod_key (codes "db")) ≡ absent
unfolding pods-Lawful cell slot_of text_eq
free = refl

free_answered : ((pods false).get (pod_key (codes "db")) with_running).0 ≢ err etcd_client
unfolding pods memory cell text_eq
free_answered x = ground arith

routes_missing_example :
    ((get_route checks (pods false) (codes "db") with_running).0 ≡ error_write 404 ∷ [])
    × ((put_route checks (pods false) (codes "db") (some web) with_running).0
        ≡ error_write 404 ∷ [])
    × ((delete_route checks (pods false) (codes "db") with_running).0 ≡ error_write 404 ∷ [])
    × ((pods-Lawful false).slot
          (get_route checks (pods false) (codes "db") with_running).1
          (codes "j")
        ≡ (pods-Lawful false).slot with_running (codes "j"))
    × ((pods-Lawful false).slot
          (put_route checks (pods false) (codes "db") (some web) with_running).1
          (codes "j")
        ≡ (pods-Lawful false).slot with_running (codes "j"))
    × ((pods-Lawful false).slot
          (delete_route checks (pods false) (codes "db") with_running).1
          (codes "j")
        ≡ (pods-Lawful false).slot with_running (codes "j"))
routes_missing_example =
    routes_missing checks (pods false) (pods-Lawful false) (codes "db") (some web) with_running
      (codes "j") free free_answered

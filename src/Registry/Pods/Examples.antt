-- ===== src/Registry/Pods/Examples.antt =====
-- The pod registry over an etcd in memory.
use gokube.Prelude.{
  codes, ◌≡◌, ◌≢◌, refl, ◌⊎◌, ◌↔◌, true, false, [], ◌∷◌, Elem, if◌then◌else◌, text_eq, starts_with,
  select,
}
use gokube.Exec.{ok, err, internal, etcd_client, pod_not_found}
use gokube.Api.{pod_pending, validate_pod, status_eq}
use gokube.Storage.{absent}
use gokube.Storage.Etcd.{pairs_of}
use gokube.Memory.{memory, cell, keys}
use gokube.Memory.Samples.{
  checks, web, pending_web, running_web, empty_table, with_running, with_pending, pods, pods-Lawful,
}
use gokube.Registry.Pods.{
  create_pod, get_pod, update_pod, delete_pod, default_status, pod_key, list_pending_pods,
}
use gokube.Registry.Pods.Lookup.{get_pod-delete_pod, looked_up}
use gokube.Registry.Pods.Creation.{create_pod_overwrites, update_pod_writes}
use gokube.Registry.Pods.Listing.{IsStored, list_pending_pods_iff}

deleted : (delete_pod (pods false) (codes "web") with_running).0 ≡ ok tt
unfolding delete_pod pods memory
deleted = refl

answered : ((pods false).get (pod_key (codes "web")) with_running).0 ≢ err etcd_client
unfolding pods memory cell text_eq
answered x = cc

lookup_fails : ((pods true).get (pod_key web.name) with_running).0 ≡ err etcd_client
unfolding pods memory
lookup_fails = refl

web_is_valid : validate_pod checks (default_status web) ≡ true
unfolding validate_pod default_status status_eq
web_is_valid = refl

written :
    ((pods true).create
      (pod_key web.name)
      (default_status web)
      (looked_up checks (pods true) (pods-Lawful true) web with_running)).0
    ≡ ok tt
unfolding pods memory
written = refl

updated : (update_pod checks (pods false) running_web empty_table).0 ≡ ok tt
unfolding update_pod validate_pod pods memory
updated = refl

listed : (list_pending_pods (pods false) with_pending).0 ≡ ok (pending_web ∷ [])
unfolding list_pending_pods pods memory cell status_eq keys starts_with pairs_of select text_eq
listed = refl

get_pod-delete_pod_example :
    (((get_pod (pods false) (codes "web") (delete_pod (pods false) (codes "web") with_running).1).0
        ≡ err internal)
      ⊎ ((get_pod
            (pods false)
            (codes "web")
            (delete_pod (pods false) (codes "web") with_running).1).0
          ≡ err pod_not_found))
    × ((pods-Lawful false).slot
          (delete_pod (pods false) (codes "web") with_running).1
          (pod_key (codes "web"))
        ≡ (if text_eq (pod_key (codes "web")) (pod_key (codes "web"))
            then absent
            else (pods-Lawful false).slot with_running (pod_key (codes "web"))))
get_pod-delete_pod_example =
    get_pod-delete_pod (pods false) (pods-Lawful false) (codes "web") with_running
      (pod_key (codes "web")) deleted

create_pod_overwrites_example :
    ((create_pod checks (pods true) web with_running).0 ≡ ok (default_status web))
    × ((pods-Lawful true).slot (create_pod checks (pods true) web with_running).1 (pod_key web.name)
        ≡ (pods-Lawful true).written (default_status web))
create_pod_overwrites_example =
    create_pod_overwrites checks (pods true) (pods-Lawful true) web with_running lookup_fails
      web_is_valid written

update_pod_writes_example :
    (validate_pod checks running_web ≡ true)
    × ((pods-Lawful false).slot
          (update_pod checks (pods false) running_web empty_table).1
          (pod_key (codes "web"))
        ≡ (if text_eq (pod_key running_web.name) (pod_key (codes "web"))
            then (pods-Lawful false).written running_web
            else (pods-Lawful false).slot empty_table (pod_key (codes "web"))))
update_pod_writes_example =
    update_pod_writes checks (pods false) (pods-Lawful false) running_web empty_table
      (pod_key (codes "web")) updated

list_pending_pods_iff_example : Elem pending_web (pending_web ∷ []) ↔ (
    IsStored (pods false) (pods-Lawful false) pending_web with_pending
    × (pending_web.status ≡ pod_pending))
list_pending_pods_iff_example =
    list_pending_pods_iff (pods false) (pods-Lawful false) with_pending (pending_web ∷ [])
      pending_web listed

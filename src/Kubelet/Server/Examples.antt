-- ===== src/Kubelet/Server/Examples.antt =====
-- A kubelet on the node n1 and an API server over an etcd in memory.
use gokube.Prelude.{
  Elem, inl, inr, Text, codes, text_eq, text_eq_iff, true, false, List, [], ◌∷◌, Option, none, some,
  ◌≡◌, ◌≢◌, refl, arith, if◌then◌else◌,
}
use gokube.Exec.{err, etcd_client}
use gokube.Api.{named, Pod, validate_pod, validate_node}
use gokube.Storage.{holds}
use gokube.Memory.{memory, cell, Table, node_object}
use gokube.Memory.Samples.{
  checks, running_web, with_running, pods, pods-Lawful, nodes, nodes-Lawful, node_written,
}
use gokube.Registry.Nodes
use gokube.Registry.Pods
use gokube.Registry.Nodes.{node_key}
use gokube.Registry.Pods.{pod_key}
use gokube.Handlers.{Write, entity_write}
use gokube.Handlers.Pods as Requests
use gokube.Handlers.Nodes as Node_requests
use gokube.Kubelet.{Pods, put, missing}
use gokube.Kubelet.Server.{
  Exchange, lost, answered, exchange, status_code, Wire, own_node, register_node, start, watching,
  not_registered, refused, watch_pods, update_pod_status, update_pod_statuses,
}
use gokube.Kubelet.Server.Registration.{restart_refused}
use gokube.Kubelet.Server.Polling.{Since, watch_pods-Since}
use gokube.Kubelet.Server.Reporting.{report_stored, status_sent_once}

abbrev as_it_is : {A : Type 0} → Wire A A
as_it_is = record { marshal = some; read_entity = some }

abbrev name : Text
name = codes "n1"

abbrev registered : Table
registered = (node_key name, node_object (own_node name)) ∷ []

first_start : start checks nodes as_it_is answered name [] ≡ (watching, registered)
unfolding start register_node exchange status_code Node_requests.create_node Nodes.create_node nodes
    memory cell validate_node
first_start = refl

answers : (nodes.get (node_key name) registered).0 ≢ err etcd_client
unfolding nodes memory cell text_eq
answers x = ground (arith, x)

restart_refused_example :
    ((start checks nodes as_it_is answered name registered).0 ≡ not_registered (refused 409))
    × (nodes-Lawful.slot (start checks nodes as_it_is answered name registered).1 (codes "j")
        ≡ nodes-Lawful.slot registered (codes "j"))
restart_refused_example =
    restart_refused checks nodes nodes-Lawful as_it_is name (own_node name) refl refl [] registered
      (codes "j") (node_written (own_node name)) first_start answers

abbrev shown : List (Write Requests.Body) → Option (List Pod)
shown (entity_write _ (Requests.many pods) ∷ _) = some pods
shown _ = none

abbrev nothing : Pods
nothing _ = none

abbrev rounds : List (Exchange × (Table → Table))
rounds = (answered, λ s. s) ∷ (lost, λ s. s) ∷ (answered, λ s. s) ∷ []

watch_pods-Since_example :
    Since nothing
      (watch_pods (pods false) shown name rounds nothing with_running).0
      (watch_pods (pods false) shown name rounds nothing with_running).1
watch_pods-Since_example = watch_pods-Since (pods false) shown name rounds nothing with_running

web_reported :
    (update_pod_status checks (pods false) as_it_is answered running_web with_running).0 ≡ none
unfolding update_pod_status exchange status_code Requests.put_route Pods.get_pod Pods.update_pod
    pods memory cell text_eq validate_pod
web_reported = refl

report_stored_example :
    ((old : Pod) × ((pods-Lawful false).slot with_running (pod_key (codes "web")) ≡ holds old))
    × (validate_pod checks running_web ≡ true)
    × ((pods-Lawful false).slot
          (update_pod_status checks (pods false) as_it_is answered running_web with_running).1
          (codes "j")
        ≡ (if text_eq (pod_key (codes "web")) (codes "j")
            then (pods-Lawful false).written running_web
            else (pods-Lawful false).slot with_running (codes "j")))
report_stored_example =
    report_stored checks (pods false) as_it_is (pods-Lawful false) running_web running_web
      with_running (codes "j") refl refl web_reported

abbrev api : Pod
api = record running_web { meta = named (codes "api") }

-- Two pods, which the ticks meet in either order.
abbrev knows_both : Pods
knows_both = put (put nothing running_web) api

both_under_their_names : (n : Text) (pod : Pod) → knows_both n ≡ some pod → pod.name ≡ n
both_under_their_names n pod h =
    ground (arith, h, (text_eq_iff (codes "web") n).0, (text_eq_iff (codes "api") n).0)

abbrev first_order : List Text
first_order = codes "web" ∷ codes "api" ∷ []

abbrev second_order : List Text
second_order = codes "api" ∷ codes "web" ∷ []

in_first_order : (n : Text) → Elem n second_order → Elem n first_order
in_first_order n (inl e) = inr (inl e)
in_first_order n (inr (inl e)) = inl e
in_first_order n (inr (inr m)) = absurd m

abbrev told : Pods
told =
    (update_pod_statuses checks (pods false) as_it_is (λ _. missing) (λ _. lost) first_order
      knows_both with_running).0

status_sent_once_example :
    update_pod_statuses checks
      (pods false)
      as_it_is
      (λ _. missing)
      (λ _. answered)
      second_order
      told
      with_running
    ≡ (told, with_running)
status_sent_once_example =
    status_sent_once checks (pods false) as_it_is (λ _. missing) (λ _. lost) (λ _. answered)
      first_order second_order knows_both with_running with_running both_under_their_names
      in_first_order

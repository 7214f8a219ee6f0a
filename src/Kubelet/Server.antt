-- ===== src/Kubelet/Server.antt =====
-- pkg/kubelet/kubelet.go: the kubelet as a client of the API server. The server is the handlers of
-- Handlers over a store; other clients may change the store between two rounds.
pub mod Answers
pub mod Registration
pub mod Polling
pub mod Reporting
mod Examples
use gokube.Prelude.{
  ℕ, Text, Bool, true, false, List, [], ◌∷◌, ◌++◌, Option, none, some, ◌==◌, if◌then◌else◌,
}
use gokube.Api.{Node, Pod, Validator, named, node_ready, status_eq}
use gokube.Storage.{Storage}
use gokube.Handlers.{
  Write, error_write, entity_write, header_write, Handler, status_ok, status_created,
}
use gokube.Handlers.Nodes
use gokube.Handlers.Pods
use gokube.Kubelet.{Inspected, get_pod_status, Pods, put, run_new_pods}

-- How a request goes: it does not reach the server, its answer does not come back, or it does.
pub data Exchange : Type 0 where
  lost unanswered answered : Exchange

unfoldable pub exchange : {S B : Type 0} → Exchange → Handler S B → S → Option (List (Write B)) × S
exchange lost handler s = (none, s)
exchange unanswered handler s = (none, (handler s).1)
exchange answered handler s = (some (handler s).0, (handler s).1)

-- The status of an answer: net/http sends the first header that is written, and 200 without one.
unfoldable pub status_code : {B : Type 0} → List (Write B) → ℕ
status_code [] = status_ok
status_code (error_write status ∷ _) = status
status_code (entity_write status _ ∷ _) = status
status_code (header_write status ∷ _) = status

-- The bodies of requests: json.Marshal, and ReadEntity at the server.
pub record Wire (A J : Type 0) : Type 0 where
  pub marshal : A → Option J
  pub read_entity : J → Option A

pub data ServerError : Type 0 where
  marshal_failed request_failed : ServerError
  refused : ℕ → ServerError

-- `if err != nil { … }; if resp.StatusCode != expected { … }`
abbrev pub check_answer : {S B : Type 0} → ℕ → Option (List (Write B)) × S → Option ServerError × S
check_answer expected (none, s) = (some request_failed, s)
check_answer expected (some writes, s) =
    (if status_code writes == expected then none else some (refused (status_code writes)), s)

-- registerNode
abbrev pub own_node : Text → Node
own_node name = record {
  meta = named name;
  spec = record { unschedulable = false; provider_id = [] };
  status = node_ready;
}

module _ {S J : Type 0} (v : Validator) (st : Storage S Node) (wire : Wire Node J) where
  abbrev pub post_node : Exchange → Option J → S → Option ServerError × S
  post_node ex none s = (some marshal_failed, s)
  post_node ex (some body) s =
      check_answer status_created (exchange ex (Nodes.create_node v st (wire.read_entity body)) s)

  unfoldable pub register_node : Exchange → Text → S → Option ServerError × S
  register_node ex node_name s = post_node ex (wire.marshal (own_node node_name)) s

-- Start: the loops run only after a registration.
pub data Start : Type 0 where
  not_registered : ServerError → Start
  watching : Start

abbrev pub started_by : {S : Type 0} → Option ServerError × S → Start × S
started_by (none, s) = (watching, s)
started_by (some e, s) = (not_registered e, s)

unfoldable pub start :
    {S J : Type 0} → Validator → Storage S Node → Wire Node J → Exchange → Text → S → Start × S
start v st wire ex node_name s = started_by (register_node v st wire ex node_name s)

-- A round of watchPods: the pods that are known afterwards and those that are started.
abbrev pub run_assigned : Pods → Option (List Pod) → Pods × List Pod
run_assigned known none = (known, [])
run_assigned known (some pods) = run_new_pods known pods

module _ {S : Type 0} (st : Storage S Pod) (decode : List (Write Pods.Body) → Option (List Pod))
    (node_name : Text) where
  -- getPodAssignments: any answer that decodes to a list of pods counts, whatever its status.
  abbrev pub decoded : Option (List (Write Pods.Body)) × S → Option (List Pod) × S
  decoded (none, s) = (none, s)
  decoded (some writes, s) = (decode writes, s)

  unfoldable pub get_pod_assignments : Exchange → S → Option (List Pod) × S
  get_pod_assignments ex s = decoded (exchange ex (Pods.list_pods st node_name) s)

  -- The rounds of watchPods: how the request goes, and what others do to the store before it.
  unfoldable pub watch_pods : List (Exchange × (S → S)) → Pods → S → Pods × List Pod × S
  watch_pods [] known s = (known, [], s)
  watch_pods ((ex, others) ∷ rounds) known s =
      let (assigned, s₁) = get_pod_assignments ex (others s) in
      let (known₁, started) = run_assigned known assigned in
      let (known₂, more, s₂) = watch_pods rounds known₁ s₁ in (known₂, started ++ more, s₂)

module _ {S J : Type 0} (v : Validator) (st : Storage S Pod) (wire : Wire Pod J) where
  -- updatePodStatus. The name stands in the URL as it is, so the server reads the same name.
  abbrev pub put_pod : Exchange → Pod → Option J → S → Option ServerError × S
  put_pod ex pod none s = (some marshal_failed, s)
  put_pod ex pod (some body) s =
      check_answer status_ok (exchange ex (Pods.put_route v st pod.name (wire.read_entity body)) s)

  unfoldable pub update_pod_status : Exchange → Pod → S → Option ServerError × S
  update_pod_status ex pod s = put_pod ex pod (wire.marshal pod) s

  -- The body of the loop in updatePodStatuses: the known pod gets the status before it is sent, and an
  -- error is logged.
  module _ (inspect : Text → Inspected) (ex : Text → Exchange) where
    abbrev pub report_changed : Pod → Pods → S → Pods × S
    report_changed pod known s =
        let changed = record pod { status = (get_pod_status inspect pod).0 } in
        (put known changed, (update_pod_status (ex pod.name) changed s).1)

    unfoldable pub update_one : Option Pod → Pods → S → Pods × S
    update_one none known s = (known, s)
    update_one (some pod) known s =
        if (get_pod_status inspect pod).1
        then (known, s)
        else if status_eq pod.status (get_pod_status inspect pod).0
        then (known, s)
        else report_changed pod known s

    -- A tick of updatePodStatuses: the names of the map, in the order in which Go ranges over it.
    unfoldable pub update_pod_statuses : List Text → Pods → S → Pods × S
    update_pod_statuses [] known s = (known, s)
    update_pod_statuses (name ∷ names) known s =
        let (known₁, s₁) = update_one (known name) known s in update_pod_statuses names known₁ s₁

-- ===== src/Handlers/Pods.antt =====
-- pkg/api/handlers/pod.go.
pub mod Laws
mod Examples
use gokube.Prelude.{
  Text, text_eq, Bool, true, false, not, List, [], ◌∷◌, Option, none, some, select, if◌then◌else◌,
}
use gokube.Exec.{Error, Result, ok, err, pod_already_exists, pod_invalid, pod_not_found}
use gokube.Api.{Pod, Validator}
use gokube.Storage.{Storage}
use gokube.Registry.Pods
use gokube.Handlers.{
  Write, error_write, entity_write, Handler, write_error, write_response, status_ok, status_created,
  status_no_content, status_bad_request, status_not_found, status_conflict, status_internal,
}

-- A pod, or a list of pods, as the body of an answer.
pub data Body : Type 0 where
  one : Pod → Body
  many : List Pod → Body

-- The switch of LoadPodIntoRequest.
abbrev pub load_failed : {S : Type 0} → Error → Handler S Body
load_failed pod_not_found = write_error status_not_found
load_failed _ = write_error status_internal

module _ {S : Type 0} (st : Storage S Pod) where
  load_answer : (Option Pod → Handler S Body) → Result Pod × S → List (Write Body) × S
  load_answer next (ok pod, s) = next (some pod) s
  load_answer next (err e, s) = load_failed e s

  -- LoadPodIntoRequest, with the rest of the filter chain.
  unfoldable pub load_pod_into_request : Text → (Option Pod → Handler S Body) → Handler S Body
  unfolding load_answer
  load_pod_into_request name next s = load_answer next (Pods.get_pod st name s)

  list_answer : Text → Result (List Pod) × S → List (Write Body) × S
  unfolding select
  list_answer node_name (err e, s) = write_error status_internal s
  list_answer node_name (ok pods, s) =
      write_response status_ok
        (some (
          many (
            if text_eq node_name []
            then pods
            else select (λ pod. text_eq pod.node_name node_name) pods)))
        s

  -- ListPods; the text is the query parameter `nodeName`.
  unfoldable pub list_pods : Text → Handler S Body
  unfolding list_answer
  list_pods node_name s = list_answer node_name (Pods.list_pods st s)

  -- GetPod, on the attribute that the filter sets.
  unfoldable pub get_pod : Option Pod → Handler S Body
  get_pod none = write_error status_internal
  get_pod (some pod) = write_response status_ok (some (one pod))

  delete_answer : Result (Unit {0}) × S → List (Write Body) × S
  delete_answer (ok _, s) = write_response status_no_content none s
  delete_answer (err e, s) = write_error status_internal s

  unfoldable pub delete_pod : Option Pod → Handler S Body
  unfolding delete_answer
  delete_pod none s = write_error status_internal s
  delete_pod (some pod) s = delete_answer (Pods.delete_pod st pod.name s)

  unassigned_answer : Result (List Pod) × S → List (Write Body) × S
  unassigned_answer (ok pods, s) = write_response status_ok (some (many pods)) s
  unassigned_answer (err e, s) = write_error status_internal s

  unfoldable pub list_unassigned_pods : Handler S Body
  unfolding unassigned_answer
  list_unassigned_pods s = unassigned_answer (Pods.list_unassigned_pods st s)

module _ {S : Type 0} (v : Validator) (st : Storage S Pod) where
  -- The switch on the error of CreatePod. The case of a conflict does not return: the answer for a
  -- success follows the error.
  create_failed : Pod → Error → Handler S Body
  create_failed pod pod_already_exists s =
      (error_write status_conflict ∷ entity_write status_created (one pod) ∷ [], s)
  create_failed pod pod_invalid s = write_error status_bad_request s
  create_failed pod _ s = write_error status_internal s

  create_answer : Pod → Result Pod × S → List (Write Body) × S
  unfolding create_failed
  create_answer pod (ok pod', s) = write_response status_created (some (one pod')) s
  create_answer pod (err e, s) = create_failed pod e s

  -- CreatePod, on the decoded body.
  unfoldable pub create_pod : Option Pod → Handler S Body
  unfolding create_answer
  create_pod none s = write_error status_bad_request s
  create_pod (some pod) s = create_answer pod (Pods.create_pod v st pod s)

  update_failed : Error → Handler S Body
  update_failed pod_invalid = write_error status_bad_request
  update_failed _ = write_error status_internal

  update_answer : Pod → Result (Unit {0}) × S → List (Write Body) × S
  unfolding update_failed
  update_answer pod (ok _, s) = write_response status_ok (some (one pod)) s
  update_answer pod (err e, s) = update_failed e s

  update_named : Pod → Pod → Handler S Body
  unfolding update_answer
  update_named existing updated s =
      if text_eq existing.name updated.name
      then update_answer updated (Pods.update_pod v st updated s)
      else write_error status_bad_request s

  -- UpdatePod, on the decoded body and the attribute.
  unfoldable pub update_pod : Option Pod → Option Pod → Handler S Body
  unfolding update_named
  update_pod body none s = write_error status_internal s
  update_pod none (some existing) s = write_error status_bad_request s
  update_pod (some updated) (some existing) s = update_named existing updated s

  -- RegisterPodRoutes: what the routes with a name run.
  unfoldable pub get_route : Text → Handler S Body
  unfolding get_pod load_pod_into_request
  get_route name = load_pod_into_request st name (get_pod st)

  unfoldable pub put_route : Text → Option Pod → Handler S Body
  unfolding update_pod load_pod_into_request
  put_route name body = load_pod_into_request st name (update_pod body)

  unfoldable pub delete_route : Text → Handler S Body
  unfolding delete_pod load_pod_into_request
  delete_route name = load_pod_into_request st name (delete_pod st)

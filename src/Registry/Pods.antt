-- ===== src/Registry/Pods.antt =====
-- pkg/registry/pod_registry.go. A method runs to its end before another one starts: the mutex orders
-- those of one registry, and no other process writes between the steps of a method.
pub mod Lookup
pub mod Creation
pub mod Listing
mod Examples
use gokube.Prelude.{Text, codes, Bool, true, false, List, [], ◌∷◌, ◌++◌, select, if◌then◌else◌}
use gokube.Exec.{
  Exec, Error, Result, ok, err, pure, raise, attempt, replace_error, ◌>>=◌, ◌>>◌, not_found,
  internal, pod_already_exists, pod_not_found, list_pods_failed, pod_invalid,
}
use gokube.Api.{Pod, PodStatus, pod_pending, status_eq, unset, Validator, validate_pod}
use gokube.Storage.{Storage}

abbrev pub pod_prefix : Text
pod_prefix = codes "/pods/"

abbrev pub pod_key : Text → Text
pod_key name = pod_prefix ++ name

-- `if pod.Status == "" { pod.Status = api.PodPending }`
unfoldable pub default_status : Pod → Pod
default_status pod = if status_eq pod.status unset then record pod { status = pod_pending } else pod

-- The switch of GetPod on errors.Is(err, storage.ErrNotFound).
abbrev pub lookup_error : Error → Error
lookup_error not_found = pod_not_found
lookup_error _ = internal

abbrev lookup_reply : {S : Type 0} → Result Pod × S → Result Pod × S
lookup_reply (ok pod, s) = (ok pod, s)
lookup_reply (err e, s) = (err (lookup_error e), s)

module _ {S : Type 0} (st : Storage S Pod) where
  unfoldable pub get_pod : Text → Exec S Pod
  get_pod name s = lookup_reply (st.get (pod_key name) s)

  unfoldable pub delete_pod : Text → Exec S (Unit {0})
  delete_pod name = st.delete (pod_key name)

  unfoldable pub list_pods : Exec S (List Pod)
  list_pods s = replace_error list_pods_failed (st.list pod_prefix s)

  unfoldable pub list_pods_by_status : PodStatus → Exec S (List Pod)
  unfolding list_pods select
  list_pods_by_status status s =
      replace_error list_pods_failed
        ((do pods ← list_pods; pure (select (λ pod. status_eq pod.status status) pods)) s)

  unfoldable pub list_unassigned_pods : Exec S (List Pod)
  unfolding list_pods_by_status
  list_unassigned_pods = list_pods_by_status pod_pending

  unfoldable pub list_pending_pods : Exec S (List Pod)
  unfolding list_pods_by_status
  list_pending_pods = list_pods_by_status pod_pending

module _ {S : Type 0} (v : Validator) (st : Storage S Pod) where
  store_pod : Text → Pod → Exec S Pod
  store_pod key pod =
      if validate_pod v pod then (do st.create key pod; pure pod) else raise pod_invalid

  -- The lookup's error is not looked at: any failure counts as "no such pod".
  create_if_missing : Result Pod → Text → Pod → Exec S Pod
  unfolding store_pod
  create_if_missing (ok _) key pod = raise pod_already_exists
  create_if_missing (err _) key pod = store_pod key (default_status pod)

  -- CreatePod; the caller's pod afterwards is the result.
  unfoldable pub create_pod : Pod → Exec S Pod
  unfolding create_if_missing default_status
  create_pod pod = do
    existing ← attempt (st.get (pod_key pod.name))
    create_if_missing existing (pod_key pod.name) pod

  unfoldable pub update_pod : Pod → Exec S (Unit {0})
  update_pod pod =
      if validate_pod v pod then st.update (pod_key pod.name) pod else raise pod_invalid

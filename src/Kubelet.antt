-- ===== src/Kubelet.antt =====
-- pkg/kubelet/kubelet.go: the pods that the kubelet knows, the containers it lists, and the status
-- that it derives from the states of a pod's containers. Docker is a parameter.
pub mod Status
pub mod Containers
pub mod Docker
pub mod Running
pub mod Server
mod Examples
use gokube.Prelude.{
  ℕ, zero, suc, ◌+◌, ℤ, pos, negsuc, Text, codes, text_eq, Bool, true, false, not, ◌&&◌, ◌||◌, List,
  [], ◌∷◌, ◌++◌, Option, none, some, if◌then◌else◌,
}
use gokube.Api.{
  Pod, PodStatus, pod_running, pod_failed, pod_succeeded, pod_scheduled, Container, elements,
}
use gokube.Names.{NameGenerator}

-- The exit code is an int.
pub record ContainerState : Type 0 where
  pub exists : Bool
  pub running : Bool
  pub exit_code : ℤ

abbrev pub is_zero : ℤ → Bool
is_zero (pos zero) = true
is_zero _ = false

unfoldable pub all_containers_succeeded : List ContainerState → Bool
all_containers_succeeded [] = true
all_containers_succeeded (state ∷ rest) =
    let others = all_containers_succeeded rest in
    if not (is_zero state.exit_code) then false else others

unfoldable pub any_container_running : List ContainerState → Bool
any_container_running [] = false
any_container_running (state ∷ rest) =
    let others = any_container_running rest in if state.running then true else others

unfoldable pub all_containers_failed : List ContainerState → Bool
all_containers_failed [] = true
all_containers_failed (state ∷ rest) =
    let others = all_containers_failed rest in
    if state.exists && is_zero state.exit_code then false else others

unfoldable pub any_container_exists : List ContainerState → Bool
any_container_exists [] = false
any_container_exists (state ∷ rest) =
    let others = any_container_exists rest in if state.exists then true else others

unfoldable pub determine_pod_status : List ContainerState → PodStatus
unfolding all_containers_succeeded any_container_running all_containers_failed any_container_exists
determine_pod_status states =
    if any_container_running states
    then pod_running
    else if all_containers_failed states && any_container_exists states
    then pod_failed
    else if all_containers_succeeded states
    then pod_succeeded
    else pod_scheduled

-- What ContainerInspect answers: the state, that there is no such container, or another error.
pub data Inspected : Type 0 where
  state : Bool → ℤ → Inspected
  missing : Inspected
  failed : Inspected

abbrev pub no_container : ContainerState
no_container = record { exists = false; running = false; exit_code = pos 0 }

unfoldable pub get_container_state : (Text → Inspected) → Text → Option ContainerState
get_container_state inspect name = elim (inspect name) [
  | state running code ↦ some (record { exists = true; running = running; exit_code = code })
  | missing ↦ some no_container
  | failed ↦ none
]

abbrev pub onto :
    Option ContainerState → Option (List ContainerState) → Option (List ContainerState)
onto none rest = none
onto (some s) none = none
onto (some s) (some rest) = some (s ∷ rest)

unfoldable pub container_states : (Text → Inspected) → List Container → Option (List ContainerState)
unfolding get_container_state
container_states inspect [] = some []
container_states inspect (c ∷ cs) =
    onto (get_container_state inspect c.name) (container_states inspect cs)

-- getPodStatus: the status, and whether it comes with an error.
abbrev pub status_of : Option (List ContainerState) → PodStatus × Bool
status_of none = (pod_running, true)
status_of (some states) = (determine_pod_status states, false)

unfoldable pub get_pod_status : (Text → Inspected) → Pod → PodStatus × Bool
unfolding container_states determine_pod_status
get_pod_status inspect pod = status_of (container_states inspect (elements pod.spec.containers))

-- The name under which StartContainer creates a container.
abbrev pub dash : Text
dash = codes "-"

unfoldable pub unique_container_name : {G : Type 0} → NameGenerator G → Pod → Text → G → Text × G
unique_container_name gen pod container_name g =
    gen.generate (pod.name ++ (dash ++ container_name)) g

-- The pods that the kubelet knows, by name: a map, as a function.
abbrev pub Pods : Type 0
Pods = Text → Option Pod

abbrev pub put : Pods → Pod → Pods
put pods pod name = if text_eq pod.name name then some pod else pods name

-- runNewPods: the pods known afterwards, and those that are started, in order.
unfoldable pub run_new_pods : Pods → List Pod → Pods × List Pod
run_new_pods known [] = (known, [])
run_new_pods known (pod ∷ rest) = elim (known pod.name) [
  | some _ ↦ run_new_pods known rest
  | none ↦ (let (known', started) = run_new_pods (put known pod) rest in (known', pod ∷ started))
]

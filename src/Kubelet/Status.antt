-- ===== src/Kubelet/Status.antt =====
-- What the derived status of a pod means.
use gokube.Prelude.{
  Text, true, false, ◌&&◌, ◌≡◌, refl, ◌↔◌, ◌⊎◌, inl, inr, List, [], ◌∷◌, some, Elem, All, arith, ap,
  ◌∙◌, Bool-cases,
}
use gokube.Api.{
  Pod, PodStatus, pod_running, pod_failed, pod_succeeded, pod_scheduled, Container, elements,
}
use gokube.Kubelet.{
  ContainerState, is_zero, all_containers_succeeded, any_container_running, all_containers_failed,
  any_container_exists, determine_pod_status, Inspected, missing, no_container, container_states,
  get_pod_status, get_container_state, status_of,
}

abbrev pub IsQuiet : List ContainerState → Type 0
IsQuiet states = All (λ c. c.running ≡ false) states

abbrev pub IsAllZero : List ContainerState → Type 0
IsAllZero states = All (λ c. is_zero c.exit_code ≡ true) states

-- Every container is absent or has a non-zero exit code.
abbrev pub IsAllFailed : List ContainerState → Type 0
IsAllFailed states = All (λ c. (c.exists ≡ false) ⊎ (is_zero c.exit_code ≡ false)) states

IsQuiet-iff :
    (states : List ContainerState) → (any_container_running states ≡ false) ↔ IsQuiet states
unfolding any_container_running
IsQuiet-iff [] = (λ h. tt, λ h. refl)
IsQuiet-iff (c ∷ cs) = (
  λ h. (ground arith, (IsQuiet-iff cs).0 (ground arith)),
  λ h. ground (arith, (IsQuiet-iff cs).1 h.1),
)

running_iff :
    (states : List ContainerState)
    → (any_container_running states ≡ true)
      ↔ ((c : ContainerState) × Elem c states × (c.running ≡ true))
unfolding any_container_running
running_iff [] = (λ h. cc, λ h. absurd h.1)
running_iff (c ∷ cs) = (
  λ h. elim (Bool-cases c.running) [
    | inl t ↦ (c, inl refl, t)
    | inr f ↦ let (d, m, e) = (running_iff cs).0 (ground arith) in (d, inr m, e)
  ],
  λ x. elim x.1 [
    | inl here ↦ ground (arith, ap (λ (d : ContainerState). d.running) here)
    | inr m ↦ ground (arith, (running_iff cs).1 (x.0, m, x.2))
  ],
)

exists_iff :
    (states : List ContainerState)
    → (any_container_exists states ≡ true)
      ↔ ((c : ContainerState) × Elem c states × (c.exists ≡ true))
unfolding any_container_exists
exists_iff [] = (λ h. cc, λ h. absurd h.1)
exists_iff (c ∷ cs) = (
  λ h. elim (Bool-cases c.exists) [
    | inl t ↦ (c, inl refl, t)
    | inr f ↦ let (d, m, e) = (exists_iff cs).0 (ground arith) in (d, inr m, e)
  ],
  λ x. elim x.1 [
    | inl here ↦ ground (arith, ap (λ (d : ContainerState). d.exists) here)
    | inr m ↦ ground (arith, (exists_iff cs).1 (x.0, m, x.2))
  ],
)

zero_iff :
    (states : List ContainerState) → (all_containers_succeeded states ≡ true) ↔ IsAllZero states
unfolding all_containers_succeeded
zero_iff [] = (λ h. tt, λ h. refl)
zero_iff (c ∷ cs) =
    (λ h. (ground arith, (zero_iff cs).0 (ground arith)), λ h. ground (arith, (zero_iff cs).1 h.1))

failed_all_iff :
    (states : List ContainerState) → (all_containers_failed states ≡ true) ↔ IsAllFailed states
unfolding all_containers_failed
failed_all_iff [] = (λ h. tt, λ h. refl)
failed_all_iff (c ∷ cs) = (
  λ h. (ground arith, (failed_all_iff cs).0 (ground arith)),
  λ h. ground (arith, (failed_all_iff cs).1 h.1),
)

-- If all exit codes are 0, some container exists only if not all are failed.
zero_not_failed :
    (states : List ContainerState)
    → all_containers_succeeded states ≡ true
    → (all_containers_failed states && any_container_exists states) ≡ false
unfolding all_containers_succeeded all_containers_failed any_container_exists
zero_not_failed [] h = refl
zero_not_failed (c ∷ cs) h = ground (arith, zero_not_failed cs)

-- A pod is Running exactly when a container runs; Failed exactly when none runs, some container exists
-- and every one that exists has a non-zero exit code; Succeeded exactly when none runs and every exit
-- code is 0, those of containers that do not exist included; and Scheduled in all other cases.
pub determine_pod_status_iff :
    (states : List ContainerState)
    → ((determine_pod_status states ≡ pod_running)
        ↔ ((c : ContainerState) × Elem c states × (c.running ≡ true)))
      × ((determine_pod_status states ≡ pod_failed) ↔ (
          IsQuiet states
          × IsAllFailed states
          × ((c : ContainerState) × Elem c states × (c.exists ≡ true))))
      × ((determine_pod_status states ≡ pod_succeeded) ↔ (IsQuiet states × IsAllZero states))
      × ((determine_pod_status states ≡ pod_running)
          ⊎ ((determine_pod_status states ≡ pod_failed)
              ⊎ ((determine_pod_status states ≡ pod_succeeded)
                  ⊎ (determine_pod_status states ≡ pod_scheduled))))
unfolding determine_pod_status
determine_pod_status_iff states = (
  (λ h. (running_iff states).0 (ground arith), λ x. ground (arith, (running_iff states).1 x)),
  (
    λ h. (
      (IsQuiet-iff states).0 (ground arith),
      (failed_all_iff states).0 (ground arith),
      (exists_iff states).0 (ground arith),
    ),
    λ x. ground (
      arith,
      (IsQuiet-iff states).1 x.0,
      (failed_all_iff states).1 x.1,
      (exists_iff states).1 x.2,
    ),
  ),
  (
    λ h. ((IsQuiet-iff states).0 (ground arith), (zero_iff states).0 (ground arith)),
    λ x. ground (
      arith,
      (IsQuiet-iff states).1 x.0,
      (zero_iff states).1 x.1,
      zero_not_failed states ((zero_iff states).1 x.1),
    ),
  ),
  ground arith,
)

missing_states :
    (inspect : Text → Inspected) (cs : List Container)
    → All (λ c. inspect c.name ≡ missing) cs
    → (states : List ContainerState) × (container_states inspect cs ≡ some states)
      × IsQuiet states
      × IsAllZero states
unfolding container_states
missing_states inspect [] h = ([], refl, tt, tt)
missing_states inspect (c ∷ cs) h =
    let (states, e, quiet, zero) = missing_states inspect cs h.1 in
    (no_container ∷ states, rw (h.0, get_container_state, e) refl, (refl, quiet), (refl, zero))

-- A pod none of whose containers exists in Docker, started or not, is reported as Succeeded.
pub get_pod_status_missing :
    (inspect : Text → Inspected) (pod : Pod)
    → All (λ c. inspect c.name ≡ missing) (elements pod.spec.containers)
    → get_pod_status inspect pod ≡ (pod_succeeded, false)
unfolding get_pod_status
get_pod_status_missing inspect pod h =
    let (states, e, quiet, zero) = missing_states inspect (elements pod.spec.containers) h in
    ap status_of e
    ∙ ap (λ (s : PodStatus). (s, false)) ((determine_pod_status_iff states).2.1 (quiet, zero))

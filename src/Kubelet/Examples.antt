-- ===== src/Kubelet/Examples.antt =====
-- The kubelet's status and its known pods on small inputs.
use gokube.Prelude.{
  Text, Bool, Option, some, inl, text_eq, text_eq_refl, text_eq_iff, if◌then◌else◌, codes, ◌≡◌,
  refl, ◌⊎◌, ◌↔◌, true, false, pos, [], ◌∷◌, none, Elem, arith,
}
use gokube.Api.{pod_running, pod_failed, pod_succeeded, pod_scheduled}
use gokube.Memory.Samples.{web, running_web}
use gokube.Kubelet.{
  all_containers_succeeded, any_container_running, all_containers_failed, any_container_exists,
  ContainerState, missing, determine_pod_status, get_pod_status, Pods,
}
use gokube.Kubelet.Docker
use gokube.Kubelet.Docker.{
  DockerContainer, pod_label, Remove, IsDocker, cleanup_containers, cleanup_removes, cleanup_keeps,
}
use gokube.Kubelet.Status.{
  IsQuiet, IsAllFailed, IsAllZero, determine_pod_status_iff, get_pod_status_missing,
}

abbrev crashed : ContainerState
crashed = record { exists = true; running = false; exit_code = pos 1 }

determine_pod_status_iff_example :
    ((determine_pod_status (crashed ∷ []) ≡ pod_running)
      ↔ ((c : ContainerState) × Elem c (crashed ∷ []) × (c.running ≡ true)))
    × ((determine_pod_status (crashed ∷ []) ≡ pod_failed) ↔ (
        IsQuiet (crashed ∷ [])
        × IsAllFailed (crashed ∷ [])
        × ((c : ContainerState) × Elem c (crashed ∷ []) × (c.exists ≡ true))))
    × ((determine_pod_status (crashed ∷ []) ≡ pod_succeeded)
        ↔ (IsQuiet (crashed ∷ []) × IsAllZero (crashed ∷ [])))
    × ((determine_pod_status (crashed ∷ []) ≡ pod_running)
        ⊎ ((determine_pod_status (crashed ∷ []) ≡ pod_failed)
            ⊎ ((determine_pod_status (crashed ∷ []) ≡ pod_succeeded)
                ⊎ (determine_pod_status (crashed ∷ []) ≡ pod_scheduled))))
determine_pod_status_iff_example = determine_pod_status_iff (crashed ∷ [])

get_pod_status_missing_example : get_pod_status (λ _. missing) web ≡ (pod_succeeded, false)
get_pod_status_missing_example = get_pod_status_missing (λ _. missing) web (refl, tt)

abbrev nothing : Pods
nothing _ = none

abbrev named_web : Text → Option Text
named_web label = if text_eq label pod_label then some (codes "web") else none

abbrev web_in_docker : DockerContainer
web_in_docker = record { id = codes "7f"; state = codes "running"; labels = named_web }

abbrev docker_remove : Remove (Text → Bool)
docker_remove id d = (true, λ j. if text_eq id j then false else d j)

docker_remove-IsDocker : IsDocker docker_remove
docker_remove-IsDocker = record {
  present = λ d j. d j;
  removed = λ id d h. ground (arith, text_eq_refl id);
  apart = λ id j d ne. ground (arith, text_eq_iff id j);
  only_removes = λ id j d h. ground (arith, h);
}

abbrev knows_web : Pods
knows_web name = some running_web

web_is_here : Docker.pod_of knows_web (codes "n1") web_in_docker ≡ some running_web
unfolding Docker.pod_of text_eq
web_is_here = refl

cleanup_removes_example :
    cleanup_containers knows_web
      (codes "n1")
      docker_remove
      (web_in_docker ∷ [])
      (λ _. true)
      (codes "7f")
    ≡ false
unfolding docker_remove-IsDocker
cleanup_removes_example =
    cleanup_removes knows_web (codes "n1") docker_remove docker_remove-IsDocker (web_in_docker ∷ [])
      (λ _. true) web_in_docker running_web (λ id e. refl) (inl refl) web_is_here

-- types.go documents Failed as all containers terminated and at least one with a failure.
abbrev ended_well : ContainerState
ended_well = record { exists = true; running = false; exit_code = pos 0 }

mixed_is_scheduled : determine_pod_status (crashed ∷ ended_well ∷ []) ≡ pod_scheduled
unfolding determine_pod_status all_containers_succeeded any_container_running all_containers_failed
    any_container_exists
mixed_is_scheduled = refl

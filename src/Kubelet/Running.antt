-- ===== src/Kubelet/Running.antt =====
-- pkg/kubelet/kubelet.go: runPod and StartContainer. The calls of Docker are parameters.
pub mod Laws
pub mod Naming
mod Examples
use gokube.Prelude.{
  ℕ, Text, codes, text_eq, Bool, true, false, List, [], ◌∷◌, Option, none, some, if◌then◌else◌,
}
use gokube.Api.{Pod, Container, elements}
use gokube.Names.{NameGenerator}
use gokube.Kubelet.{unique_container_name}
use gokube.Kubelet.Docker.{pod_label, container_label}

-- ImagePull with the copy of its output: an error of the call, of the copy, or none.
pub data Pulled : Type 0 where
  no_pull no_copy pulled : Pulled

-- ImagePull of an image; ContainerCreate with a name, an image and labels, which answers with an id; and
-- ContainerStart of an id.
pub record Runtime (D : Type 0) : Type 0 where
  pub image_pull : Text → D → Pulled × D
  pub container_create : Text → Text → (Text → Option Text) → D → Option Text × D
  pub container_start : Text → D → Bool × D

-- The ends of StartContainer: the panic after ImagePull, one for each error, and the id.
pub data Outcome : Type 0 where
  panicked pull_failed create_failed start_failed : Outcome
  started : Text → Outcome

-- The map of labels.
abbrev pub namespace_label : Text
namespace_label = codes "gokube.pod.namespace"

unfoldable pub labels_of : Pod → Text → Text → Option Text
labels_of pod container_name label =
    if text_eq label pod_label
    then some pod.name
    else if text_eq label namespace_label
    then some pod.namespace
    else if text_eq label container_label
    then some container_name
    else none

module _ {G D : Type 0} (gen : NameGenerator G) (docker : Runtime D) where
  abbrev pub start_answer : Text → G → Bool × D → Outcome × G × D
  start_answer id g (true, d) = (started id, g, d)
  start_answer id g (false, d) = (start_failed, g, d)

  abbrev pub create_answer : G → Option Text × D → Outcome × G × D
  create_answer g (none, d) = (create_failed, g, d)
  create_answer g (some id, d) = start_answer id g (docker.container_start id d)

  abbrev pub pull_answer : Pod → Container → G → Pulled × D → Outcome × G × D
  pull_answer pod c g (no_pull, d) = (panicked, g, d)
  pull_answer pod c g (no_copy, d) = (pull_failed, g, d)
  pull_answer pod c g (pulled, d) =
      let (name, g₁) = unique_container_name gen pod c.name g in
      create_answer g₁ (docker.container_create name c.image (labels_of pod c.name) d)

  unfoldable pub start_container : Pod → Container → G → D → Outcome × G × D
  start_container pod c g d = pull_answer pod c g (docker.image_pull c.image d)

  -- The loop of runPod: an error is logged, a panic ends the process. The list holds the outcomes.
  abbrev pub go_on : (G → D → List Outcome × G × D) → Outcome × G × D → List Outcome × G × D
  go_on rest (panicked, g, d) = (panicked ∷ [], g, d)
  go_on rest (pull_failed, g, d) = (let (os, g₁, d₁) = rest g d in (pull_failed ∷ os, g₁, d₁))
  go_on rest (create_failed, g, d) = (let (os, g₁, d₁) = rest g d in (create_failed ∷ os, g₁, d₁))
  go_on rest (start_failed, g, d) = (let (os, g₁, d₁) = rest g d in (start_failed ∷ os, g₁, d₁))
  go_on rest (started id, g, d) = (let (os, g₁, d₁) = rest g d in (started id ∷ os, g₁, d₁))

  unfoldable pub start_containers : Pod → List Container → G → D → List Outcome × G × D
  start_containers pod [] g d = ([], g, d)
  start_containers pod (c ∷ cs) g d = go_on (start_containers pod cs) (start_container pod c g d)

  unfoldable pub run_pod : Pod → G → D → List Outcome × G × D
  run_pod pod = start_containers pod (elements pod.spec.containers)

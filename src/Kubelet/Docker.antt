-- ===== src/Kubelet/Docker.antt =====
-- pkg/kubelet/kubelet.go: ListContainers and CleanupContainers, on the containers that Docker lists.
use gokube.Prelude.{
  Text, codes, text_eq, Bool, true, false, List, [], ◌∷◌, ◌++◌, sym, ◌∙◌, Option, Option-cases,
  none, some, ◌≡◌, ◌≢◌, refl, inl, inr, Elem, if◌then◌else◌,
}
use gokube.Api.{Pod, Container, elements}
use gokube.Kubelet.{Pods}

pub record DockerContainer : Type 0 where
  pub id : Text
  pub state : Text
  pub labels : Text → Option Text

pub record ContainerStatus : Type 0 where
  pub pod_name : Text
  pub container_name : Text
  pub container_id : Text
  pub status : Text

abbrev pub pod_label : Text
pod_label = codes "gokube.pod.name"

abbrev pub container_label : Text
container_label = codes "gokube.container.name"

-- A missing label reads as the empty string.
abbrev pub or_empty : Option Text → Text
or_empty none = []
or_empty (some t) = t

-- `for … { if containerSpec.Name == … { …; break } }`
unfoldable pub find_spec : Text → List Container → Option Container
find_spec name [] = none
find_spec name (c ∷ cs) =
    let rest = find_spec name cs in if text_eq c.name name then some c else rest

module _ (known : Pods) (node_name : Text) where
  abbrev pub on_this_node : Option Pod → Option Pod
  on_this_node none = none
  on_this_node (some pod) = if text_eq pod.node_name node_name then some pod else none

  abbrev pub known_pod : Option Text → Option Pod
  known_pod none = none
  known_pod (some name) = on_this_node (known name)

  -- The pod of a container, if the kubelet knows it and it is on this node.
  unfoldable pub pod_of : DockerContainer → Option Pod
  pod_of c = known_pod (c.labels pod_label)

  abbrev pub status_of : DockerContainer → Option Container → List ContainerStatus
  status_of c none = []
  status_of c (some spec) =
      record {
        pod_name = or_empty (c.labels pod_label);
        container_name = spec.name;
        container_id = c.id;
        status = c.state;
      }
      ∷ []

  abbrev pub listed_of : DockerContainer → Option Pod → List ContainerStatus
  listed_of c none = []
  listed_of c (some pod) =
      status_of c (find_spec (or_empty (c.labels container_label)) (elements pod.spec.containers))

  unfoldable pub list_containers : List DockerContainer → List ContainerStatus
  unfolding pod_of find_spec
  list_containers [] = []
  list_containers (c ∷ cs) = listed_of c (pod_of c) ++ list_containers cs

-- ContainerRemove, by force: whether it succeeded, and Docker afterwards.
abbrev pub Remove : Type 0 → Type 0
Remove D = Text → D → Bool × D

module _ (known : Pods) (node_name : Text) {D : Type 0} (remove : Remove D) where
  abbrev pub remove_if_mine : Option Pod → Text → D → D
  remove_if_mine none id d = d
  remove_if_mine (some _) id d = (remove id d).1

  -- CleanupContainers: a removal that fails is logged, and the loop goes on.
  unfoldable pub cleanup_containers : List DockerContainer → D → D
  unfolding pod_of
  cleanup_containers [] d = d
  cleanup_containers (c ∷ cs) d =
      cleanup_containers cs (remove_if_mine (pod_of known node_name c) c.id d)

-- What Docker documents of a removal: one that succeeds takes the container away, one that fails may
-- have, and neither touches another container.
pub record IsDocker {D : Type 0} (remove : Remove D) : Type 0 where
  pub present : D → Text → Bool
  pub removed : (id : Text) (d : D) → (remove id d).0 ≡ true → present (remove id d).1 id ≡ false
  pub apart : (id j : Text) (d : D) → id ≢ j → present (remove id d).1 j ≡ present d j
  pub only_removes : (id j : Text) (d : D) → present d j ≡ false → present (remove id d).1 j ≡ false

module _ (known : Pods) (node_name : Text) {D : Type 0} (remove : Remove D)
    (docker : IsDocker remove) where
  stays_absent :
      (cs : List DockerContainer) (d : D) (j : Text)
      → docker.present d j ≡ false
      → docker.present (cleanup_containers known node_name remove cs d) j ≡ false
  unfolding cleanup_containers
  stays_absent [] d j h = h
  stays_absent (c ∷ cs) d j h = elim (Option-cases (pod_of known node_name c)) [
    | inl e ↦ rw e (stays_absent cs d j h)
    | inr (p, e) ↦ rw e (stays_absent cs (remove c.id d).1 j (docker.only_removes c.id j d h))
  ]

  -- If every removal succeeds, a cleanup takes away each listed container of a pod that the kubelet
  -- knows and that is on its node.
  pub cleanup_removes :
      (cs : List DockerContainer) (d : D) (c : DockerContainer) (pod : Pod)
      → ((id : Text) (e : D) → (remove id e).0 ≡ true)
      → Elem c cs
      → pod_of known node_name c ≡ some pod
      → docker.present (cleanup_containers known node_name remove cs d) c.id ≡ false
  unfolding cleanup_containers
  cleanup_removes [] d c pod works m mine = absurd m
  cleanup_removes (b ∷ cs) d c pod works (inl same) mine =
      rw (← same, mine)
        (stays_absent cs (remove c.id d).1 c.id (docker.removed c.id d (works c.id d)))
  cleanup_removes (b ∷ cs) d c pod works (inr m) mine = cleanup_removes cs _ c pod works m mine

  -- Whether removals succeed or not, a cleanup leaves every container that is not listed as one of a
  -- known pod on this node.
  pub cleanup_keeps :
      (cs : List DockerContainer) (d : D) (j : Text)
      → ((c : DockerContainer) → Elem c cs → c.id ≡ j → pod_of known node_name c ≡ none)
      → docker.present (cleanup_containers known node_name remove cs d) j ≡ docker.present d j
  unfolding cleanup_containers
  cleanup_keeps [] d j others = refl
  cleanup_keeps (c ∷ cs) d j others = elim (Option-cases (pod_of known node_name c)) [
    | inl e ↦ rw e (cleanup_keeps cs d j (λ b m. others b (inr m)))
    | inr (p, e) ↦ rw e (
        cleanup_keeps cs (remove c.id d).1 j (λ b m. others b (inr m))
        ∙ docker.apart c.id j d (λ x. clash p (sym e ∙ others c (inl refl) x)))
  ]
    where
      clash : (p : Pod) → some p ≡ none → ⊥
      clash p x = cc

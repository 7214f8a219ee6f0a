-- ===== src/Kubelet/Running/Laws.antt =====
-- The containers that a pod's start leaves in Docker.
use gokube.Prelude.{
  Text, text_eq, text_eq_iff, Bool, true, false, List, [], ◌∷◌, Option, none, some, if◌then◌else◌,
  ◌≡◌, refl, ap, ◌∙◌, sym, inl, inr, Elem, Elem-left, Elem-right, arith, Bool-cases, subst,
}
use gokube.Api.{Pod, Container, elements}
use gokube.Names.{NameGenerator}
use gokube.Kubelet.{Pods, unique_container_name}
use gokube.Kubelet.Docker.{
  DockerContainer, ContainerStatus, pod_label, container_label, or_empty, find_spec, pod_of,
  listed_of, status_of, known_pod, on_this_node, list_containers,
}
use gokube.Kubelet.Running.{
  Pulled, no_pull, no_copy, pulled, Runtime, Outcome, started, labels_of, start_answer,
  create_answer, pull_answer, start_container,
}

-- What Docker documents: a container that was created has the labels it was given; it is listed once it
-- was started, while it runs.
pub record IsRuntime {D : Type 0} (docker : Runtime D) : Type 1 where
  pub containers : D → List DockerContainer
  pub labelled : D → Text → (Text → Option Text) → Type 0
  pub created :
      (name image id : Text) (labels : Text → Option Text) (d : D)
      → (docker.container_create name image labels d).0 ≡ some id
      → labelled (docker.container_create name image labels d).1 id labels
  pub listed :
      (id : Text) (labels : Text → Option Text) (d : D)
      → labelled d id labels
      → (docker.container_start id d).0 ≡ true
      → (c : DockerContainer) × Elem c (containers (docker.container_start id d).1)
        × (c.id ≡ id)
        × (c.labels ≡ labels)

label_of_pod : (pod : Pod) (name : Text) → labels_of pod name pod_label ≡ some pod.name
unfolding labels_of text_eq
label_of_pod pod name = refl

label_of_container : (pod : Pod) (name : Text) → labels_of pod name container_label ≡ some name
unfolding labels_of text_eq
label_of_container pod name = refl

found :
    (name : Text) (cs : List Container) (b : Container)
    → Elem b cs
    → b.name ≡ name
    → (c : Container) × (find_spec name cs ≡ some c) × (c.name ≡ name)
unfolding find_spec
found name [] b m e = absurd m
found name (c ∷ cs) b (inl h) e =
    let same : c.name ≡ name = ap (λ (x : Container). x.name) (sym h) ∙ e in
    (c, ap (λ t. if t then some c else find_spec name cs) ((text_eq_iff c.name name).1 same), same)
found name (c ∷ cs) b (inr m) e = elim (Bool-cases (text_eq c.name name)) [
  | inl t ↦ (c, ap (λ t. if t then some c else find_spec name cs) t, (text_eq_iff c.name name).0 t)
  | inr t ↦
      let (x, f, same) = found name cs b m e in
      (x, ap (λ t. if t then some c else find_spec name cs) t ∙ f, same)
]

-- The status of a started container in the list.
abbrev pub Shows : Pod → Text → Text → ContainerStatus → Type 0
Shows pod name id status =
    (status.pod_name ≡ pod.name) × (status.container_name ≡ name) × (status.container_id ≡ id)

module _ (known : Pods) (node_name : Text) where
  listed_status :
      (cs : List DockerContainer) (c : DockerContainer) (status : ContainerStatus)
      → Elem c cs
      → listed_of known node_name c (pod_of known node_name c) ≡ status ∷ []
      → Elem status (list_containers known node_name cs)
  unfolding list_containers
  listed_status [] c status m h = absurd m
  listed_status (d ∷ cs) c status (inl e) h =
      Elem-left status (listed_of known node_name d (pod_of known node_name d))
        (list_containers known node_name cs)
        (subst (λ x. Elem status (listed_of known node_name x (pod_of known node_name x))) e
          (subst (Elem status) (sym h) (inl refl)))
  listed_status (d ∷ cs) c status (inr m) h =
      Elem-right status (listed_of known node_name d (pod_of known node_name d))
        (list_containers known node_name cs) (listed_status cs c status m h)

  shown :
      (pod : Pod) (b : Container) (c : DockerContainer)
      → known pod.name ≡ some pod
      → pod.node_name ≡ node_name
      → Elem b (elements pod.spec.containers)
      → c.labels ≡ labels_of pod b.name
      → (status : ContainerStatus) × (listed_of known node_name c (pod_of known node_name c)
          ≡ status ∷ [])
        × Shows pod b.name c.id status
  unfolding pod_of
  shown pod b c k n m l =
      let (spec, f, same) = found b.name (elements pod.spec.containers) b m refl in
      let podl = ap (λ ls. ls pod_label) l ∙ label_of_pod pod b.name in
      let conl = ap (λ ls. ls container_label) l ∙ label_of_container pod b.name in
      let here : pod_of known node_name c ≡ some pod =
        ap (known_pod known node_name) podl
        ∙ ap (on_this_node known node_name) k
        ∙ ap (λ t. if t then some pod else none) ((text_eq_iff pod.node_name node_name).1 n) in
      (
        record {
          pod_name = or_empty (c.labels pod_label);
          container_name = spec.name;
          container_id = c.id;
          status = c.state;
        },
        ap (listed_of known node_name c) here
            ∙ ap
                (λ name.
                  status_of known node_name c
                    (find_spec (or_empty name) (elements pod.spec.containers)))
                conl
            ∙ ap (status_of known node_name c) f,
        (ap or_empty podl, same, refl),
      )

abbrev id_of : Outcome → Text
id_of (started id) = id
id_of _ = []

module _ {G D : Type 0} (gen : NameGenerator G) (docker : Runtime D) (rt : IsRuntime docker)
    (known : Pods) (node_name : Text) where
  IsListed : D → Text → (Text → Option Text) → Type 0
  IsListed d id labels =
      (c : DockerContainer) × Elem c (rt.containers d) × (c.id ≡ id) × (c.labels ≡ labels)

  start_lists :
      (id id' : Text) (labels : Text → Option Text) (g : G) (r : Bool × D)
      → (r.0 ≡ true → IsListed r.1 id labels)
      → (start_answer gen docker id g r).0 ≡ started id'
      → IsListed (start_answer gen docker id g r).2 id' labels
  start_lists id id' labels g (true, d) h e = subst (λ i. IsListed d i labels) (ap id_of e) (h refl)
  start_lists id id' labels g (false, d) h e = absurd (ground (arith, e))

  create_lists :
      (id' : Text) (labels : Text → Option Text) (g : G) (r : Option Text × D)
      → ((id : Text) → r.0 ≡ some id → rt.labelled r.1 id labels)
      → (create_answer gen docker g r).0 ≡ started id'
      → IsListed (create_answer gen docker g r).2 id' labels
  create_lists id' labels g (none, d) h e = absurd (ground (arith, e))
  create_lists id' labels g (some id, d) h e =
      start_lists id id' labels g (docker.container_start id d)
        (λ t. unfold IsListed in rt.listed id labels d (h id refl) t) e

  pull_lists :
      (pod : Pod) (b : Container) (id' : Text) (g : G) (r : Pulled × D)
      → (pull_answer gen docker pod b g r).0 ≡ started id'
      → IsListed (pull_answer gen docker pod b g r).2 id' (labels_of pod b.name)
  pull_lists pod b id' g (no_pull, d) e = absurd (ground (arith, e))
  pull_lists pod b id' g (no_copy, d) e = absurd (ground (arith, e))
  pull_lists pod b id' g (pulled, d) e =
      let (name, g₁) = unique_container_name gen pod b.name g in
      create_lists id' (labels_of pod b.name) g₁
        (docker.container_create name b.image (labels_of pod b.name) d)
        (λ id. rt.created name b.image id (labels_of pod b.name) d) e

  -- StartContainer, where it succeeds for a container of a pod that the kubelet knows and that is on its
  -- node, leaves one that ListContainers shows: with the pod's name, the container's own name, whatever
  -- unique name was drawn, and the id that Docker gave.
  pub started_is_listed :
      (pod : Pod) (b : Container) (g : G) (d : D) (id : Text)
      → known pod.name ≡ some pod
      → pod.node_name ≡ node_name
      → Elem b (elements pod.spec.containers)
      → (start_container gen docker pod b g d).0 ≡ started id
      → (status : ContainerStatus) × Elem status
          (list_containers known node_name (rt.containers (start_container gen docker pod b g d).2))
        × Shows pod b.name id status
  unfolding start_container IsListed
  started_is_listed pod b g d id k n m h =
      let (c, mc, i, l) = pull_lists pod b id g (docker.image_pull b.image d) h in
      let (status, e, (p, q, r)) = shown known node_name pod b c k n m l in
      let d' = (pull_answer gen docker pod b g (docker.image_pull b.image d)).2 in
      (status, listed_status known node_name (rt.containers d') c status mc e, (p, q, r ∙ i))

-- ===== src/Kubelet/Running/Examples.antt =====
-- A Docker that keeps the containers that were created, and starts them.
use mathlib.Core.Option.{some_inj}
use gokube.Prelude.{
  ◌≢◌, text_eq, text_eq_ne, pos, if◌then◌else◌, arith, starts_with, false, ap, Text, codes, true,
  List, [], ◌∷◌, Option, some, ◌≡◌, refl, inl, Elem,
}
use gokube.Memory.Samples.{counting, running_web, web_container}
use gokube.Kubelet.Running.Naming.{IsInspected, start_container_unseen}
use gokube.Kubelet.{Inspected, state, missing, get_container_state, Pods, unique_container_name}
use gokube.Kubelet.Docker.{DockerContainer, ContainerStatus, list_containers}
use gokube.Kubelet.Running.{pulled, Runtime, started, start_container}
use gokube.Kubelet.Running.Laws.{IsRuntime, Shows, started_is_listed}

abbrev container : Text → (Text → Option Text) → DockerContainer
container id labels = record { id = id; state = codes "running"; labels = labels }

abbrev docker : Runtime (List DockerContainer)
docker = record {
  image_pull = λ image d. (pulled, d);
  container_create = λ name image labels d. (some name, container name labels ∷ d);
  container_start = λ id d. (true, d);
}

abbrev docker-IsRuntime : IsRuntime docker
docker-IsRuntime = record {
  containers = λ d. d;
  labelled = λ d id labels. (c : DockerContainer) × Elem c d × (c.id ≡ id) × (c.labels ≡ labels);
  created = λ name image id labels d h. (container name labels, inl refl, some_inj.0 h, refl);
  listed = λ id labels d h t. h;
}

abbrev knows_web : Pods
knows_web name = some running_web

abbrev drawn : Text
drawn = (unique_container_name counting running_web (codes "web") 0).0

web_started : (start_container counting docker running_web web_container 0 []).0 ≡ started drawn
unfolding start_container
web_started = refl

started_is_listed_example :
    (status : ContainerStatus) × Elem status (
      list_containers knows_web
        (codes "n1")
        (start_container counting docker running_web web_container 0 []).2)
    × Shows running_web (codes "web") drawn status
started_is_listed_example =
    started_is_listed counting docker docker-IsRuntime knows_web (codes "n1") running_web
      web_container 0 [] drawn refl refl (inl refl) web_started

-- A Docker that gives the id 7f, as what an inspection finds under a name.
abbrev on_create : Text → (Text → Inspected) → Text → Inspected
on_create name d m = if text_eq m name then state true (pos 0) else d m

elsewhere : (name m : Text) (d : Text → Inspected) → m ≢ name → on_create name d m ≡ d m
elsewhere name m d ne = ground (arith, text_eq_ne m name ne)

abbrev inspected : Runtime (Text → Inspected)
inspected = record {
  image_pull = λ image d. (pulled, d);
  container_create = λ name image labels d. (some (codes "7f"), on_create name d);
  container_start = λ id d. (true, d);
}

abbrev inspected-IsInspected : IsInspected inspected
inspected-IsInspected = record {
  inspect = λ d m. d m;
  IsId = λ id. id ≡ codes "7f";
  IsNamed = λ d id name. Unit;
  pull_keeps = λ image m d. refl;
  create_names = λ name image id labels d h. tt;
  create_keeps = λ name image m labels d other no_id. elsewhere name m d other.0;
  start_keeps = λ id name m d named other no_id. refl;
}

web_is_no_id : (id : Text) → id ≡ codes "7f" → starts_with (codes "web") id ≡ false
unfolding starts_with
web_is_no_id id e = ap (starts_with (codes "web")) e

start_container_unseen_example :
    get_container_state
      (start_container counting inspected running_web web_container 0 (λ m. missing)).2
      (codes "web")
    ≡ get_container_state (λ m. missing) (codes "web")
start_container_unseen_example =
    start_container_unseen counting inspected inspected-IsInspected running_web web_container 0
      (λ m. missing) (omega arith) web_is_no_id

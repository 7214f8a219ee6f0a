-- ===== src/Controller.antt =====
-- pkg/controller/replica_set_controller.go. The state is the store and the name generator's state.
-- One reconciliation runs to its end before another process writes.
pub mod Counting
pub mod Growth
pub mod Reconciliation
pub mod Comparison
pub mod Outcome
pub mod Convergence
mod Examples
use gokube.Prelude.{
  ℕ, zero, suc, ◌-◌, ℤ, pos, negsuc, ltb_ℤ, Text, codes, Bool, true, false, List, [], ◌∷◌, length,
  select, if◌then◌else◌,
}
use gokube.Exec.{Exec, Result, ok, err, pure, ◌>>=◌, ◌>>◌}
use gokube.Api.{
  Pod, PodSpec, PodStatus, unset, Slice, items, elements, Container, ObjectMeta, named, ReplicaSet,
  ReplicaSetStatus, Validator, is_pod_active_and_owned_by, is_owned_by,
}
use gokube.Storage.{Storage}
use gokube.Names.{NameGenerator}
use gokube.Registry.Pods.{create_pod, list_pods}
use gokube.Registry.ReplicaSets

unfoldable pub get_pods_for_replica_set :
    ReplicaSet → List Pod → (Pod → ObjectMeta → Bool) → List Pod
unfolding select
get_pods_for_replica_set rs all_pods condition = select (λ pod. condition pod rs.meta) all_pods

unfoldable pub get_pods_owned_by : ReplicaSet → List Pod → List Pod
unfolding get_pods_for_replica_set
get_pods_owned_by rs pods = get_pods_for_replica_set rs pods is_owned_by

-- The pod made for one container of the template.
abbrev pub new_pod : Text → Container → Pod
new_pod name container = record {
  meta = named name;
  spec = record { containers = items (container ∷ []); replicas = pos 0 };
  node_name = [];
  status = unset;
}

-- How often `for i := currentPodCount; i < desiredPodCount; i++` goes round.
abbrev pub rounds : ℕ → ℤ → ℕ
rounds current (pos desired) = desired - current
rounds current (negsuc n) = 0

abbrev pub set_status_replicas : ReplicaSet → ℤ → ReplicaSet
set_status_replicas rs n = record rs { status = record rs.status { replicas = n } }

abbrev pub on_store : {S G A : Type 0} → Exec S A → Exec (S × G) A
on_store m (s, g) = let (r, s') = m s in (r, (s', g))

module _ {S G : Type 0} (v : Validator) (gen : NameGenerator G) (sp : Storage S Pod)
    (sr : Storage S ReplicaSet) where
  -- generatePodNameFromReplicaSet
  generate_pod_name : Text → Exec (S × G) Text
  generate_pod_name base (s, g) = let (name, g') = gen.generate base g in (ok name, (s, g'))

  unfoldable pub create_one : Text → Container → Exec (S × G) (Unit {0})
  unfolding generate_pod_name
  create_one base container = do
    name ← generate_pod_name base
    pod ← on_store (create_pod v sp (new_pod name container))
    pure tt

  -- The inner loop, over the containers of the template.
  unfoldable pub create_for_containers : Text → List Container → Exec (S × G) (Unit {0})
  create_for_containers base [] = pure tt
  create_for_containers base (container ∷ rest) = do
    create_one base container
    create_for_containers base rest

  -- The outer loop, by the rounds left.
  unfoldable pub create_rounds : Text → List Container → ℕ → Exec (S × G) (Unit {0})
  create_rounds base containers zero = pure tt
  create_rounds base containers (suc k) = do
    create_for_containers base containers
    create_rounds base containers k

  update_status : ReplicaSet → ℤ → Exec (S × G) (Unit {0})
  update_status current desired =
      on_store (ReplicaSets.update sr (set_status_replicas current desired))

  unfoldable pub compare_counts : ReplicaSet → ℕ → ℤ → Exec (S × G) (Unit {0})
  unfolding update_status
  compare_counts current count desired =
      if ltb_ℤ (pos count) desired
      then (do
        create_rounds current.name (elements current.spec.template.spec.containers)
            (rounds count desired)
        update_status current desired)
      else if ltb_ℤ desired (pos count)
      then update_status current desired
      else pure tt

  unfoldable pub reconcile : ReplicaSet → Exec (S × G) (Unit {0})
  unfolding compare_counts get_pods_for_replica_set
  reconcile rs = do
    current ← on_store (ReplicaSets.get sr rs.name)
    all_pods ← on_store (list_pods sp)
    let active_pods = get_pods_for_replica_set current all_pods is_pod_active_and_owned_by
    compare_counts current (length active_pods) current.spec.replicas

  -- Run: the first error ends the process by log.Fatalf, here the computation.
  reconcile_all : List ReplicaSet → Exec (S × G) (Unit {0})
  reconcile_all [] = pure tt
  reconcile_all (rs ∷ rest) = do reconcile rs; reconcile_all rest

  unfoldable pub run : Exec (S × G) (Unit {0})
  unfolding reconcile_all
  run = do sets ← on_store (ReplicaSets.list sr); reconcile_all sets

  -- Start, over the ticks before its context is done; a tick is what others do to the store before it.
  -- Run ends the process at its first error, so no tick follows, and `true` stands for that.
  abbrev pub go_on : (S × G → Bool × (S × G)) → Result (Unit {0}) × (S × G) → Bool × (S × G)
  go_on rest (ok _, w) = rest w
  go_on rest (err _, w) = (true, w)

  unfoldable pub start : List (S → S) → S × G → Bool × (S × G)
  start [] w = (false, w)
  start (others ∷ ticks) (s, g) = go_on (start ticks) (run (others s, g))

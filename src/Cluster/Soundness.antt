-- ===== src/Cluster/Soundness.antt =====
-- Every run of the cluster keeps the stored pods sound.
use gokube.Prelude.{
  ℕ, zero, suc, ℤ, pos, ltb_ℤ, Text, starts_with, List, [], ◌∷◌, ◌≡◌, ◌≢◌, sym, ◌∙◌, true, false,
  Bool-cases, inl, inr, arith,
}
use gokube.Exec.{pure, >>=-keeps}
use gokube.Api.{Pod, Node, ReplicaSet, Container, elements, Validator}
use gokube.Storage.{Storage, Lawful, holds, Neighbour}
use gokube.Names.{NameGenerator}
use gokube.Registry.PathJoin.{IsPlain}
use gokube.Registry.Pods.{pod_prefix, create_pod, default_status, list_pods}
use gokube.Registry.Pods.Creation.{
  IsSound, create_pod-IsSound, update_pod-IsSound, delete_pod-IsSound,
}
use gokube.Registry.Nodes.{node_key, create_node, update_node, delete_node}
use gokube.Registry.Nodes.Keys.{node_key_plain}
use gokube.Registry.ReplicaSets
use gokube.Registry.ReplicaSets.{replica_set_key}
use gokube.Scheduler.Passes.{schedule-IsSound}
use gokube.Controller.{
  create_one, create_for_containers, create_rounds, compare_counts, reconcile, on_store, new_pod,
  rounds, set_status_replicas,
}
use gokube.Controller.Comparison.{keys_apart}
use gokube.Cluster.{
  Step, pod_created, pod_updated, pod_deleted, node_created, node_updated, node_deleted,
  set_created, set_updated, set_deleted, scheduled, reconciled, Steps, start, then,
}

nodes_apart : (name j : Text) → IsPlain name → starts_with pod_prefix j ≡ true → node_key name ≢ j
unfolding starts_with
nodes_apart name j p pre e = absurd (clash (rw (← e, node_key_plain name p) at pre))
  where
    clash : false ≡ true → ⊥
    clash x = cc

module _ {S : Type 0} (v : Validator) (sp : Storage S Pod) (sn : Storage S Node)
    (sr : Storage S ReplicaSet) (l : Lawful sp) (exact : (p : Pod) → l.written p ≡ holds p)
    (near_nodes : Neighbour sn l.slot) (near_sets : Neighbour sr l.slot) where
  abbrev Sound : S → Type 0
  Sound s = IsSound v l.slot s

  same-IsSound :
      (s t : S)
      → ((j : Text) → starts_with pod_prefix j ≡ true → l.slot t j ≡ l.slot s j)
      → Sound s
      → Sound t
  same-IsSound s t same sound = record {
    valid = λ j p pre h. sound.valid j p pre (sym (same j pre) ∙ h);
    named = λ j p pre h. sound.named j p pre (sym (same j pre) ∙ h);
  }

  create_node-IsSound :
      (node : Node) (s : S) → IsPlain node.name → Sound s → Sound (create_node v sn node s).1
  unfolding create_node
  create_node-IsSound node s p = same-IsSound s _ (λ j pre. ground (
    arith,
    near_nodes.get_keeps (node_key node.name) s j,
    near_nodes.create_keeps (node_key node.name) node (sn.get (node_key node.name) s).1 j
        (nodes_apart node.name j p pre),
  ))

  update_node-IsSound :
      (node : Node) (s : S) → IsPlain node.name → Sound s → Sound (update_node v sn node s).1
  unfolding update_node
  update_node-IsSound node s p = same-IsSound s _ (λ j pre. ground (
    arith,
    near_nodes.update_keeps (node_key node.name) node s j (nodes_apart node.name j p pre),
  ))

  delete_node-IsSound :
      (name : Text) (s : S) → IsPlain name → Sound s → Sound (delete_node sn name s).1
  unfolding delete_node
  delete_node-IsSound name s p =
      same-IsSound s _
        (λ j pre. near_nodes.delete_keeps (node_key name) s j (nodes_apart name j p pre))

  create_set-IsSound : (rs : ReplicaSet) (s : S) → Sound s → Sound (ReplicaSets.create sr rs s).1
  unfolding ReplicaSets.create
  create_set-IsSound rs s = same-IsSound s _ (λ j pre. ground (
    arith,
    near_sets.get_keeps (replica_set_key rs.name) s j,
    near_sets.create_keeps (replica_set_key rs.name) rs (sr.get (replica_set_key rs.name) s).1 j
        (keys_apart rs.name j pre),
  ))

  update_set-IsSound : (rs : ReplicaSet) (s : S) → Sound s → Sound (ReplicaSets.update sr rs s).1
  unfolding ReplicaSets.update
  update_set-IsSound rs s = same-IsSound s _ (λ j pre. ground (
    arith,
    near_sets.get_keeps (replica_set_key rs.name) s j,
    near_sets.update_keeps (replica_set_key rs.name) rs (sr.get (replica_set_key rs.name) s).1 j
        (keys_apart rs.name j pre),
  ))

  delete_set-IsSound : (name : Text) (s : S) → Sound s → Sound (ReplicaSets.delete sr name s).1
  unfolding ReplicaSets.delete
  delete_set-IsSound name s =
      same-IsSound s _
        (λ j pre. near_sets.delete_keeps (replica_set_key name) s j (keys_apart name j pre))

  get_set-IsSound : (name : Text) (s : S) → Sound s → Sound (ReplicaSets.get sr name s).1
  unfolding ReplicaSets.get
  get_set-IsSound name s =
      same-IsSound s _ (λ j pre. ground (arith, near_sets.get_keeps (replica_set_key name) s j))

  list_pods-IsSound : (s : S) → Sound s → Sound (list_pods sp s).1
  unfolding list_pods
  list_pods-IsSound s = same-IsSound s _ (λ j pre. ground (arith, l.list_keeps pod_prefix s j))

  module _ {G : Type 0} (gen : NameGenerator G) where
    abbrev Kept : S × G → Type 0
    Kept w = Sound w.0

    create_one-Kept :
        (base : Text) (c : Container) (w : S × G)
        → Kept w
        → Kept (create_one v gen sp sr base c w).1
    unfolding create_one
    create_one-Kept base c w k =
        let pod = new_pod (gen.generate base w.1).0 c in
        >>=-keeps Kept (on_store (create_pod v sp pod)) (λ _. pure tt)
          (w.0, (gen.generate base w.1).1)
          (create_pod-IsSound v sp l pod w.0 (exact (default_status pod)) k) (λ _ t h. h)

    for_containers-Kept :
        (base : Text) (cs : List Container) (w : S × G)
        → Kept w
        → Kept (create_for_containers v gen sp sr base cs w).1
    unfolding create_for_containers
    for_containers-Kept base [] w k = k
    for_containers-Kept base (c ∷ cs) w k =
        >>=-keeps Kept (create_one v gen sp sr base c)
          (λ _. create_for_containers v gen sp sr base cs) w (create_one-Kept base c w k)
          (λ _ t. for_containers-Kept base cs t)

    rounds-Kept :
        (base : Text) (cs : List Container) (n : ℕ) (w : S × G)
        → Kept w
        → Kept (create_rounds v gen sp sr base cs n w).1
    unfolding create_rounds
    rounds-Kept base cs zero w k = k
    rounds-Kept base cs (suc n) w k =
        >>=-keeps Kept (create_for_containers v gen sp sr base cs)
          (λ _. create_rounds v gen sp sr base cs n) w (for_containers-Kept base cs w k)
          (λ _ t. rounds-Kept base cs n t)

    compare_counts-Kept :
        (current : ReplicaSet) (count : ℕ) (desired : ℤ) (w : S × G)
        → Kept w
        → Kept (compare_counts v gen sp sr current count desired w).1
    unfolding compare_counts
    compare_counts-Kept current count desired w k = elim (Bool-cases (ltb_ℤ (pos count) desired)) [
      | inl t ↦
          let cs = elements current.spec.template.spec.containers in
          rw t (
            >>=-keeps Kept (create_rounds v gen sp sr current.name cs (rounds count desired))
              (λ _. on_store (ReplicaSets.update sr (set_status_replicas current desired))) w
              (rounds-Kept current.name cs (rounds count desired) w k)
              (λ _ u. update_set-IsSound (set_status_replicas current desired) u.0))
      | inr f ↦ elim (Bool-cases (ltb_ℤ desired (pos count))) [
        | inl t ↦ rw (f, t) (update_set-IsSound (set_status_replicas current desired) w.0 k)
        | inr f' ↦ rw (f, f') k
      ]
    ]

    reconcile-Kept : (rs : ReplicaSet) (w : S × G) → Kept w → Kept (reconcile v gen sp sr rs w).1
    unfolding reconcile
    reconcile-Kept rs w k =
        >>=-keeps Kept (on_store (ReplicaSets.get sr rs.name)) _ w (get_set-IsSound rs.name w.0 k)
          (λ current t h.
            >>=-keeps Kept (on_store (list_pods sp)) _ t (list_pods-IsSound t.0 h)
              (λ pods u. compare_counts-Kept current _ current.spec.replicas u))

  Step-IsSound : (s t : S) → Step v sp sn sr s t → Sound s → Sound t
  Step-IsSound s t (pod_created pod) k =
      create_pod-IsSound v sp l pod s (exact (default_status pod)) k
  Step-IsSound s t (pod_updated pod) k = update_pod-IsSound v sp l pod s (exact pod) k
  Step-IsSound s t (pod_deleted name) k = delete_pod-IsSound v sp l name s k
  Step-IsSound s t (node_created node p) k = create_node-IsSound node s p k
  Step-IsSound s t (node_updated node p) k = update_node-IsSound node s p k
  Step-IsSound s t (node_deleted name p) k = delete_node-IsSound name s p k
  Step-IsSound s t (set_created rs) k = create_set-IsSound rs s k
  Step-IsSound s t (set_updated rs) k = update_set-IsSound rs s k
  Step-IsSound s t (set_deleted name) k = delete_set-IsSound name s k
  Step-IsSound s t (scheduled draws) k = schedule-IsSound v sp sn draws l near_nodes exact s k
  Step-IsSound s t (reconciled gen g rs) k = reconcile-Kept gen rs (s, g) k

  -- Where pods read back as written, every run of the cluster that starts with sound stored pods,
  -- whatever its calls return and whichever of their writes fail, ends with sound ones: each is
  -- valid and stands under the key of its own name, as long as the nodes that are written or
  -- deleted have plain names.
  pub Steps-IsSound : (s t : S) → Steps v sp sn sr s t → IsSound v l.slot s → IsSound v l.slot t
  Steps-IsSound s t start k = k
  Steps-IsSound s t (then {t = u} run step) k = Step-IsSound u t step (Steps-IsSound s u run k)

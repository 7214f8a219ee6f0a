-- ===== src/Controller/Outcome.antt =====
-- The outcome of a reconciliation that succeeds.
use gokube.Prelude.{ap, Elem, ◌↔◌, Text, ◌≡◌, sym, ◌∙◌, List, length, arith}
use gokube.Exec.{ok, >>=-eq-ok}
use gokube.Api.{Pod, ReplicaSet, Validator, is_pod_active_and_owned_by}
use gokube.Storage.{Storage, Lawful, Slot, holds, read_all, Distinct, Answers, Neighbour}
use gokube.Names.{NameGenerator}
use gokube.Registry.Pods.{pod_prefix, list_pods}
use gokube.Registry.Pods.Listing.{list_pods-eq-ok, IsStored, list_pods_iff}
use gokube.Registry.ReplicaSets
use gokube.Registry.ReplicaSets.{replica_set_key}
use mathlib.Core.Path.{fun_ext}
use gokube.Controller.{compare_counts, reconcile, on_store, get_pods_for_replica_set}
use gokube.Controller.Reconciliation.{Created-from}
use gokube.Controller.Comparison.{Compared, compare_counts-Compared}

module _ {S G : Type 0} (v : Validator) (gen : NameGenerator G) (sp : Storage S Pod)
    (sr : Storage S ReplicaSet) (l : Lawful sp) (answers : Answers sp l)
    (exact : (p : Pod) → l.written p ≡ holds p) (lr : Lawful sr) (near : Neighbour sr l.slot) where
  pub reconcile_parts :
      (rs : ReplicaSet) (w : S × G)
      → (reconcile v gen sp sr rs w).0 ≡ ok tt
      → (current : ReplicaSet) × (pods : List Pod) × ((ReplicaSets.get sr rs.name w.0).0
          ≡ ok current)
        × ((list_pods sp (ReplicaSets.get sr rs.name w.0).1).0 ≡ ok pods)
        × (reconcile v gen sp sr rs w
            ≡ compare_counts v gen sp sr current
                (length (get_pods_for_replica_set current pods is_pod_active_and_owned_by))
                current.spec.replicas
                ((list_pods sp (ReplicaSets.get sr rs.name w.0).1).1, w.1))
  unfolding reconcile
  reconcile_parts rs (s, g) h =
      let (current, got, e) = >>=-eq-ok (on_store (ReplicaSets.get sr rs.name)) _ (s, g) tt h in
      let (pods, listed, e') =
        >>=-eq-ok (on_store (list_pods sp)) _ (on_store (ReplicaSets.get sr rs.name) (s, g)).1 tt
          (rw e at h) in
      (current, pods, got, listed, e ∙ e')

  get_keeps_pods :
      (name : Text) (s : S) (j : Text) → l.slot (ReplicaSets.get sr name s).1 j ≡ l.slot s j
  unfolding ReplicaSets.get
  get_keeps_pods name s j = ground (arith, near.get_keeps (replica_set_key name) s j)

  pub list_keeps_pods : (s : S) (j : Text) → l.slot (list_pods sp s).1 j ≡ l.slot s j
  unfolding list_pods
  list_keeps_pods s j = ground (arith, l.list_keeps pod_prefix s j)

  reads_keep_pods :
      (name : Text) (s : S) (j : Text)
      → l.slot (list_pods sp (ReplicaSets.get sr name s).1).1 j ≡ l.slot s j
  unfolding list_pods
  reads_keep_pods name s j =
      let s₁ = (ReplicaSets.get sr name s).1 in
      ground (arith, l.list_keeps pod_prefix s₁ j, get_keeps_pods name s j)

  same-IsStored :
      (name : Text) (p : Pod) (s : S) (pods : List Pod)
      → Elem p pods ↔ IsStored sp l p (ReplicaSets.get sr name s).1
      → Elem p pods ↔ IsStored sp l p s
  same-IsStored name p s pods iff = (
    λ m. let (k, pre, x) = iff.0 m in (k, pre, sym (get_keeps_pods name s k) ∙ x),
    λ y. iff.1 (y.0, y.1, get_keeps_pods name s y.0 ∙ y.2),
  )

  read_from :
      (name : Text) (s : S) (pods : List Pod)
      → (list_pods sp (ReplicaSets.get sr name s).1).0 ≡ ok pods
      → (ks : List Text) × Distinct ks × (read_all (l.slot s) ks ≡ ok pods)
  read_from name s pods listed =
      let s₁ = (ReplicaSets.get sr name s).1 in
      let ks = l.keys s₁ pod_prefix in
      (
        ks,
        l.keys_distinct pod_prefix s₁,
        ap (λ (slot : Text → Slot Pod). read_all slot ks) (sym (fun_ext (get_keeps_pods name s)))
            ∙ list_pods-eq-ok sp l s₁ pods listed,
      )

  -- A reconciliation that succeeds, where the store answers every lookup and pods read back as
  -- written, worked on the stored set and on a list of all stored pods, each from a key of its
  -- own. With `d` replicas desired and `n` active pods of the set, it stored (d - n) * c new pods
  -- for a template of `c` containers, none if n is at least d: each pending, on no node, named
  -- after the set and under a name that no pod had; no stored pod was lost or changed. Unless n is
  -- d, the set is stored with d as its status.
  pub reconcile_creates :
      (rs : ReplicaSet) (w : S × G)
      → (reconcile v gen sp sr rs w).0 ≡ ok tt
      → (current : ReplicaSet) × (pods : List Pod) × ((ReplicaSets.get sr rs.name w.0).0
          ≡ ok current)
        × ((p : Pod) → Elem p pods ↔ IsStored sp l p w.0)
        × ((ks : List Text) × Distinct ks × (read_all (l.slot w.0) ks ≡ ok pods))
        × Compared l.slot lr.slot lr.written current
            (length (get_pods_for_replica_set current pods is_pod_active_and_owned_by))
            w.0
            (reconcile v gen sp sr rs w).1.0
  reconcile_creates rs w h =
      let (current, pods, got, listed, e) = reconcile_parts rs w h in
      let s₁ = (ReplicaSets.get sr rs.name w.0).1 in
      let s₂ = (list_pods sp s₁).1 in
      let done =
        compare_counts-Compared v gen sp sr l answers exact lr near current
          (length (get_pods_for_replica_set current pods is_pod_active_and_owned_by)) (s₂, w.1)
          (rw e at h) in
      (
        current,
        pods,
        got,
        λ p. same-IsStored rs.name p w.0 pods (list_pods_iff sp l s₁ pods p listed),
        read_from rs.name w.0 pods listed,
        rw e (record {
          created =
              Created-from l.slot current.name _ w.0 s₂ _ (λ j _. reads_keep_pods rs.name w.0 j)
                done.created;
          status = done.status;
        }),
      )

-- ===== src/Scheduler/Interleaving.antt =====
-- pkg/scheduler/scheduler.go: a pass whose calls are interleaved with those of other processes. The
-- pods are listed in one state, and the loop writes them in another.
use gokube.Prelude.{ℕ, ◌≡◌, List, ◌∷◌, Elem}
use gokube.Exec.{ok}
use gokube.Api.{pod_scheduled, Pod, Node, Validator}
use gokube.Storage.{Storage, Lawful, holds}
use gokube.Registry.Pods.{pod_key, list_pending_pods}
use gokube.Registry.Pods.Creation.{IsSound}
use gokube.Registry.Pods.Listing.{list_pending_pods_iff}
use gokube.Scheduler.{assign_all}
use gokube.Scheduler.Loop.{pending_by_name, assign_all-IsAssigned}

module _ {S : Type 0} (v : Validator) (sp : Storage S Pod) (draws : ℕ → ℕ) (l : Lawful sp)
    (exact : (p : Pod) → l.written p ≡ holds p) where
  -- If the pods were listed in a sound state, pods read back as written, and the loop of the pass then
  -- succeeds in any other state, each of them is stored as it was listed, but Scheduled on one of the nodes:
  -- what others have written or deleted under its name in between is lost.
  pub stale_pods_win :
      (s t : S) (node : Node) (nodes : List Node) (pods : List Pod) (p : Pod)
      → IsSound v l.slot s
      → (list_pending_pods sp s).0 ≡ ok pods
      → Elem p pods
      → (assign_all v sp draws node nodes 0 pods t).0 ≡ ok tt
      → (n : Node) × Elem n (node ∷ nodes)
        × (l.slot (assign_all v sp draws node nodes 0 pods t).1 (pod_key p.name)
            ≡ holds (record p { node_name = n.name; status = pod_scheduled }))
  stale_pods_win s t node nodes pods p sound listed m h =
      assign_all-IsAssigned v sp draws l exact node nodes 0 pods t p h
        (λ q k same.
          pending_by_name v sp draws l exact s pods p q sound listed
            ((list_pending_pods_iff sp l s pods p listed).0 m).0 k same)
        m

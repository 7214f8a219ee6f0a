-- ===== src/Registry/Pods/Listing.antt =====
-- What the listings of pods contain.
use gokube.Prelude.{
  Text, starts_with, ◌≡◌, ◌↔◌, inl, inr, true, List, arith, Elem, select, Elem-select,
  Elem-of_select,
}
use gokube.Exec.{ok, Result-cases}
use gokube.Api.{Pod, PodStatus, status_eq, pod_pending}
use gokube.Api.Validation.{status_eq_iff}
use gokube.Storage.{Storage, Lawful, holds, read_all}
use gokube.Storage.Reading.{Elem-read_all, Elem-of_read_all}
use gokube.Registry.Pods.{pod_prefix, list_pods, list_pods_by_status, list_pending_pods}

module _ {S : Type 0} (st : Storage S Pod) (l : Lawful st) where
  -- A pod is stored in `s`.
  abbrev pub IsStored : Pod → S → Type 0
  IsStored p s = (k : Text) × (starts_with pod_prefix k ≡ true) × (l.slot s k ≡ holds p)

  pub list_pods-eq-ok :
      (s : S) (pods : List Pod)
      → (list_pods st s).0 ≡ ok pods
      → read_all (l.slot s) (l.keys s pod_prefix) ≡ ok pods
  unfolding list_pods
  list_pods-eq-ok s pods h = ground (arith, l.list_reply pod_prefix s)

  -- ListPods returns the stored pods, no other, or fails with ErrListPodsFailed; it changes no slot.
  pub list_pods_iff :
      (s : S) (pods : List Pod) (p : Pod)
      → (list_pods st s).0 ≡ ok pods
      → Elem p pods ↔ IsStored p s
  list_pods_iff s pods p h =
      let listed = list_pods-eq-ok s pods h in
      (
        λ m.
            let (k, mk, e) = Elem-of_read_all (l.slot s) (l.keys s pod_prefix) pods p listed m in
            (k, ((l.keys_iff pod_prefix s k).0 mk).0, e),
        λ x.
            Elem-read_all (l.slot s) (l.keys s pod_prefix) pods x.0 p listed
              ((l.keys_iff pod_prefix s x.0).1 (x.1, λ gone. cc)) x.2,
      )

  by_status-eq-ok :
      (status : PodStatus) (s : S) (pods : List Pod)
      → (list_pods_by_status st status s).0 ≡ ok pods
      → (all : List Pod) × ((list_pods st s).0 ≡ ok all)
        × (pods ≡ select (λ p. status_eq p.status status) all)
  unfolding list_pods_by_status
  by_status-eq-ok status s pods h = elim (Result-cases (st.list pod_prefix s).0) [
    | inl (all, e) ↦ (all, ground arith, ground arith)
    | inr (x, e) ↦ absurd (ground arith)
  ]

  -- If ListPendingPods succeeds, it returns the stored pods whose status is Pending and no other.
  pub list_pending_pods_iff :
      (s : S) (pods : List Pod) (p : Pod)
      → (list_pending_pods st s).0 ≡ ok pods
      → Elem p pods ↔ (IsStored p s × (p.status ≡ pod_pending))
  unfolding list_pending_pods
  list_pending_pods_iff s pods p h =
      let (every, listed, e) = by_status-eq-ok pod_pending s pods h in
      (
        λ m.
            let (m', t) = Elem-of_select _ p every (rw e at m) in
            ((list_pods_iff s every p listed).0 m', (status_eq_iff p.status pod_pending).0 t),
        λ x. rw e (
            Elem-select _ p every ((list_pods_iff s every p listed).1 x.0)
              ((status_eq_iff p.status pod_pending).1 x.1)),
      )

  pub list_pending_pods_keeps :
      (s : S) (j : Text) → l.slot (list_pending_pods st s).1 j ≡ l.slot s j
  unfolding list_pending_pods
  list_pending_pods_keeps s j = ground (arith, l.list_keeps pod_prefix s j)

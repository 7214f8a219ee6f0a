-- ===== src/Handlers/Pods/Laws.antt =====
-- What a client of the pod routes sees.
use gokube.Prelude.{
  Text, text_eq, text_eq_iff, ◌≡◌, ◌≢◌, ◌↔◌, inl, inr, List, [], ◌∷◌, Elem, true, arith, Option,
  some, select, text_eq_ne, if◌then◌else◌, Elem-select, Elem-of_select,
}
use gokube.Exec.{err, Result-cases, etcd_client, not_found}
use gokube.Api.{Pod, Validator, validate_pod}
use gokube.Storage.{Storage, Lawful, absent, holds}
use gokube.Registry.Pods
use gokube.Registry.Pods.{pod_key}
use gokube.Registry.Pods.Creation.{create_pod_taken}
use gokube.Registry.Pods.Listing.{IsStored, list_pods_iff}
use gokube.Handlers.{error_write, entity_write, header_write}
use gokube.Handlers.Pods.{one, many, create_pod, list_pods, get_route, put_route, delete_route}

module _ {S : Type 0} (v : Validator) (st : Storage S Pod) (l : Lawful st) where
  -- A POST of a name that is taken is answered twice, while the store answers: first with the
  -- conflict, then with 201 and the pod of the request, though nothing was created.
  pub create_pod_conflict :
      (pod old : Pod) (s : S) (j : Text)
      → l.slot s (pod_key pod.name) ≡ holds old
      → (st.get (pod_key pod.name) s).0 ≢ err etcd_client
      → ((create_pod v st (some pod) s).0 ≡ error_write 409 ∷ entity_write 201 (one pod) ∷ [])
        × (l.slot (create_pod v st (some pod) s).1 j ≡ l.slot s j)
  unfolding create_pod
  create_pod_conflict pod old s j taken answered =
      let (e, same) = create_pod_taken v st l pod old s j taken answered in
      (ground arith, ground arith)

  -- If PUT on a name is answered with 200, the answer shows the body, the name held a pod, the
  -- body has the name of that pod and is valid, the slot of the body's name is what writing the
  -- body leaves, and every other slot is as it was.
  pub put_pod_ok :
      (name : Text) (pod shown : Pod) (s : S) (j : Text)
      → (put_route v st name (some pod) s).0 ≡ entity_write 200 (one shown) ∷ []
      → (shown ≡ pod)
        × ((old : Pod) × (l.slot s (pod_key name) ≡ holds old) × (old.name ≡ pod.name))
        × (validate_pod v pod ≡ true)
        × (l.slot (put_route v st name (some pod) s).1 j
            ≡ (if text_eq (pod_key pod.name) j then l.written pod else l.slot s j))
  unfolding put_route Pods.get_pod Pods.update_pod
  put_pod_ok name pod shown s j h = elim (Result-cases (st.get (pod_key name) s).0) [
    | inr (x, e) ↦ absurd (ground arith)
    | inl (old, e) ↦
        let s₁ = (st.get (pod_key name) s).1 in
        (
          ground arith,
          (
            old,
            ground (arith, l.get_reply (pod_key name) s),
            ground (arith, text_eq_iff old.name pod.name),
          ),
          ground arith,
          ground (
            arith,
            l.update_ok (pod_key pod.name) pod s₁ (ground arith) j,
            l.get_keeps (pod_key name) s j,
          ),
        )
  ]

  -- A GET of the list with a node name that is answered with 200 shows the stored pods on that
  -- node and no other.
  pub list_pods_on_node :
      (node_name : Text) (s : S) (pods : List Pod) (p : Pod)
      → node_name ≢ []
      → (list_pods st node_name s).0 ≡ entity_write 200 (many pods) ∷ []
      → Elem p pods ↔ (IsStored st l p s × (p.node_name ≡ node_name))
  unfolding list_pods
  list_pods_on_node node_name s pods p some_name h = elim (Result-cases (Pods.list_pods st s).0) [
    | inr (x, e) ↦ absurd (ground arith)
    | inl (every, e) ↦
        let chosen : pods ≡ select (λ q. text_eq q.node_name node_name) every =
          ground (arith, text_eq_ne node_name [] some_name) in
        (
          λ m.
              let (m', t) = Elem-of_select _ p every (rw chosen at m) in
              ((list_pods_iff st l s every p e).0 m', (text_eq_iff p.node_name node_name).0 t),
          λ x. rw chosen (
              Elem-select _ p every ((list_pods_iff st l s every p e).1 x.0)
                ((text_eq_iff p.node_name node_name).1 x.1)),
        )
  ]

  -- DELETE of a name that is answered 204 found a pod there, and has emptied the slot of that pod's
  -- own name; every other slot is as it was.
  delete_route_done :
      (name : Text) (s : S) (j : Text)
      → (delete_route v st name s).0 ≡ header_write 204 ∷ []
      → (old : Pod) × (l.slot s (pod_key name) ≡ holds old)
        × (l.slot (delete_route v st name s).1 j
            ≡ (if text_eq (pod_key old.name) j then absent else l.slot s j))
  unfolding delete_route Pods.get_pod Pods.delete_pod
  delete_route_done name s j h = elim (Result-cases (st.get (pod_key name) s).0) [
    | inr (x, e) ↦ absurd (ground arith)
    | inl (old, e) ↦
        let s₁ = (st.get (pod_key name) s).1 in
        (
          old,
          ground (arith, l.get_reply (pod_key name) s),
          ground (
            arith,
            l.delete_ok (pod_key old.name) s₁ (ground arith) j,
            l.get_keeps (pod_key name) s j,
          ),
        )
  ]

  -- A route with a name answers 404, and changes no slot, where the name is free and the store answers.
  pub routes_missing :
      (name : Text) (body : Option Pod) (s : S) (j : Text)
      → l.slot s (pod_key name) ≡ absent
      → (st.get (pod_key name) s).0 ≢ err etcd_client
      → ((get_route v st name s).0 ≡ error_write 404 ∷ [])
        × ((put_route v st name body s).0 ≡ error_write 404 ∷ [])
        × ((delete_route v st name s).0 ≡ error_write 404 ∷ [])
        × (l.slot (get_route v st name s).1 j ≡ l.slot s j)
        × (l.slot (put_route v st name body s).1 j ≡ l.slot s j)
        × (l.slot (delete_route v st name s).1 j ≡ l.slot s j)
  unfolding get_route put_route delete_route Pods.get_pod
  routes_missing name body s j free answered =
      let missing : (st.get (pod_key name) s).0 ≡ err not_found =
        ground (arith, l.get_reply (pod_key name) s) in
      (
        ground arith,
        ground arith,
        ground arith,
        ground (arith, l.get_keeps (pod_key name) s j),
        ground (arith, l.get_keeps (pod_key name) s j),
        ground (arith, l.get_keeps (pod_key name) s j),
      )

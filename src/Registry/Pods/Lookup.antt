-- ===== src/Registry/Pods/Lookup.antt =====
-- What GetPod finds after the writes of the registry.
use gokube.Prelude.{Text, text_eq, text_eq_refl, ◌≡◌, ◌⊎◌, true, arith, if◌then◌else◌}
use gokube.Exec.{Result, ok, err, internal, pod_not_found}
use gokube.Api.{Pod, Validator, validate_pod}
use gokube.Storage.{Storage, Lawful, Slot, absent, garbled, holds}
use gokube.Registry.Pods.{pod_key, default_status, create_pod, get_pod, delete_pod}

-- What GetPod answers for a slot.
abbrev pub found : Slot Pod → Result Pod
found absent = err pod_not_found
found garbled = err internal
found (holds pod) = ok pod

module _ {S : Type 0} (st : Storage S Pod) (l : Lawful st) where
  -- GetPod answers by the slot of its key, or with an internal error if the store fails.
  pub get_pod-slot :
      (name : Text) (s : S)
      → ((get_pod st name s).0 ≡ err internal)
        ⊎ ((get_pod st name s).0 ≡ found (l.slot s (pod_key name)))
  unfolding get_pod
  get_pod-slot name s = ground (arith, l.get_reply (pod_key name) s)

  -- After a deletion that succeeds, GetPod finds no pod of the name, unless the store fails, and
  -- every other slot is as it was.
  pub get_pod-delete_pod :
      (name : Text) (s : S) (j : Text)
      → (delete_pod st name s).0 ≡ ok tt
      → (((get_pod st name (delete_pod st name s).1).0 ≡ err internal)
          ⊎ ((get_pod st name (delete_pod st name s).1).0 ≡ err pod_not_found))
        × (l.slot (delete_pod st name s).1 j
            ≡ (if text_eq (pod_key name) j then absent else l.slot s j))
  unfolding delete_pod
  get_pod-delete_pod name s j h = (
    ground (
      arith,
      get_pod-slot name (delete_pod st name s).1,
      l.delete_ok (pod_key name) s h (pod_key name),
      text_eq_refl (pod_key name),
    ),
    l.delete_ok (pod_key name) s h j,
  )

module _ {S : Type 0} (v : Validator) (st : Storage S Pod) (l : Lawful st) where
  abbrev pub looked_up : Pod → S → S
  looked_up pod s = (st.get (pod_key pod.name) s).1

  -- What a successful creation did: the lookup failed, the pod was valid, and the write succeeded.
  pub create_pod-eq-ok :
      (pod p' : Pod) (s : S)
      → (create_pod v st pod s).0 ≡ ok p'
      → (p' ≡ default_status pod)
        × (validate_pod v p' ≡ true)
        × ((st.create (pod_key pod.name) p' (looked_up pod s)).0 ≡ ok tt)
        × ((create_pod v st pod s).1 ≡ (st.create (pod_key pod.name) p' (looked_up pod s)).1)
  unfolding create_pod
  create_pod-eq-ok pod p' s h = ground arith

-- ===== src/Registry/Pods/Creation.antt =====
-- When CreatePod and UpdatePod write, and what they keep of the stored pods.
use gokube.Prelude.{
  Text, text_eq, text_eq_refl, text_eq_iff, starts_with, Bool-cases, sym, ◌∙◌, ◌≡◌, ◌≢◌, refl, ◌⊎◌,
  inl, inr, true, false, arith, if◌then◌else◌,
}
use gokube.Exec.{ok, err, pod_already_exists, pod_invalid, etcd_client}
use gokube.Api.{Pod, Validator, validate_pod}
use gokube.Storage.{Storage, Lawful, Slot, absent, holds}
use gokube.Registry.Pods.{pod_key, pod_prefix, default_status, create_pod, update_pod, delete_pod}
use gokube.Registry.Pods.Lookup.{looked_up}

module _ {S : Type 0} (v : Validator) (st : Storage S Pod) (l : Lawful st) where
  -- If the name is taken, and the store answers the lookup, CreatePod fails and changes no slot.
  pub create_pod_taken :
      (pod old : Pod) (s : S) (j : Text)
      → l.slot s (pod_key pod.name) ≡ holds old
      → (st.get (pod_key pod.name) s).0 ≢ err etcd_client
      → ((create_pod v st pod s).0 ≡ err pod_already_exists)
        × (l.slot (create_pod v st pod s).1 j ≡ l.slot s j)
  unfolding create_pod
  create_pod_taken pod old s j taken answered = (
    ground (arith, l.get_reply (pod_key pod.name) s),
    ground (arith, l.get_reply (pod_key pod.name) s, l.get_keeps (pod_key pod.name) s j),
  )

  -- If the lookup fails in etcd, CreatePod goes on: a pod that, its status defaulted, is valid is
  -- written over whatever stood under its name, where the write succeeds.
  pub create_pod_overwrites :
      (pod : Pod) (s : S)
      → (st.get (pod_key pod.name) s).0 ≡ err etcd_client
      → validate_pod v (default_status pod) ≡ true
      → (st.create (pod_key pod.name) (default_status pod) (looked_up v st l pod s)).0 ≡ ok tt
      → ((create_pod v st pod s).0 ≡ ok (default_status pod))
        × (l.slot (create_pod v st pod s).1 (pod_key pod.name) ≡ l.written (default_status pod))
  unfolding create_pod
  create_pod_overwrites pod s failed valid wrote = (
    ground arith,
    ground (
      arith,
      l.create_ok (pod_key pod.name) (default_status pod) (looked_up v st l pod s) wrote
          (pod_key pod.name),
      text_eq_refl (pod_key pod.name),
    ),
  )

  -- A pod that, its status defaulted, does not validate, and whose name is free, is refused by
  -- CreatePod, and, its status defaulted, by UpdatePod; neither changes a slot.
  pub invalid_pod_refused :
      (pod : Pod) (s : S) (j : Text)
      → validate_pod v (default_status pod) ≡ false
      → l.slot s (pod_key pod.name) ≡ absent
      → ((create_pod v st pod s).0 ≡ err pod_invalid)
        × ((update_pod v st (default_status pod) s).0 ≡ err pod_invalid)
        × (l.slot (create_pod v st pod s).1 j ≡ l.slot s j)
        × (l.slot (update_pod v st (default_status pod) s).1 j ≡ l.slot s j)
  unfolding create_pod update_pod
  invalid_pod_refused pod s j invalid free = (
    ground (arith, l.get_reply (pod_key pod.name) s),
    ground arith,
    ground (arith, l.get_reply (pod_key pod.name) s, l.get_keeps (pod_key pod.name) s j),
    ground arith,
  )

  -- Where UpdatePod succeeds, the pod is valid and its slot is what writing it leaves, whatever
  -- was there before, a pod or none; every other slot is as it was.
  pub update_pod_writes :
      (pod : Pod) (s : S) (j : Text)
      → (update_pod v st pod s).0 ≡ ok tt
      → (validate_pod v pod ≡ true)
        × (l.slot (update_pod v st pod s).1 j
            ≡ (if text_eq (pod_key pod.name) j then l.written pod else l.slot s j))
  unfolding update_pod
  update_pod_writes pod s j h =
      (ground arith, ground (arith, l.update_ok (pod_key pod.name) pod s (ground arith) j))

-- Every stored pod passes Validate and stands under the key of its name.
pub record IsSound {S : Type 0} (v : Validator) (slot : S → Text → Slot Pod) (s : S) : Type 0 where
  pub valid :
      (j : Text) (p : Pod)
      → starts_with pod_prefix j ≡ true
      → slot s j ≡ holds p
      → validate_pod v p ≡ true
  pub named :
      (j : Text) (p : Pod)
      → starts_with pod_prefix j ≡ true
      → slot s j ≡ holds p
      → j ≡ pod_key p.name

module _ {S : Type 0} (v : Validator) (st : Storage S Pod) (l : Lawful st) where
  -- CreatePod ends after its lookup, or with the write of a valid pod under its key.
  create_pod_after :
      (pod : Pod) (s : S)
      → ((create_pod v st pod s).1 ≡ looked_up v st l pod s)
        ⊎ ((validate_pod v (default_status pod) ≡ true)
            × ((create_pod v st pod s).1
                ≡ (st.create (pod_key pod.name) (default_status pod) (looked_up v st l pod s)).1))
  unfolding create_pod
  create_pod_after pod s = ground arith

  pub default_status_name : (pod : Pod) → (default_status pod).name ≡ pod.name
  unfolding default_status
  default_status_name pod = ground arith

  -- A write of one valid pod under its own key, done or not.
  write-IsSound :
      (name : Text) (pod : Pod) (s t u : S)
      → pod.name ≡ name
      → validate_pod v pod ≡ true
      → l.written pod ≡ holds pod
      → ((j : Text) → l.slot u j ≡ l.slot s j)
      → ((j : Text)
          → (l.slot t j ≡ l.slot u j)
            ⊎ (l.slot t j ≡ (if text_eq (pod_key name) j then l.written pod else l.slot u j)))
      → IsSound v l.slot s
      → IsSound v l.slot t
  write-IsSound name pod s t u e valid w same step sound = record {
    valid = λ j p pre h.
        ground (arith, step j, same j, sound.valid j p pre, text_eq_iff (pod_key name) j);
    named = λ j p pre h.
        ground (arith, step j, same j, sound.named j p pre, text_eq_iff (pod_key name) j);
  }

  kept-IsSound :
      (s t : S) → ((j : Text) → l.slot t j ≡ l.slot s j) → IsSound v l.slot s → IsSound v l.slot t
  kept-IsSound s t same sound = record {
    valid = λ j p pre h. sound.valid j p pre (sym (same j) ∙ h);
    named = λ j p pre h. sound.named j p pre (sym (same j) ∙ h);
  }

  -- If the pod, its status defaulted, reads back as written, CreatePod keeps every stored pod valid and
  -- under the key of its name, whatever it returns and whether or not its write was carried out.
  pub create_pod-IsSound :
      (pod : Pod) (s : S)
      → l.written (default_status pod) ≡ holds (default_status pod)
      → IsSound v l.slot s
      → IsSound v l.slot (create_pod v st pod s).1
  create_pod-IsSound pod s w sound = elim (create_pod_after pod s) [
    | inl e ↦ rw e (kept-IsSound s _ (l.get_keeps (pod_key pod.name) s) sound)
    | inr (valid, e) ↦ rw e (
        write-IsSound pod.name (default_status pod) s _ (looked_up v st l pod s)
          (default_status_name pod) valid w (l.get_keeps (pod_key pod.name) s)
          (l.create_slot (pod_key pod.name) (default_status pod) (looked_up v st l pod s)) sound)
  ]

  -- If the pod reads back as written, UpdatePod keeps every stored pod valid and under the key of its
  -- name, whatever it returns and whether or not its write was carried out.
  pub update_pod-IsSound :
      (pod : Pod) (s : S)
      → l.written pod ≡ holds pod
      → IsSound v l.slot s
      → IsSound v l.slot (update_pod v st pod s).1
  unfolding update_pod
  update_pod-IsSound pod s w sound = elim (Bool-cases (validate_pod v pod)) [
    | inl valid ↦ rw valid (
        write-IsSound pod.name pod s _ s refl valid w (λ j. refl)
          (l.update_slot (pod_key pod.name) pod s) sound)
    | inr invalid ↦ rw invalid sound
  ]

  -- DeletePod too keeps every stored pod valid and under the key of its name.
  pub delete_pod-IsSound :
      (name : Text) (s : S) → IsSound v l.slot s → IsSound v l.slot (delete_pod st name s).1
  unfolding delete_pod
  delete_pod-IsSound name s sound = record {
    valid = λ j p pre h. ground (arith, l.delete_slot (pod_key name) s j, sound.valid j p pre);
    named = λ j p pre h. ground (arith, l.delete_slot (pod_key name) s j, sound.named j p pre);
  }

-- ===== src/Controller/Counting.antt =====
-- How many stored pods a listing shows after pods were added.
use gokube.Prelude.{
  ℕ, ◌+◌, Text, Bool, true, ◌≡◌, ◌≢◌, refl, sym, ap, ◌∙◌, inl, inr, ◌↔◌, List, [], ◌∷◌, ◌++◌,
  length, select, map, Elem, Elem-left, Elem-right, Elem-append-cases, Elem-map, Elem-of_map, All,
  All-Elem, All-of_Elem, All-append, arith, if◌then◌else◌, append_cancel,
}
use gokube.Exec.{ok}
use gokube.Api.{Pod}
use gokube.Storage.{Storage, Lawful, Slot, absent, holds, Distinct}
use gokube.Storage.Counting.{
  total, total-append, same_total, total_agree, one_if, length-select, read_holds,
}
use gokube.Registry.Pods.{pod_key, pod_prefix, list_pods}
use gokube.Registry.Pods.Listing.{list_pods-eq-ok}
use gokube.Controller.Growth.{name_of, IsNew, Grew, pod_key_prefix}

abbrev key_of : Pod → Text
key_of p = pod_key p.name

names_to_keys :
    (name : Text) (new : List Pod)
    → All (λ j. name ≢ j) (map name_of new)
    → All (λ j. pod_key name ≢ j) (map key_of new)
names_to_keys name [] h = tt
names_to_keys name (p ∷ new) h =
    (λ e. h.0 (append_cancel pod_prefix name p.name e), names_to_keys name new h.1)

keys-Distinct : (new : List Pod) → Distinct (map name_of new) → Distinct (map key_of new)
keys-Distinct [] d = tt
keys-Distinct (p ∷ new) d = (names_to_keys p.name new d.0, keys-Distinct new d.1)

Distinct-append :
    (xs ys : List Text)
    → Distinct xs
    → Distinct ys
    → ((k : Text) → Elem k xs → Elem k ys → ⊥)
    → Distinct (xs ++ ys)
Distinct-append [] ys d e h = e
Distinct-append (x ∷ xs) ys d e h = (
  All-append (λ j. x ≢ j) xs ys d.0
      (All-of_Elem (λ j. x ≢ j) ys (λ j m same. h x (inl refl) (rw same m))),
  Distinct-append xs ys d.1 e (λ k m n. h k (inr m) n),
)

holds_not_absent : {A : Type 0} {x : Slot A} {a : A} → x ≡ holds a → x ≢ absent
holds_not_absent e h = ground (arith, e, h)

module _ {S : Type 0} (sp : Storage S Pod) (l : Lawful sp) (p : Pod → Bool) where
  weight : S → Text → ℕ
  weight s k = one_if p (l.slot s k)

  new_total :
      (s t : S) (new : List Pod)
      → All (IsNew l.slot s t) new
      → All (λ q. p q ≡ true) new
      → total (weight t) (map key_of new) ≡ length new
  unfolding total weight
  new_total s t [] h k = refl
  new_total s t (q ∷ new) h k = omega (
    arith,
    new_total s t new h.1 k.1,
    ap (one_if p) h.0.0,
    ap {B = ℕ} (λ (b : Bool). if b then 1 else 0) k.0,
  )

  module _ (s t : S) (new pods pods' : List Pod) (listed : (list_pods sp s).0 ≡ ok pods)
      (listed' : (list_pods sp t).0 ≡ ok pods') (grew : Grew l.slot s t new) where
    stored_before : (k : Text) → Elem k (l.keys s pod_prefix) → (q : Pod) × (l.slot s k ≡ holds q)
    stored_before k m =
        read_holds (l.slot s) (l.keys s pod_prefix) pods k (list_pods-eq-ok sp l s pods listed) m
          ((l.keys_iff pod_prefix s k).0 m).1

    stored_after : (k : Text) → Elem k (l.keys t pod_prefix) → (q : Pod) × (l.slot t k ≡ holds q)
    stored_after k m =
        read_holds (l.slot t) (l.keys t pod_prefix) pods' k (list_pods-eq-ok sp l t pods' listed') m
          ((l.keys_iff pod_prefix t k).0 m).1

    key_is_new : (k : Text) → Elem k (map key_of new) → (q : Pod) × Elem q new × (k ≡ key_of q)
    key_is_new k m = Elem-of_map key_of new k m

    same_keys :
        (k : Text) → Elem k (l.keys t pod_prefix) ↔ Elem k (l.keys s pod_prefix ++ map key_of new)
    same_keys k = (
      λ m.
          let (q, e) = stored_after k m in
          let pre = ((l.keys_iff pod_prefix t k).0 m).0 in
          elim (grew.only k q pre e) [
            | inl h ↦
                Elem-left k (l.keys s pod_prefix) (map key_of new)
                  ((l.keys_iff pod_prefix s k).1 (pre, holds_not_absent h))
            | inr (r, mr, x) ↦
                Elem-right k (l.keys s pod_prefix) (map key_of new)
                  (rw x (Elem-map key_of new r mr))
          ],
      λ m. elim (Elem-append-cases k (l.keys s pod_prefix) (map key_of new) m) [
        | inl h ↦
            let (q, e) = stored_before k h in
            let pre = ((l.keys_iff pod_prefix s k).0 h).0 in
            (l.keys_iff pod_prefix t k).1 (pre, holds_not_absent (grew.kept k q pre e))
        | inr h ↦
            let (q, mq, x) = key_is_new k h in
            rw x (
              (l.keys_iff pod_prefix t (key_of q)).1 (
                pod_key_prefix q.name,
                holds_not_absent (All-Elem (IsNew l.slot s t) new grew.stored mq).0,
              ))
      ],
    )

    no_key_twice : Distinct (l.keys s pod_prefix ++ map key_of new)
    no_key_twice =
        Distinct-append (l.keys s pod_prefix) (map key_of new) (l.keys_distinct pod_prefix s)
          (keys-Distinct new grew.distinct)
          (λ k m n.
            let (q, e) = stored_before k m in
            let (r, mr, x) = key_is_new k n in
            (All-Elem (IsNew l.slot s t) new grew.stored mr).1 q (ap (l.slot s) (sym x) ∙ e))

    kept_weight : (k : Text) → Elem k (l.keys s pod_prefix) → weight t k ≡ weight s k
    unfolding weight
    kept_weight k m =
        let (q, e) = stored_before k m in
        ap (one_if p) (grew.kept k q ((l.keys_iff pod_prefix s k).0 m).0 e ∙ sym e)

    -- Of the pods with `p`, a later listing shows those of the earlier one and the new ones.
    pub listing_grows :
        All (λ q. p q ≡ true) new → length (select p pods') ≡ length (select p pods) + length new
    unfolding weight
    listing_grows active =
        let ks = l.keys s pod_prefix in
        let nk = map key_of new in
        omega (
          arith,
          length-select p (l.slot t) (l.keys t pod_prefix) pods'
              (list_pods-eq-ok sp l t pods' listed'),
          same_total (weight t) (l.keys t pod_prefix) (ks ++ nk) (l.keys_distinct pod_prefix t)
              no_key_twice same_keys,
          total-append (weight t) ks nk,
          new_total s t new grew.stored active,
          total_agree (weight t) (weight s) ks kept_weight,
          length-select p (l.slot s) ks pods (list_pods-eq-ok sp l s pods listed),
        )

-- ===== src/Controller/Growth.antt =====
-- How a run of pod creations changes the stored pods: it adds new ones and loses none.
use gokube.Prelude.{
  Text, text_eq, text_eq_iff, ◌⊎◌, inl, inr, refl, Bool-cases, Elem, Elem-left, Elem-right,
  text_eq_refl, ◌≡◌, ◌≢◌, sym, ap, ◌∙◌, true, List, [], ◌∷◌, ◌++◌, map, All, All-append, arith,
  starts_with, starts_with-append,
}
use gokube.Exec.{ok}
use gokube.Api.{Pod, Validator}
use gokube.Storage.{Storage, Lawful, Slot, holds, read, Distinct, Answers}
use gokube.Registry.Pods.{pod_key, pod_prefix, create_pod}
use gokube.Registry.Pods.Creation.{create_pod_taken, default_status_name}
use gokube.Registry.Pods.Lookup.{create_pod-eq-ok, looked_up}

abbrev pub name_of : Pod → Text
name_of p = p.name

pub pod_key_prefix : (name : Text) → starts_with pod_prefix (pod_key name) ≡ true
pod_key_prefix name = starts_with-append pod_prefix name

module _ {S : Type 0} (slot : S → Text → Slot Pod) where
  -- `p` stands in `t` where no pod stood in `s`.
  abbrev pub IsNew : S → S → Pod → Type 0
  IsNew s t p =
      (slot t (pod_key p.name) ≡ holds p) × ((q : Pod) → slot s (pod_key p.name) ≢ holds q)

  -- A key of a pod of the list.
  abbrev pub IsKeyOf : Text → List Pod → Type 0
  IsKeyOf k new = (p : Pod) × Elem p new × (k ≡ pod_key p.name)

  -- From `s` to `t` the pods `new` were added, under names of their own, no pod was lost, and no other
  -- pod appeared.
  pub record Grew (s t : S) (new : List Pod) : Type 0 where
    pub kept :
        (k : Text) (q : Pod)
        → starts_with pod_prefix k ≡ true
        → slot s k ≡ holds q
        → slot t k ≡ holds q
    pub stored : All (IsNew s t) new
    pub distinct : Distinct (map name_of new)
    pub only :
        (k : Text) (q : Pod)
        → starts_with pod_prefix k ≡ true
        → slot t k ≡ holds q
        → (slot s k ≡ holds q) ⊎ IsKeyOf k new

  pub Grew-refl :
      (s t : S) → ((j : Text) → starts_with pod_prefix j ≡ true → slot t j ≡ slot s j) → Grew s t []
  Grew-refl s t same = record {
    kept = λ k q pre h. same k pre ∙ h;
    stored = tt;
    distinct = tt;
    only = λ k q pre h. inl (sym (same k pre) ∙ h);
  }

  stored_left :
      (s t u : S) (new : List Pod)
      → ((k : Text) (q : Pod)
          → starts_with pod_prefix k ≡ true
          → slot t k ≡ holds q
          → slot u k ≡ holds q)
      → All (IsNew s t) new
      → All (IsNew s u) new
  stored_left s t u [] kept h = tt
  stored_left s t u (p ∷ new) kept h = (
    (kept (pod_key p.name) p (pod_key_prefix p.name) h.0.0, h.0.1),
    stored_left s t u new kept h.1,
  )

  stored_right :
      (s t u : S) (new : List Pod)
      → ((k : Text) (q : Pod)
          → starts_with pod_prefix k ≡ true
          → slot s k ≡ holds q
          → slot t k ≡ holds q)
      → All (IsNew t u) new
      → All (IsNew s u) new
  stored_right s t u [] kept h = tt
  stored_right s t u (p ∷ new) kept h = (
    (h.0.0, λ q e. h.0.1 q (kept (pod_key p.name) q (pod_key_prefix p.name) e)),
    stored_right s t u new kept h.1,
  )

  apart :
      (s t u : S) (p : Pod) (new : List Pod)
      → IsNew s t p
      → All (IsNew t u) new
      → All (λ j. p.name ≢ j) (map name_of new)
  apart s t u p [] h k = tt
  apart s t u p (q ∷ new) h k =
      (λ e. k.0.1 p (sym (ap (λ (x : Text). slot t (pod_key x)) e) ∙ h.0), apart s t u p new h k.1)

  All-names-append :
      (P : Text → Type 0) (xs ys : List Pod)
      → All P (map name_of xs)
      → All P (map name_of ys)
      → All P (map name_of (xs ++ ys))
  All-names-append P [] ys h k = k
  All-names-append P (x ∷ xs) ys h k = (h.0, All-names-append P xs ys h.1 k)

  Distinct-append :
      (s t u : S) (xs ys : List Pod)
      → All (IsNew s t) xs
      → All (IsNew t u) ys
      → Distinct (map name_of xs)
      → Distinct (map name_of ys)
      → Distinct (map name_of (xs ++ ys))
  Distinct-append s t u [] ys h k d e = e
  Distinct-append s t u (x ∷ xs) ys h k d e = (
    All-names-append (λ j. x.name ≢ j) xs ys d.0 (apart s t u x ys h.0 k),
    Distinct-append s t u xs ys h.1 k d.1 e,
  )

  pub Grew-trans : (s t u : S) (xs ys : List Pod) → Grew s t xs → Grew t u ys → Grew s u (xs ++ ys)
  Grew-trans s t u xs ys g h = record {
    kept = λ k q pre e. h.kept k q pre (g.kept k q pre e);
    stored =
        All-append (IsNew s u) xs ys (stored_left s t u xs h.kept g.stored)
          (stored_right s t u ys g.kept h.stored);
    distinct = Distinct-append s t u xs ys g.stored h.stored g.distinct h.distinct;
    only = λ k q pre e. elim (h.only k q pre e) [
      | inr (p, m, x) ↦ inr (p, Elem-right p xs ys m, x)
      | inl e' ↦ elim (g.only k q pre e') [
        | inl e'' ↦ inl e''
        | inr (p, m, x) ↦ inr (p, Elem-left p xs ys m, x)
      ]
    ];
  }

-- One creation that succeeds adds one pod.
module _ {S : Type 0} (v : Validator) (st : Storage S Pod) (l : Lawful st)
    (answers : Answers st l) where
  created_was_free :
      (pod p' q : Pod) (s : S)
      → (create_pod v st pod s).0 ≡ ok p'
      → l.slot s (pod_key pod.name) ≢ holds q
  created_was_free pod p' q s h taken =
      let found : (st.get (pod_key pod.name) s).0 ≡ ok q =
        answers (pod_key pod.name) s ∙ ap read taken in
      let refused = create_pod_taken v st l pod q s [] taken (λ e. cc) in cc (refused.0)

  pub create_pod-Grew :
      (pod p' : Pod) (s : S)
      → l.written p' ≡ holds p'
      → (create_pod v st pod s).0 ≡ ok p'
      → Grew l.slot s (create_pod v st pod s).1 (p' ∷ [])
  create_pod-Grew pod p' s w h =
      let (e, _, wrote, after) = create_pod-eq-ok v st l pod p' s h in
      let same_name : p'.name ≡ pod.name = ap name_of e ∙ default_status_name v st l pod in
      let slots = l.create_ok (pod_key pod.name) p' (looked_up v st l pod s) wrote in
      rw after (record {
        kept = λ k q pre held. ground (
          arith,
          slots k,
          l.get_keeps (pod_key pod.name) s k,
          text_eq_iff (pod_key pod.name) k,
          created_was_free pod p' q s h,
        );
        stored = (
          (
            rw same_name
                (ground (arith, slots (pod_key pod.name), text_eq_refl (pod_key pod.name))),
            λ q. rw same_name (created_was_free pod p' q s h),
          ),
          tt,
        );
        distinct = (tt, tt);
        only = λ k q pre held. elim (Bool-cases (text_eq (pod_key pod.name) k)) [
          | inl t ↦ inr (
            p',
            inl refl,
            sym ((text_eq_iff (pod_key pod.name) k).0 t) ∙ ap pod_key (sym same_name),
          )
          | inr f ↦ inl (ground (arith, slots k, l.get_keeps (pod_key pod.name) s k, held, f))
        ];
      })

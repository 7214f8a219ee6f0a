-- ===== src/Scheduler/Loop.antt =====
-- The loop of a scheduling pass over a list of pods.
use gokube.Prelude.{
  ℕ, zero, suc, ◌%◌, Text, text_eq, text_eq_iff, text_eq_refl, ◌≡◌, ◌≢◌, refl, sym, subst, ap, ◌∙◌,
  ◌⊎◌, inl, inr, List, [], ◌∷◌, length, get_or, Elem, arith, Bool-cases, append_cancel,
}
use gokube.Exec.{ok, err, Error, Result-cases}
use gokube.Api.{Pod, pod_scheduled, Node, Validator}
use gokube.Storage.{Storage, Lawful, holds}
use gokube.Registry.Pods.{pod_key, pod_prefix, update_pod}
use gokube.Registry.Pods.Creation.{IsSound, update_pod-IsSound, update_pod_writes}
use gokube.Registry.Pods.{list_pending_pods}
use gokube.Registry.Pods.Listing.{IsStored, list_pending_pods_iff}
use gokube.Scheduler.{assign, pick, assign_all}

get_or_cases :
    (nodes : List Node) (i : ℕ) (d : Node) → (get_or nodes i d ≡ d) ⊎ Elem (get_or nodes i d) nodes
get_or_cases [] i d = inl refl
get_or_cases (n ∷ nodes) zero d = inr (inl refl)
get_or_cases (n ∷ nodes) (suc i) d = elim (get_or_cases nodes i d) [
  | inl e ↦ inl e
  | inr m ↦ inr (inr m)
]

get_or-Elem :
    (node : Node) (nodes : List Node) (i : ℕ) → Elem (get_or (node ∷ nodes) i node) (node ∷ nodes)
get_or-Elem node nodes i = elim (get_or_cases (node ∷ nodes) i node) [ inl e ↦ inl e | inr m ↦ m ]

module _ {S : Type 0} (v : Validator) (sp : Storage S Pod) (draws : ℕ → ℕ) (l : Lawful sp)
    (exact : (p : Pod) → l.written p ≡ holds p) where
  -- `p` stands in `t`, assigned to one of the nodes.
  abbrev pub IsAssigned : List Node → Pod → S → Type 0
  IsAssigned nodes p t =
      (n : Node) × Elem n nodes
      × (l.slot t (pod_key p.name)
          ≡ holds (record p { node_name = n.name; status = pod_scheduled }))

  step_ok :
      (node : Node) (nodes : List Node) (i : ℕ) (pod : Pod) (rest : List Pod) (s : S)
      → (assign_all v sp draws node nodes i (pod ∷ rest) s).0 ≡ ok tt
      → let s₁ = (update_pod v sp (assign pod (pick v sp draws node nodes i)) s).1 in
        ((update_pod v sp (assign pod (pick v sp draws node nodes i)) s).0 ≡ ok tt)
        × (assign_all v sp draws node nodes i (pod ∷ rest) s
            ≡ assign_all v sp draws node nodes (suc i) rest s₁)
  unfolding assign_all
  step_ok node nodes i pod rest s h = (ground arith, ground arith)

  -- The slot of a name that no pod of the loop has is as it was.
  pub frame :
      (node : Node) (nodes : List Node) (i : ℕ) (pods : List Pod) (s : S) (j : Text)
      → (assign_all v sp draws node nodes i pods s).0 ≡ ok tt
      → ((q : Pod) → Elem q pods → pod_key q.name ≢ j)
      → l.slot (assign_all v sp draws node nodes i pods s).1 j ≡ l.slot s j
  frame node nodes i [] s j h ne = unfold assign_all in refl
  frame node nodes i (pod ∷ rest) s j h ne =
      let a = assign pod (pick v sp draws node nodes i) in
      let (wrote, e) = step_ok node nodes i pod rest s h in
      let s₁ = (update_pod v sp a s).1 in
      rw e (
        frame node nodes (suc i) rest s₁ j (rw e at h) (λ q m. ne q (inr m))
        ∙ ground (
          arith,
          (update_pod_writes v sp l a s j wrote).1,
          text_eq_iff (pod_key pod.name) j,
          ne pod (inl refl),
        ))

  IsAssigned-now :
      (node : Node) (nodes : List Node) (i : ℕ) (pod : Pod) (s : S)
      → (update_pod v sp (assign pod (pick v sp draws node nodes i)) s).0 ≡ ok tt
      → IsAssigned
          (node ∷ nodes)
          pod
          (update_pod v sp (assign pod (pick v sp draws node nodes i)) s).1
  IsAssigned-now node nodes i pod s wrote =
      let a = assign pod (pick v sp draws node nodes i) in
      (
        pick v sp draws node nodes i,
        get_or-Elem node nodes (draws i % length (node ∷ nodes)),
        ground (
          arith,
          (update_pod_writes v sp l a s (pod_key pod.name) wrote).1,
          text_eq_refl (pod_key pod.name),
          exact a,
        ),
      )

  -- A pod that is assigned stays so when another pod of the loop is written, or the same one.
  IsAssigned-still :
      (node : Node) (nodes : List Node) (i : ℕ) (pod p : Pod) (s : S)
      → (update_pod v sp (assign pod (pick v sp draws node nodes i)) s).0 ≡ ok tt
      → (pod.name ≡ p.name → pod ≡ p)
      → IsAssigned (node ∷ nodes) p s
      → IsAssigned
          (node ∷ nodes)
          p
          (update_pod v sp (assign pod (pick v sp draws node nodes i)) s).1
  IsAssigned-still node nodes i pod p s wrote same (n, m, e) =
      let a = assign pod (pick v sp draws node nodes i) in
      elim (Bool-cases (text_eq (pod_key pod.name) (pod_key p.name))) [
        | inl t ↦
            subst (λ (q : Pod). IsAssigned (node ∷ nodes) q (update_pod v sp a s).1)
              (same (
                append_cancel pod_prefix pod.name p.name
                  ((text_eq_iff (pod_key pod.name) (pod_key p.name)).0 t)))
              (IsAssigned-now node nodes i pod s wrote)
        | inr f ↦ (n, m, ground (arith, (update_pod_writes v sp l a s (pod_key p.name) wrote).1))
      ]

  stays :
      (node : Node) (nodes : List Node) (i : ℕ) (pods : List Pod) (s : S) (p : Pod)
      → (assign_all v sp draws node nodes i pods s).0 ≡ ok tt
      → ((q : Pod) → Elem q pods → q.name ≡ p.name → q ≡ p)
      → IsAssigned (node ∷ nodes) p s
      → IsAssigned (node ∷ nodes) p (assign_all v sp draws node nodes i pods s).1
  stays node nodes i [] s p h same a = unfold assign_all in a
  stays node nodes i (pod ∷ rest) s p h same a =
      let (wrote, e) = step_ok node nodes i pod rest s h in
      rw e (
        stays node nodes (suc i) rest _ p (rw e at h) (λ q m. same q (inr m))
          (IsAssigned-still node nodes i pod p s wrote (same pod (inl refl)) a))

  pub assign_all-IsAssigned :
      (node : Node) (nodes : List Node) (i : ℕ) (pods : List Pod) (s : S) (p : Pod)
      → (assign_all v sp draws node nodes i pods s).0 ≡ ok tt
      → ((q : Pod) → Elem q pods → q.name ≡ p.name → q ≡ p)
      → Elem p pods
      → IsAssigned (node ∷ nodes) p (assign_all v sp draws node nodes i pods s).1
  assign_all-IsAssigned node nodes i [] s p h same m = absurd m
  assign_all-IsAssigned node nodes i (pod ∷ rest) s p h same (inl here) =
      let (wrote, e) = step_ok node nodes i pod rest s h in
      rw e (
        stays node nodes (suc i) rest _ p (rw e at h) (λ q m. same q (inr m))
          (subst
            (λ (q : Pod).
              IsAssigned (node ∷ nodes) q
                (update_pod v sp (assign pod (pick v sp draws node nodes i)) s).1)
            (sym here) (IsAssigned-now node nodes i pod s wrote)))
  assign_all-IsAssigned node nodes i (pod ∷ rest) s p h same (inr m) =
      let (wrote, e) = step_ok node nodes i pod rest s h in
      rw e (assign_all-IsAssigned node nodes (suc i) rest _ p (rw e at h) (λ q k. same q (inr k)) m)

  step_err :
      (node : Node) (nodes : List Node) (i : ℕ) (pod : Pod) (rest : List Pod) (s : S) (x : Error)
      → (update_pod v sp (assign pod (pick v sp draws node nodes i)) s).0 ≡ err x
      → (assign_all v sp draws node nodes i (pod ∷ rest) s).1
        ≡ (update_pod v sp (assign pod (pick v sp draws node nodes i)) s).1
  unfolding assign_all
  step_err node nodes i pod rest s x h = ground arith

  step_go :
      (node : Node) (nodes : List Node) (i : ℕ) (pod : Pod) (rest : List Pod) (s : S)
      → (update_pod v sp (assign pod (pick v sp draws node nodes i)) s).0 ≡ ok tt
      → assign_all v sp draws node nodes i (pod ∷ rest) s
        ≡ assign_all v sp draws node nodes
            (suc i)
            rest
            (update_pod v sp (assign pod (pick v sp draws node nodes i)) s).1
  unfolding assign_all
  step_go node nodes i pod rest s h = ground arith

  pub assign_all-IsSound :
      (node : Node) (nodes : List Node) (i : ℕ) (pods : List Pod) (s : S)
      → IsSound v l.slot s
      → IsSound v l.slot (assign_all v sp draws node nodes i pods s).1
  assign_all-IsSound node nodes i [] s sound = unfold assign_all in sound
  assign_all-IsSound node nodes i (pod ∷ rest) s sound =
      let a = assign pod (pick v sp draws node nodes i) in
      let after = update_pod-IsSound v sp l a s (exact a) sound in
      let later = assign_all-IsSound node nodes (suc i) rest (update_pod v sp a s).1 after in
      elim (Result-cases (update_pod v sp a s).0) [
        | inl (_, e) ↦ rw (step_go node nodes i pod rest s e) later
        | inr (x, e) ↦ rw (step_err node nodes i pod rest s x e) after
      ]

  -- A pending pod of a sound store that has the name of a stored one is that one.
  pub pending_by_name :
      (s : S) (pods : List Pod) (p q : Pod)
      → IsSound v l.slot s
      → (list_pending_pods sp s).0 ≡ ok pods
      → IsStored sp l p s
      → Elem q pods
      → q.name ≡ p.name
      → q ≡ p
  pending_by_name s pods p q sound h (k, pre, e) m same =
      let ((j, pre', e'), _) = (list_pending_pods_iff sp l s pods q h).0 m in
      let here : k ≡ pod_key p.name = sound.named k p pre e in
      let there : j ≡ pod_key q.name = sound.named j q pre' e' in
      holds_injective (sym e' ∙ ap (l.slot s) (there ∙ ap pod_key same ∙ sym here) ∙ e)
    where
      holds_injective : holds q ≡ holds p → q ≡ p
      holds_injective x = cc

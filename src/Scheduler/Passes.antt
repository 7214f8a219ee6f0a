-- ===== src/Scheduler/Passes.antt =====
-- What a scheduling pass does to the stored pods.
use gokube.Prelude.{
  ℕ, Text, ◌≡◌, ◌≢◌, refl, sym, ap, ◌∙◌, inl, inr, List, [], ◌∷◌, Elem, arith, append_cancel,
}
use gokube.Exec.{
  ok, err, Error, Result-cases, >>=-eq-ok, replace_error_state, replace_error-eq-ok, no_nodes,
  pending_list_failed, node_list_failed,
}
use gokube.Api.{Pod, pod_scheduled, pod_pending, Node, Validator}
use gokube.Storage.{Storage, Lawful, holds, Neighbour}
use gokube.Registry.Pods.{pod_key, pod_prefix, list_pending_pods}
use gokube.Registry.Pods.Creation.{IsSound}
use gokube.Registry.Pods.Listing.{IsStored, list_pending_pods_iff, list_pending_pods_keeps}
use gokube.Registry.Nodes.{list_nodes, node_prefix}
use gokube.Scheduler.{failing_as, assign_all, assign_among, schedule_pending_pods}
use gokube.Scheduler.Loop.{pending_by_name, assign_all-IsAssigned, frame, assign_all-IsSound}

-- The pass as a whole.
module _ {S : Type 0} (v : Validator) (sp : Storage S Pod) (sn : Storage S Node) (draws : ℕ → ℕ)
    (l : Lawful sp) (near : Neighbour sn l.slot) (exact : (p : Pod) → l.written p ≡ holds p) where
  -- The state after the two listings.
  abbrev listed : S → S
  listed s = (list_nodes sn (list_pending_pods sp s).1).1

  listed_slots : (s : S) (j : Text) → l.slot (listed s) j ≡ l.slot s j
  unfolding list_nodes
  listed_slots s j =
      let s₁ = (list_pending_pods sp s).1 in
      ground (arith, near.list_keeps node_prefix s₁ j, list_pending_pods_keeps sp l s j)

  listed-IsSound : (s : S) → IsSound v l.slot s → IsSound v l.slot (listed s)
  listed-IsSound s sound = record {
    valid = λ j p pre h. sound.valid j p pre (sym (listed_slots s j) ∙ h);
    named = λ j p pre h. sound.named j p pre (sym (listed_slots s j) ∙ h);
  }

  among_parts :
      (nodes : List Node) (pods : List Pod) (s : S)
      → (assign_among v sp draws nodes pods s).0 ≡ ok tt
      → (node : Node) × (more : List Node) × (nodes ≡ node ∷ more)
        × (assign_among v sp draws nodes pods s ≡ assign_all v sp draws node more 0 pods s)
  unfolding assign_among
  among_parts [] pods s h = cc
  among_parts (node ∷ more) pods s h = (node, more, refl, refl)

  -- A pass that succeeds listed the pending pods and at least one node, and ran the loop.
  record Passed (s : S) : Type 0 where
    pub pods : List Pod
    pub node : Node
    pub nodes : List Node
    pub pending : (list_pending_pods sp s).0 ≡ ok pods
    pub found : (list_nodes sn (list_pending_pods sp s).1).0 ≡ ok (node ∷ nodes)
    pub looped : (assign_all v sp draws node nodes 0 pods (listed s)).0 ≡ ok tt
    pub result :
        schedule_pending_pods v sp draws sn s ≡ assign_all v sp draws node nodes 0 pods (listed s)

  pass_parts : (s : S) → (schedule_pending_pods v sp draws sn s).0 ≡ ok tt → Passed s
  unfolding schedule_pending_pods
  pass_parts s h =
      let (pods, got, e) =
        >>=-eq-ok (failing_as pending_list_failed (list_pending_pods sp)) _ s tt h in
      let s₁ = (failing_as pending_list_failed (list_pending_pods sp) s).1 in
      let (all, seen, e') =
        >>=-eq-ok (failing_as node_list_failed (list_nodes sn)) _ s₁ tt (rw e at h) in
      let s₂ = (failing_as node_list_failed (list_nodes sn) s₁).1 in
      let (node, nodes, some_nodes, e'') = among_parts all pods s₂ (rw (e ∙ e') at h) in
      let same₁ : s₁ ≡ (list_pending_pods sp s).1 =
        replace_error_state pending_list_failed (list_pending_pods sp s) in
      let same : s₂ ≡ listed s =
        replace_error_state node_list_failed (list_nodes sn s₁)
        ∙ ap (λ (u : S). (list_nodes sn u).1) same₁ in
      record {
        pods = pods;
        node = node;
        nodes = nodes;
        pending = replace_error-eq-ok pending_list_failed (list_pending_pods sp s) pods got;
        found =
            sym (ap (λ (u : S). (list_nodes sn u).0) same₁)
            ∙ replace_error-eq-ok node_list_failed (list_nodes sn s₁) all seen
            ∙ ap ok some_nodes;
        looped = rw (e ∙ e' ∙ e'' ∙ ap (assign_all v sp draws node nodes 0 pods) same) at h;
        result = e ∙ e' ∙ e'' ∙ ap (assign_all v sp draws node nodes 0 pods) same;
      }

  -- A pass that succeeds leaves no pending pod behind: from a sound store, in which pods read back
  -- as written, every pod that was pending is stored under its name as Scheduled, on a node that
  -- ListNodes returned, and otherwise as it was.
  pub schedule_assigns :
      (s : S) (p : Pod)
      → (schedule_pending_pods v sp draws sn s).0 ≡ ok tt
      → IsSound v l.slot s
      → IsStored sp l p s
      → p.status ≡ pod_pending
      → (nodes : List Node) × (n : Node) × ((list_nodes sn (list_pending_pods sp s).1).0 ≡ ok nodes)
        × Elem n nodes
        × (l.slot (schedule_pending_pods v sp draws sn s).1 (pod_key p.name)
            ≡ holds (record p { node_name = n.name; status = pod_scheduled }))
  schedule_assigns s p h sound stored pending =
      let r = pass_parts s h in
      let (n, m, e) =
        assign_all-IsAssigned v sp draws l exact r.node r.nodes 0 r.pods (listed s) p r.looped
          (λ q k same.
            pending_by_name v sp draws l exact s r.pods p q sound r.pending stored k same)
          ((list_pending_pods_iff sp l s r.pods p r.pending).1 (stored, pending)) in
      (r.node ∷ r.nodes, n, r.found, m, rw r.result e)

  -- From a sound store, in which pods read back as written, a pass that succeeds does not touch a
  -- pod that is not pending.
  schedule_keeps_others :
      (s : S) (p : Pod)
      → (schedule_pending_pods v sp draws sn s).0 ≡ ok tt
      → IsSound v l.slot s
      → IsStored sp l p s
      → p.status ≢ pod_pending
      → l.slot (schedule_pending_pods v sp draws sn s).1 (pod_key p.name) ≡ holds p
  schedule_keeps_others s p h sound stored settled =
      let r = pass_parts s h in
      let named = sound.named stored.0 p stored.1 stored.2 in
      rw r.result (
        frame v sp draws l exact r.node r.nodes 0 r.pods (listed s) (pod_key p.name) r.looped
          (λ q m x. settled (
            sym (
              ap (λ (u : Pod). u.status)
                (pending_by_name v sp draws l exact s r.pods p q sound r.pending stored m
                  (append_cancel pod_prefix q.name p.name x)))
            ∙ ((list_pending_pods_iff sp l s r.pods q r.pending).0 m).1))
        ∙ (listed_slots s (pod_key p.name) ∙ (ap (l.slot s) (sym named) ∙ stored.2)))

  failed_listing :
      (s : S) (x : Error)
      → (list_pending_pods sp s).0 ≡ err x
      → (schedule_pending_pods v sp draws sn s).1 ≡ (list_pending_pods sp s).1
  unfolding schedule_pending_pods
  failed_listing s x e = ground arith

  failed_nodes :
      (s : S) (pods : List Pod) (x : Error)
      → (list_pending_pods sp s).0 ≡ ok pods
      → (list_nodes sn (list_pending_pods sp s).1).0 ≡ err x
      → (schedule_pending_pods v sp draws sn s).1 ≡ listed s
  unfolding schedule_pending_pods
  failed_nodes s pods x e e' = ground arith

  went_on :
      (s : S) (pods : List Pod) (nodes : List Node)
      → (list_pending_pods sp s).0 ≡ ok pods
      → (list_nodes sn (list_pending_pods sp s).1).0 ≡ ok nodes
      → schedule_pending_pods v sp draws sn s ≡ assign_among v sp draws nodes pods (listed s)
  unfolding schedule_pending_pods
  went_on s pods nodes e e' = ground arith

  among-IsSound :
      (nodes : List Node) (pods : List Pod) (s : S)
      → IsSound v l.slot s
      → IsSound v l.slot (assign_among v sp draws nodes pods s).1
  unfolding assign_among
  among-IsSound [] pods s sound = sound
  among-IsSound (node ∷ nodes) pods s sound =
      assign_all-IsSound v sp draws l exact node nodes 0 pods s sound

  -- Whether a pass succeeds or fails, half-way or at once, every stored pod is still valid and under
  -- its own name.
  pub schedule-IsSound :
      (s : S) → IsSound v l.slot s → IsSound v l.slot (schedule_pending_pods v sp draws sn s).1
  unfolding schedule_pending_pods
  schedule-IsSound s sound = elim (Result-cases (list_pending_pods sp s).0) [
    | inr (x, e) ↦ rw (failed_listing s x e) (record {
      valid = λ j p pre h. sound.valid j p pre (sym (list_pending_pods_keeps sp l s j) ∙ h);
      named = λ j p pre h. sound.named j p pre (sym (list_pending_pods_keeps sp l s j) ∙ h);
    })
    | inl (pods, e) ↦ elim (Result-cases (list_nodes sn (list_pending_pods sp s).1).0) [
      | inr (x, e') ↦ rw (failed_nodes s pods x e e') (listed-IsSound s sound)
      | inl (nodes, e') ↦
          rw (went_on s pods nodes e e')
            (among-IsSound nodes pods (listed s) (listed-IsSound s sound))
    ]
  ]

  -- If the pending pods are listed and there is no node, the pass fails and no pod's slot changes.
  pub schedule_without_nodes :
      (s : S) (pods : List Pod) (j : Text)
      → (list_pending_pods sp s).0 ≡ ok pods
      → (list_nodes sn (list_pending_pods sp s).1).0 ≡ ok []
      → ((schedule_pending_pods v sp draws sn s).0 ≡ err no_nodes)
        × (l.slot (schedule_pending_pods v sp draws sn s).1 j ≡ l.slot s j)
  unfolding schedule_pending_pods
  schedule_without_nodes s pods j e e' = (ground arith, ground (arith, listed_slots s j))

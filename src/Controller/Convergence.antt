-- ===== src/Controller/Convergence.antt =====
-- How far one reconciliation brings the number of a set's active pods.
use gokube.Prelude.{
  ℕ, ◌+◌, ◌*◌, ◌≤◌, pos, Text, true, not, ◌≡◌, sym, ap, ◌∙◌, List, [], ◌∷◌, ◌++◌, length, All,
  arith, starts_with, starts_with-append, ◌&&◌,
}
use gokube.Exec.{ok}
use gokube.Api.{
  Pod, pod_failed, status_eq, ReplicaSet, Validator, elements, is_active, is_owned_by,
  is_pod_active_and_owned_by,
}
use gokube.Storage.{Storage, Lawful, holds, Answers, Neighbour}
use gokube.Names.{NameGenerator, truncate, max_generated_name_length}
use gokube.Names.Lengths.{truncate_short}
use gokube.Registry.Pods.{list_pods}
use gokube.Registry.ReplicaSets
use gokube.Controller.{compare_counts, reconcile, get_pods_for_replica_set}
use gokube.Controller.Counting.{listing_grows}
use gokube.Controller.Reconciliation.{IsFresh, Created-from}
use gokube.Controller.Comparison.{shortfall, compare_counts-Compared}
use gokube.Controller.Outcome.{reconcile_parts, list_keeps_pods}

owned :
    (rs : ReplicaSet) (p : Pod) (suffix : Text)
    → length rs.name ≤ max_generated_name_length
    → p.name ≡ truncate rs.name ++ suffix
    → starts_with rs.name p.name ≡ true
owned rs p suffix short named =
    ap (starts_with rs.name) (named ∙ ap (λ t. t ++ suffix) (truncate_short rs.name short))
    ∙ starts_with-append rs.name suffix

fresh_is_active :
    (rs : ReplicaSet) (p : Pod)
    → length rs.name ≤ max_generated_name_length
    → IsFresh rs.name p
    → is_pod_active_and_owned_by p rs.meta ≡ true
unfolding is_pod_active_and_owned_by is_owned_by is_active status_eq
fresh_is_active rs p short (pending, _, suffix, named) =
    ap (λ b. b && not (status_eq p.status pod_failed)) (owned rs p suffix short named)
    ∙ ap (λ s. not (status_eq s pod_failed)) pending

new_are_active :
    (rs : ReplicaSet) (new : List Pod)
    → length rs.name ≤ max_generated_name_length
    → All (IsFresh rs.name) new
    → All (λ p. is_pod_active_and_owned_by p rs.meta ≡ true) new
new_are_active rs [] short h = tt
new_are_active rs (p ∷ new) short h =
    (fresh_is_active rs p short h.0, new_are_active rs new short h.1)

-- How many pods of a list are active ones of the set.
abbrev pub active_count : ReplicaSet → List Pod → ℕ
active_count rs pods = length (get_pods_for_replica_set rs pods is_pod_active_and_owned_by)

ok_injective : {A : Type 0} (a b : A) → ok a ≡ ok b → a ≡ b
ok_injective a b e = cc

module _ {S G : Type 0} (v : Validator) (gen : NameGenerator G) (sp : Storage S Pod)
    (sr : Storage S ReplicaSet) (l : Lawful sp) (answers : Answers sp l)
    (exact : (p : Pod) → l.written p ≡ holds p) (lr : Lawful sr) (near : Neighbour sr l.slot) where
  -- What a reconciliation reads: the set under the name, and then the pods.
  abbrev pub IsRead : ReplicaSet → S × G → ReplicaSet → List Pod → Type 0
  IsRead rs w current pods =
      ((ReplicaSets.get sr rs.name w.0).0 ≡ ok current)
      × ((list_pods sp (ReplicaSets.get sr rs.name w.0).1).0 ≡ ok pods)

  -- After a reconciliation that succeeds, with a set whose name has at most 58 bytes, where the store
  -- answers every lookup and pods read back as written, the next listing shows as many active pods of
  -- the set as the first one did, and for each one that was missing, of the desired number, the template's
  -- number of containers more.
  pub reconcile_reaches :
      (rs current : ReplicaSet) (pods pods' : List Pod) (w : S × G)
      → IsRead rs w current pods
      → length current.name ≤ max_generated_name_length
      → (reconcile v gen sp sr rs w).0 ≡ ok tt
      → (list_pods sp (reconcile v gen sp sr rs w).1.0).0 ≡ ok pods'
      → active_count current pods'
        ≡ active_count current pods
          + shortfall (active_count current pods) current.spec.replicas
            * length (elements current.spec.template.spec.containers)
  unfolding get_pods_for_replica_set
  reconcile_reaches rs current pods pods' w (got, listed) short h listed' =
      let (current₁, pods₁, got₁, listed₁, e) =
        reconcile_parts v gen sp sr l answers exact lr near rs w h in
      let same_set : current₁ ≡ current = ok_injective current₁ current (sym got₁ ∙ got) in
      let same_pods : pods₁ ≡ pods = ok_injective pods₁ pods (sym listed₁ ∙ listed) in
      let s₁ = (ReplicaSets.get sr rs.name w.0).1 in
      let s₂ = (list_pods sp s₁).1 in
      let counts = λ (c : ReplicaSet) (ps : List Pod).
        compare_counts v gen sp sr c (active_count c ps) c.spec.replicas (s₂, w.1) in
      let ran : reconcile v gen sp sr rs w ≡ counts current pods =
        e ∙ ap (λ (c : ReplicaSet). counts c pods₁) same_set ∙ ap (counts current) same_pods in
      let done =
        compare_counts-Compared v gen sp sr l answers exact lr near current
          (active_count current pods) (s₂, w.1) (sym (ap (λ r. r.0) ran) ∙ h) in
      let created =
        Created-from l.slot current.name _ s₁ s₂ _
          (λ j _. list_keeps_pods v gen sp sr l answers exact lr near s₁ j) done.created in
      let grown =
        listing_grows sp l (λ p. is_pod_active_and_owned_by p current.meta) s₁
          (counts current pods).1.0 created.new pods pods' listed
          (ap (λ r. (list_pods sp r.1.0).0) (sym ran) ∙ listed') created.grew
          (new_are_active current created.new short created.fresh) in
      grown ∙ ap (λ n. active_count current pods + n) created.count

  settled :
      (current : ReplicaSet) (n d : ℕ) (u : S × G)
      → n ≡ d
      → compare_counts v gen sp sr current n (pos d) u ≡ (ok tt, u)
  unfolding compare_counts
  settled current n d u e = ground (arith, e)

  -- With a template of one container and no more active pods than desired, one reconciliation that
  -- succeeds is enough, under the same conditions: the next listing shows as many active pods of the set
  -- as are desired, and a comparison of that number with the desired one does nothing.
  pub reconcile_converges :
      (rs current : ReplicaSet) (pods pods' : List Pod) (w : S × G) (d : ℕ)
      → IsRead rs w current pods
      → length current.name ≤ max_generated_name_length
      → current.spec.replicas ≡ pos d
      → length (elements current.spec.template.spec.containers) ≡ 1
      → active_count current pods ≤ d
      → (reconcile v gen sp sr rs w).0 ≡ ok tt
      → (list_pods sp (reconcile v gen sp sr rs w).1.0).0 ≡ ok pods'
      → (active_count current pods' ≡ d)
        × ((u : S × G)
            → compare_counts v gen sp sr current
                (active_count current pods')
                current.spec.replicas
                u
              ≡ (ok tt, u))
  reconcile_converges rs current pods pods' w d read short desired one le h listed' =
      let n = active_count current pods in
      let reached =
        reconcile_reaches rs current pods pods' w read short h listed'
        ∙ ap (λ k. n + shortfall n current.spec.replicas * k) one
        ∙ ap (λ r. n + shortfall n r * 1) desired in
      let all : active_count current pods' ≡ d = omega (arith, reached, le) in
      (
        all,
        λ u.
            ap (λ r. compare_counts v gen sp sr current (active_count current pods') r u) desired
            ∙ settled current (active_count current pods') d u all,
      )

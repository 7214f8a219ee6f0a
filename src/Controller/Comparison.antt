-- ===== src/Controller/Comparison.antt =====
-- The two sides of the count: what a comparison that succeeds leaves behind.
use gokube.Prelude.{
  ℕ, ◌*◌, ◌-◌, subst, ℤ, pos, negsuc, ltb_ℤ, Text, text_eq_refl, starts_with, ◌≡◌, ◌≢◌, refl, ◌⊎◌,
  inl, inr, true, false, List, length, arith, Bool-cases,
}
use gokube.Exec.{ok, >>=-eq-ok, ◌>>◌}
use gokube.Api.{Pod, Container, elements, ReplicaSet, Validator}
use gokube.Storage.{Storage, Lawful, Slot, holds, Answers, Neighbour}
use gokube.Names.{NameGenerator}
use gokube.Registry.Pods.{pod_prefix}
use gokube.Registry.ReplicaSets
use gokube.Registry.ReplicaSets.{replica_set_key}
use gokube.Registry.ReplicaSets.Laws.{update-slot}
use native.Mathlib.Nat.{add-zero}
use gokube.Controller.{rounds, create_rounds, compare_counts, on_store, set_status_replicas}
use gokube.Controller.Reconciliation.{
  zero_mul, Created, Created-trans, Created-same, rounds-Created,
}

-- How many pods are missing from `n`, if `d` are desired.
abbrev pub shortfall : ℕ → ℤ → ℕ
shortfall n (pos d) = d - n
shortfall n (negsuc _) = 0

-- What a comparison of the counts that succeeds leaves behind: a pod for each one that is missing and
-- each container, and, unless the counts agree, the desired count as the set's status.
pub record Compared {S : Type 0} (pods : S → Text → Slot Pod) (sets : S → Text → Slot ReplicaSet)
    (written : ReplicaSet → Slot ReplicaSet) (current : ReplicaSet) (count : ℕ) (s t : S)
    : Type 0 where
  pub created :
      Created pods current.name
        (shortfall count current.spec.replicas
          * length (elements current.spec.template.spec.containers))
        s
        t
  pub status :
      (pos count ≡ current.spec.replicas)
      ⊎ (sets t (replica_set_key current.name)
          ≡ written (record current {
            status = record current.status { replicas = current.spec.replicas };
          }))

rounds-shortfall : (count : ℕ) (d : ℤ) → rounds count d ≡ shortfall count d
rounds-shortfall count (pos d) = refl
rounds-shortfall count (negsuc d) = refl

shortfall_none : (count : ℕ) (d : ℤ) → ltb_ℤ (pos count) d ≡ false → shortfall count d ≡ 0
shortfall_none count (pos d) h = ground arith
shortfall_none count (negsuc d) h = refl

counts_agree :
    (count : ℕ) (d : ℤ) → ltb_ℤ (pos count) d ≡ false → ltb_ℤ d (pos count) ≡ false → pos count ≡ d
counts_agree count (pos d) h k = ground arith
counts_agree count (negsuc d) h k = ground arith

-- No key of a replica set is the key of a pod.
pub keys_apart : (name j : Text) → starts_with pod_prefix j ≡ true → replica_set_key name ≢ j
unfolding starts_with
keys_apart name j pre e = absurd (pods_or_sets (rw (← e) at pre))
  where
    pods_or_sets : false ≡ true → ⊥
    pods_or_sets x = cc

module _ {S G : Type 0} (v : Validator) (gen : NameGenerator G) (sp : Storage S Pod)
    (sr : Storage S ReplicaSet) (l : Lawful sp) (answers : Answers sp l)
    (exact : (p : Pod) → l.written p ≡ holds p) (lr : Lawful sr) (near : Neighbour sr l.slot) where
  update_keeps_pods :
      (rs : ReplicaSet) (s : S) (j : Text)
      → starts_with pod_prefix j ≡ true
      → l.slot (ReplicaSets.update sr rs s).1 j ≡ l.slot s j
  unfolding ReplicaSets.update
  update_keeps_pods rs s j pre = ground (
    arith,
    near.get_keeps (replica_set_key rs.name) s j,
    near.update_keeps (replica_set_key rs.name) rs (sr.get (replica_set_key rs.name) s).1 j
        (keys_apart rs.name j pre),
  )

  updated :
      (rs : ReplicaSet) (s : S)
      → (ReplicaSets.update sr rs s).0 ≡ ok tt
      → lr.slot (ReplicaSets.update sr rs s).1 (replica_set_key rs.name) ≡ lr.written rs
  updated rs s h = ground (
    arith,
    (update-slot sr lr rs s (replica_set_key rs.name) h).1,
    text_eq_refl (replica_set_key rs.name),
  )

  rounds_then_update :
      (base : Text) (cs : List Container) (k : ℕ) (rs : ReplicaSet) (w : S × G)
      → ((create_rounds v gen sp sr base cs k >> on_store (ReplicaSets.update sr rs)) w).0 ≡ ok tt
      → Created l.slot base
          (k * length cs)
          w.0
          ((create_rounds v gen sp sr base cs k >> on_store (ReplicaSets.update sr rs)) w).1.0
        × (lr.slot
              ((create_rounds v gen sp sr base cs k >> on_store (ReplicaSets.update sr rs)) w).1.0
              (replica_set_key rs.name)
            ≡ lr.written rs)
  rounds_then_update base cs k rs w h =
      let m = create_rounds v gen sp sr base cs k in
      let (_, done, e) = >>=-eq-ok m (λ _. on_store (ReplicaSets.update sr rs)) w tt h in
      rw e (
        rw (← add-zero (k * length cs)) (
            Created-trans l.slot base (k * length cs) 0 w.0 (m w).1.0 _
              (rounds-Created v gen sp sr l answers exact base cs k w done)
              (Created-same l.slot base (m w).1.0 _ (update_keeps_pods rs (m w).1.0))),
        updated rs (m w).1.0 (rw e at h),
      )

  none-Created :
      (current : ReplicaSet) (count : ℕ) (s t : S)
      → ltb_ℤ (pos count) current.spec.replicas ≡ false
      → ((j : Text) → starts_with pod_prefix j ≡ true → l.slot t j ≡ l.slot s j)
      → Created l.slot current.name
          (shortfall count current.spec.replicas
            * length (elements current.spec.template.spec.containers))
          s
          t
  none-Created current count s t f same =
      let n = length (elements current.spec.template.spec.containers) in
      rw (shortfall_none count current.spec.replicas f, zero_mul n)
        (Created-same l.slot current.name s t same)

  pub compare_counts-Compared :
      (current : ReplicaSet) (count : ℕ) (w : S × G)
      → (compare_counts v gen sp sr current count current.spec.replicas w).0 ≡ ok tt
      → Compared l.slot lr.slot lr.written current count w.0
          (compare_counts v gen sp sr current count current.spec.replicas w).1.0
  unfolding compare_counts
  compare_counts-Compared current count w h =
      elim (Bool-cases (ltb_ℤ (pos count) current.spec.replicas)) [
        | inl t ↦
            let (created, status) =
              rounds_then_update current.name (elements current.spec.template.spec.containers)
                (rounds count current.spec.replicas)
                (set_status_replicas current current.spec.replicas) w (rw t at h) in
            let n = length (elements current.spec.template.spec.containers) in
            rw t (record {
              created =
                  subst
                    (λ k.
                      Created l.slot current.name (k * n) w.0
                        ((create_rounds v gen sp sr current.name
                              (elements current.spec.template.spec.containers)
                              (rounds count current.spec.replicas)
                            >> on_store (
                                ReplicaSets.update sr
                                  (set_status_replicas current current.spec.replicas)))
                          w).1.0)
                    (rounds-shortfall count current.spec.replicas) created;
              status = inr status;
            })
        | inr f ↦ elim (Bool-cases (ltb_ℤ current.spec.replicas (pos count))) [
          | inl t' ↦
              let desired = set_status_replicas current current.spec.replicas in
              rw (f, t')
                (record {
                  created = none-Created current count w.0 _ f (update_keeps_pods desired w.0);
                  status = inr (updated desired w.0 (rw (f, t') at h));
                })
          | inr f' ↦
              rw (f, f')
                (record {
                  created = none-Created current count w.0 w.0 f (λ j _. refl);
                  status = inl (counts_agree count current.spec.replicas f f');
                })
        ]
      ]

-- ===== src/Kubelet/Containers.antt =====
-- Which pods the kubelet starts, and under which names it creates their containers.
use gokube.Prelude.{
  ◌<◌, Text, text_eq_iff, text_eq_refl, ◌≡◌, ◌≢◌, refl, ap, ◌∙◌, inl, inr, List, [], ◌∷◌, ◌++◌,
  none, some, Option-cases, All, arith, length, length-append, map,
}
use gokube.Api.{Pod}
use gokube.Storage.{Distinct}
use gokube.Names.{NameGenerator, truncate, max_name_length}
use gokube.Names.Lengths.{length-truncate-min}
use gokube.Kubelet.{Pods, put, run_new_pods, unique_container_name, dash}

-- The name under which StartContainer creates a container is longer than the container's own name,
-- whatever the generator draws, if that has at most 62 bytes.
pub unique_name_longer :
    {G : Type 0} (gen : NameGenerator G) (pod : Pod) (container_name : Text) (g : G)
    → length container_name < max_name_length
    → length container_name < length (unique_container_name gen pod container_name g).0
unfolding unique_container_name
unique_name_longer gen pod container_name g h =
    let base = pod.name ++ (dash ++ container_name) in
    let (suffix, x, five) = gen.generate_suffix base g in
    omega (
      arith,
      ap length x,
      length-append (truncate base) suffix,
      five,
      h,
      length-truncate-min base,
      length-append pod.name (dash ++ container_name),
      length-append dash container_name,
    )

abbrev pub name_of : Pod → Text
name_of p = p.name

-- The pods started had unknown names, each name once; what was known before stays known, and so is
-- then every name of the list.
pub record Started (known known' : Pods) (pods started : List Pod) : Type 0 where
  pub unknown : All (λ p. known p.name ≡ none) started
  pub once : Distinct (map name_of started)
  pub remembered : (name : Text) (p : Pod) → known name ≡ some p → known' name ≡ some p
  pub all_known : All (λ p. known' p.name ≢ none) pods

put_none :
    (known : Pods) (pod : Pod) (started : List Pod)
    → All (λ p. put known pod p.name ≡ none) started
    → All (λ p. known p.name ≡ none) started × All (λ j. pod.name ≢ j) (map name_of started)
put_none known pod [] h = (tt, tt)
put_none known pod (p ∷ started) h =
    let (free, other) = put_none known pod started h.1 in
    ((ground arith, free), (λ e. ground (arith, (text_eq_iff pod.name p.name).1 e), other))

put_keeps :
    (known : Pods) (pod p : Pod) (name : Text)
    → known pod.name ≡ none
    → known name ≡ some p
    → put known pod name ≡ some p
put_keeps known pod p name free h = ground (arith, (text_eq_iff pod.name name).0, ap known)

pub skipped :
    (known : Pods) (pod q : Pod) (rest : List Pod)
    → known pod.name ≡ some q
    → run_new_pods known (pod ∷ rest) ≡ run_new_pods known rest
unfolding run_new_pods
skipped known pod q rest e = rw (e, run_new_pods) refl

pub begun :
    (known : Pods) (pod : Pod) (rest : List Pod)
    → known pod.name ≡ none
    → run_new_pods known (pod ∷ rest)
      ≡ ((run_new_pods (put known pod) rest).0, pod ∷ (run_new_pods (put known pod) rest).1)
unfolding run_new_pods
begun known pod rest e = rw (e, run_new_pods) refl

-- runNewPods starts only pods whose names were not known, each name once, and knows afterwards every
-- name of the list, and each pod that it knew before.
pub run_new_pods-Started :
    (known : Pods) (pods : List Pod)
    → Started known (run_new_pods known pods).0 pods (run_new_pods known pods).1
run_new_pods-Started known [] =
    unfold run_new_pods in
    record { unknown = tt; once = tt; remembered = λ name p h. h; all_known = tt }
run_new_pods-Started known (pod ∷ rest) = elim (Option-cases (known pod.name)) [
  | inr (q, e) ↦
      let ih = run_new_pods-Started known rest in
      rw (skipped known pod q rest e) (record {
        unknown = ih.unknown;
        once = ih.once;
        remembered = ih.remembered;
        all_known = (λ x. ground (arith, ih.remembered pod.name q e), ih.all_known);
      })
  | inl e ↦
      let ih = run_new_pods-Started (put known pod) rest in
      let (free, other) = put_none known pod (run_new_pods (put known pod) rest).1 ih.unknown in
      rw (begun known pod rest e) (record {
        unknown = (e, free);
        once = (other, ih.once);
        remembered = λ name p h. ih.remembered name p (put_keeps known pod p name e h);
        all_known = (
          λ x. ground (arith, ih.remembered pod.name pod (ground (arith, text_eq_refl pod.name))),
          ih.all_known,
        );
      })
]

none_new :
    (known : Pods) (pods : List Pod)
    → All (λ p. known p.name ≢ none) pods
    → run_new_pods known pods ≡ (known, [])
none_new known [] h = unfold run_new_pods in refl
none_new known (pod ∷ rest) h = elim (Option-cases (known pod.name)) [
  | inl e ↦ absurd (h.0 e)
  | inr (q, e) ↦ skipped known pod q rest e ∙ none_new known rest h.1
]

-- The same list again starts nothing and changes nothing.
pub run_new_pods_again :
    (known : Pods) (pods : List Pod)
    → run_new_pods (run_new_pods known pods).0 pods ≡ ((run_new_pods known pods).0, [])
run_new_pods_again known pods =
    none_new (run_new_pods known pods).0 pods (run_new_pods-Started known pods).all_known

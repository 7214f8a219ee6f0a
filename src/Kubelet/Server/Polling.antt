-- ===== src/Kubelet/Server/Polling.antt =====
-- Which pods the rounds of watchPods start.
use gokube.Prelude.{
  Text, text_eq_refl, ◌≡◌, ◌≢◌, ap, ◌∙◌, inl, inr, List, [], ◌∷◌, ◌++◌, map, Option, none, some,
  Option-cases, All, All-append, arith, Option,
}
use gokube.Api.{Pod}
use gokube.Storage.{Storage, Distinct}
use gokube.Handlers.{Write}
use gokube.Handlers.Pods as Requests
use gokube.Kubelet.{Pods, put, run_new_pods}
use gokube.Kubelet.Containers.{name_of, run_new_pods-Started, skipped, begun}
use gokube.Kubelet.Server.{Exchange, get_pod_assignments, run_assigned, watch_pods}

started_known :
    (known : Pods) (pods : List Pod)
    → All (λ p. (run_new_pods known pods).0 p.name ≢ none) (run_new_pods known pods).1
started_known known [] = unfold run_new_pods in tt
started_known known (pod ∷ rest) = elim (Option-cases (known pod.name)) [
  | inr (q, e) ↦ rw (skipped known pod q rest e) (started_known known rest)
  | inl e ↦
      let ih = run_new_pods-Started (put known pod) rest in
      rw (begun known pod rest e) (
        λ x. ground (arith, ih.remembered pod.name pod (ground (arith, text_eq_refl pod.name))),
        started_known (put known pod) rest,
      )
]

-- What a kubelet that knew `known` has started by the time it knows `known'`.
pub record Since (known known' : Pods) (started : List Pod) : Type 0 where
  pub unknown : All (λ p. known p.name ≡ none) started
  pub once : Distinct (map name_of started)
  pub remembered : (name : Text) (p : Pod) → known name ≡ some p → known' name ≡ some p
  pub now_known : All (λ p. known' p.name ≢ none) started

apart_from_unknown :
    (known : Pods) (p : Pod) (more : List Pod)
    → known p.name ≢ none
    → All (λ q. known q.name ≡ none) more
    → All (λ j. p.name ≢ j) (map name_of more)
apart_from_unknown known p [] h u = tt
apart_from_unknown known p (q ∷ more) h u =
    (λ e. h (ap known e ∙ u.0), apart_from_unknown known p more h u.1)

All-map-append :
    (P : Text → Type 0) (xs ys : List Pod)
    → All P (map name_of xs)
    → All P (map name_of ys)
    → All P (map name_of (xs ++ ys))
All-map-append P [] ys h k = k
All-map-append P (x ∷ xs) ys h k = (h.0, All-map-append P xs ys h.1 k)

joined_once :
    (known : Pods) (started more : List Pod)
    → Distinct (map name_of started)
    → Distinct (map name_of more)
    → All (λ p. known p.name ≢ none) started
    → All (λ p. known p.name ≡ none) more
    → Distinct (map name_of (started ++ more))
joined_once known [] more d e k u = e
joined_once known (p ∷ started) more d e k u = (
  All-map-append (λ j. p.name ≢ j) started more d.0 (apart_from_unknown known p more k.0 u),
  joined_once known started more d.1 e k.1 u,
)

unknown_before :
    (known known' : Pods) (more : List Pod)
    → ((name : Text) (p : Pod) → known name ≡ some p → known' name ≡ some p)
    → All (λ p. known' p.name ≡ none) more
    → All (λ p. known p.name ≡ none) more
unknown_before known known' [] r u = tt
unknown_before known known' (q ∷ more) r u = (
  elim (Option-cases (known q.name)) [
    | inl e ↦ e
    | inr (p, e) ↦ absurd (ground (arith, r q.name p e, u.0))
  ],
  unknown_before known known' more r u.1,
)

kept_known :
    (known known' : Pods) (started : List Pod)
    → ((name : Text) (p : Pod) → known name ≡ some p → known' name ≡ some p)
    → All (λ p. known p.name ≢ none) started
    → All (λ p. known' p.name ≢ none) started
kept_known known known' [] r k = tt
kept_known known known' (q ∷ started) r k = (
  elim (Option-cases (known q.name)) [
    | inl e ↦ absurd (k.0 e)
    | inr (p, e) ↦ λ x. ground (arith, r q.name p e)
  ],
  kept_known known known' started r k.1,
)

Since-append :
    (a b c : Pods) (started more : List Pod)
    → Since a b started
    → Since b c more
    → Since a c (started ++ more)
Since-append a b c started more p q = record {
  unknown =
      All-append (λ p. a p.name ≡ none) started more p.unknown
        (unknown_before a b more p.remembered q.unknown);
  once = joined_once b started more p.once q.once p.now_known q.unknown;
  remembered = λ name x h. q.remembered name x (p.remembered name x h);
  now_known =
      All-append (λ p. c p.name ≢ none) started more
        (kept_known b c started q.remembered p.now_known) q.now_known;
}

assigned-Since :
    (known : Pods) (assigned : Option (List Pod))
    → Since known (run_assigned known assigned).0 (run_assigned known assigned).1
assigned-Since known none = record {
  unknown = tt;
  once = tt;
  remembered = λ name p h. h;
  now_known = tt;
}
assigned-Since known (some pods) =
    let s = run_new_pods-Started known pods in
    record {
      unknown = s.unknown;
      once = s.once;
      remembered = s.remembered;
      now_known = started_known known pods;
    }

module _ {S : Type 0} (st : Storage S Pod) (decode : List (Write Requests.Body) → Option (List Pod))
    (node_name : Text) where
  -- Over any number of rounds of watchPods, whatever the server answers and whatever others do to its
  -- store between them, the kubelet starts only pods whose names it did not know, each name once. It knows
  -- these names afterwards, and never forgets a pod.
  pub watch_pods-Since :
      (rounds : List (Exchange × (S → S))) (known : Pods) (s : S)
      → Since known
          (watch_pods st decode node_name rounds known s).0
          (watch_pods st decode node_name rounds known s).1
  unfolding watch_pods
  watch_pods-Since [] known s = record {
    unknown = tt;
    once = tt;
    remembered = λ name p h. h;
    now_known = tt;
  }
  watch_pods-Since ((ex, others) ∷ rounds) known s =
      let (assigned, s₁) = get_pod_assignments st decode node_name ex (others s) in
      let (known₁, started) = run_assigned known assigned in
      Since-append known known₁ (watch_pods st decode node_name rounds known₁ s₁).0 started
        (watch_pods st decode node_name rounds known₁ s₁).1 (assigned-Since known assigned)
        (watch_pods-Since rounds known₁ s₁)

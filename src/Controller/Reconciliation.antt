-- ===== src/Controller/Reconciliation.antt =====
-- What a reconciliation that succeeds has done to the stored pods.
use gokube.Prelude.{
  ℕ, zero, suc, ◌+◌, ◌*◌, Text, starts_with, ◌≡◌, refl, ap, ◌∙◌, inl, inr, true, List, [], ◌∷◌,
  ◌++◌, All, All-append, length, length-append, arith,
}
use gokube.Exec.{Exec, ok, Result-cases, >>=-eq-ok, ◌>>◌}
use gokube.Api.{Pod, pod_pending, Container, status_eq, ReplicaSet, Validator}
use gokube.Storage.{Storage, Lawful, Slot, holds, Answers}
use gokube.Names.{NameGenerator, truncate}
use gokube.Registry.Pods.{pod_prefix, create_pod, default_status}
use gokube.Controller.{new_pod, create_one, create_for_containers, create_rounds}
use gokube.Controller.Growth.{name_of, Grew, Grew-refl, Grew-trans, create_pod-Grew}
use gokube.Registry.Pods.Lookup.{create_pod-eq-ok}

-- A pending pod, on no node, named after the set.
abbrev pub IsFresh : Text → Pod → Type 0
IsFresh base p =
    (p.status ≡ pod_pending)
    × (p.node_name ≡ [])
    × (suffix : Text) × (p.name ≡ truncate base ++ suffix)

-- `k` pods were added for the set, and no pod was lost.
pub record Created {S : Type 0} (slot : S → Text → Slot Pod) (base : Text) (k : ℕ) (s t : S)
    : Type 0 where
  pub new : List Pod
  pub grew : Grew slot s t new
  pub count : length new ≡ k
  pub fresh : All (IsFresh base) new

module _ {S : Type 0} (slot : S → Text → Slot Pod) (base : Text) where
  pub Created-trans :
      (k n : ℕ) (s t u : S)
      → Created slot base k s t
      → Created slot base n t u
      → Created slot base (k + n) s u
  Created-trans k n s t u a b = record {
    new = a.new ++ b.new;
    grew = Grew-trans slot s t u a.new b.new a.grew b.grew;
    count = omega (arith, length-append a.new b.new, a.count, b.count);
    fresh = All-append (IsFresh base) a.new b.new a.fresh b.fresh;
  }

  pub Created-same :
      (s t : S)
      → ((j : Text) → starts_with pod_prefix j ≡ true → slot t j ≡ slot s j)
      → Created slot base 0 s t
  Created-same s t same = record {
    new = [];
    grew = Grew-refl slot s t same;
    count = refl;
    fresh = tt;
  }

  -- The same, seen from an earlier state with the same pods.
  pub Created-from :
      (k : ℕ) (r s t : S)
      → ((j : Text) → starts_with pod_prefix j ≡ true → slot s j ≡ slot r j)
      → Created slot base k s t
      → Created slot base k r t
  Created-from k r s t same c = record {
    new = c.new;
    grew = Grew-trans slot r s t [] c.new (Grew-refl slot r s same) c.grew;
    count = c.count;
    fresh = c.fresh;
  }

one_add : (n : ℕ) → suc n ≡ 1 + n
one_add n = omega arith

pub zero_mul : (n : ℕ) → 0 * n ≡ 0
zero_mul n = omega arith

suc_mul_add : (k n : ℕ) → suc k * n ≡ n + k * n
suc_mul_add k n = grind arith

module _ {S G : Type 0} (v : Validator) (gen : NameGenerator G) (sp : Storage S Pod)
    (sr : Storage S ReplicaSet) (l : Lawful sp) (answers : Answers sp l)
    (exact : (p : Pod) → l.written p ≡ holds p) where
  abbrev made : Text → Container → G → Pod
  made base c g = new_pod (gen.generate base g).0 c

  create_one_created :
      (base : Text) (c : Container) (s : S) (g : G)
      → (create_one v gen sp sr base c (s, g)).0 ≡ ok tt
      → (p : Pod) × ((create_pod v sp (made base c g) s).0 ≡ ok p)
  unfolding create_one
  create_one_created base c s g h = elim (Result-cases (create_pod v sp (made base c g) s).0) [
    | inl (p, e) ↦ (p, e)
    | inr (x, e) ↦ absurd (ground arith)
  ]

  create_one_state :
      (base : Text) (c : Container) (s : S) (g : G)
      → (create_one v gen sp sr base c (s, g)).1.0 ≡ (create_pod v sp (made base c g) s).1
  unfolding create_one
  create_one_state base c s g = ground arith

  made-IsFresh :
      (base : Text) (c : Container) (g : G) (p : Pod)
      → p ≡ default_status (made base c g)
      → IsFresh base p
  unfolding default_status status_eq
  made-IsFresh base c g p e =
      let (suffix, n, _) = gen.generate_suffix base g in
      (ap (λ (q : Pod). q.status) e, ap (λ (q : Pod). q.node_name) e, suffix, ap name_of e ∙ n)

  create_one-Created :
      (base : Text) (c : Container) (w : S × G)
      → (create_one v gen sp sr base c w).0 ≡ ok tt
      → Created l.slot base 1 w.0 (create_one v gen sp sr base c w).1.0
  create_one-Created base c (s, g) h =
      let (p, e) = create_one_created base c s g h in
      rw (create_one_state base c s g) (record {
        new = p ∷ [];
        grew = create_pod-Grew v sp l answers (made base c g) p s (exact p) e;
        count = refl;
        fresh = (made-IsFresh base c g p (create_pod-eq-ok v sp l (made base c g) p s e).0, tt);
      })

  -- Two steps, of which the first returns nothing.
  pub then-Created :
      (base : Text) (k n : ℕ) (m r : Exec (S × G) (Unit {0})) (w : S × G)
      → ((m w).0 ≡ ok tt → Created l.slot base k w.0 (m w).1.0)
      → ((r (m w).1).0 ≡ ok tt → Created l.slot base n (m w).1.0 (r (m w).1).1.0)
      → ((m >> r) w).0 ≡ ok tt
      → Created l.slot base (k + n) w.0 ((m >> r) w).1.0
  then-Created base k n m r w first second h =
      let (_, done, e) = >>=-eq-ok m (λ _. r) w tt h in
      rw e (
        Created-trans l.slot base k n w.0 (m w).1.0 (r (m w).1).1.0 (first done)
          (second (rw e at h)))

  for_containers-Created :
      (base : Text) (cs : List Container) (w : S × G)
      → (create_for_containers v gen sp sr base cs w).0 ≡ ok tt
      → Created l.slot base (length cs) w.0 (create_for_containers v gen sp sr base cs w).1.0
  unfolding create_for_containers
  for_containers-Created base [] w h = Created-same l.slot base w.0 w.0 (λ j _. refl)
  for_containers-Created base (c ∷ cs) w h = rw (one_add (length cs)) (
      then-Created base 1 (length cs) (create_one v gen sp sr base c)
        (create_for_containers v gen sp sr base cs) w (create_one-Created base c w)
        (for_containers-Created base cs (create_one v gen sp sr base c w).1) h)

  pub rounds-Created :
      (base : Text) (cs : List Container) (k : ℕ) (w : S × G)
      → (create_rounds v gen sp sr base cs k w).0 ≡ ok tt
      → Created l.slot base (k * length cs) w.0 (create_rounds v gen sp sr base cs k w).1.0
  unfolding create_rounds
  rounds-Created base cs zero w h =
      rw (zero_mul (length cs)) (Created-same l.slot base w.0 w.0 (λ j _. refl))
  rounds-Created base cs (suc k) w h = rw (suc_mul_add k (length cs)) (
      then-Created base (length cs) (k * length cs) (create_for_containers v gen sp sr base cs)
        (create_rounds v gen sp sr base cs k) w (for_containers-Created base cs w)
        (rounds-Created base cs k (create_for_containers v gen sp sr base cs w).1) h)

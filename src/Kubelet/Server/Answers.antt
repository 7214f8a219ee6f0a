-- ===== src/Kubelet/Server/Answers.antt =====
-- Answers that a client of the API server accepts.
use gokube.Prelude.{
  ◌≡◌, refl, ap, List, Bool-cases, inl, inr, true, arith, ℕ, some, none, Option, ◌==◌,
}
use gokube.Handlers.{Write}
use gokube.Kubelet.Server.{
  status_code, check_answer, ServerError, refused, Start, watching, started_by,
}

equal : (m n : ℕ) → (m == n) ≡ true → m ≡ n
equal m n h = ground (arith, h)

module _ {S B : Type 0} (expected : ℕ) (writes : List (Write B)) (s : S) where
  pub accepted : (check_answer expected (some writes, s)).0 ≡ none → status_code writes ≡ expected
  accepted h = elim (Bool-cases (status_code writes == expected)) [
    | inl e ↦ equal (status_code writes) expected e
    | inr e ↦ absurd (go (rw e at h))
  ]
    where
      go : {A : Type 0} {a : A} → some a ≡ none → ⊥
      go x = ground (arith, x)

-- Start goes on to watch where there was no error.
pub watching_accepted :
    {S : Type 0} (r : Option ServerError × S) (s₁ : S)
    → started_by r ≡ (watching, s₁)
    → (r.0 ≡ none) × (r.1 ≡ s₁)
watching_accepted (none, s) s₁ h = (refl, ap (λ p. p.1) h)
watching_accepted (some e, s) s₁ h = absurd (go (ap (λ p. p.0) h))
  where
    go : {x : ServerError} → gokube.Kubelet.Server.not_registered x ≡ watching → ⊥
    go x = ground (arith, x)

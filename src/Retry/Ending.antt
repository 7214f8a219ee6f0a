-- ===== src/Retry/Ending.antt =====
-- What holds throughout the retries of an operation, and a bound on WithExponentialBackoff.
use gokube.Prelude.{
  ℕ, zero, suc, ◌≤◌, ◌<◌, ◌≡◌, refl, inl, inr, true, false, Option, none, some, arith, ap, sym, ◌∙◌,
  ◌≢◌,
}
use mathlib.Core.Option.{some_inj}
use gokube.Retry.{Options, Operation, Wait, next_delay, with_retries, with_exponential_backoff}
use gokube.Retry.Attempts.{attempt-cases, wait-cases}

module _ {S E : Type 0} (operation : Operation S E) (wait : Wait S) (context_error : E)
    (Inv : S → Type 0) (attempted : (s : S) → Inv s → Inv (operation s).1)
    (waited : (delay : ℕ) (s : S) → Inv s → Inv (wait delay s).1) where
  -- What each attempt and each wait keep, WithRetries keeps.
  pub with_retries_keeps :
      (left delay : ℕ) (s : S)
      → Inv s
      → Inv (with_retries operation wait context_error left delay s).1
  unfolding with_retries
  with_retries_keeps zero delay s i = i
  with_retries_keeps (suc zero) delay s i = attempted s i
  with_retries_keeps (suc (suc left)) delay s i = elim (attempt-cases (operation s)) [
    | inl (t, e) ↦ rw e (rw e at (attempted s i))
    | inr (x, t, e) ↦
        let k = rw e at (attempted s i) in
        elim (wait-cases (wait delay t)) [
          | inl (u, f) ↦ rw (e, f) (rw f at (waited delay t k))
          | inr (u, f) ↦
              rw (e, f) (with_retries_keeps (suc left) delay u (rw f at (waited delay t k)))
        ]
  ]

  -- The ends of WithExponentialBackoff in a state `t`.
  pub data Stopped (t : S) : Option E → Type 0 where
    succeeded : {u : S} → Inv u → operation u ≡ (none, t) → Stopped t none
    cut_short :
        {delay : ℕ} {u : S} → Inv u → wait delay u ≡ (true, t) → Stopped t (some context_error)

  -- WithExponentialBackoff returns, if each wait that comes to its end lowers a measure that no attempt
  -- raises: fuel above the measure is enough.
  pub backoff_returns :
      (opts : Options) (measure : S → ℕ)
      → ((s : S) → Inv s → measure (operation s).1 ≤ measure s)
      → ((delay : ℕ) (s : S)
          → Inv s
          → (wait delay s).0 ≡ false
          → measure (wait delay s).1 < measure s)
      → (fuel current : ℕ) (s : S) → Inv s
      → measure s < fuel
      → (r : Option E) × (t : S) × (with_exponential_backoff operation wait context_error opts fuel
            current s
          ≡ some (r, t))
        × Inv t
        × Stopped t r
  unfolding with_exponential_backoff
  backoff_returns opts measure kept lowered zero current s i lt = absurd (omega (arith, lt))
  backoff_returns opts measure kept lowered (suc fuel) current s i lt =
      elim (attempt-cases (operation s)) [
        | inl (t, e) ↦ (none, t, rw e refl, rw e at (attempted s i), succeeded i e)
        | inr (x, t, e) ↦
            let k : Inv t = rw e at (attempted s i) in
            let le : measure t ≤ measure s = rw e at (kept s i) in
            elim (wait-cases (wait current t)) [
              | inl (u, f) ↦ (
                some context_error,
                u,
                rw (e, f) refl,
                rw f at (waited current t k),
                cut_short k f,
              )
              | inr (u, f) ↦
                  let less : measure u < measure t = rw f at (lowered current t k (rw f refl)) in
                  let (r, v, eq, j, st) =
                    backoff_returns opts measure kept lowered fuel (next_delay opts current) u
                      (rw f at (waited current t k)) (omega (arith, le, less, lt)) in
                  (r, v, rw (e, f) eq, j, st)
            ]
      ]

-- An operation that never succeeds is retried until a wait is cut short.
module _ {S E : Type 0} (operation : Operation S E) (wait : Wait S) (context_error : E)
    (fails : (s : S) → (operation s).0 ≢ none) where
  pub backoff_returned :
      (opts : Options) (fuel current : ℕ) (s : S) (r : Option E) (t : S)
      → with_exponential_backoff operation wait context_error opts fuel current s ≡ some (r, t)
      → (r ≡ some context_error) × (delay : ℕ) × (u : S) × (wait delay u ≡ (true, t))
  unfolding with_exponential_backoff
  backoff_returned opts zero current s r t h = absurd (ground (arith, h))
  backoff_returned opts (suc fuel) current s r t h = elim (attempt-cases (operation s)) [
    | inl (v, e) ↦ absurd (fails s (ap (λ (p : Option E × S). p.0) e))
    | inr (x, v, e) ↦ elim (wait-cases (wait current v)) [
      | inl (u, f) ↦
          let pair : (some context_error, u) ≡ (r, t) = some_inj.0 (rw (e, f) at h) in
          (
            sym (ap (λ (p : Option E × S). p.0) pair),
            current,
            v,
            f ∙ ap (λ (p : Option E × S). (true, p.1)) pair,
          )
      | inr (u, f) ↦ backoff_returned opts fuel (next_delay opts current) u r t (rw (e, f) at h)
    ]
  ]

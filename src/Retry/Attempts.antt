-- ===== src/Retry/Attempts.antt =====
-- How WithRetries ends.
use gokube.Prelude.{
  ℕ, zero, suc, ◌≤◌, ◌<◌, ◌≡◌, refl, ◌⊎◌, inl, inr, true, false, Bool, Option, none, some, arith,
  ap,
}
use gokube.Retry.{Operation, Wait, with_retries}

pub attempt-cases :
    {S E : Type 0} (r : Option E × S)
    → ((t : S) × (r ≡ (none, t))) ⊎ ((e : E) × (t : S) × (r ≡ (some e, t)))
attempt-cases (none, t) = inl (t, refl)
attempt-cases (some e, t) = inr (e, t, refl)

pub wait-cases :
    {S : Type 0} (r : Bool × S) → ((t : S) × (r ≡ (true, t))) ⊎ ((t : S) × (r ≡ (false, t)))
wait-cases (true, t) = inl (t, refl)
wait-cases (false, t) = inr (t, refl)

module _ {S E : Type 0} (operation : Operation S E) (wait : Wait S) (context_error : E) where
  -- `n` attempts in a row failed, each followed by a wait of `delay` to its end.
  pub data Failed (delay : ℕ) : ℕ → S → S → Type 0 where
    none_yet : {s : S} → Failed delay 0 s s
    again :
        {n : ℕ} {s s₁ s₂ t : S} {e : E}
        → operation s ≡ (some e, s₁)
        → wait delay s₁ ≡ (false, s₂)
        → Failed delay n s₂ t
        → Failed delay (suc n) s t

  -- The ends of the loop after `n` failures that led to `u`: a success, the error of the last attempt,
  -- or the context's error.
  pub data Ended (delay left n : ℕ) (u : S) : Option E → S → Type 0 where
    succeeded : {t : S} → operation u ≡ (none, t) → Ended delay left n u none t
    gave_up :
        {t : S} {e : E} → n ≡ left → operation u ≡ (some e, t) → Ended delay left n u (some e) t
    context_done :
        {u' t : S} {e : E}
        → n < left
        → operation u ≡ (some e, u')
        → wait delay u' ≡ (true, t)
        → Ended delay left n u (some context_error) t

  Ended-suc :
      {delay left n : ℕ} {u t : S} {r : Option E}
      → Ended delay left n u r t
      → Ended delay (suc left) (suc n) u r t
  Ended-suc (succeeded e) = succeeded e
  Ended-suc (gave_up n e) = gave_up (ap suc n) e
  Ended-suc (context_done n e w) = context_done (omega (arith, n)) e w

  -- WithRetries of at least one attempt runs the operation at most that often. It returns nil exactly
  -- with the first success, the error of the last attempt when all have failed, and the context's
  -- error when a wait before the last attempt is cut short.
  pub with_retries-Ended :
      (left delay : ℕ) (s : S)
      → (n : ℕ) × (u : S) × (n ≤ left)
        × Failed delay n s u
        × Ended delay left n u
            (with_retries operation wait context_error (suc left) delay s).0
            (with_retries operation wait context_error (suc left) delay s).1
  unfolding with_retries
  with_retries-Ended zero delay s = elim (attempt-cases (operation s)) [
    | inl (t, e) ↦ (0, s, omega arith, none_yet, rw e (succeeded e))
    | inr (x, t, e) ↦ (0, s, omega arith, none_yet, rw e (gave_up refl e))
  ]
  with_retries-Ended (suc left) delay s = elim (attempt-cases (operation s)) [
    | inl (t, e) ↦ (0, s, omega arith, none_yet, rw e (succeeded e))
    | inr (x, t, e) ↦ elim (wait-cases (wait delay t)) [
      | inl (t', e') ↦ (0, s, omega arith, none_yet, rw (e, e') (context_done (omega arith) e e'))
      | inr (t', e') ↦
          let (n, u, le, failed, ended) = with_retries-Ended left delay t' in
          (suc n, u, omega arith, again e e' failed, rw (e, e') (Ended-suc ended))
    ]
  ]

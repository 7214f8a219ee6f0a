-- ===== src/Retry/Backoff.antt =====
-- The delays of WithExponentialBackoff, and how it ends.
use gokube.Prelude.{
  ℕ, zero, suc, ◌≤◌, ◌<◌, ◌*◌, ◌^◌, ◌≡◌, refl, true, false, none, some, arith, ◌∙◌,
}
use Prim.Native.Nat.{min}
use gokube.Retry.{
  Options, default_options, second, next_delay, Operation, Wait, with_exponential_backoff,
}

-- The delay after `n` failures, starting from `current`.
unfoldable pub delay_after : Options → ℕ → ℕ → ℕ
unfolding next_delay
delay_after opts current zero = current
delay_after opts current (suc n) = delay_after opts (next_delay opts current) n

next_delay-le : (opts : Options) (current : ℕ) → next_delay opts current ≤ opts.max_delay
unfolding next_delay
next_delay-le opts current = ground arith

-- From the second wait on, no delay is longer than MaxDelay.
pub delay_after-le :
    (opts : Options) (current n : ℕ) → delay_after opts current (suc n) ≤ opts.max_delay
unfolding delay_after
delay_after-le opts current zero = next_delay-le opts current
delay_after-le opts current (suc n) = delay_after-le opts (next_delay opts current) n

module _ {S E : Type 0} (operation : Operation S E) (wait : Wait S) (context_error : E)
    (opts : Options) where
  -- `n` attempts in a row failed, each followed by a wait to its end, the first one of `current`.
  pub data BackedOff : ℕ → ℕ → S → S → Type 0 where
    none_yet : {current : ℕ} {s : S} → BackedOff current 0 s s
    again :
        {current n : ℕ} {s s₁ s₂ t : S} {e : E}
        → operation s ≡ (some e, s₁)
        → wait current s₁ ≡ (false, s₂)
        → BackedOff (next_delay opts current) n s₂ t
        → BackedOff current (suc n) s t

  -- WithExponentialBackoff returns nil at the first success, however many attempts have failed before
  -- it, if no wait was cut short: one unit of fuel for each attempt is enough.
  pub backoff_succeeds :
      (current n fuel : ℕ) (s t u : S)
      → BackedOff current n s t
      → operation t ≡ (none, u)
      → n < fuel
      → with_exponential_backoff operation wait context_error opts fuel current s ≡ some (none, u)
  unfolding with_exponential_backoff
  backoff_succeeds current n zero s t u b h lt = absurd (omega arith)
  backoff_succeeds current zero (suc fuel) s t u none_yet h lt = rw h refl
  backoff_succeeds current (suc n) (suc fuel) s t u (again {s₂ = s₂} e w b) h lt =
      rw (e, w) (backoff_succeeds (next_delay opts current) n fuel s₂ t u b h (omega arith))

  -- And it returns the context's error at the first wait that is cut short, which is the wait of the
  -- delay that belongs to the failures before it.
  pub backoff_cut_short :
      (current n fuel : ℕ) (s t u w : S) (e : E)
      → BackedOff current n s t
      → operation t ≡ (some e, u)
      → wait (delay_after opts current n) u ≡ (true, w)
      → n < fuel
      → with_exponential_backoff operation wait context_error opts fuel current s
        ≡ some (some context_error, w)
  unfolding with_exponential_backoff delay_after
  backoff_cut_short current n zero s t u w e b h c lt = absurd (omega arith)
  backoff_cut_short current zero (suc fuel) s t u w e none_yet h c lt = rw (h, c) refl
  backoff_cut_short current (suc n) (suc fuel) s t u w e (again {s₂ = s₂} x y b) h c lt =
      rw (x, y) (backoff_cut_short (next_delay opts current) n fuel s₂ t u w e b h c (omega arith))

capped : (n : ℕ) → delay_after default_options (30 * second) n ≡ 30 * second
unfolding delay_after next_delay
capped zero = refl
capped (suc n) = capped n

power-positive : (n : ℕ) → 1 ≤ 2 ^ n
power-positive zero = omega arith
power-positive (suc n) = omega (arith, power-positive n)

-- With the default options the waits are 1, 2, 4, 8 and 16 seconds, and 30 seconds from then on.
pub default_delays :
    (n : ℕ) → delay_after default_options second n ≡ min (2 ^ n * second) (30 * second)
unfolding delay_after next_delay
default_delays zero = refl
default_delays (suc zero) = refl
default_delays (suc (suc zero)) = refl
default_delays (suc (suc (suc zero))) = refl
default_delays (suc (suc (suc (suc zero)))) = refl
default_delays (suc (suc (suc (suc (suc n))))) = capped n ∙ omega (arith, power-positive n)

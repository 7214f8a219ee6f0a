-- ===== src/Retry.antt =====
-- pkg/retry/retry.go: the two loops, over an operation that acts on a state `S`. The wait between two
-- attempts is a parameter: it ends with the delay over, or with the context done.
pub mod Attempts
pub mod Backoff
pub mod Ending
mod Examples
use gokube.Prelude.{ℕ, zero, suc, ◌*◌, ltb, Bool, true, false, Option, none, some, if◌then◌else◌}

-- Options and DefaultOptions, with delays in nanoseconds; 0 stands for a delay that is not positive.
-- Multiplier is what it does to a delay: a product of floats, cut to a whole number.
pub record Options : Type 0 where
  pub initial_delay : ℕ
  pub max_delay : ℕ
  pub multiply : ℕ → ℕ

abbrev pub second : ℕ
second = 1000000000

abbrev pub default_options : Options
default_options = record { initial_delay = second; max_delay = 30 * second; multiply = λ d. 2 * d }

-- `nextDelay`, with its cap.
unfoldable pub next_delay : Options → ℕ → ℕ
next_delay opts current =
    let next = opts.multiply current in if ltb opts.max_delay next then opts.max_delay else next

-- An attempt: the state after it and its error, if any.
abbrev pub Operation : Type 0 → Type 0 → Type 0
Operation S E = S → Option E × S

-- A wait of a given delay: whether the context was done, and the state after it.
abbrev pub Wait : Type 0 → Type 0
Wait S = ℕ → S → Bool × S

-- `if err == nil { … }` after an attempt, and the select after it.
abbrev pub on_error : {S E A : Type 0} → (S → A) → (E → S → A) → Option E × S → A
on_error success failure (none, s) = success s
on_error success failure (some e, s) = failure e s

abbrev pub select : {S A : Type 0} → (S → A) → (S → A) → Bool × S → A
select done elapsed (true, s) = done s
select done elapsed (false, s) = elapsed s

module _ {S E : Type 0} (operation : Operation S E) (wait : Wait S) (context_error : E) where
  -- The loop of WithRetries with `left` attempts to go, 0 also standing for a negative number.
  unfoldable pub with_retries : ℕ → ℕ → S → Option E × S
  with_retries zero delay s = (none, s)
  with_retries (suc zero) delay s = operation s
  with_retries (suc (suc left)) delay s =
      on_error (λ s₁. (none, s₁))
        (λ e s₁.
          select (λ s₂. (some context_error, s₂)) (with_retries (suc left) delay) (wait delay s₁))
        (operation s)

  -- The loop of WithExponentialBackoff runs until the operation succeeds or the context is done, so it
  -- takes fuel: the number of attempts. `none` means that the fuel ran out.
  unfoldable pub with_exponential_backoff : Options → ℕ → ℕ → S → Option (Option E × S)
  with_exponential_backoff opts zero current s = none
  with_exponential_backoff opts (suc fuel) current s =
      on_error (λ s₁. some (none, s₁))
        (λ e s₁.
          select (λ s₂. some (some context_error, s₂))
            (with_exponential_backoff opts fuel (next_delay opts current)) (wait current s₁))
        (operation s)

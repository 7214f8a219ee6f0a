-- ===== src/Retry/Examples.antt =====
-- An operation that fails as often as its state says, and waits that are never cut short.
use gokube.Prelude.{ℕ, zero, suc, ◌≤◌, false, Bool, Option, none, some}
use gokube.Retry.{with_retries}
use gokube.Retry.Attempts.{Failed, Ended, with_retries-Ended}

abbrev countdown : ℕ → Option ℕ × ℕ
countdown zero = (none, 0)
countdown (suc k) = (some 1, k)

abbrev patient : ℕ → ℕ → Bool × ℕ
patient delay k = (false, k)

with_retries-Ended_example :
    (n : ℕ) × (u : ℕ) × (n ≤ 2)
    × Failed countdown patient 7 10 n 5 u
    × Ended countdown patient 7 10 2 n u
        (with_retries countdown patient 7 3 10 5).0
        (with_retries countdown patient 7 3 10 5).1
with_retries-Ended_example = with_retries-Ended countdown patient 7 2 10 5

-- ===== src/ListWatch/Session/Outcome.antt =====
-- What the goroutine of ListAndWatch leaves behind when it ends, and that it ends.
use gokube.Prelude.{
  ℕ, suc, ◌-◌, ◌≤◌, ◌<◌, Bool, true, false, length, Option, some, if◌then◌else◌, All, ◌≡◌, refl,
  sym, ap, ◌∙◌, subst, ◌⊎◌, inl, inr, arith, Bool-cases,
}
use mathlib.Core.Option.{some_inj}
use gokube.Retry.{Options, with_exponential_backoff}
use gokube.Retry.Ending.{backoff_returns, backoff_returned}
use gokube.ListWatch.Session.{Client, no_client, Session, World, sent, pass}
use gokube.ListWatch.Session.Later.{View, view, Later, Later-refl, Later-trans, IsKnown}
use gokube.ListWatch.Session.Moments.{pass-Later, pass-ticks}
use gokube.ListWatch.Session.History.{attempt-Later, cleanup-Later}
use gokube.ListWatch.Session.Loop.{
  Failure, new_session, context_error, wait, connect_list_and_watch, handle_cleanup, retried,
  run_list_watch_loop, list_and_watch,
}
use gokube.ListWatch.Session.Shutdown.{attempt_fails, Link, cleanup-link, cleanup_closes}

le-or_lt : (a c : ℕ) → (a ≤ c) ⊎ (c < a)
le-or_lt a c = omega arith

module _ (w : World) (opts : Options) where
  abbrev backoff : ℕ → Session → Option (Option Failure × Session)
  backoff attempts s =
      with_exponential_backoff (connect_list_and_watch w) (wait w) context_error opts attempts
        opts.initial_delay s

  run-if :
      (attempts rounds : ℕ) (s : Session) (b : Bool)
      → s.done ≡ b
      → run_list_watch_loop w opts attempts (suc rounds) s ≡ (
          if b
          then some (handle_cleanup w s)
          else retried (run_list_watch_loop w opts attempts rounds) (backoff attempts s))
  unfolding run_list_watch_loop
  run-if attempts rounds s b h =
      ap
        (λ (b : Bool).
          if b
          then some (handle_cleanup w s)
          else retried (run_list_watch_loop w opts attempts rounds) (backoff attempts s))
        h

  wait_done : (delay : ℕ) (u t : Session) → wait w delay u ≡ (true, t) → t.done ≡ true
  unfolding wait
  wait_done delay u t h =
      ap (λ (p : Bool × Session). p.1.done) (sym h) ∙ ap (λ (p : Bool × Session). p.0) h

  -- While the context is not done, the loop is one call of WithExponentialBackoff and the cleanup: if
  -- that call returns, it returns the context's error, and the loop does not call it again.
  pub loop_is_one_backoff :
      (attempts rounds : ℕ) (s : Session) (r : Option Failure) (t : Session)
      → s.done ≡ false
      → with_exponential_backoff
          (connect_list_and_watch w)
          (wait w)
          context_error
          opts
          attempts
          opts.initial_delay
          s
        ≡ some (r, t)
      → (r ≡ some context_error)
        × (t.done ≡ true)
        × (run_list_watch_loop w opts attempts (suc (suc rounds)) s ≡ some (handle_cleanup w t))
  loop_is_one_backoff attempts rounds s r t running h =
      let (e, delay, u, f) =
        backoff_returned (connect_list_and_watch w) (wait w) context_error (attempt_fails w) opts
          attempts opts.initial_delay s r t h in
      let d = wait_done delay u t f in
      (
        e,
        d,
        run-if attempts (suc rounds) s false running
            ∙ ap (retried (run_list_watch_loop w opts attempts (suc rounds))) h
            ∙ run-if attempts rounds t true d,
      )

  module _ (c : ℕ) (cancelled : w.cancels c ≡ true) (start : Session) where
    -- Since `start`, and in time for the moment `c`.
    abbrev InTime : Session → Type 0
    InTime s = Later w (view start) (view s) × (c < s.clock → s.done ≡ true)

    InTime-Later : (s t : Session) → InTime s → Later w (view s) (view t) → InTime t
    InTime-Later s t (l, k) m = (Later-trans w l m, m.cancelled c cancelled k)

    wait_shortens :
        (delay : ℕ) (s : Session)
        → InTime s
        → (wait w delay s).0 ≡ false
        → suc c - (wait w delay s).1.clock < suc c - s.clock
    unfolding wait
    wait_shortens delay s i h =
        let (l, k) = InTime-Later s (pass w s) i (pass-Later w s) in
        let ticked = pass-ticks w s in
        elim (le-or_lt (pass w s).clock c) [
          | inl le ↦ omega (arith, ticked, le)
          | inr lt ↦ absurd (ground (arith, k lt, h))
        ]

    loop_returns :
        (attempts rounds : ℕ)
        → (c < start.clock → start.done ≡ true)
        → suc c - start.clock < attempts
        → (u : Session) × Later w (view start) (view u)
          × (run_list_watch_loop w opts attempts (suc (suc rounds)) start
              ≡ some (handle_cleanup w u))
    loop_returns attempts rounds k lt = elim (Bool-cases start.done) [
      | inl d ↦ (start, Later-refl w (view start), run-if attempts (suc rounds) start true d)
      | inr d ↦
          let (r, t, e, (l, m), st) =
            backoff_returns (connect_list_and_watch w) (wait w) context_error InTime
              (λ s i. InTime-Later s (connect_list_and_watch w s).1 i (attempt-Later w s))
              (λ delay s i. unfold wait in InTime-Later s (pass w s) i (pass-Later w s)) opts
              (λ s. suc c - s.clock) (λ s i. omega (arith, (attempt-Later w s).ticks)) wait_shortens
              attempts opts.initial_delay start (Later-refl w (view start), k) lt in
          (t, l, (loop_is_one_backoff attempts rounds start r t d e).2)
    ]

-- Once the context is cancelled at a moment `c`, the goroutine of ListAndWatch ends, whatever etcd and
-- the reader of the channel do: fuel for c + 2 attempts and two rounds of its loop is enough. It has
-- closed the channel, let go of the client and set the gauge to 0.
pub list_and_watch_ends :
    (w : World) (opts : Options) (client : Client) (c attempts rounds : ℕ)
    → w.cancels c ≡ true
    → suc c < attempts
    → (t : Session) × (list_and_watch w opts attempts (suc (suc rounds)) client ≡ some t)
      × (t.closed ≡ true)
      × (t.client ≡ no_client)
      × (t.gauge ≡ 0)
unfolding list_and_watch
list_and_watch_ends w opts client c attempts rounds h lt =
    let (u, l, e) =
      loop_returns w opts c h (new_session client) attempts rounds (λ k. absurd (omega (arith, k)))
        (omega (arith, lt)) in
    (
      handle_cleanup w u,
      e,
      cleanup_closes w u,
      ap (λ (k : Link). k.client) (cleanup-link w u),
      ap (λ (k : Link). k.gauge) (cleanup-link w u),
    )

-- What a goroutine of ListAndWatch that has ended so has put into its channel: errors that carry a text
-- alone, and valid events under the prefix. It has sent nothing after it closed the channel, and no
-- more events wait in the channel than it has room for.
pub list_and_watch_carried :
    (w : World) (opts : Options) (client : Client) (c attempts rounds : ℕ) (t : Session)
    → w.cancels c ≡ true
    → suc c < attempts
    → list_and_watch w opts attempts (suc (suc rounds)) client ≡ some t
    → All (IsKnown w.prefix) (sent t) × (length t.buffer ≤ w.capacity) × (t.panicked ≡ false)
unfolding list_and_watch
list_and_watch_carried w opts client c attempts rounds t h lt e =
    let s = new_session client in
    let (u, l, f) =
      loop_returns w opts c h s attempts rounds (λ k. absurd (omega (arith, k)))
        (omega (arith, lt)) in
    let (v, m, g) = cleanup-Later w u in
    let same : view t ≡ record (view v) { closed = true } = ap view (some_inj.0 (sym e ∙ f)) ∙ g in
    let k = Later-trans w l m in
    (
      subst (All (IsKnown w.prefix)) (sym (ap (λ (x : View). x.carried) same ∙ k.grown)) k.known,
      omega (arith, k.fits (omega arith), ap (λ (x : View). length x.waiting_events) same),
      ap (λ (x : View). x.panicked) same ∙ (k.stays_open refl).1,
    )

-- ===== src/ListWatch/Session/Moments.antt =====
-- The reader's takes, sends and moments that pass only make a session later.
use mathlib.Core.List.{append_assoc, append-nil}
use gokube.Prelude.{
  ℕ, zero, suc, ◌<◌, Bool, true, false, not, ◌&&◌, ◌||◌, List, [], ◌∷◌, ◌++◌, length, take, drop,
  take-append-drop, length-drop, length-append, codes, if◌then◌else◌, ◌≡◌, refl, ◌∙◌, sym, ap, ◌⊎◌,
  inl, inr, arith, Bool-cases, if_keeps,
}
use gokube.ListWatch.{Event}
use gokube.ListWatch.Session.{
  Monitor, waiting, woken, trying, Session, World, sent, has_room, receive, push, hand_over, Chosen,
  was_sent, was_done, was_full, select_send, monitor_sent, connection_lost, run_monitor, advance,
  interleave, pass, block_send,
}
use gokube.ListWatch.Session.Later.{IsKnown, view, Later, Later-refl, Later-trans, Later-carried}

pub receive-sent : (n : ℕ) (s : Session) → sent (receive n s) ≡ sent s
unfolding receive
receive-sent n s =
    append_assoc s.taken (take n s.buffer) (drop n s.buffer)
    ∙ ap (λ xs. s.taken ++ xs) (take-append-drop n s.buffer)

pub receive-Later : (w : World) (n : ℕ) (s : Session) → Later w (view s) (view (receive n s))
unfolding receive
receive-Later w n s =
    Later-carried w (view s) (view (receive n s)) [] (receive-sent n s ∙ sym (append-nil (sent s)))
      tt (λ f. omega (arith, f, length-drop n s.buffer)) refl

-- A push grows the channel by an event, or panics where it is closed.
push_closed :
    (event : Event) (s : Session) → s.closed ≡ true → push event s ≡ record s { panicked = true }
unfolding push
push_closed event s h = rw h refl

pub push_open :
    (event : Event) (s : Session)
    → s.closed ≡ false
    → push event s ≡ record s { buffer = s.buffer ++ (event ∷ []) }
unfolding push
push_open event s h = rw h refl

-- A panic needs a closed channel.
panicked-Later :
    (w : World) (s : Session)
    → s.closed ≡ true
    → Later w (view s) (view (record s { panicked = true }))
panicked-Later w s h =
    let p = Later-refl w (view s) in
    record {
      more = p.more;
      grown = p.grown;
      known = p.known;
      fits = p.fits;
      stays_done = p.stays_done;
      stays_open = λ o. absurd (ground (arith, h, o));
      ticks = p.ticks;
      cancelled = p.cancelled;
    }

pub set_done-Later : (w : World) (s : Session) → Later w (view s) (view (record s { done = true }))
set_done-Later w s =
    let p = Later-refl w (view s) in
    record {
      more = p.more;
      grown = p.grown;
      known = p.known;
      fits = p.fits;
      stays_done = λ h. refl;
      stays_open = p.stays_open;
      ticks = p.ticks;
      cancelled = λ c h k l. refl;
    }

module _ (w : World) (event : Event) (s : Session) (known : IsKnown w.prefix event) where
  -- A push with room for it, and a push that its reader takes at once.
  push-Later : length s.buffer < w.capacity → Later w (view s) (view (push event s))
  push-Later room = elim (Bool-cases s.closed) [
    | inl h ↦ rw (push_closed event s h) (panicked-Later w s h)
    | inr h ↦ rw (push_open event s h) (
        Later-carried w (view s) (view (record s { buffer = s.buffer ++ (event ∷ []) }))
          (event ∷ []) (sym (append_assoc s.taken s.buffer (event ∷ []))) (known, tt)
          (λ f. omega (arith, room, length-append s.buffer (event ∷ []))) refl)
  ]

  pub taken_at_once : Later w (view s) (view (receive 1 (push event s)))
  taken_at_once = elim (Bool-cases s.closed) [
    | inl h ↦
        rw (push_closed event s h)
          (Later-trans w (panicked-Later w s h) (receive-Later w 1 (record s { panicked = true })))
    | inr h ↦ rw (push_open event s h) (
        let t = record s { buffer = s.buffer ++ (event ∷ []) } in
        Later-carried w (view s) (view (receive 1 t)) (event ∷ [])
          (receive-sent 1 t ∙ sym (append_assoc s.taken s.buffer (event ∷ []))) (known, tt)
          (λ f.
            unfold receive in
            omega (arith, f, length-drop 1 t.buffer, length-append s.buffer (event ∷ [])))
          (unfold receive in refl))
  ]

  hand_over-Later : has_room w s ≡ true → Later w (view s) (view (hand_over w event s))
  unfolding has_room hand_over
  hand_over-Later room = elim (Bool-cases (w.reads s.clock)) [
    | inl r ↦ rw r taken_at_once
    | inr r ↦ elim (Bool-cases s.closed) [
      | inl h ↦ rw (r, push_closed event s h) (panicked-Later w s h)
      | inr h ↦ rw r (push-Later (ground (arith, room, h, r)))
    ]
  ]

-- A select with a default, and a send that blocks.
module _ (w : World) (event : Event) (s : Session) (known : IsKnown w.prefix event) where
  pub select_send-Later : Later w (view s) (view (select_send w event s).1)
  unfolding select_send
  select_send-Later =
      let P = λ (r : Chosen × Session). Later w (view s) (view r.1) in
      if_keeps P (has_room w s && not (s.done && w.picks_done s.clock))
        (was_sent, hand_over w event s) (if s.done then (was_done, s) else (was_full, s))
        (λ h. hand_over-Later w event s known (ground (arith, h)))
        (λ h.
          if_keeps P s.done (was_done, s) (was_full, s) (λ d. Later-refl w (view s))
            (λ d. Later-refl w (view s)))

  pub block_send-Later : Later w (view s) (view (block_send w event s).1)
  unfolding block_send
  block_send-Later =
      let P = λ (r : Bool × Session). Later w (view s) (view r.1) in
      let blocked : Bool × Session = (false, record s { done = true }) in
      let unblocked : Bool × Session = (true, receive 1 (push event s)) in
      if_keeps P (has_room w s && not (s.done && w.picks_done s.clock)) (true, hand_over w event s)
        (if s.done || not (w.unblocks s.clock) then blocked else unblocked)
        (λ h. hand_over-Later w event s known (ground (arith, h)))
        (λ h.
          if_keeps P (s.done || not (w.unblocks s.clock)) blocked unblocked
            (λ d. set_done-Later w s) (λ d. taken_at_once w event s known))

-- A moment that passes.
monitor_sent-view :
    (left : ℕ) (rest : List Monitor) (r : Chosen × Session)
    → view (monitor_sent left rest r) ≡ view r.1
monitor_sent-view left rest (was_sent, s) = refl
monitor_sent-view left rest (was_done, s) = refl
monitor_sent-view left rest (was_full, s) = refl

run_monitor-Later :
    (w : World) (ms : List Monitor) (s : Session) → Later w (view s) (view (run_monitor w ms s))
unfolding run_monitor
run_monitor-Later w [] s = Later-refl w (view s)
run_monitor-Later w (waiting ∷ rest) s =
    if_keeps (λ t. Later w (view s) (view t)) s.done (record s { monitors = rest }) s
      (λ d. Later-refl w (view s)) (λ d. Later-refl w (view s))
run_monitor-Later w (woken ∷ rest) s = Later-refl w (view s)
run_monitor-Later w (trying zero ∷ rest) s = Later-refl w (view s)
run_monitor-Later w (trying (suc left) ∷ rest) s =
    rw (monitor_sent-view left rest (select_send w connection_lost s))
      (select_send-Later w connection_lost s (inl (codes "etcd connection lost", refl)))

interleave-Later : (w : World) (s : Session) → Later w (view s) (view (interleave w s))
unfolding interleave
interleave-Later w s =
    if_keeps (λ t. Later w (view s) (view t)) (w.runs s.clock) (run_monitor w s.monitors s) s
      (λ h. run_monitor-Later w s.monitors s) (λ h. Later-refl w (view s))

lt_suc-cases : (c n : ℕ) → c < suc n → (c < n) ⊎ (c ≡ n)
lt_suc-cases c n h = omega (arith, h)

advance-Later : (w : World) (s : Session) → Later w (view s) (view (advance w s))
unfolding advance
advance-Later w s =
    let p = Later-refl w (view s) in
    record {
      more = p.more;
      grown = p.grown;
      known = p.known;
      fits = p.fits;
      stays_done = λ h. ground (arith, h);
      stays_open = p.stays_open;
      ticks = omega arith;
      cancelled = λ c h k l. elim (lt_suc-cases c s.clock l) [
        | inl m ↦ ground (arith, k m)
        | inr e ↦ ground (arith, rw e at h)
      ];
    }

pub pass-Later : (w : World) (s : Session) → Later w (view s) (view (pass w s))
unfolding pass
pass-Later w s =
    let s₁ = receive (w.takes s.clock) s in
    let s₂ = advance w s₁ in
    Later-trans w (receive-Later w (w.takes s.clock) s)
      (Later-trans w (advance-Later w s₁) (interleave-Later w s₂))

-- And the clock ticks.
pub pass-ticks : (w : World) (s : Session) → s.clock < (pass w s).clock
unfolding pass advance receive
pass-ticks w s =
    let s₁ = receive (w.takes s.clock) s in omega (arith, (interleave-Later w (advance w s₁)).ticks)

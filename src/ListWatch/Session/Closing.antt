-- ===== src/ListWatch/Session/Closing.antt =====
-- pkg/listwatch/listwatch.go: what handleWatchChannelClose puts into the channel.
use mathlib.Core.Path.{fun_ext}
use gokube.Prelude.{
  ℕ, zero, suc, Text, codes, List, [], ◌∷◌, ◌++◌, if◌then◌else◌, All, ◌≡◌, refl, sym, ap, ◌∙◌, inl,
  inr, arith, text_eq, text_eq_refl,
}
use gokube.ListWatch.{Event, validate, error_event}
use gokube.ListWatch.Session.{
  Monitor, waiting, woken, trying, Session, World, sent, select_send, has_room, hand_over,
  run_monitor, receive, advance, interleave, pass,
}
use gokube.ListWatch.Session.Later.{IsKnown}
use gokube.ListWatch.Session.Sends.{closed-After}
use gokube.ListWatch.Session.Loop.{after_close, handle_watch_channel_close}

abbrev pub IsErrorEvent : Event → Type 0
IsErrorEvent e = (message : Text) × (e ≡ error_event message)

-- The session has carried `es` and then errors of the ListWatch itself.
abbrev pub Ends : Session → List Event → Session → Type 0
Ends s es t = (errors : List Event) × All IsErrorEvent errors × (sent t ≡ sent s ++ (es ++ errors))

-- A world of which no event is known by its prefix.
abbrev bare : World → World
bare w = record w { prefix = [] }

no_prefix : (e : Event) → IsKnown [] e → IsErrorEvent e
unfolding validate
no_prefix e (inl h) = h
no_prefix e (inr (v, p)) =
    absurd (ground (arith, v, p, text_eq_refl e.prefix, ap (text_eq e.prefix) p))

no_prefixes : (es : List Event) → All (IsKnown []) es → All IsErrorEvent es
no_prefixes [] h = tt
no_prefixes (e ∷ es) h = (no_prefix e h.0, no_prefixes es h.1)

module _ (w : World) where
  select_send-bare :
      (event : Event) (s : Session) → select_send (bare w) event s ≡ select_send w event s
  unfolding select_send has_room hand_over
  select_send-bare event s = refl

  run_monitor-bare :
      (ms : List Monitor) (s : Session) → run_monitor (bare w) ms s ≡ run_monitor w ms s
  unfolding run_monitor select_send has_room hand_over
  run_monitor-bare [] s = refl
  run_monitor-bare (waiting ∷ rest) s = refl
  run_monitor-bare (woken ∷ rest) s = refl
  run_monitor-bare (trying zero ∷ rest) s = refl
  run_monitor-bare (trying (suc left) ∷ rest) s = refl

  pass-bare : (s : Session) → pass (bare w) s ≡ pass w s
  unfolding pass interleave advance
  pass-bare s =
      let t = advance w (receive (w.takes s.clock) s) in
      ap (λ u. if w.runs t.clock then u else t) (run_monitor-bare t.monitors t)

  close-bare :
      (left : ℕ) (s : Session)
      → handle_watch_channel_close (bare w) left s ≡ handle_watch_channel_close w left s
  unfolding handle_watch_channel_close
  close-bare zero s = refl
  close-bare (suc left) s =
      let event = error_event (codes "watch channel closed unexpectedly") in
      ap (λ r. after_close (λ t. handle_watch_channel_close (bare w) left (pass (bare w) t)) r)
        (select_send-bare event s)
      ∙ ap (λ f. after_close f (select_send w event s))
          (fun_ext (λ t.
            close-bare left (pass (bare w) t)
            ∙ ap (handle_watch_channel_close w left) (pass-bare t)))

  -- Whatever the channel gets while it is closed is an error.
  pub close-Ends : (left : ℕ) (s : Session) → Ends s [] (handle_watch_channel_close w left s).1
  close-Ends left s =
      let l = closed-After (bare w) left s in
      (l.more, no_prefixes l.more l.known, ap (λ r. sent r.1) (sym (close-bare left s)) ∙ l.grown)

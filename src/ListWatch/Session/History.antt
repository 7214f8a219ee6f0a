-- ===== src/ListWatch/Session/History.antt =====
-- Every operation of the loop only makes a session later.
use gokube.Prelude.{
  ℕ, ◌+◌, codes, true, ◌&&◌, List, [], ◌∷◌, ◌++◌, map, Option, none, some, if◌then◌else◌, All, ◌≡◌,
  refl, if_keeps,
}
use gokube.Retry.{on_error}
use gokube.ListWatch.{Event, KeyValue, put_type, event_of, list, watch}
use gokube.ListWatch.Session.{no_client, waiting, Session, Answer, World, pass}
use gokube.ListWatch.Session.Later.{view, Later, Later-refl, Later-trans, IsFrom}
use gokube.ListWatch.Session.Moments.{set_done-Later, pass-Later}
use gokube.ListWatch.Session.Loop.{
  Failure, try_to_send_error_event, send_event, close_etcd_client, ensure_connected, send_listed,
  watch_and_forward, kvs_of, list_and_send_existing, cancel_watch_context, watch_cancel,
  handle_watch_channel_close, watch_stopped, forward_events, leave_watch, start_watch,
  watch_and_forward_events, connect_list_and_watch, handle_cleanup,
}
use gokube.ListWatch.Session.Sends.{
  listed_IsFrom, watched_IsFrom, After, on_error-After, error_sent-Later, send_event-After,
  ensure_connected-After, send_all-After, closed-After,
}

module _ (w : World) where
  pub send_listed-After :
      (s : Session) (answer : Option (List KeyValue))
      → After w s (send_listed w s (list w.prefix answer))
  unfolding send_listed list close_etcd_client
  send_listed-After s none = error_sent-Later w (codes "failed to list items") s
  send_listed-After s (some kvs) =
      send_all-After w (map (λ kv. event_of w.prefix (put_type kv) kv) kvs) s
        (listed_IsFrom w.prefix kvs)

  list_and_send_existing-After : (s : Session) → After w s (list_and_send_existing w s)
  unfolding list_and_send_existing
  list_and_send_existing-After s =
      let t = pass w s in
      Later-trans w (pass-Later w s) (send_listed-After t (kvs_of (w.get t.client t.done t.clock)))

  watch_stopped-After : (s : Session) → After w s (watch_stopped w s)
  unfolding watch_stopped
  watch_stopped-After s = error_sent-Later w (codes "watch stopped: context cancelled") s

  forward_events-After :
      (es : List Event) (s : Session) → All (IsFrom w.prefix) es → After w s (forward_events w es s)
  unfolding forward_events cancel_watch_context
  forward_events-After [] s from =
      let t = pass w s in
      let p = pass-Later w s in
      let t' = record t { done = true } in
      let closed = handle_watch_channel_close w 3 (cancel_watch_context t) in
      if_keeps (After w s) (w.idles t.clock) (watch_stopped w t')
        (if t.done && w.picks_done t.clock then watch_stopped w t else closed)
        (λ h. Later-trans w p (Later-trans w (set_done-Later w t) (watch_stopped-After t')))
        (λ h.
          if_keeps (After w s) (t.done && w.picks_done t.clock) (watch_stopped w t) closed
            (λ h. Later-trans w p (watch_stopped-After t))
            (λ h. Later-trans w p (closed-After w 3 (cancel_watch_context t))))
  forward_events-After (event ∷ rest) s from =
      let t = pass w s in
      let p = pass-Later w s in
      let sent = send_event w event t in
      if_keeps (After w s) (t.done && w.picks_done t.clock) (watch_stopped w t)
        (on_error (forward_events w rest) (λ e u. (some e, u)) sent)
        (λ h. Later-trans w p (watch_stopped-After t))
        (λ h.
          on_error-After w s (forward_events w rest) sent (λ u. forward_events-After rest u from.1)
            (Later-trans w p (send_event-After w event t from.0)))

  leave_watch-After :
      (s : Session) (r : Option Failure × Session) → After w s r → After w s (leave_watch r)
  unfolding cancel_watch_context watch_cancel
  leave_watch-After s (r, t) l = l

  watch_and_forward-After :
      (s : Session) (clock : ℕ) (answer : Option Answer)
      → After w s (watch_and_forward w s (start_watch w clock answer))
  unfolding watch_and_forward close_etcd_client
  watch_and_forward-After s clock none = error_sent-Later w (codes "failed to start watch") s
  watch_and_forward-After s clock (some answer) =
      let es = watch w.prefix (w.responses (answer.revision + 1) clock) in
      let t = record s { monitors = s.monitors ++ (waiting ∷ []) } in
      leave_watch-After s (forward_events w es t) (
        forward_events-After es t
          (watched_IsFrom w.prefix (w.responses (answer.revision + 1) clock)))

  watch_and_forward_events-After : (s : Session) → After w s (watch_and_forward_events w s)
  unfolding watch_and_forward_events
  watch_and_forward_events-After s =
      let t = pass w s in
      Later-trans w (pass-Later w s)
        (watch_and_forward-After t t.clock (w.get t.client t.done t.clock))

  -- The operation that the loop retries, and the cleanup up to the moment at which it closes the channel.
  pub attempt-Later : (s : Session) → Later w (view s) (view (connect_list_and_watch w s).1)
  unfolding connect_list_and_watch
  attempt-Later s =
      let step = λ (t : Session).
        on_error (watch_and_forward_events w) (λ e u. (some e, u)) (list_and_send_existing w t) in
      on_error-After w s step (ensure_connected w s)
        (λ t.
          on_error-After w t (watch_and_forward_events w) (list_and_send_existing w t)
            watch_and_forward_events-After (list_and_send_existing-After t))
        (ensure_connected-After w s)

  pub cleanup-Later :
      (s : Session)
      → (u : Session) × Later w (view s) (view u)
        × (view (handle_cleanup w s) ≡ record (view u) { closed = true })
  unfolding handle_cleanup close_etcd_client
  cleanup-Later s =
      let t = record s { client = no_client; gauge = 0 } in
      let v = (try_to_send_error_event w (codes "context cancelled") t).1 in
      (
        if t.done then v else t,
        if_keeps (λ u. Later w (view s) (view u)) t.done v t
            (λ h. error_sent-Later w (codes "context cancelled") t) (λ h. Later-refl w (view s)),
        refl,
      )

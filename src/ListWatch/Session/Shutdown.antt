-- ===== src/ListWatch/Session/Shutdown.antt =====
-- How the loop of ListAndWatch ends: no attempt succeeds, so it ends with its context.
use gokube.Prelude.{
  ℕ, zero, suc, ◌*◌, Text, codes, Bool, true, not, ◌&&◌, List, [], ◌∷◌, ◌++◌, Option, none, some,
  if◌then◌else◌, ◌≡◌, ◌≢◌, refl, ◌∙◌, arith, if_keeps,
}
use gokube.Retry.{on_error, with_retries}
use gokube.Retry.Ending.{with_retries_keeps}
use gokube.ListWatch.{Event, error_event}
use gokube.ListWatch.Session.{
  Client, no_client, Monitor, waiting, woken, trying, Session, World, Chosen, was_sent, was_done,
  was_full, has_room, select_send, push, hand_over, receive, connection_lost, run_monitor,
  monitor_sent, advance, interleave, pass,
}
use gokube.ListWatch.Session.Loop.{
  Failure, context_error, wait, millisecond, attempt_result, was_nil, try_to_send_error_event,
  send_event, close_etcd_client, ensure_connected, list_and_send_existing, cancel_watch_context,
  after_close, handle_watch_channel_close, watch_stopped, forward_events, leave_watch, start_watch,
  watch_and_forward, watch_and_forward_events, connect_list_and_watch, handle_cleanup,
}

some_is_no_none : {A : Type 0} {x : A} → some x ≢ none
some_is_no_none h = ground (arith, h)

on_error_fails :
    (f : Session → Option Failure × Session) (r : Option Failure × Session)
    → ((t : Session) → (f t).0 ≢ none)
    → (on_error f (λ e t. (some e, t)) r).0 ≢ none
on_error_fails f (none, t) h = h t
on_error_fails f (some e, t) h = some_is_no_none

module _ (w : World) where
  close_fails : (left : ℕ) (s : Session) → (handle_watch_channel_close w left s).0 ≢ none
  unfolding handle_watch_channel_close
  close_fails zero s = some_is_no_none
  close_fails (suc left) s =
      go (select_send w (error_event (codes "watch channel closed unexpectedly")) s)
        (λ t. close_fails left (pass w t))
    where
      go :
          (r : Chosen × Session)
          → ((t : Session) → (handle_watch_channel_close w left (pass w t)).0 ≢ none)
          → (after_close (λ t. handle_watch_channel_close w left (pass w t)) r).0 ≢ none
      go (was_sent, t) h = some_is_no_none
      go (was_done, t) h = some_is_no_none
      go (was_full, t) h = h t

  forward_fails : (es : List Event) (s : Session) → (forward_events w es s).0 ≢ none
  unfolding forward_events watch_stopped
  forward_fails [] s =
      let t = pass w s in
      let t' = record t { done = true } in
      let closed = handle_watch_channel_close w 3 (cancel_watch_context t) in
      let P = λ (r : Option Failure × Session). r.0 ≢ none in
      if_keeps P (w.idles t.clock) (watch_stopped w t')
        (if t.done && w.picks_done t.clock then watch_stopped w t else closed)
        (λ h. some_is_no_none)
        (λ h.
          if_keeps P (t.done && w.picks_done t.clock) (watch_stopped w t) closed
            (λ h. some_is_no_none) (λ h. close_fails 3 (cancel_watch_context t)))
  forward_fails (event ∷ rest) s =
      let t = pass w s in
      let sent = send_event w event t in
      if_keeps (λ (r : Option Failure × Session). r.0 ≢ none) (t.done && w.picks_done t.clock)
        (watch_stopped w t) (on_error (forward_events w rest) (λ e u. (some e, u)) sent)
        (λ h. some_is_no_none)
        (λ h. on_error_fails (forward_events w rest) sent (forward_fails rest))

  leave_fails : (r : Option Failure × Session) → r.0 ≢ none → (leave_watch r).0 ≢ none
  leave_fails (r, t) h = h

  started_fails : (s : Session) (es : Option (List Event)) → (watch_and_forward w s es).0 ≢ none
  unfolding watch_and_forward
  started_fails s none = some_is_no_none
  started_fails s (some es) =
      let t = record s { monitors = s.monitors ++ (waiting ∷ []) } in
      leave_fails (forward_events w es t) (forward_fails es t)

  watch_fails : (s : Session) → (watch_and_forward_events w s).0 ≢ none
  unfolding watch_and_forward_events
  watch_fails s =
      let t = pass w s in started_fails t (start_watch w t.clock (w.get t.client t.done t.clock))

  -- An attempt to connect, list and watch always ends with an error, so WithExponentialBackoff never
  -- starts again with the first delay, however long the watch went well.
  pub attempt_fails : (s : Session) → (connect_list_and_watch w s).0 ≢ none
  unfolding connect_list_and_watch
  attempt_fails s =
      on_error_fails
        (λ t.
          on_error (watch_and_forward_events w) (λ e u. (some e, u)) (list_and_send_existing w t))
        (ensure_connected w s)
        (λ t. on_error_fails (watch_and_forward_events w) (list_and_send_existing w t) watch_fails)

-- Sends and moments leave the client and the gauge alone.
pub record Link : Type 0 where
  pub client : Client
  pub gauge : ℕ

abbrev pub link : Session → Link
link s = record { client = s.client; gauge = s.gauge }

monitor_sent-link :
    (left : ℕ) (rest : List Monitor) (r : Chosen × Session)
    → link (monitor_sent left rest r) ≡ link r.1
monitor_sent-link left rest (was_sent, s) = refl
monitor_sent-link left rest (was_done, s) = refl
monitor_sent-link left rest (was_full, s) = refl

attempt_result-link : (r : Chosen × Session) → link (attempt_result r).1 ≡ link r.1
attempt_result-link (was_sent, s) = refl
attempt_result-link (was_done, s) = refl
attempt_result-link (was_full, s) = refl

was_nil-link : (r : Option Failure × Session) → link (was_nil r).1 ≡ link r.1
was_nil-link (none, s) = refl
was_nil-link (some e, s) = refl

if_link :
    (b : Bool) (s t : Session) (l : Link) → link s ≡ l → link t ≡ l → link (if b then s else t) ≡ l
if_link b s t l p q = if_keeps (λ u. link u ≡ l) b s t (λ h. p) (λ h. q)

module _ (w : World) where
  pub hand_over-link : (event : Event) (s : Session) → link (hand_over w event s) ≡ link s
  unfolding hand_over push receive
  hand_over-link event s =
      let pushed = push event s in
      let p =
        if_link s.closed (record s { panicked = true })
          (record s { buffer = s.buffer ++ (event ∷ []) }) (link s) refl refl in
      if_link (w.reads s.clock) (receive 1 pushed) pushed (link s) p p

  pub select_send-link : (event : Event) (s : Session) → link (select_send w event s).1 ≡ link s
  unfolding select_send
  select_send-link event s =
      let P = λ (r : Chosen × Session). link r.1 ≡ link s in
      if_keeps P (has_room w s && not (s.done && w.picks_done s.clock))
        (was_sent, hand_over w event s) (if s.done then (was_done, s) else (was_full, s))
        (λ h. hand_over-link event s)
        (λ h. if_keeps P s.done (was_done, s) (was_full, s) (λ d. refl) (λ d. refl))

  run_monitor-link : (ms : List Monitor) (s : Session) → link (run_monitor w ms s) ≡ link s
  unfolding run_monitor
  run_monitor-link [] s = refl
  run_monitor-link (waiting ∷ rest) s =
      if_link s.done (record s { monitors = rest }) s (link s) refl refl
  run_monitor-link (woken ∷ rest) s = refl
  run_monitor-link (trying zero ∷ rest) s = refl
  run_monitor-link (trying (suc left) ∷ rest) s =
      monitor_sent-link left rest (select_send w connection_lost s)
      ∙ select_send-link connection_lost s

  pub pass-link : (s : Session) → link (pass w s) ≡ link s
  unfolding pass interleave advance receive
  pass-link s =
      let t = advance w (receive (w.takes s.clock) s) in
      if_link (w.runs t.clock) (run_monitor w t.monitors t) t (link s)
        (run_monitor-link t.monitors t) refl

  pub error_sent-link :
      (message : Text) (s : Session) → link (try_to_send_error_event w message s).1 ≡ link s
  unfolding try_to_send_error_event
  error_sent-link message s =
      let attempt : Session → Option Failure × Session =
        λ t. attempt_result (select_send w (error_event message) t) in
      was_nil-link (with_retries attempt (wait w) context_error 3 (10 * millisecond) s)
      ∙ with_retries_keeps attempt (wait w) context_error (λ t. link t ≡ link s)
          (λ t l.
            attempt_result-link (select_send w (error_event message) t)
            ∙ select_send-link (error_event message) t
            ∙ l)
          (λ d t l. unfold wait in pass-link t ∙ l) 3 (10 * millisecond) s refl

  -- After handleCleanup the client is nil and the gauge 0.
  pub cleanup-link :
      (s : Session) → link (handle_cleanup w s) ≡ record { client = no_client; gauge = 0 }
  unfolding handle_cleanup close_etcd_client
  cleanup-link s =
      let t = record s { client = no_client; gauge = 0 } in
      let u = (try_to_send_error_event w (codes "context cancelled") t).1 in
      if_link t.done u t (record { client = no_client; gauge = 0 })
        (error_sent-link (codes "context cancelled") t) refl

  pub cleanup_closes : (s : Session) → (handle_cleanup w s).closed ≡ true
  unfolding handle_cleanup
  cleanup_closes s = refl

-- ===== src/ListWatch/Session/Failure.antt =====
-- What an attempt that fails leaves for the next one.
use gokube.Prelude.{
  ℕ, zero, suc, codes, Bool, true, false, not, ◌&&◌, ◌||◌, List, [], ◌∷◌, ◌++◌, Option, none, some,
  if◌then◌else◌, ◌≡◌, refl, ap, ◌∙◌, ◌⊎◌, inl, inr, arith, if_keeps,
}
use gokube.Retry.{on_error}
use gokube.ListWatch.{Event, error_event, validate, list}
use gokube.ListWatch.Session.{
  Client, no_client, connected, shut, waiting, Session, World, Chosen, was_sent, was_done, was_full,
  has_room, push, receive, hand_over, select_send, block_send, pass,
}
use gokube.ListWatch.Session.Loop.{
  Failure, invalid_event, list_failed, watch_closed, send_result, send_event, close_etcd_client,
  is_nil, connect, ensure_connected, send_listed, list_and_send_existing, kvs_of,
  cancel_watch_context, shut_down, watch_cancel, after_close, handle_watch_channel_close,
  watch_stopped, forward_events, leave_watch, start_watch, watch_and_forward,
  watch_and_forward_events, connect_list_and_watch,
}
use gokube.ListWatch.Session.Shutdown.{
  Link, link, hand_over-link, select_send-link, pass-link, error_sent-link,
}

-- A result after which the client is as it was, or was closed and let go because the watch closed.
abbrev Kept : Link → Option Failure × Session → Type 0
Kept l r = ((r.0 ≡ some watch_closed) × (r.1.client ≡ no_client)) ⊎ (link r.1 ≡ l)

module _ (w : World) where
  block_send-link : (event : Event) (s : Session) → link (block_send w event s).1 ≡ link s
  unfolding block_send push receive
  block_send-link event s =
      let P = λ (r : Bool × Session). link r.1 ≡ link s in
      let ended : Bool × Session = (false, record s { done = true }) in
      let unblocked : Bool × Session = (true, receive 1 (push event s)) in
      if_keeps P (has_room w s && not (s.done && w.picks_done s.clock)) (true, hand_over w event s)
        (if s.done || not (w.unblocks s.clock) then ended else unblocked)
        (λ h. hand_over-link w event s)
        (λ h.
          if_keeps P (s.done || not (w.unblocks s.clock)) ended unblocked (λ d. refl)
            (λ d.
              if_keeps (λ t. link t ≡ link s) s.closed (record s { panicked = true })
                (record s { buffer = s.buffer ++ (event ∷ []) }) (λ h. refl) (λ h. refl)))

  send_result-link : (r : Bool × Session) → link (send_result r).1 ≡ link r.1
  send_result-link (true, t) = refl
  send_result-link (false, t) = refl

  send_event-link : (event : Event) (s : Session) → link (send_event w event s).1 ≡ link s
  unfolding send_event
  send_event-link event s =
      if_keeps (λ (r : Option Failure × Session). link r.1 ≡ link s) (validate event)
        (send_result (block_send w event s)) (some invalid_event, s)
        (λ h. send_result-link (block_send w event s) ∙ block_send-link event s) (λ h. refl)

  on_error-Kept :
      (l : Link) (f : Session → Option Failure × Session) (r : Option Failure × Session)
      → link r.1 ≡ l
      → ((t : Session) → Kept (link t) (f t))
      → Kept l (on_error f (λ e t. (some e, t)) r)
  on_error-Kept l f (none, t) e h = elim (h t) [ inl c ↦ inl c | inr k ↦ inr (k ∙ e) ]
  on_error-Kept l f (some x, t) e h = inr e

  after_close-Kept :
      (l : Link) (retry : Session → Option Failure × Session) (r : Chosen × Session)
      → link r.1 ≡ l
      → ((t : Session) → link t ≡ l → Kept l (retry t))
      → Kept l (after_close retry r)
  unfolding close_etcd_client
  after_close-Kept l retry (was_sent, t) e h = inl (refl, refl)
  after_close-Kept l retry (was_done, t) e h = inr e
  after_close-Kept l retry (was_full, t) e h = h t e

  close-Kept :
      (left : ℕ) (l : Link) (s : Session)
      → link s ≡ l
      → Kept l (handle_watch_channel_close w left s)
  unfolding handle_watch_channel_close close_etcd_client
  close-Kept zero l s e = inl (refl, refl)
  close-Kept (suc left) l s e =
      let event = error_event (codes "watch channel closed unexpectedly") in
      after_close-Kept l (λ t. handle_watch_channel_close w left (pass w t)) (select_send w event s)
        (select_send-link w event s ∙ e) (λ t k. close-Kept left l (pass w t) (pass-link w t ∙ k))

  forward-Kept : (es : List Event) (s : Session) → Kept (link s) (forward_events w es s)
  unfolding forward_events watch_stopped cancel_watch_context
  forward-Kept [] s =
      let t = pass w s in
      let p = pass-link w s in
      let P = Kept (link s) in
      let stopped = codes "watch stopped: context cancelled" in
      let t' = record t { done = true } in
      let closed = handle_watch_channel_close w 3 (cancel_watch_context t) in
      if_keeps P (w.idles t.clock) (watch_stopped w t')
        (if t.done && w.picks_done t.clock then watch_stopped w t else closed)
        (λ h. inr (error_sent-link w stopped t' ∙ p))
        (λ h.
          if_keeps P (t.done && w.picks_done t.clock) (watch_stopped w t) closed
            (λ h. inr (error_sent-link w stopped t ∙ p))
            (λ h. close-Kept 3 (link s) (cancel_watch_context t) p))
  forward-Kept (event ∷ rest) s =
      let t = pass w s in
      let p = pass-link w s in
      let sent = send_event w event t in
      if_keeps (Kept (link s)) (t.done && w.picks_done t.clock) (watch_stopped w t)
        (on_error (forward_events w rest) (λ e u. (some e, u)) sent)
        (λ h. inr (error_sent-link w (codes "watch stopped: context cancelled") t ∙ p))
        (λ h.
          on_error-Kept (link s) (forward_events w rest) sent (send_event-link event t ∙ p)
            (λ u. forward-Kept rest u))

  left_shut :
      (l : Link) (r : Option Failure × Session)
      → Kept l r
      → l.client ≡ connected
      → (leave_watch r).0 ≡ some invalid_event
      → (leave_watch r).1.client ≡ shut
  unfolding watch_cancel cancel_watch_context
  left_shut l (r, t) (inl (e, n)) c h = absurd (ground (arith, e, h))
  left_shut l (r, t) (inr e) c h = ap (λ (k : Link). shut_down k.client) e ∙ ap shut_down c

  watch_left_shut :
      (s : Session) (es : Option (List Event))
      → s.client ≡ connected
      → (watch_and_forward w s es).0 ≡ some invalid_event
      → (watch_and_forward w s es).1.client ≡ shut
  unfolding watch_and_forward
  watch_left_shut s none c h = absurd (ground (arith, h))
  watch_left_shut s (some es) c h =
      let t = record s { monitors = s.monitors ++ (waiting ∷ []) } in
      left_shut (link s) (forward_events w es t) (forward-Kept es t) c h

  -- An attempt with a client that was closed.
  shut_connected : (s : Session) → s.client ≡ shut → ensure_connected w s ≡ (none, s)
  unfolding ensure_connected
  shut_connected s c =
      ap (λ (x : Client). if not (is_nil x) then (none, s) else connect w (pass w s)) c

  list_closes : (s : Session) → (send_listed w s none).1.client ≡ no_client
  unfolding send_listed close_etcd_client
  list_closes s = refl

  shut_listed :
      (s : Session)
      → s.client ≡ shut
      → w.get shut (pass w s).done (pass w s).clock ≡ none
      → list_and_send_existing w s ≡ send_listed w (pass w s) none
  unfolding list_and_send_existing list
  shut_listed s c g =
      let t = pass w s in
      let same : t.client ≡ shut = ap (λ (k : Link). k.client) (pass-link w s) ∙ c in
      ap (λ (x : Client). send_listed w t (list w.prefix (kvs_of (w.get x t.done t.clock)))) same
      ∙ ap (λ a. send_listed w t (list w.prefix (kvs_of a))) g

  shut_attempt :
      (s : Session)
      → s.client ≡ shut
      → w.get shut (pass w s).done (pass w s).clock ≡ none
      → ((connect_list_and_watch w s).0 ≡ some list_failed)
        × ((connect_list_and_watch w s).1.client ≡ no_client)
  unfolding connect_list_and_watch send_listed
  shut_attempt s c g =
      let step : Session → Option Failure × Session = λ t.
        on_error (watch_and_forward_events w) (λ e u. (some e, u)) (list_and_send_existing w t) in
      let same : connect_list_and_watch w s ≡ send_listed w (pass w s) none =
        ap (on_error step (λ e t. (some e, t))) (shut_connected s c)
        ∙ ap (on_error (watch_and_forward_events w) (λ e u. (some e, u))) (shut_listed s c g) in
      (ap (λ r. r.0) same, ap (λ r. r.1.client) same ∙ list_closes (pass w s))

-- A watch that ends with an invalid event, as it does where etcd reports an error, leaves a closed client
-- in place, not nil: the next attempt does not connect, so if Get fails on a closed client, it fails to
-- list, and only then lets go of the client.
pub watch_failure_costs_attempt :
    (w : World) (s : Session)
    → s.client ≡ connected
    → ((done : Bool) (n : ℕ) → w.get shut done n ≡ none)
    → (watch_and_forward_events w s).0 ≡ some invalid_event
    → ((watch_and_forward_events w s).1.client ≡ shut)
      × ((connect_list_and_watch w (watch_and_forward_events w s).1).0 ≡ some list_failed)
      × ((connect_list_and_watch w (watch_and_forward_events w s).1).1.client ≡ no_client)
unfolding watch_and_forward_events
watch_failure_costs_attempt w s c fails h =
    let t = pass w s in
    let same : t.client ≡ connected = ap (λ (k : Link). k.client) (pass-link w s) ∙ c in
    let closed =
      watch_left_shut w t (start_watch w t.clock (w.get t.client t.done t.clock)) same h in
    let u = (watch_and_forward w t (start_watch w t.clock (w.get t.client t.done t.clock))).1 in
    let (e, n) = shut_attempt w u closed (fails (pass w u).done (pass w u).clock) in (closed, e, n)

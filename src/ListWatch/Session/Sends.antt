-- ===== src/ListWatch/Session/Sends.antt =====
-- Every send of the loop only makes a session later.
use gokube.Prelude.{
  ℕ, zero, suc, ◌*◌, Text, codes, Bool, true, false, not, List, [], ◌∷◌, map, Option, none, some,
  All, All-append, ◌≡◌, refl, inl, inr, if_keeps,
}
use gokube.Retry.{on_error, with_retries}
use gokube.Retry.Ending.{with_retries_keeps}
use gokube.ListWatch.{
  Event, error_event, KeyValue, put_type, event_of, EtcdEvent, watched_type, WatchResponse, events,
  failed, validate, watch,
}
use gokube.ListWatch.Session.{
  connected, Session, World, Chosen, was_sent, was_done, was_full, select_send, block_send, pass,
}
use gokube.ListWatch.Session.Later.{view, Later, Later-refl, Later-trans, IsFrom, IsKnown}
use gokube.ListWatch.Session.Moments.{select_send-Later, block_send-Later, pass-Later}
use gokube.ListWatch.Session.Loop.{
  Failure, context_error, invalid_event, dial_failed, wait, millisecond, attempt_result, was_nil,
  try_to_send_error_event, send_result, send_event, close_etcd_client, is_nil, connect,
  ensure_connected, send_all, after_close, handle_watch_channel_close,
}

-- The events of a list and of a watch.
pub listed_IsFrom :
    (prefix : Text) (kvs : List KeyValue)
    → All (IsFrom prefix) (map (λ kv. event_of prefix (put_type kv) kv) kvs)
listed_IsFrom prefix [] = tt
listed_IsFrom prefix (kv ∷ kvs) = (inr refl, listed_IsFrom prefix kvs)

responded_IsFrom :
    (prefix : Text) (es : List EtcdEvent)
    → All (IsFrom prefix) (map (λ e. event_of prefix (watched_type e) e.kv) es)
responded_IsFrom prefix [] = tt
responded_IsFrom prefix (e ∷ es) = (inr refl, responded_IsFrom prefix es)

pub watched_IsFrom :
    (prefix : Text) (rs : List WatchResponse) → All (IsFrom prefix) (watch prefix rs)
unfolding watch
watched_IsFrom prefix [] = tt
watched_IsFrom prefix (failed message ∷ rest) = (inl (message, refl), tt)
watched_IsFrom prefix (events es ∷ rest) =
    All-append (IsFrom prefix) (map (λ e. event_of prefix (watched_type e) e.kv) es)
      (watch prefix rest) (responded_IsFrom prefix es) (watched_IsFrom prefix rest)

module _ (w : World) where
  abbrev pub After : Session → Option Failure × Session → Type 0
  After s r = Later w (view s) (view r.1)

  pub on_error-After :
      (s : Session) (f : Session → Option Failure × Session) (r : Option Failure × Session)
      → ((t : Session) → After t (f t))
      → After s r
      → After s (on_error f (λ e t. (some e, t)) r)
  on_error-After s f (none, t) h l = Later-trans w l (h t)
  on_error-After s f (some e, t) h l = l

  attempt_result-After :
      (s : Session) (r : Chosen × Session)
      → Later w (view s) (view r.1)
      → After s (attempt_result r)
  attempt_result-After s (was_sent, t) l = l
  attempt_result-After s (was_done, t) l = l
  attempt_result-After s (was_full, t) l = l

  was_nil-Later :
      (s : Session) (r : Option Failure × Session)
      → After s r
      → Later w (view s) (view (was_nil r).1)
  was_nil-Later s (none, t) l = l
  was_nil-Later s (some e, t) l = l

  pub error_sent-Later :
      (message : Text) (s : Session)
      → Later w (view s) (view (try_to_send_error_event w message s).1)
  unfolding try_to_send_error_event
  error_sent-Later message s =
      let attempt : Session → Option Failure × Session =
        λ t. attempt_result (select_send w (error_event message) t) in
      was_nil-Later s (with_retries attempt (wait w) context_error 3 (10 * millisecond) s) (
        with_retries_keeps attempt (wait w) context_error (λ t. Later w (view s) (view t))
          (λ t l. Later-trans w l (
            attempt_result-After t (select_send w (error_event message) t)
              (select_send-Later w (error_event message) t (inl (message, refl)))))
          (λ d t l. unfold wait in Later-trans w l (pass-Later w t)) 3 (10 * millisecond) s
          (Later-refl w (view s)))

  send_result-After :
      (s : Session) (r : Bool × Session) → Later w (view s) (view r.1) → After s (send_result r)
  send_result-After s (true, t) l = l
  send_result-After s (false, t) l = l

  valid_IsKnown :
      (event : Event) → IsFrom w.prefix event → validate event ≡ true → IsKnown w.prefix event
  valid_IsKnown event (inl m) v = inl m
  valid_IsKnown event (inr p) v = inr (v, p)

  pub send_event-After :
      (event : Event) (s : Session) → IsFrom w.prefix event → After s (send_event w event s)
  unfolding send_event
  send_event-After event s from =
      if_keeps (After s) (validate event) (send_result (block_send w event s))
        (some invalid_event, s)
        (λ v.
          send_result-After s (block_send w event s)
            (block_send-Later w event s (valid_IsKnown event from v)))
        (λ v. Later-refl w (view s))

  pub ensure_connected-After : (s : Session) → After s (ensure_connected w s)
  unfolding ensure_connected connect
  ensure_connected-After s =
      let t = pass w s in
      let p = pass-Later w s in
      if_keeps (After s) (not (is_nil s.client)) (none, s) (connect w t)
        (λ h. Later-refl w (view s))
        (λ h.
          if_keeps (After s) (w.dials t.clock) (none, record t { client = connected; gauge = 1 })
            (
              some dial_failed,
              (try_to_send_error_event w (codes "failed to create etcd client")
                  (record t { gauge = 0 })).1,
            )
            (λ h. p)
            (λ h.
              Later-trans w p
                (error_sent-Later (codes "failed to create etcd client") (record t { gauge = 0 }))))

  pub send_all-After :
      (es : List Event) (s : Session) → All (IsFrom w.prefix) es → After s (send_all w es s)
  unfolding send_all
  send_all-After [] s from = Later-refl w (view s)
  send_all-After (event ∷ rest) s from =
      let t = pass w s in
      on_error-After s (send_all w rest) (send_event w event t) (λ u. send_all-After rest u from.1)
        (Later-trans w (pass-Later w s) (send_event-After event t from.0))

  after_close-After :
      (s : Session) (retry : Session → Option Failure × Session) (r : Chosen × Session)
      → ((t : Session) → After t (retry t))
      → Later w (view s) (view r.1)
      → After s (after_close retry r)
  unfolding close_etcd_client
  after_close-After s retry (was_sent, t) h l = l
  after_close-After s retry (was_done, t) h l = l
  after_close-After s retry (was_full, t) h l = Later-trans w l (h t)

  pub closed-After : (left : ℕ) (s : Session) → After s (handle_watch_channel_close w left s)
  unfolding handle_watch_channel_close close_etcd_client
  closed-After zero s = Later-refl w (view s)
  closed-After (suc left) s =
      let event = error_event (codes "watch channel closed unexpectedly") in
      after_close-After s (λ t. handle_watch_channel_close w left (pass w t))
        (select_send w event s) (λ t. Later-trans w (pass-Later w t) (closed-After left (pass w t)))
        (select_send-Later w event s (inl (codes "watch channel closed unexpectedly", refl)))

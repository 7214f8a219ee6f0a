-- ===== src/ListWatch/Session/Loop.antt =====
-- pkg/listwatch/listwatch.go: the loop of ListAndWatch, from the sends of an event to the cleanup, over
-- the sessions of the parent. Errors are told apart by the statement that makes them.
use gokube.Prelude.{
  ℕ, zero, suc, ◌+◌, ◌*◌, Text, codes, text_eq, Bool, true, false, not, ◌&&◌, List, [], ◌∷◌, ◌++◌,
  map, Option, none, some, if◌then◌else◌,
}
use gokube.Retry.{Options, Operation, Wait, on_error, with_retries, with_exponential_backoff}
use gokube.ListWatch.{Event, error_event, KeyValue, validate, list, watch}
use gokube.ListWatch.Session.{
  Client, no_client, connected, shut, Monitor, waiting, woken, trying, Session, Answer, World,
  Chosen, was_sent, was_done, was_full, select_send, block_send, pass,
}

pub data Failure : Type 0 where
  channel_full context_error invalid_event : Failure
  dial_failed list_failed watch_failed watch_closed : Failure

-- The wait of the retry loops: done where the context is.
unfoldable pub wait : World → Wait Session
wait w delay s = let t = pass w s in (t.done, t)

abbrev pub millisecond : ℕ
millisecond = 1000000

-- tryToSendErrorEvent: each attempt is a select with a default.
abbrev pub attempt_result : Chosen × Session → Option Failure × Session
attempt_result (was_sent, s) = (none, s)
attempt_result (was_done, s) = (some context_error, s)
attempt_result (was_full, s) = (some channel_full, s)

abbrev pub was_nil : Option Failure × Session → Bool × Session
was_nil (none, s) = (true, s)
was_nil (some _, s) = (false, s)

unfoldable pub try_to_send_error_event : World → Text → Session → Bool × Session
try_to_send_error_event w message s = was_nil (
    with_retries (λ t. attempt_result (select_send w (error_event message) t)) (wait w)
      context_error 3 (10 * millisecond) s)

-- sendEvent
abbrev pub send_result : Bool × Session → Option Failure × Session
send_result (true, s) = (none, s)
send_result (false, s) = (some context_error, s)

unfoldable pub send_event : World → Event → Operation Session Failure
send_event w event s =
    if validate event then send_result (block_send w event s) else (some invalid_event, s)

unfoldable pub close_etcd_client : Session → Session
close_etcd_client s = record s { client = no_client }

-- ensureConnected, from clientv3.New on, and the function.
abbrev pub is_nil : Client → Bool
is_nil no_client = true
is_nil _ = false

unfoldable pub connect : World → Operation Session Failure
connect w s = if w.dials s.clock then (none, record s { client = connected; gauge = 1 }) else (
  some dial_failed,
  (try_to_send_error_event w (codes "failed to create etcd client") (record s { gauge = 0 })).1,
)

unfoldable pub ensure_connected : World → Operation Session Failure
ensure_connected w s = if not (is_nil s.client) then (none, s) else connect w (pass w s)

-- The loop of listAndSendExisting, and the function.
unfoldable pub send_all : World → List Event → Operation Session Failure
send_all w [] s = (none, s)
send_all w (event ∷ rest) s =
    on_error (send_all w rest) (λ e t. (some e, t)) (send_event w event (pass w s))

abbrev pub kvs_of : Option Answer → Option (List KeyValue)
kvs_of none = none
kvs_of (some answer) = some answer.kvs

unfoldable pub send_listed : World → Session → Option (List Event) → Option Failure × Session
send_listed w s none = (
  some list_failed,
  close_etcd_client (try_to_send_error_event w (codes "failed to list items") s).1,
)
send_listed w s (some events) = send_all w events s

unfoldable pub list_and_send_existing : World → Operation Session Failure
list_and_send_existing w s =
    let t = pass w s in send_listed w t (list w.prefix (kvs_of (w.get t.client t.done t.clock)))

-- watchCtxCancel wakes the monitor of this watch; it is the only one that still waits.
abbrev pub wake : Monitor → Monitor
wake waiting = woken
wake woken = woken
wake (trying n) = trying n

unfoldable pub cancel_watch_context : Session → Session
cancel_watch_context s = record s { monitors = map wake s.monitors }

-- The function that Watch returns: it closes the client, which stays in its field.
abbrev pub shut_down : Client → Client
shut_down no_client = no_client
shut_down _ = shut

unfoldable pub watch_cancel : Session → Session
watch_cancel s = record s { client = shut_down s.client }

-- handleWatchChannelClose, with `left` rounds of its loop to go.
abbrev pub after_close :
    (Session → Option Failure × Session) → Chosen × Session → Option Failure × Session
after_close retry (was_sent, s) = (some watch_closed, close_etcd_client s)
after_close retry (was_done, s) = (some context_error, s)
after_close retry (was_full, s) = retry s

unfoldable pub handle_watch_channel_close : World → ℕ → Operation Session Failure
handle_watch_channel_close w zero s = (some watch_closed, close_etcd_client s)
handle_watch_channel_close w (suc left) s =
    after_close (λ t. handle_watch_channel_close w left (pass w t))
      (select_send w (error_event (codes "watch channel closed unexpectedly")) s)

-- The loop of watchAndForwardEvents, over the events that its channel still delivers. A channel that is
-- used up is closed or, where the watch idles, stays open until the context is done.
unfoldable pub watch_stopped : World → Operation Session Failure
watch_stopped w s =
    (some context_error, (try_to_send_error_event w (codes "watch stopped: context cancelled") s).1)

unfoldable pub forward_events : World → List Event → Operation Session Failure
forward_events w [] s =
    let t = pass w s in
    if w.idles t.clock
    then watch_stopped w (record t { done = true })
    else if t.done && w.picks_done t.clock
    then watch_stopped w t
    else handle_watch_channel_close w 3 (cancel_watch_context t)
forward_events w (event ∷ rest) s =
    let t = pass w s in
    if t.done && w.picks_done t.clock
    then watch_stopped w t
    else on_error (forward_events w rest) (λ e u. (some e, u)) (send_event w event t)

-- The deferred calls, the last one first.
abbrev pub leave_watch : Option Failure × Session → Option Failure × Session
leave_watch (r, s) = (r, watch_cancel (cancel_watch_context s))

-- Watch until its goroutine: the revision that it asks for, and the responses from the next one on.
abbrev pub start_watch : World → ℕ → Option Answer → Option (List Event)
start_watch w clock none = none
start_watch w clock (some answer) = some (watch w.prefix (w.responses (answer.revision + 1) clock))

unfoldable pub watch_and_forward : World → Session → Option (List Event) → Option Failure × Session
watch_and_forward w s none = (
  some watch_failed,
  close_etcd_client (try_to_send_error_event w (codes "failed to start watch") s).1,
)
watch_and_forward w s (some events) =
    leave_watch (forward_events w events (record s { monitors = s.monitors ++ (waiting ∷ []) }))

unfoldable pub watch_and_forward_events : World → Operation Session Failure
watch_and_forward_events w s =
    let t = pass w s in
    watch_and_forward w t (start_watch w t.clock (w.get t.client t.done t.clock))

-- The operation that runListWatchLoop retries.
unfoldable pub connect_list_and_watch : World → Operation Session Failure
connect_list_and_watch w s =
    on_error
      (λ t. on_error (watch_and_forward_events w) (λ e u. (some e, u)) (list_and_send_existing w t))
      (λ e t. (some e, t)) (ensure_connected w s)

-- handleCleanup; `close(done)` is the end of the loop.
unfoldable pub handle_cleanup : World → Session → Session
handle_cleanup w s =
    let t = record (close_etcd_client s) { gauge = 0 } in
    let u = if t.done then (try_to_send_error_event w (codes "context cancelled") t).1 else t in
    record u { closed = true }

-- runListWatchLoop, with fuel for `rounds` of its loop and `attempts` of each retry; `none` means that
-- the fuel ran out.
abbrev pub retried : (Session → Option Session) → Option (Option Failure × Session) → Option Session
retried continue none = none
retried continue (some (_, s)) = continue s

unfoldable pub run_list_watch_loop : World → Options → ℕ → ℕ → Session → Option Session
run_list_watch_loop w opts attempts zero s = none
run_list_watch_loop w opts attempts (suc rounds) s =
    let continue = retried (run_list_watch_loop w opts attempts rounds) (
      with_exponential_backoff (connect_list_and_watch w) (wait w) context_error opts attempts
        opts.initial_delay s) in
    if s.done then some (handle_cleanup w s) else continue

-- NewListWatch with the result of clientv3.New, and the goroutine that ListAndWatch starts on it.
unfoldable pub new_list_watch : Text → Bool → Option Client
new_list_watch prefix dialled =
    if text_eq prefix [] then none else if dialled then some connected else none

abbrev pub new_session : Client → Session
new_session client = record {
  client = client;
  gauge = 0;
  buffer = [];
  taken = [];
  done = false;
  closed = false;
  panicked = false;
  monitors = [];
  clock = 0;
}

unfoldable pub list_and_watch : World → Options → ℕ → ℕ → Client → Option Session
list_and_watch w opts attempts rounds client =
    run_list_watch_loop w opts attempts rounds (new_session client)

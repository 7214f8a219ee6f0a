-- ===== src/ListWatch/Session/Examples.antt =====
-- A ListWatch on one key, in worlds whose context is cancelled at the third moment or never.
use gokube.Prelude.{
  ℕ, ◌≤◌, ◌<◌, if◌then◌else◌, if_keeps, ◌≢◌, Text, text_eq, codes, Bool, true, false, leb, not,
  ◌==◌, ◌||◌, List, [], ◌∷◌, ◌++◌, map, length, Option, some, none, All, ◌≡◌, refl, arith,
}
use gokube.Retry.{default_options, with_exponential_backoff, next_delay, with_retries}
use gokube.ListWatch.{
  events, watched_type, KeyValue, put_type, event_of, failed, WatchResponse, validate, list, watch,
}
use gokube.ListWatch.Session.{
  Client, no_client, connected, shut, Session, Answer, World, sent, has_room, receive, push,
  hand_over, select_send, run_monitor, advance, interleave, pass, block_send,
}
use gokube.ListWatch.Session.Later.{IsKnown}
use gokube.ListWatch.Session.Closing.{Ends}
use gokube.ListWatch.Session.Gap.{attempt_sent}
use gokube.ListWatch.Session.Loop.{
  Failure, context_error, invalid_event, list_failed, wait, send_event, send_all, send_listed,
  close_etcd_client, ensure_connected, connect, list_and_send_existing, cancel_watch_context,
  watch_cancel, watch_stopped, forward_events, watch_and_forward, watch_and_forward_events,
  connect_list_and_watch, try_to_send_error_event, handle_watch_channel_close, handle_cleanup,
  run_list_watch_loop, list_and_watch, new_session,
}
use gokube.ListWatch.Session.Outcome.{
  loop_is_one_backoff, list_and_watch_ends, list_and_watch_carried,
}
use gokube.ListWatch.Session.Sending.{existing_sent}
use gokube.ListWatch.Session.Failure.{watch_failure_costs_attempt}

abbrev from_some : Session → Option (Option Failure × Session) → Option Failure × Session
from_some s none = (none, s)
from_some s (some r) = r

abbrev p : Text
p = codes "/app/"

abbrev a : KeyValue
a = record { key = codes "/app/a"; value = codes "1"; create_revision = 3; mod_revision = 3 }

abbrev answer : Answer
answer = record { kvs = a ∷ []; revision = 3 }

abbrev get_connected : Client → Bool → ℕ → Option Answer
get_connected connected done n = some answer
get_connected _ done n = none

-- Cancelled from the moment 3 on, or never.
abbrev world : (ℕ → Bool) → List WatchResponse → World
world cancels responses = record {
  capacity = 2;
  prefix = p;
  takes = λ n. 1;
  reads = λ n. false;
  cancels = cancels;
  picks_done = λ n. true;
  unblocks = λ n. true;
  idles = λ n. false;
  runs = λ n. true;
  dials = λ n. true;
  get = get_connected;
  responses = λ revision n. responses;
}

abbrev cancelled : World
cancelled = world (λ n. leb 3 n) []

abbrev failing : World
failing = world (λ n. false) (failed (codes "compacted") ∷ [])

list_and_watch_ends_example :
    (t : Session) × (list_and_watch cancelled default_options 5 2 connected ≡ some t)
    × (t.closed ≡ true)
    × (t.client ≡ no_client)
    × (t.gauge ≡ 0)
list_and_watch_ends_example =
    list_and_watch_ends cancelled default_options connected 3 5 0 refl (omega arith)

abbrev last : Session
last = (list_and_watch_ends cancelled default_options connected 3 5 0 refl (omega arith)).0

list_and_watch_carried_example :
    All (IsKnown p) (sent last) × (length last.buffer ≤ 2) × (last.panicked ≡ false)
list_and_watch_carried_example =
    list_and_watch_carried cancelled default_options connected 3 5 0 last refl (omega arith)
      (list_and_watch_ends cancelled default_options connected 3 5 0 refl (omega arith)).1

existing_sent_example :
    ((list_and_send_existing failing (new_session connected)).0 ≡ none)
    × (sent (list_and_send_existing failing (new_session connected)).1
        ≡ sent (new_session connected) ++ map (λ kv. event_of p (put_type kv) kv) (a ∷ []))
existing_sent_example =
    existing_sent failing (new_session connected) answer (λ n. refl) (λ n. refl) (refl, refl, refl)
      (unfold pass receive advance interleave run_monitor in refl) (λ e. ground arith)
      (λ e. ground arith, tt)

watch_failed_so : (watch_and_forward_events failing (new_session connected)).0 ≡ some invalid_event
unfolding watch_and_forward_events watch_and_forward watch forward_events send_event validate
    cancel_watch_context watch_cancel pass receive advance interleave run_monitor text_eq
watch_failed_so = refl

watch_failure_costs_attempt_example :
    ((watch_and_forward_events failing (new_session connected)).1.client ≡ shut)
    × ((connect_list_and_watch failing
          (watch_and_forward_events failing (new_session connected)).1).0
        ≡ some list_failed)
    × ((connect_list_and_watch failing
          (watch_and_forward_events failing (new_session connected)).1).1.client
        ≡ no_client)
watch_failure_costs_attempt_example =
    watch_failure_costs_attempt failing (new_session connected) refl (λ d n. refl) watch_failed_so

-- The first attempt of `stopped` finds its context done.
abbrev stopped : World
stopped = world (λ n. true) []

abbrev returned : Option Failure × Session
returned = from_some (new_session connected) (
    with_exponential_backoff (connect_list_and_watch stopped) (wait stopped) context_error
      default_options 1 default_options.initial_delay (new_session connected))

stopped_so :
    with_exponential_backoff
      (connect_list_and_watch stopped)
      (wait stopped)
      context_error
      default_options
      1
      default_options.initial_delay
      (new_session connected)
    ≡ some returned
unfolding with_exponential_backoff connect_list_and_watch ensure_connected list_and_send_existing
    send_listed send_all list watch_and_forward_events watch_and_forward watch forward_events
    watch_stopped try_to_send_error_event with_retries select_send hand_over push has_room wait
    send_event validate block_send cancel_watch_context watch_cancel pass receive advance interleave
    run_monitor text_eq
stopped_so = refl

loop_is_one_backoff_example :
    (returned.0 ≡ some context_error)
    × (returned.1.done ≡ true)
    × (run_list_watch_loop stopped default_options 1 2 (new_session connected)
        ≡ some (handle_cleanup stopped returned.1))
loop_is_one_backoff_example =
    loop_is_one_backoff stopped default_options 1 0 (new_session connected) returned.0 returned.1
      refl stopped_so

-- A monitor that has looked at its context before the cancellation and sends after the cleanup, in a
-- select that does not take the case of the context: the send panics.
abbrev racing : ℕ → ℕ → ℕ → World
racing look cancel send = record (world (λ n. leb cancel n) []) {
  runs = λ n. n == look || leb send n;
  picks_done = λ n. not (leb send n);
}

abbrev session_of : Option Session → Session
session_of none = new_session connected
session_of (some s) = s

abbrev ended : Session
ended = session_of (list_and_watch (racing 5 5 11) default_options 9 2 connected)

late_send_panics :
    (ended.closed ≡ true)
    × (ended.panicked ≡ false)
    × ((pass (racing 5 5 11) ended).panicked ≡ true)
unfolding list_and_watch run_list_watch_loop handle_cleanup close_etcd_client connect
    handle_watch_channel_close next_delay with_exponential_backoff connect_list_and_watch
    ensure_connected list_and_send_existing send_listed send_all list watch_and_forward_events
    watch_and_forward watch forward_events watch_stopped try_to_send_error_event with_retries
    select_send hand_over push has_room wait send_event validate block_send cancel_watch_context
    watch_cancel pass receive advance interleave run_monitor text_eq
late_send_panics = (refl, refl, refl)

-- `/app/b` is written between the two answers of an attempt: the watch starts after it.
abbrev b : KeyValue
b = record { key = codes "/app/b"; value = codes "2"; create_revision = 4; mod_revision = 4 }

abbrev answer_at : ℕ → Answer
answer_at n = if leb n 1 then answer else record { kvs = a ∷ b ∷ []; revision = 4 }

abbrev get_at : Client → Bool → ℕ → Option Answer
get_at connected done n = some (answer_at n)
get_at _ done n = none

abbrev moving : World
moving = record (world (λ n. false) (events [] ∷ [])) { get = get_at }

answer_at-keys : (n : ℕ) → All (λ kv. kv.key ≢ []) (answer_at n).kvs
answer_at-keys n =
    if_keeps (λ (x : Answer). All (λ kv. kv.key ≢ []) x.kvs) (leb n 1) answer
      (record { kvs = a ∷ b ∷ []; revision = 4 }) (λ h. (λ e. ground arith, tt))
      (λ h. (λ e. ground arith, (λ e. ground arith, tt)))

attempt_sent_example :
    (m : ℕ) × (n : ℕ) × m < n
    × Ends
        (new_session connected)
        (map (λ kv. event_of p (put_type kv) kv) (answer_at m).kvs
          ++ map (λ e. event_of p (watched_type e) e.kv) [])
        (connect_list_and_watch moving (new_session connected)).1
attempt_sent_example =
    attempt_sent moving (new_session connected) answer_at (λ n. []) (λ n. refl) (λ n. refl)
      (λ n. refl) (record { running = refl; is_open = refl; linked = refl; alone = refl })
      (λ e. ground arith) (λ n. refl) (λ n. refl) answer_at-keys (λ n. tt)

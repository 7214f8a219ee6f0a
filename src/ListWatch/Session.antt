-- ===== src/ListWatch/Session.antt =====
-- pkg/listwatch/listwatch.go: the state of a ListWatch at work, and what time does to it. The events
-- that wait in the channel and those that its reader has taken, the client of etcd, the gauge
-- connectionState, and the goroutines that watchAndForwardEvents starts.
pub mod Closing
pub mod Failure
pub mod Gap
pub mod History
pub mod Later
pub mod Loop
pub mod Moments
pub mod Outcome
mod Examples
pub mod Sending
pub mod Sends
pub mod Shutdown
use gokube.Prelude.{
  ℕ, zero, suc, ◌+◌, Text, Bool, true, false, not, ◌&&◌, ◌||◌, List, [], ◌∷◌, ◌++◌, length, take,
  drop, codes, ltb, Option, if◌then◌else◌,
}
use gokube.ListWatch.{Event, KeyValue, WatchResponse, error_event}

-- The field etcdCli: nil, a client, or a client on which Close was called.
pub data Client : Type 0 where
  no_client connected shut : Client

-- The goroutine of watchAndForwardEvents: before `<-watchCtx.Done()` returns, before its test of the
-- parent context, and with that many attempts left to send its event.
pub data Monitor : Type 0 where
  waiting woken : Monitor
  trying : ℕ → Monitor

pub record Session : Type 0 where
  pub client : Client
  pub gauge : ℕ
  pub buffer : List Event
  pub taken : List Event
  pub done : Bool
  pub closed : Bool
  pub panicked : Bool
  pub monitors : List Monitor
  pub clock : ℕ

-- A range answer of etcd: its pairs and the revision of the store.
pub record Answer : Type 0 where
  pub kvs : List KeyValue
  pub revision : ℕ

-- What is not the program's: etcd, the reader of the channel, the context, Go's choice among ready
-- cases of a select, each at a moment of the clock, and the order in which goroutines run.
pub record World : Type 0 where
  -- opts.EventChannelBuffer
  pub capacity : ℕ
  -- the prefix of the ListWatch
  pub prefix : Text
  -- how many events the reader takes, and whether it is ready for one more
  pub takes : ℕ → ℕ
  pub reads : ℕ → Bool
  -- whether the context is cancelled
  pub cancels : ℕ → Bool
  -- whether a select that could send as well takes the case of the context
  pub picks_done : ℕ → Bool
  -- whether a send that blocks is ended by the reader; if not, the context ends it
  pub unblocks : ℕ → Bool
  -- whether a watch whose responses are used up stays open until the context is done
  pub idles : ℕ → Bool
  -- whether a monitor gets to run
  pub runs : ℕ → Bool
  -- clientv3.New, Get with the prefix, and the responses to Watch from a revision until it closes
  pub dials : ℕ → Bool
  pub get : Client → Bool → ℕ → Option Answer
  pub responses : ℕ → ℕ → List WatchResponse

-- All that was put into the channel, in its order.
abbrev pub sent : Session → List Event
sent s = s.taken ++ s.buffer

-- Whether `case ch <- event` is ready: the channel has room, its reader waits, or it is closed.
unfoldable pub has_room : World → Session → Bool
has_room w s = s.closed || (ltb (length s.buffer) w.capacity || w.reads s.clock)

-- The reader takes events from the front.
unfoldable pub receive : ℕ → Session → Session
receive n s = record s { taken = s.taken ++ take n s.buffer; buffer = drop n s.buffer }

-- A send that panics on a closed channel.
unfoldable pub push : Event → Session → Session
push event s =
    if s.closed
    then record s { panicked = true }
    else record s { buffer = s.buffer ++ (event ∷ []) }

-- A send that is ready, because of a reader that waits if there is one.
unfoldable pub hand_over : World → Event → Session → Session
hand_over w event s = if w.reads s.clock then receive 1 (push event s) else push event s

-- A select over a send and the context, with a default.
pub data Chosen : Type 0 where
  was_sent was_done was_full : Chosen

unfoldable pub select_send : World → Event → Session → Chosen × Session
select_send w event s =
    if has_room w s && not (s.done && w.picks_done s.clock)
    then (was_sent, hand_over w event s)
    else if s.done
    then (was_done, s)
    else (was_full, s)

-- What a monitor does when it runs: it sends its event with WithRetries, unless the parent context is
-- done. Its waits between attempts are the moments at which it does not run.
abbrev pub keep_trying : ℕ → List Monitor → List Monitor
keep_trying zero rest = rest
keep_trying (suc left) rest = trying (suc left) ∷ rest

abbrev pub monitor_sent : ℕ → List Monitor → Chosen × Session → Session
monitor_sent left rest (was_sent, s) = record s { monitors = rest }
monitor_sent left rest (was_done, s) = record s { monitors = rest }
monitor_sent left rest (was_full, s) = record s { monitors = keep_trying left rest }

abbrev pub connection_lost : Event
connection_lost = error_event (codes "etcd connection lost")

unfoldable pub run_monitor : World → List Monitor → Session → Session
run_monitor w [] s = s
run_monitor w (waiting ∷ rest) s = if s.done then record s { monitors = rest } else s
run_monitor w (woken ∷ rest) s = record s { monitors = if s.done then rest else trying 3 ∷ rest }
run_monitor w (trying zero ∷ rest) s = record s { monitors = rest }
run_monitor w (trying (suc left) ∷ rest) s =
    monitor_sent left rest (select_send w connection_lost s)

-- A moment that passes while the loop waits or makes a call: the reader takes what it takes, the
-- context may be cancelled, and a monitor may run.
unfoldable pub advance : World → Session → Session
advance w s = record s { done = s.done || w.cancels s.clock; clock = suc s.clock }

unfoldable pub interleave : World → Session → Session
interleave w s = if w.runs s.clock then run_monitor w s.monitors s else s

unfoldable pub pass : World → Session → Session
pass w s = interleave w (advance w (receive (w.takes s.clock) s))

-- A send without a default, which blocks where there is no room: then it ends with the reader's next
-- take or with the context. A send that neither ends is not modelled. `true` where the event was sent.
unfoldable pub block_send : World → Event → Session → Bool × Session
block_send w event s =
    if has_room w s && not (s.done && w.picks_done s.clock)
    then (true, hand_over w event s)
    else if s.done || not (w.unblocks s.clock)
    then (false, record s { done = true })
    else (true, receive 1 (push event s))

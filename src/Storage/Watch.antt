-- ===== src/Storage/Watch.antt =====
-- The watch of pkg/storage/etcd_storage.go. What etcd sends is a sequence of responses; which selects
-- take the case of the context is an argument.
pub mod Replay
pub mod Selecting
mod Examples
use gokube.Prelude.{
  ℕ, zero, suc, Text, List, [], ◌∷◌, ◌++◌, Option, none, some, Bool, true, false, if◌then◌else◌,
}

-- The type of an event of etcd: mvccpb.PUT, mvccpb.DELETE or another number.
pub data EtcdEventType : Type 0 where
  put_type delete_type other_type : EtcdEventType

-- clientv3.Event: Kv, and PrevKv, which is nil where the key held nothing. The value of the Kv of a
-- deletion is nil, here `none`.
pub record EtcdEvent (Raw : Type 0) : Type 0 where
  pub type : EtcdEventType
  pub key : Text
  pub value : Option Raw
  pub prev : Option Raw

-- `no_event` is the empty string.
pub data EventType : Type 0 where
  event_add event_update event_delete no_event : EventType

pub record WatchEvent (Raw : Type 0) : Type 0 where
  pub type : EventType
  pub key : Text
  pub value : Option Raw
  pub old_value : Option Raw

abbrev pub put_event : {Raw : Type 0} → Option Raw → EventType
put_event none = event_add
put_event (some _) = event_update

unfoldable pub convert_event_type : {Raw : Type 0} → EtcdEvent Raw → EventType
convert_event_type e = elim e.type [
  | put_type ↦ put_event e.prev
  | delete_type ↦ event_delete
  | other_type ↦ no_event
]

unfoldable pub convert_to_watch_event : {Raw : Type 0} → EtcdEvent Raw → WatchEvent Raw
unfolding convert_event_type
convert_to_watch_event e = record {
  type = convert_event_type e;
  key = e.key;
  value = e.value;
  old_value = e.prev;
}

-- What handleWatchEvents receives: a response with its events, a response that says that the watch is
-- canceled, or the end of etcd's channel.
pub data Arrival (Raw : Type 0) : Type 0 where
  response : List (EtcdEvent Raw) → Arrival Raw
  canceled : Arrival Raw
  closed : Arrival Raw

-- Whether a select takes the case of the context, which it can only once the context is done: the
-- selects of handleWatchEvents and those of processWatchResponse, each in the order in which they run. A
-- select that finds the context done may still take its other case.
pub record Selects : Type 0 where
  pub leaves : ℕ → Bool
  pub drops : ℕ → Bool

module _ {Raw : Type 0} (ctx : Selects) where
  -- processWatchResponse, whose first select has the number `n`: the events sent, and the number of the
  -- next select. The first case of the context that is taken ends it.
  unfoldable pub process_watch_response : ℕ → List (EtcdEvent Raw) → List (WatchEvent Raw) × ℕ
  unfolding convert_to_watch_event
  process_watch_response n [] = ([], n)
  process_watch_response n (e ∷ es) =
      let (sent, n') = process_watch_response (suc n) es in
      if ctx.drops n then ([], suc n) else (convert_to_watch_event e ∷ sent, n')

  -- handleWatchEvents: what the client's channel carries until it is closed, or while no response comes.
  -- The loop goes on after a response whose events were not all sent.
  unfoldable pub handle_watch_events : ℕ → ℕ → List (Arrival Raw) → List (WatchEvent Raw)
  unfolding process_watch_response
  handle_watch_events i n [] = []
  handle_watch_events i n (canceled ∷ rest) = []
  handle_watch_events i n (closed ∷ rest) = []
  handle_watch_events i n (response es ∷ rest) =
      let (sent, n') = process_watch_response n es in
      let later = handle_watch_events (suc i) n' rest in if ctx.leaves i then [] else sent ++ later

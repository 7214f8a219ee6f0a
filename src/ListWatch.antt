-- ===== src/ListWatch.antt =====
-- pkg/listwatch/listwatch.go: the events, their checks, List, the goroutine of Watch, and the loop that
-- forwards events. The client of etcd is a parameter; metrics and logs are left out.
pub mod Forwarding
pub mod Session
mod Examples
use gokube.Prelude.{
  ℕ, zero, suc, Text, text_eq, Bool, true, false, not, ◌&&◌, ◌||◌, List, [], ◌∷◌, ◌++◌, map, length,
  ltb, Option, none, some, ◌==◌, if◌then◌else◌,
}

-- EventType; `no_type` is the empty string.
pub data EventType : Type 0 where
  added modified deleted error no_type : EventType

-- Value is the value of etcd's Kv, and for an error its text.
pub record Event : Type 0 where
  pub type : EventType
  pub key : Text
  pub value : Text
  pub prefix : Text

abbrev pub is_error : EventType → Bool
is_error error = true
is_error _ = false

abbrev pub is_no_type : EventType → Bool
is_no_type no_type = true
is_no_type _ = false

-- validate: true where it returns nil.
unfoldable pub validate : Event → Bool
validate e =
    if is_no_type e.type
    then false
    else if text_eq e.key [] && not (is_error e.type)
    then false
    else if text_eq e.prefix []
    then false
    else true

-- `Event{Type: Error, Value: …}`: neither a key nor a prefix.
abbrev pub error_event : Text → Event
error_event message = record { type = error; key = []; value = message; prefix = [] }

-- etcd's KeyValue.
pub record KeyValue : Type 0 where
  pub key : Text
  pub value : Text
  pub create_revision : ℕ
  pub mod_revision : ℕ

abbrev pub put_type : KeyValue → EventType
put_type kv = if kv.create_revision == kv.mod_revision then added else modified

abbrev pub event_of : Text → EventType → KeyValue → Event
event_of prefix type kv = record { type = type; key = kv.key; value = kv.value; prefix = prefix }

-- List, on the answer of etcd.
unfoldable pub list : Text → Option (List KeyValue) → Option (List Event)
list prefix none = none
list prefix (some kvs) = some (map (λ kv. event_of prefix (put_type kv) kv) kvs)

-- The type of an etcd event: a put, a deletion, or another number.
pub data EtcdEventType : Type 0 where
  put delete unknown : EtcdEventType

pub record EtcdEvent : Type 0 where
  pub type : EtcdEventType
  pub kv : KeyValue

unfoldable pub watched_type : EtcdEvent → EventType
watched_type e = elim e.type [ put ↦ put_type e.kv | delete ↦ deleted | unknown ↦ no_type ]

-- A response of etcd's watch: its events, or its error.
pub data WatchResponse : Type 0 where
  events : List EtcdEvent → WatchResponse
  failed : Text → WatchResponse

-- The goroutine of Watch: what it puts into the channel, which is closed at the end. The first failed
-- response ends it.
unfoldable pub watch : Text → List WatchResponse → List Event
unfolding watched_type
watch prefix [] = []
watch prefix (failed message ∷ rest) = error_event message ∷ []
watch prefix (events es ∷ rest) =
    map (λ e. event_of prefix (watched_type e) e.kv) es ++ watch prefix rest

-- The ends of a list of sends: everything was sent, an event was invalid, or the context was done.
pub data Stop : Type 0 where
  sent_all invalid context_done : Stop

-- sendEvent, event after event, in listAndSendExisting and in the loop of watchAndForwardEvents; the
-- argument is how many sends go through before the context is done.
unfoldable pub send_events : ℕ → List Event → List Event × Stop
unfolding validate
send_events sends [] = ([], sent_all)
send_events zero (e ∷ es) = if validate e then ([], context_done) else ([], invalid)
send_events (suc sends) (e ∷ es) =
    let (sent, stop) = send_events sends es in
    if validate e then (e ∷ sent, stop) else ([], invalid)

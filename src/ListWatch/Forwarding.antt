-- ===== src/ListWatch/Forwarding.antt =====
-- Which events reach the client of a ListWatch.
use gokube.Prelude.{
  ℕ, zero, suc, ◌-◌, ◌+◌, ◌≤◌, Text, text_eq, text_eq_iff, text_eq_ne, true, false, List, [], ◌∷◌,
  ◌++◌, map, length, some, All, All-map, length-map, map-map, ◌≡◌, ◌≢◌, refl, ap, ◌∙◌, ◌↔◌, ◌⊎◌,
  inl, inr, arith,
}
use mathlib.Core.List.{append-nil}
use gokube.ListWatch.{
  EventType, added, modified, deleted, error, no_type, Event, validate, error_event, KeyValue,
  put_type, event_of, list, EtcdEvent, EtcdEventType, put, delete, unknown, watched_type,
  WatchResponse, events, failed, watch, Stop, sent_all, invalid, send_events,
}

type-cases : (t : EventType) → (t ≡ error) ⊎ ((t ≡ no_type) ⊎ ((t ≢ error) × (t ≢ no_type)))
type-cases added = inr (inr (λ e. ground arith, λ e. ground arith))
type-cases modified = inr (inr (λ e. ground arith, λ e. ground arith))
type-cases deleted = inr (inr (λ e. ground arith, λ e. ground arith))
type-cases error = inl refl
type-cases no_type = inr (inl refl)

-- An event is valid exactly when it has a type and a prefix and, unless it is an error, a key.
pub validate_iff :
    (e : Event)
    → (validate e ≡ true)
      ↔ ((e.type ≢ no_type) × ((e.key ≢ []) ⊎ (e.type ≡ error)) × (e.prefix ≢ []))
unfolding validate
validate_iff e = (
  λ h. (
    ground arith,
    ground (arith, text_eq_iff e.key [], type-cases e.type),
    ground (arith, text_eq_iff e.prefix []),
  ),
  λ h.
      ground (arith, text_eq_ne e.prefix [], text_eq_ne e.key [], type-cases e.type, h.0, h.1, h.2),
)

put_type_known : (kv : KeyValue) → put_type kv ≢ no_type
put_type_known kv h = ground arith

etcd_type-cases : (t : EtcdEventType) → (t ≡ put) ⊎ ((t ≡ delete) ⊎ (t ≡ unknown))
etcd_type-cases put = inl refl
etcd_type-cases delete = inr (inl refl)
etcd_type-cases unknown = inr (inr refl)

watched_type_known : (e : EtcdEvent) → e.type ≢ unknown → watched_type e ≢ no_type
unfolding watched_type
watched_type_known e known h = ground (arith, etcd_type-cases e.type, put_type_known e.kv)

-- Valid events at the front are sent, as long as the context is not done.
send_events-append :
    (sends n : ℕ) (es more : List Event)
    → All (λ e. validate e ≡ true) es
    → sends ≡ length es + n
    → send_events sends (es ++ more) ≡ (es ++ (send_events n more).0, (send_events n more).1)
unfolding send_events
send_events-append sends n [] more v h = ap (λ (k : ℕ). send_events k more) (omega (arith, h))
send_events-append zero n (e ∷ es) more v h = absurd (omega (arith, h))
send_events-append (suc sends) n (e ∷ es) more v h = rw (v.0) (
    ap (λ (r : List Event × Stop). (e ∷ r.0, r.1))
      (send_events-append sends n es more v.1 (omega (arith, h))))

send_events-invalid :
    (n : ℕ) (e : Event) (es : List Event)
    → validate e ≡ false
    → send_events n (e ∷ es) ≡ ([], invalid)
unfolding send_events
send_events-invalid zero e es h = rw h refl
send_events-invalid (suc n) e es h = rw h refl

valid_sent :
    (sends : ℕ) (es : List Event)
    → All (λ e. validate e ≡ true) es
    → length es ≤ sends
    → send_events sends es ≡ (es, sent_all)
unfolding send_events
valid_sent sends [] v h = refl
valid_sent zero (e ∷ es) v h = absurd (omega (arith, h))
valid_sent (suc sends) (e ∷ es) v h =
    rw (v.0)
      (ap (λ (r : List Event × Stop). (e ∷ r.0, r.1)) (valid_sent sends es v.1 (omega (arith, h))))

pub listed_valid :
    (prefix : Text) (kvs : List KeyValue)
    → prefix ≢ []
    → All (λ kv. kv.key ≢ []) kvs
    → All (λ kv. validate (event_of prefix (put_type kv) kv) ≡ true) kvs
listed_valid prefix [] p ks = tt
listed_valid prefix (kv ∷ kvs) p ks = (
  (validate_iff (event_of prefix (put_type kv) kv)).1 (put_type_known kv, inl ks.0, p),
  listed_valid prefix kvs p ks.1,
)

pub watched_valid :
    (prefix : Text) (es : List EtcdEvent)
    → prefix ≢ []
    → All (λ e. (e.kv.key ≢ []) × (e.type ≢ unknown)) es
    → All (λ e. validate (event_of prefix (watched_type e) e.kv) ≡ true) es
watched_valid prefix [] p ok = tt
watched_valid prefix (e ∷ es) p ok = (
  (validate_iff (event_of prefix (watched_type e) e.kv)).1
      (watched_type_known e ok.0.1, inl ok.0.0, p),
  watched_valid prefix es p ok.1,
)

-- Every event that List makes is valid, if the prefix is not empty and etcd's keys are not: with enough
-- sends, listAndSendExisting sends all of them, in etcd's order.
pub list_sent :
    (prefix : Text) (kvs : List KeyValue) (sends : ℕ)
    → prefix ≢ []
    → All (λ kv. kv.key ≢ []) kvs
    → length kvs ≤ sends
    → (es : List Event) × (list prefix (some kvs) ≡ some es)
      × (map (λ e. e.key) es ≡ map (λ kv. kv.key) kvs)
      × (send_events sends es ≡ (es, sent_all))
unfolding list
list_sent prefix kvs sends p ks enough = (
  map (λ kv. event_of prefix (put_type kv) kv) kvs,
  refl,
  map-map (λ (e : Event). e.key) (λ (kv : KeyValue). event_of prefix (put_type kv) kv) kvs,
  valid_sent sends (map (λ kv. event_of prefix (put_type kv) kv) kvs)
      (All-map (λ e. validate e ≡ true) (λ kv. event_of prefix (put_type kv) kv) kvs
        (listed_valid prefix kvs p ks))
      (omega (arith, enough, length-map (λ (kv : KeyValue). event_of prefix (put_type kv) kv) kvs)),
)

-- What the loop of watchAndForwardEvents gets and sends where etcd's watch fails: the events before the
-- failure arrive; the event of the failure has no prefix, so it is invalid, and the client never gets it.
pub watch_failure_unsent :
    (prefix message : Text) (es : List EtcdEvent) (rest : List WatchResponse) (sends : ℕ)
    → prefix ≢ []
    → All (λ e. (e.kv.key ≢ []) × (e.type ≢ unknown)) es
    → length es ≤ sends
    → send_events sends (watch prefix (events es ∷ failed message ∷ rest))
      ≡ (map (λ e. event_of prefix (watched_type e) e.kv) es, invalid)
unfolding watch
watch_failure_unsent prefix message es rest sends p ok enough =
    let f = λ (e : EtcdEvent). event_of prefix (watched_type e) e.kv in
    send_events-append sends (sends - length es) (map f es) (error_event message ∷ [])
      (All-map (λ e. validate e ≡ true) f es (watched_valid prefix es p ok))
      (omega (arith, enough, length-map f es))
    ∙ ap (λ (r : List Event × Stop). (map f es ++ r.0, r.1))
        (send_events-invalid (sends - length es) (error_event message) []
          (unfold validate text_eq in refl))
    ∙ ap (λ (xs : List Event). (xs, invalid)) (append-nil (map f es))

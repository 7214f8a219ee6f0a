-- ===== src/ListWatch/Examples.antt =====
-- One key below a prefix, listed and watched.
use gokube.Prelude.{Text, codes, [], ◌∷◌, map, ◌≡◌, arith}
use gokube.ListWatch.{
  KeyValue, event_of, EtcdEvent, delete, watched_type, events, failed, watch, invalid, send_events,
}
use gokube.ListWatch.Forwarding.{watch_failure_unsent}

abbrev p : Text
p = codes "/app/"

abbrev a : KeyValue
a = record { key = codes "/app/a"; value = codes "1"; create_revision = 3; mod_revision = 3 }

abbrev gone : EtcdEvent
gone = record { type = delete; kv = a }

watch_failure_unsent_example :
    send_events 5 (watch p (events (gone ∷ []) ∷ failed (codes "compacted") ∷ []))
    ≡ (map (λ e. event_of p (watched_type e) e.kv) (gone ∷ []), invalid)
watch_failure_unsent_example =
    watch_failure_unsent p (codes "compacted") (gone ∷ []) [] 5 (λ e. ground arith)
      ((λ e. ground arith, λ e. ground arith), tt) (omega arith)

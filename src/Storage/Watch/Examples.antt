-- ===== src/Storage/Watch/Examples.antt =====
-- A key that is put twice and deleted, and a client that has nothing before.
use gokube.Prelude.{
  suc, leb, ◌==◌, true, false, map, ℕ, codes, Text, List, [], ◌∷◌, Option, none, some, ◌≡◌, refl,
  inl, inr, arith, text_eq,
}
use gokube.Storage.Watch.{
  put_type, delete_type, Arrival, response, canceled, Selects, process_watch_response,
  convert_to_watch_event, handle_watch_events,
}
use gokube.Storage.Watch.Selecting.{received}
use gokube.Storage.Watch.Replay.{
  IsHistory, Tells, changed, changed_all, apply_all, handle_watch_events-Tells,
  handle_watch_events-apply_all,
}

abbrev k : Text
k = codes "/pods/web"

abbrev arrivals : List (Arrival ℕ)
arrivals =
    response (record { type = put_type; key = k; value = some 1; prev = none } ∷ [])
    ∷ response (
        record { type = put_type; key = k; value = some 2; prev = some 1 }
        ∷ record { type = delete_type; key = k; value = none; prev = some 2 }
        ∷ [])
    ∷ canceled
    ∷ response (record { type = put_type; key = k; value = some 3; prev = none } ∷ [])
    ∷ []

abbrev nothing : Text → Option ℕ
nothing _ = none

arrivals-IsHistory : IsHistory nothing (received arrivals)
unfolding IsHistory received changed text_eq
arrivals-IsHistory = (inl refl, refl, (inl refl, refl, (inr refl, refl, tt)))

-- The context is done after two events, and the client has gone.
abbrev two_taken : Selects
two_taken = record { leaves = λ i. false; drops = λ n. leb 2 n }

two_taken-gone : (n : ℕ) → two_taken.drops n ≡ true → two_taken.drops (suc n) ≡ true
two_taken-gone n h = ground (arith, h)

handle_watch_events-Tells_example : Tells nothing (handle_watch_events two_taken 0 0 arrivals)
handle_watch_events-Tells_example =
    handle_watch_events-Tells two_taken nothing arrivals arrivals-IsHistory two_taken-gone

-- The context is never done.
abbrev all_taken : Selects
all_taken = record { leaves = λ i. false; drops = λ n. false }

handle_watch_events-apply_all_example :
    apply_all nothing (handle_watch_events all_taken 0 0 arrivals)
    ≡ changed_all nothing (received arrivals)
handle_watch_events-apply_all_example =
    handle_watch_events-apply_all all_taken nothing arrivals (λ i lt. refl) (λ n lt. refl)

-- A client that goes on after the end of its context may miss an event between two.
abbrev one_dropped : Selects
one_dropped = record { leaves = λ i. false; drops = λ n. n == 1 }

abbrev puts : List (Arrival ℕ)
puts =
    response (record { type = put_type; key = k; value = some 1; prev = none } ∷ [])
    ∷ response (record { type = put_type; key = k; value = some 2; prev = some 1 } ∷ [])
    ∷ response (record { type = put_type; key = k; value = some 3; prev = some 2 } ∷ [])
    ∷ []

second_missed : map (λ w. w.value) (handle_watch_events one_dropped 0 0 puts) ≡ some 1 ∷ some 3 ∷ []
unfolding handle_watch_events process_watch_response convert_to_watch_event
second_missed = refl

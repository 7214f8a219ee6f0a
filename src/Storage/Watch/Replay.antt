-- ===== src/Storage/Watch/Replay.antt =====
-- What a client of the watch receives, and what it knows from it.
use gokube.Prelude.{
  ℕ, suc, ◌<◌, true, false, subst, Text, text_eq, List, [], ◌∷◌, ◌++◌, map, length, Option, none,
  some, Option-cases, ◌≡◌, refl, ap, ◌∙◌, ◌⊎◌, inl, inr, if◌then◌else◌, arith,
}
use mathlib.Core.Path.{fun_ext}
use gokube.Storage.Watch.{
  EtcdEventType, EtcdEvent, put_type, delete_type, other_type, WatchEvent, event_add, event_update,
  event_delete, no_event, convert_to_watch_event, Arrival, Selects, handle_watch_events,
}
use gokube.Storage.Watch.Selecting.{received, handle-all, handle-Front}

type-cases : (t : EtcdEventType) → (t ≡ put_type) ⊎ ((t ≡ delete_type) ⊎ (t ≡ other_type))
type-cases put_type = inl refl
type-cases delete_type = inr (inl refl)
type-cases other_type = inr (inr refl)

module _ {Raw : Type 0} where
  -- What a client that keeps a copy of the keys does with an event.
  unfoldable pub apply : (Text → Option Raw) → WatchEvent Raw → Text → Option Raw
  apply m w j = elim w.type [
    | event_add ↦ if text_eq w.key j then w.value else m j
    | event_update ↦ if text_eq w.key j then w.value else m j
    | event_delete ↦ if text_eq w.key j then none else m j
    | no_event ↦ m j
  ]

  unfoldable pub apply_all : (Text → Option Raw) → List (WatchEvent Raw) → Text → Option Raw
  unfolding apply
  apply_all m [] = m
  apply_all m (w ∷ ws) = apply_all (apply m w) ws

  -- What etcd does with its keys at an event.
  unfoldable pub changed : (Text → Option Raw) → EtcdEvent Raw → Text → Option Raw
  changed m e j = elim e.type [
    | put_type ↦ if text_eq e.key j then e.value else m j
    | delete_type ↦ if text_eq e.key j then none else m j
    | other_type ↦ m j
  ]

  unfoldable pub changed_all : (Text → Option Raw) → List (EtcdEvent Raw) → Text → Option Raw
  unfolding changed
  changed_all m [] = m
  changed_all m (e ∷ es) = changed_all (changed m e) es

  -- What etcd documents of a watch with WithPrevKV: each event is a put or a deletion, and comes with
  -- the value that its key had.
  unfoldable pub IsHistory : (Text → Option Raw) → List (EtcdEvent Raw) → Type 0
  unfolding changed
  IsHistory m [] = Unit
  IsHistory m (e ∷ es) =
      ((e.type ≡ put_type) ⊎ (e.type ≡ delete_type))
      × (e.prev ≡ m e.key)
      × IsHistory (changed m e) es

  -- The client's copy tells an addition from an update: the key of an addition is free in it, that of
  -- an update is not; and the old value is the copy's.
  unfoldable pub Tells : (Text → Option Raw) → List (WatchEvent Raw) → Type 0
  unfolding apply
  Tells m [] = Unit
  Tells m (w ∷ ws) =
      (((w.type ≡ event_add) × (m w.key ≡ none))
        ⊎ (((w.type ≡ event_update) × (old : Raw) × (m w.key ≡ some old))
            ⊎ (w.type ≡ event_delete)))
      × (w.old_value ≡ m w.key)
      × Tells (apply m w) ws

  apply-changed :
      (m : Text → Option Raw) (e : EtcdEvent Raw) → apply m (convert_to_watch_event e) ≡ changed m e
  unfolding apply changed convert_to_watch_event
  apply-changed m e = fun_ext (λ j. ground (arith, type-cases e.type, Option-cases e.prev))

  Tells-front :
      (m : Text → Option Raw) (ws more : List (WatchEvent Raw)) → Tells m (ws ++ more) → Tells m ws
  unfolding Tells
  Tells-front m [] more h = tt
  Tells-front m (w ∷ ws) more h = (h.0, h.1, Tells-front (apply m w) ws more h.2)

  Tells-map :
      (m : Text → Option Raw) (es : List (EtcdEvent Raw))
      → IsHistory m es
      → Tells m (map convert_to_watch_event es)
  unfolding IsHistory Tells convert_to_watch_event
  Tells-map m [] h = tt
  Tells-map m (e ∷ es) h = (
    ground (arith, Option-cases e.prev, h.0, h.1),
    h.1,
    rw (apply-changed m e) (Tells-map (changed m e) es h.2),
  )

  apply_all-map :
      (m : Text → Option Raw) (es : List (EtcdEvent Raw))
      → apply_all m (map convert_to_watch_event es) ≡ changed_all m es
  unfolding apply_all changed_all
  apply_all-map m [] = refl
  apply_all-map m (e ∷ es) =
      ap (λ (f : Text → Option Raw). apply_all f (map convert_to_watch_event es))
        (apply-changed m e)
      ∙ apply_all-map (changed m e) es

module _ {Raw : Type 0} (ctx : Selects) where
  -- If etcd tells with each event the value that its key had, a client's copy of the keys is right when
  -- the watch begins, and the client takes no event after one that it has not taken because the context
  -- was done, then every event that it receives tells its copy's state: ADD comes only for keys that the
  -- copy does not have, UPDATE for keys that it has, and the old value is the copy's.
  pub handle_watch_events-Tells :
      (m : Text → Option Raw) (arrivals : List (Arrival Raw))
      → IsHistory m (received arrivals)
      → ((n : ℕ) → ctx.drops n ≡ true → ctx.drops (suc n) ≡ true)
      → Tells m (handle_watch_events ctx 0 0 arrivals)
  handle_watch_events-Tells m arrivals h gone =
      let (more, e) = handle-Front ctx gone 0 0 arrivals in
      Tells-front m (handle_watch_events ctx 0 0 arrivals) more
        (subst (Tells m) e (Tells-map m (received arrivals) h))

  -- If no select takes the case of the context before all responses are received and their events sent,
  -- a client that applies what it receives to a copy of the keys ends with what the same events make of
  -- etcd's keys.
  pub handle_watch_events-apply_all :
      (m : Text → Option Raw) (arrivals : List (Arrival Raw))
      → ((i : ℕ) → i < length arrivals → ctx.leaves i ≡ false)
      → ((n : ℕ) → n < length (received arrivals) → ctx.drops n ≡ false)
      → apply_all m (handle_watch_events ctx 0 0 arrivals) ≡ changed_all m (received arrivals)
  handle_watch_events-apply_all m arrivals stay send =
      ap (apply_all m) (
        handle-all ctx 0 0 arrivals (λ k lt. stay k (omega (arith, lt)))
          (λ k lt. send k (omega (arith, lt))))
      ∙ apply_all-map m (received arrivals)

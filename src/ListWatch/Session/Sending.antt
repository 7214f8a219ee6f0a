-- ===== src/ListWatch/Session/Sending.antt =====
-- What listAndSendExisting puts into the channel while the context is not done.
use gokube.Prelude.{
  inl, inr, ◌⊎◌, ℕ, Bool, true, false, not, ◌&&◌, ◌||◌, List, [], ◌∷◌, ◌++◌, map, Option, none,
  some, if◌then◌else◌, All, All-map, ◌≡◌, ◌≢◌, refl, sym, ap, subst, ◌∙◌, arith, if_keeps,
}
use mathlib.Core.List.{append_assoc, append-nil}
use gokube.Retry.{on_error}
use gokube.ListWatch.{Event, validate, put_type, event_of, list}
use gokube.ListWatch.Forwarding.{listed_valid}
use gokube.ListWatch.Session.{
  waiting, Client, Monitor, Session, Answer, World, sent, has_room, receive, push, hand_over,
  run_monitor, advance, interleave, pass, block_send,
}
use gokube.ListWatch.Session.Moments.{receive-sent, push_open}
use gokube.ListWatch.Session.Loop.{
  Failure, invalid_event, send_result, send_event, send_all, kvs_of, send_listed,
  list_and_send_existing,
}

-- A session that runs, with the client and the monitors given.
pub record IsCalm (c : Client) (ms : List Monitor) (s : Session) : Type 0 where
  pub running : s.done ≡ false
  pub is_open : s.closed ≡ false
  pub linked : s.client ≡ c
  pub alone : s.monitors ≡ ms

-- One that has carried `es` more.
abbrev pub Carried : Client → List Monitor → Session → List Event → Session → Type 0
Carried c ms s es t = IsCalm c ms t × (sent t ≡ sent s ++ es)

-- No monitor could send in between: there is none, or one that waits.
abbrev pub IsQuiet : List Monitor → Type 0
IsQuiet ms = (ms ≡ []) ⊎ (ms ≡ waiting ∷ [])

module _ (w : World) (calm : (n : ℕ) → w.cancels n ≡ false) (reads : (n : ℕ) → w.unblocks n ≡ true)
    (c₀ : Client) (ms : List Monitor) (quiet : IsQuiet ms) where
  pushed :
      (event : Event) (s : Session) → IsCalm c₀ ms s → Carried c₀ ms s (event ∷ []) (push event s)
  pushed event s c = rw (push_open event s c.is_open) (
    record { running = c.running; is_open = c.is_open; linked = c.linked; alone = c.alone },
    sym (append_assoc s.taken s.buffer (event ∷ [])),
  )

  received :
      (n : ℕ) (es : List Event) (s t : Session)
      → Carried c₀ ms s es t
      → Carried c₀ ms s es (receive n t)
  received n es s t (c, e) = (
    unfold receive in
        record { running = c.running; is_open = c.is_open; linked = c.linked; alone = c.alone },
    receive-sent n t ∙ e,
  )

  handed_over :
      (event : Event) (s : Session)
      → IsCalm c₀ ms s
      → Carried c₀ ms s (event ∷ []) (hand_over w event s)
  unfolding hand_over
  handed_over event s c =
      let p = pushed event s c in
      if_keeps (Carried c₀ ms s (event ∷ [])) (w.reads s.clock) (receive 1 (push event s))
        (push event s) (λ h. received 1 (event ∷ []) s (push event s) p) (λ h. p)

  advanced : (s : Session) → IsCalm c₀ ms s → IsCalm c₀ ms (advance w s)
  unfolding advance
  advanced s c = record {
    running = ground (arith, c.running, calm s.clock);
    is_open = c.is_open;
    linked = c.linked;
    alone = c.alone;
  }

  no_monitor : (s : Session) → IsCalm c₀ ms s → run_monitor w s.monitors s ≡ s
  unfolding run_monitor
  no_monitor s c = elim quiet [
    | inl e ↦ ap (λ ms. run_monitor w ms s) (c.alone ∙ e)
    | inr e ↦
        ap (λ ms. run_monitor w ms s) (c.alone ∙ e)
        ∙ ap (λ b. if b then record s { monitors = [] } else s) c.running
  ]

  advanced-sent : (s : Session) → sent (advance w s) ≡ sent s
  unfolding advance
  advanced-sent s = refl

  pub passed : (s : Session) → IsCalm c₀ ms s → Carried c₀ ms s [] (pass w s)
  unfolding pass interleave
  passed s c =
      let t = receive (w.takes s.clock) s in
      let u = advance w t in
      let (d, e) = received (w.takes s.clock) [] s s (c, sym (append-nil (sent s))) in
      let a = advanced t d in
      let p : Carried c₀ ms s [] u = (a, advanced-sent t ∙ e) in
      if_keeps (Carried c₀ ms s []) (w.runs u.clock) (run_monitor w u.monitors u) u
        (λ h. subst (Carried c₀ ms s []) (sym (no_monitor u a)) p) (λ h. p)

  -- A send that blocks waits for the reader.
  block_sent :
      (event : Event) (s : Session)
      → IsCalm c₀ ms s
      → ((block_send w event s).0 ≡ true) × Carried c₀ ms s (event ∷ []) (block_send w event s).1
  unfolding block_send
  block_sent event s c =
      let P = λ (r : Bool × Session). (r.0 ≡ true) × Carried c₀ ms s (event ∷ []) r.1 in
      let ended : Bool × Session = (false, record s { done = true }) in
      let unblocked : Bool × Session = (true, receive 1 (push event s)) in
      if_keeps P (has_room w s && not (s.done && w.picks_done s.clock)) (true, hand_over w event s)
        (if s.done || not (w.unblocks s.clock) then ended else unblocked)
        (λ h. (refl, handed_over event s c))
        (λ h.
          if_keeps P (s.done || not (w.unblocks s.clock)) ended unblocked
            (λ d. absurd (ground (arith, d, c.running, reads s.clock)))
            (λ d. (refl, received 1 (event ∷ []) s (push event s) (pushed event s c))))

  pub send_event_sent :
      (event : Event) (s : Session)
      → validate event ≡ true
      → IsCalm c₀ ms s
      → ((send_event w event s).0 ≡ none) × Carried c₀ ms s (event ∷ []) (send_event w event s).1
  unfolding send_event
  send_event_sent event s v c =
      let P = λ (r : Option Failure × Session). (r.0 ≡ none) × Carried c₀ ms s (event ∷ []) r.1 in
      if_keeps P (validate event) (send_result (block_send w event s)) (some invalid_event, s)
        (λ h. go (block_send w event s) (block_sent event s c)) (λ h. absurd (ground (arith, v, h)))
    where
      go :
          (r : Bool × Session)
          → (r.0 ≡ true) × Carried c₀ ms s (event ∷ []) r.1
          → ((send_result r).0 ≡ none) × Carried c₀ ms s (event ∷ []) (send_result r).1
      go (true, t) h = (refl, h.1)
      go (false, t) h = absurd (ground (arith, h.0))

  continued :
      (s : Session) (es fs : List Event) (f : Session → Option Failure × Session)
      (r : Option Failure × Session)
      → (r.0 ≡ none) × Carried c₀ ms s es r.1
      → ((t : Session) → IsCalm c₀ ms t → ((f t).0 ≡ none) × Carried c₀ ms t fs (f t).1)
      → ((on_error f (λ e t. (some e, t)) r).0 ≡ none)
        × Carried c₀ ms s (es ++ fs) (on_error f (λ e t. (some e, t)) r).1
  continued s es fs f (none, t) h k =
      let (n, (c, e)) = k t h.1.0 in
      (n, (c, e ∙ ap (λ xs. xs ++ fs) h.1.1 ∙ append_assoc (sent s) es fs))
  continued s es fs f (some x, t) h k = absurd (ground (arith, h.0))

  pub send_all_sent :
      (es : List Event) (s : Session)
      → All (λ e. validate e ≡ true) es
      → IsCalm c₀ ms s
      → ((send_all w es s).0 ≡ none) × Carried c₀ ms s es (send_all w es s).1
  unfolding send_all
  send_all_sent [] s v c = (refl, (c, sym (append-nil (sent s))))
  send_all_sent (event ∷ rest) s v c =
      let t = pass w s in
      let (d, e) = passed s c in
      let (n, (x, f)) = send_event_sent event t v.0 d in
      continued s (event ∷ []) rest (send_all w rest) (send_event w event t)
        (n, (x, f ∙ ap (λ xs. xs ++ (event ∷ [])) (e ∙ append-nil (sent s))))
        (λ u k. send_all_sent rest u v.1 k)

pub existing_carried :
    (w : World) (c₀ : Client) (s : Session) (answer : Answer)
    → ((n : ℕ) → w.cancels n ≡ false)
    → ((n : ℕ) → w.unblocks n ≡ true)
    → IsCalm c₀ [] s
    → w.get (pass w s).client (pass w s).done (pass w s).clock ≡ some answer
    → w.prefix ≢ []
    → All (λ kv. kv.key ≢ []) answer.kvs
    → ((list_and_send_existing w s).0 ≡ none)
      × Carried c₀ [] s
          (map (λ kv. event_of w.prefix (put_type kv) kv) answer.kvs)
          (list_and_send_existing w s).1
unfolding list_and_send_existing send_listed list
existing_carried w c₀ s answer calm reads o got p ks =
    let t = pass w s in
    let es = map (λ kv. event_of w.prefix (put_type kv) kv) answer.kvs in
    let (c, e) = passed w calm reads c₀ [] (inl refl) s o in
    let (n, (x, f)) =
      send_all_sent w calm reads c₀ [] (inl refl) es t
        (All-map (λ e. validate e ≡ true) (λ kv. event_of w.prefix (put_type kv) kv) answer.kvs
          (listed_valid w.prefix answer.kvs p ks))
        c in
    let same : send_all w es t ≡ list_and_send_existing w s =
      ap (λ a. send_listed w t (list w.prefix (kvs_of a))) (sym got) in
    subst (λ r. (r.0 ≡ none) × Carried c₀ [] s es r.1) same
      (n, (x, f ∙ ap (λ xs. xs ++ es) (e ∙ append-nil (sent s))))

-- listAndSendExisting, with a context that is never done, a reader that takes an event whenever a send
-- blocks, and no goroutine that sends beside it: where etcd answers and neither its keys nor the prefix
-- are empty, it returns nil, and has put an event for each pair into the channel, in etcd's order.
pub existing_sent :
    (w : World) (s : Session) (answer : Answer)
    → ((n : ℕ) → w.cancels n ≡ false)
    → ((n : ℕ) → w.unblocks n ≡ true)
    → (s.done ≡ false) × (s.closed ≡ false) × (s.monitors ≡ [])
    → w.get (pass w s).client (pass w s).done (pass w s).clock ≡ some answer
    → w.prefix ≢ []
    → All (λ kv. kv.key ≢ []) answer.kvs
    → ((list_and_send_existing w s).0 ≡ none)
      × (sent (list_and_send_existing w s).1
          ≡ sent s ++ map (λ kv. event_of w.prefix (put_type kv) kv) answer.kvs)
existing_sent w s answer calm reads (d, o, m) got p ks =
    let h : IsCalm s.client [] s = record { running = d; is_open = o; linked = refl; alone = m } in
    let (n, (c, e)) = existing_carried w s.client s answer calm reads h got p ks in (n, e)

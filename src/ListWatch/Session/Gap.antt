-- ===== src/ListWatch/Session/Gap.antt =====
-- pkg/listwatch/listwatch.go: what an attempt of ListAndWatch puts into the channel, from the list to the
-- end of the watch. The list and the watch are from two answers of etcd.
use mathlib.Core.List.{append_assoc, append-nil}
use gokube.Prelude.{
  ℕ, ◌+◌, ◌<◌, Bool, true, false, not, ◌&&◌, List, [], ◌∷◌, ◌++◌, map, Option, none, some,
  if◌then◌else◌, All, All-map, ◌≡◌, ◌≢◌, refl, sym, ap, ◌∙◌, inl, inr, arith, if_keeps,
}
use gokube.Retry.{on_error}
use gokube.ListWatch.{
  Event, validate, put_type, event_of, EtcdEvent, unknown, watched_type, events, watch,
}
use gokube.ListWatch.Forwarding.{watched_valid}
use gokube.ListWatch.Session.{
  Client, connected, Monitor, waiting, Session, Answer, World, sent, pass,
}
use gokube.ListWatch.Session.Moments.{pass-ticks}
use gokube.ListWatch.Session.History.{send_listed-After}
use gokube.ListWatch.Session.Sending.{IsCalm, Carried, passed, send_event_sent, existing_carried}
use gokube.ListWatch.Session.Loop.{
  Failure, send_event, connect, is_nil, ensure_connected, kvs_of, list_and_send_existing,
  cancel_watch_context, handle_watch_channel_close, watch_stopped, forward_events, start_watch,
  watch_and_forward, watch_and_forward_events, watch_cancel, connect_list_and_watch,
}
use gokube.ListWatch.Session.Closing.{Ends, close-Ends}

calm_get :
    (w : World) (ms : List Monitor) (s : Session) (clock : ℕ)
    → IsCalm connected ms s
    → w.get s.client s.done clock ≡ w.get connected false clock
calm_get w ms s clock c =
    ap (λ (k : Client). w.get k s.done clock) c.linked
    ∙ ap (λ (b : Bool). w.get connected b clock) c.running

module _ (w : World) (calm : (n : ℕ) → w.cancels n ≡ false) (reads : (n : ℕ) → w.unblocks n ≡ true)
    (open_ended : (n : ℕ) → w.idles n ≡ false) where
  abbrev watching : List Monitor
  watching = waiting ∷ []

  next_sent :
      (s : Session) (event : Event) (es : List Event) (f : Session → Option Failure × Session)
      (r : Option Failure × Session)
      → (r.0 ≡ none) × Carried connected watching s (event ∷ []) r.1
      → ((t : Session) → IsCalm connected watching t → Ends t es (f t).1)
      → Ends s (event ∷ es) (on_error f (λ e u. (some e, u)) r).1
  next_sent s event es f (some x, t) h k = absurd (ground (arith, h.0))
  next_sent s event es f (none, t) h k =
      let (errors, all, e) = k t h.1.0 in
      (
        errors,
        all,
        e
            ∙ ap (λ xs. xs ++ (es ++ errors)) h.1.1
            ∙ append_assoc (sent s) (event ∷ []) (es ++ errors),
      )

  -- The loop of watchAndForwardEvents, while the context is not done.
  forward_events-Ends :
      (es : List Event) (s : Session)
      → All (λ e. validate e ≡ true) es
      → IsCalm connected watching s
      → Ends s es (forward_events w es s).1
  unfolding forward_events cancel_watch_context
  forward_events-Ends [] s v c =
      let t = pass w s in
      let (d, e) = passed w calm reads connected watching (inr refl) s c in
      let closed = handle_watch_channel_close w 3 (cancel_watch_context t) in
      if_keeps (λ r. Ends s [] r.1) (w.idles t.clock) (watch_stopped w (record t { done = true }))
        (if t.done && w.picks_done t.clock then watch_stopped w t else closed)
        (λ h. absurd (ground (arith, h, open_ended t.clock)))
        (λ h.
          if_keeps (λ r. Ends s [] r.1) (t.done && w.picks_done t.clock) (watch_stopped w t) closed
            (λ h. absurd (ground (arith, h, d.running)))
            (λ h.
              let (errors, all, e') = close-Ends w 3 (cancel_watch_context t) in
              (errors, all, e' ∙ ap (λ xs. xs ++ errors) (e ∙ append-nil (sent s)))))
  forward_events-Ends (event ∷ rest) s v c =
      let t = pass w s in
      let (d, e) = passed w calm reads connected watching (inr refl) s c in
      let (n, (x, f)) = send_event_sent w calm reads connected watching (inr refl) event t v.0 d in
      if_keeps (λ r. Ends s (event ∷ rest) r.1) (t.done && w.picks_done t.clock) (watch_stopped w t)
        (on_error (forward_events w rest) (λ e u. (some e, u)) (send_event w event t))
        (λ h. absurd (ground (arith, h, d.running)))
        (λ h.
          next_sent s event rest (forward_events w rest) (send_event w event t)
            (n, (x, f ∙ ap (λ xs. xs ++ (event ∷ [])) (e ∙ append-nil (sent s))))
            (λ u k. forward_events-Ends rest u v.1 k))

  -- watchAndForwardEvents, where etcd tells the changes after the revision of `answer`.
  watch_and_forward_events-Ends :
      (s : Session) (answer : Answer) (changes : List EtcdEvent)
      → IsCalm connected [] s
      → w.prefix ≢ []
      → w.get connected false (pass w s).clock ≡ some answer
      → w.responses (answer.revision + 1) (pass w s).clock ≡ events changes ∷ []
      → All (λ e. (e.kv.key ≢ []) × (e.type ≢ unknown)) changes
      → Ends s
          (map (λ e. event_of w.prefix (watched_type e) e.kv) changes)
          (watch_and_forward_events w s).1
  unfolding watch_and_forward_events watch_and_forward cancel_watch_context watch_cancel watch
  watch_and_forward_events-Ends s answer changes c p got told known =
      let t = pass w s in
      let f = λ (e : EtcdEvent). event_of w.prefix (watched_type e) e.kv in
      let u : Session = record t { monitors = t.monitors ++ (waiting ∷ []) } in
      let (d, e) = passed w calm reads connected [] (inl refl) s c in
      let calm_u : IsCalm connected watching u = record {
        running = d.running;
        is_open = d.is_open;
        linked = d.linked;
        alone = ap (λ ms. ms ++ (waiting ∷ [])) d.alone;
      } in
      let (errors, all, e') =
        forward_events-Ends (map f changes) u
          (All-map (λ e. validate e ≡ true) f changes (watched_valid w.prefix changes p known))
          calm_u in
      let got' : w.get t.client t.done t.clock ≡ some answer = calm_get w [] t t.clock d ∙ got in
      let started : start_watch w t.clock (w.get t.client t.done t.clock) ≡ some (map f changes) =
        ap (start_watch w t.clock) got'
        ∙ ap (λ rs. some (watch w.prefix rs)) told
        ∙ ap some (append-nil (map f changes)) in
      (
        errors,
        all,
        ap (λ a. sent (watch_and_forward w t a).1) started
            ∙ e'
            ∙ ap (λ xs. xs ++ (map f changes ++ errors)) (e ∙ append-nil (sent s)),
      )

after_list :
    (w : World) (r : Option Failure × Session)
    → r.0 ≡ none
    → (on_error (watch_and_forward_events w) (λ e u. (some e, u)) r).1
      ≡ (watch_and_forward_events w r.1).1
after_list w (none, t) h = refl
after_list w (some e, t) h = absurd (ground (arith, h))

-- The calls of an attempt, where there is a client and the list is sent.
one_attempt :
    (w : World) (s : Session)
    → s.client ≡ connected
    → (list_and_send_existing w s).0 ≡ none
    → (connect_list_and_watch w s).1 ≡ (watch_and_forward_events w (list_and_send_existing w s).1).1
unfolding connect_list_and_watch ensure_connected
one_attempt w s linked h =
    let step = λ (t : Session).
      on_error (watch_and_forward_events w) (λ e u. (some e, u)) (list_and_send_existing w t) in
    ap
      (λ (b : Bool).
        (on_error step (λ e t. (some e, t)) (if not b then (none, s) else connect w (pass w s))).1)
      (ap is_nil linked)
    ∙ after_list w (list_and_send_existing w s) h

-- An attempt of ListAndWatch with a client and no goroutine beside it, a context that is never done, a
-- reader that takes an event whenever a send blocks, a prefix and keys that are not empty, and a watch
-- that ends after changes of known kinds: of etcd the channel gets the pairs of the answer at one moment,
-- then the changes after the revision of the answer at a later one, and then only errors without a prefix.
pub attempt_sent :
    (w : World) (s : Session) (at_moment : ℕ → Answer) (changes : ℕ → List EtcdEvent)
    → ((n : ℕ) → w.cancels n ≡ false)
    → ((n : ℕ) → w.unblocks n ≡ true)
    → ((n : ℕ) → w.idles n ≡ false)
    → IsCalm connected [] s
    → w.prefix ≢ []
    → ((n : ℕ) → w.get connected false n ≡ some (at_moment n))
    → ((n : ℕ) → w.responses ((at_moment n).revision + 1) n ≡ events (changes n) ∷ [])
    → ((n : ℕ) → All (λ kv. kv.key ≢ []) (at_moment n).kvs)
    → ((n : ℕ) → All (λ e. (e.kv.key ≢ []) × (e.type ≢ unknown)) (changes n))
    → (m : ℕ) × (n : ℕ) × m < n
      × Ends s
          (map (λ kv. event_of w.prefix (put_type kv) kv) (at_moment m).kvs
            ++ map (λ e. event_of w.prefix (watched_type e) e.kv) (changes n))
          (connect_list_and_watch w s).1
unfolding list_and_send_existing
attempt_sent w s at_moment changes calm reads open_ended c p got told ks known =
    let t = pass w s in
    let (d, e) = passed w calm reads connected [] (inl refl) s c in
    let m = t.clock in
    let r = list_and_send_existing w s in
    let got_m : w.get t.client t.done m ≡ some (at_moment m) = calm_get w [] t m d ∙ got m in
    let (none_so, (c', f)) =
      existing_carried w connected s (at_moment m) calm reads c got_m p (ks m) in
    let u = pass w r.1 in
    let n = u.clock in
    let (errors, all, g) =
      watch_and_forward_events-Ends w calm reads open_ended r.1 (at_moment n) (changes n) c' p
        (got n) (told n) (known n) in
    let listed = map (λ kv. event_of w.prefix (put_type kv) kv) (at_moment m).kvs in
    let watched = map (λ e. event_of w.prefix (watched_type e) e.kv) (changes n) in
    (
      m,
      n,
      omega (
        arith,
        pass-ticks w r.1,
        (send_listed-After w t (kvs_of (w.get t.client t.done t.clock))).ticks,
      ),
      (
        errors,
        all,
        ap sent (one_attempt w s c.linked none_so)
            ∙ g
            ∙ ap (λ xs. xs ++ (watched ++ errors)) f
            ∙ append_assoc (sent s) listed (watched ++ errors)
            ∙ ap (λ xs. sent s ++ xs) (sym (append_assoc listed watched errors)),
      ),
    )

-- ===== src/Storage/Watch/Selecting.antt =====
-- What handleWatchEvents sends, by the selects that take the case of the context.
use gokube.Prelude.{
  ℕ, suc, ◌+◌, ◌<◌, Bool-cases, true, false, length-append, List, [], ◌∷◌, ◌++◌, map, length, ◌≡◌,
  refl, sym, ap, ◌∙◌, ◌⊎◌, inl, inr, arith,
}
use mathlib.Core.List.{map-append, append_assoc, append-nil}
use gokube.Storage.Watch.{
  EtcdEvent, WatchEvent, convert_to_watch_event, Arrival, response, canceled, closed, Selects,
  process_watch_response, handle_watch_events,
}

-- The events before etcd's channel ends or the watch is canceled.
unfoldable pub received : {Raw : Type 0} → List (Arrival Raw) → List (EtcdEvent Raw)
received [] = []
received (response es ∷ rest) = es ++ received rest
received (canceled ∷ rest) = []
received (closed ∷ rest) = []

received-response :
    {Raw : Type 0} (es : List (EtcdEvent Raw)) (rest : List (Arrival Raw))
    → received (response es ∷ rest) ≡ es ++ received rest
unfolding received
received-response es rest = refl

-- What the client gets, by the selects.
module _ {Raw : Type 0} (ctx : Selects) where
  process-drops :
      (n : ℕ) (e : EtcdEvent Raw) (es : List (EtcdEvent Raw))
      → ctx.drops n ≡ true
      → process_watch_response ctx n (e ∷ es) ≡ ([], suc n)
  unfolding process_watch_response
  process-drops n e es h = rw h refl

  process-sends :
      (n : ℕ) (e : EtcdEvent Raw) (es : List (EtcdEvent Raw))
      → ctx.drops n ≡ false
      → process_watch_response ctx n (e ∷ es) ≡ (
        convert_to_watch_event e ∷ (process_watch_response ctx (suc n) es).0,
        (process_watch_response ctx (suc n) es).1,
      )
  unfolding process_watch_response
  process-sends n e es h = rw h refl

  handle-response :
      (i n : ℕ) (es : List (EtcdEvent Raw)) (rest : List (Arrival Raw))
      → ctx.leaves i ≡ false
      → handle_watch_events ctx i n (response es ∷ rest)
        ≡ (process_watch_response ctx n es).0
          ++ handle_watch_events ctx (suc i) (process_watch_response ctx n es).1 rest
  unfolding handle_watch_events
  handle-response i n es rest h = rw h refl

  handle-leaves :
      (i n : ℕ) (es : List (EtcdEvent Raw)) (rest : List (Arrival Raw))
      → ctx.leaves i ≡ true
      → handle_watch_events ctx i n (response es ∷ rest) ≡ []
  unfolding handle_watch_events
  handle-leaves i n es rest h = rw h refl

  -- The selects of processWatchResponse send all events of a response, as long as none drops one.
  process-all :
      (n : ℕ) (es : List (EtcdEvent Raw))
      → ((k : ℕ) → k < n + length es → ctx.drops k ≡ false)
      → process_watch_response ctx n es ≡ (map convert_to_watch_event es, n + length es)
  process-all n [] h = unfold process_watch_response in ap (λ k. ([], k)) (omega arith)
  process-all n (e ∷ es) h =
      let rest = process-all (suc n) es (λ k lt. h k (omega (arith, lt))) in
      process-sends n e es (h n (omega arith))
      ∙ ap (λ r. (convert_to_watch_event e ∷ r.0, r.1)) rest
      ∙ ap (λ k. (convert_to_watch_event e ∷ map convert_to_watch_event es, k)) (omega arith)

  pub handle-all :
      (i n : ℕ) (arrivals : List (Arrival Raw))
      → ((k : ℕ) → k < i + length arrivals → ctx.leaves k ≡ false)
      → ((k : ℕ) → k < n + length (received arrivals) → ctx.drops k ≡ false)
      → handle_watch_events ctx i n arrivals ≡ map convert_to_watch_event (received arrivals)
  handle-all i n [] stay send = unfold handle_watch_events received in refl
  handle-all i n (canceled ∷ rest) stay send = unfold handle_watch_events received in refl
  handle-all i n (closed ∷ rest) stay send = unfold handle_watch_events received in refl
  handle-all i n (response es ∷ rest) stay send =
      let long : length (received (response es ∷ rest)) ≡ length es + length (received rest) =
        ap length (received-response es rest) ∙ length-append es (received rest) in
      let all = process-all n es (λ k lt. send k (omega (arith, lt, long))) in
      handle-response i n es rest (stay i (omega arith))
      ∙ ap (λ r. r.0 ++ handle_watch_events ctx (suc i) r.1 rest) all
      ∙ ap (λ ws. map convert_to_watch_event es ++ ws)
          (handle-all (suc i) (n + length es) rest (λ k lt. stay k (omega (arith, lt)))
            (λ k lt. send k (omega (arith, lt, long))))
      ∙ sym (map-append convert_to_watch_event es (received rest))
      ∙ ap (map convert_to_watch_event) (sym (received-response es rest))

  module _ (gone : (n : ℕ) → ctx.drops n ≡ true → ctx.drops (suc n) ≡ true) where
    process-gone :
        (n : ℕ) (es : List (EtcdEvent Raw))
        → ctx.drops n ≡ true
        → (n' : ℕ) × (ctx.drops n' ≡ true) × (process_watch_response ctx n es ≡ ([], n'))
    process-gone n [] h = (n, h, unfold process_watch_response in refl)
    process-gone n (e ∷ es) h = (suc n, gone n h, process-drops n e es h)

    nothing_sent :
        (i n : ℕ) (arrivals : List (Arrival Raw))
        → ctx.drops n ≡ true
        → handle_watch_events ctx i n arrivals ≡ []
    nothing_sent i n [] h = unfold handle_watch_events in refl
    nothing_sent i n (canceled ∷ rest) h = unfold handle_watch_events in refl
    nothing_sent i n (closed ∷ rest) h = unfold handle_watch_events in refl
    nothing_sent i n (response es ∷ rest) h = elim (Bool-cases (ctx.leaves i)) [
      | inl t ↦ handle-leaves i n es rest t
      | inr f ↦
          let (n', h', e) = process-gone n es h in
          handle-response i n es rest f
          ∙ ap (λ r. r.0 ++ handle_watch_events ctx (suc i) r.1 rest) e
          ∙ nothing_sent (suc i) n' rest h'
    ]

    -- All events of a response are sent, or the first ones, and then no more.
    process-Front :
        (n : ℕ) (es : List (EtcdEvent Raw))
        → ((process_watch_response ctx n es).0 ≡ map convert_to_watch_event es)
          ⊎ ((ctx.drops (process_watch_response ctx n es).1 ≡ true)
              × (more : List (WatchEvent Raw)) × (map convert_to_watch_event es
                  ≡ (process_watch_response ctx n es).0 ++ more))
    process-Front n [] = inl (unfold process_watch_response in refl)
    process-Front n (e ∷ es) = elim (Bool-cases (ctx.drops n)) [
      | inl t ↦
          rw (process-drops n e es t) (inr (gone n t, map convert_to_watch_event (e ∷ es), refl))
      | inr f ↦ rw (process-sends n e es f) (elim (process-Front (suc n) es) [
        | inl a ↦ inl (ap (λ ws. convert_to_watch_event e ∷ ws) a)
        | inr (d, more, a) ↦ inr (d, more, ap (λ ws. convert_to_watch_event e ∷ ws) a)
      ])
    ]

    pub handle-Front :
        (i n : ℕ) (arrivals : List (Arrival Raw))
        → (more : List (WatchEvent Raw)) × (map convert_to_watch_event (received arrivals)
            ≡ handle_watch_events ctx i n arrivals ++ more)
    unfolding received
    handle-Front i n [] = (unfold handle_watch_events in ([], refl))
    handle-Front i n (canceled ∷ rest) = (unfold handle_watch_events in ([], refl))
    handle-Front i n (closed ∷ rest) = (unfold handle_watch_events in ([], refl))
    handle-Front i n (response es ∷ rest) =
        let all = map convert_to_watch_event (es ++ received rest) in
        elim (Bool-cases (ctx.leaves i)) [
          | inl t ↦ rw (handle-leaves i n es rest t) (all, refl)
          | inr f ↦ rw (handle-response i n es rest f) (
              let r = process_watch_response ctx n es in
              let later = handle_watch_events ctx (suc i) r.1 rest in
              elim (process-Front n es) [
                | inl a ↦
                    let (more, e) = handle-Front (suc i) r.1 rest in
                    (
                      more,
                      map-append convert_to_watch_event es (received rest)
                          ∙ ap (λ ws. ws ++ map convert_to_watch_event (received rest)) (sym a)
                          ∙ ap (λ ws. r.0 ++ ws) e
                          ∙ sym (append_assoc r.0 later more),
                    )
                | inr (d, more, a) ↦
                    let none = nothing_sent (suc i) r.1 rest d in
                    let after = map convert_to_watch_event (received rest) in
                    (
                      more ++ after,
                      map-append convert_to_watch_event es (received rest)
                          ∙ ap (λ ws. ws ++ after) a
                          ∙ append_assoc r.0 more after
                          ∙ ap (λ ws. ws ++ (more ++ after))
                              (sym (ap (λ ws. r.0 ++ ws) none ∙ append-nil r.0)),
                    )
              ])
        ]

-- ===== src/Kubelet/Server/Reporting.antt =====
-- What a report of a pod's status does to the store, and when the kubelet sends one.
use gokube.Prelude.{
  Text, text_eq, text_eq_iff, ◌≡◌, refl, ap, ◌∙◌, sym, inl, inr, ◌⊎◌, List, [], ◌∷◌, true, arith,
  Option, some, none, Bool-cases, subst, if_keeps, if◌then◌else◌, All, All-within, Elem,
}
use gokube.Exec.{Result-cases}
use gokube.Api.{Pod, Validator, validate_pod, status_eq}
use gokube.Api.Validation.{status_eq_iff}
use gokube.Storage.{Storage, Lawful, holds}
use gokube.Registry.Pods
use gokube.Registry.Pods.{pod_key}
use gokube.Handlers.{entity_write, status_ok}
use gokube.Handlers.Pods as Requests
use gokube.Handlers.Pods.Laws.{put_pod_ok}
use gokube.Kubelet.{Inspected, get_pod_status, Pods, put}
use gokube.Kubelet.Server.Answers.{accepted}
use gokube.Kubelet.Server.{
  Exchange, answered, exchange, status_code, Wire, check_answer, update_pod_status, update_one,
  update_pod_statuses,
}

module _ {S J : Type 0} (v : Validator) (st : Storage S Pod) (wire : Wire Pod J) where
  sent_put :
      (pod : Pod) (body : J) (s : S)
      → wire.marshal pod ≡ some body
      → wire.read_entity body ≡ some pod
      → update_pod_status v st wire answered pod s
        ≡ check_answer status_ok (
          some (Requests.put_route v st pod.name (some pod) s).0,
          (Requests.put_route v st pod.name (some pod) s).1,
        )
  unfolding update_pod_status exchange
  sent_put pod body s sent received = rw (sent, received) refl

  ok_shows :
      (pod : Pod) (s : S)
      → status_code (Requests.put_route v st pod.name (some pod) s).0 ≡ 200
      → (Requests.put_route v st pod.name (some pod) s).0 ≡ entity_write 200 (Requests.one pod) ∷ []
  unfolding Requests.put_route status_code Pods.get_pod Pods.update_pod
  ok_shows pod s h = elim (Result-cases (st.get (pod_key pod.name) s).0) [
    | inr (x, e) ↦ ground (arith, e, h)
    | inl (old, e) ↦ ground (arith, e, h)
  ]

  -- A report that the server answers, and after which updatePodStatus returns nil, found a pod of that
  -- name, if the body arrives as it was sent. The pod is valid, its slot is what writing it leaves, and
  -- every other slot is as it was.
  pub report_stored :
      (l : Lawful st) (pod : Pod) (body : J) (s : S) (j : Text)
      → wire.marshal pod ≡ some body
      → wire.read_entity body ≡ some pod
      → (update_pod_status v st wire answered pod s).0 ≡ none
      → ((old : Pod) × (l.slot s (pod_key pod.name) ≡ holds old))
        × (validate_pod v pod ≡ true)
        × (l.slot (update_pod_status v st wire answered pod s).1 j
            ≡ (if text_eq (pod_key pod.name) j then l.written pod else l.slot s j))
  report_stored l pod body s j sent received h =
      let r = Requests.put_route v st pod.name (some pod) s in
      let same = sent_put pod body s sent received in
      let code = accepted status_ok r.0 r.1 (ap (λ p. p.0) (sym same) ∙ h) in
      let (_, (old, e, _), valid, slot) =
        put_pod_ok v st l pod.name pod pod s j (ok_shows pod s code) in
      ((old, e), valid, ap (λ p. l.slot p.1 j) same ∙ slot)

  module _ (inspect : Text → Inspected) where
    -- The copy of a pod has the status that Docker gives, or that status could not be told.
    IsSettled : Option Pod → Type 0
    IsSettled none = Unit
    IsSettled (some pod) =
        ((get_pod_status inspect pod).1 ≡ true)
        ⊎ (status_eq pod.status (get_pod_status inspect pod).0 ≡ true)

    changed : Pod → Pod
    changed pod = record pod { status = (get_pod_status inspect pod).0 }

    changed-IsSettled : (pod : Pod) → IsSettled (some (changed pod))
    unfolding get_pod_status IsSettled changed
    changed-IsSettled pod =
        inr ((status_eq_iff (get_pod_status inspect pod).0 (get_pod_status inspect pod).0).1 refl)

    IsKeyed : Pods → Type 0
    IsKeyed known = (name : Text) (pod : Pod) → known name ≡ some pod → pod.name ≡ name

    module _ (ex : Text → Exchange) where
      update_one-cases :
          (o : Option Pod) (known : Pods) (s : S)
          → ((update_one v st wire inspect ex o known s ≡ (known, s)) × IsSettled o)
            ⊎ ((pod : Pod) × (o ≡ some pod)
                × ((update_one v st wire inspect ex o known s).0 ≡ put known (changed pod)))
      unfolding update_one IsSettled changed
      update_one-cases none known s = inl (refl, tt)
      update_one-cases (some pod) known s = elim (Bool-cases (get_pod_status inspect pod).1) [
        | inl e ↦ inl (rw e refl, inl e)
        | inr e ↦ elim (Bool-cases (status_eq pod.status (get_pod_status inspect pod).0)) [
          | inl f ↦ inl (rw (e, f) refl, inr f)
          | inr f ↦ inr (pod, refl, rw (e, f) refl)
        ]
      ]

      -- After its turn a name is settled, and a settled name stays so.
      put-IsSettled :
          (known : Pods) (pod : Pod) (m : Text)
          → IsSettled (known m)
          → IsSettled (put known (changed pod) m)
      put-IsSettled known pod m h =
          if_keeps IsSettled (text_eq (changed pod).name m) (some (changed pod)) (known m)
            (λ e. changed-IsSettled pod) (λ e. h)

      turn_settles :
          (known : Pods) (s : S) (name : Text)
          → IsKeyed known
          → IsSettled ((update_one v st wire inspect ex (known name) known s).0 name)
      unfolding IsKeyed changed
      turn_settles known s name k = elim (update_one-cases (known name) known s) [
        | inl (e, h) ↦ subst (λ (r : Pods × S). IsSettled (r.0 name)) (sym e) h
        | inr (pod, e, f) ↦
            subst (λ (r : Pods). IsSettled (r name)) (sym f)
              (if_keeps IsSettled (text_eq (changed pod).name name) (some (changed pod))
                (known name) (λ t. changed-IsSettled pod)
                (λ t. absurd (ground (arith, t, (text_eq_iff pod.name name).1 (k name pod e)))))
      ]

      turn_keeps :
          (known : Pods) (s : S) (name m : Text)
          → IsSettled (known m)
          → IsSettled ((update_one v st wire inspect ex (known name) known s).0 m)
      turn_keeps known s name m h = elim (update_one-cases (known name) known s) [
        | inl (e, _) ↦ subst (λ (r : Pods × S). IsSettled (r.0 m)) (sym e) h
        | inr (pod, e, f) ↦
            subst (λ (r : Pods). IsSettled (r m)) (sym f) (put-IsSettled known pod m h)
      ]

      turn-IsKeyed :
          (known : Pods) (s : S) (name : Text)
          → IsKeyed known
          → IsKeyed (update_one v st wire inspect ex (known name) known s).0
      unfolding IsKeyed changed
      turn-IsKeyed known s name k = elim (update_one-cases (known name) known s) [
        | inl (e, _) ↦ subst (λ (r : Pods × S). IsKeyed r.0) (sym e) k
        | inr (pod, e, f) ↦ subst IsKeyed (sym f) (λ m p h. elim (Bool-cases (text_eq pod.name m)) [
          | inl t ↦ ground (arith, h, (text_eq_iff pod.name m).0 t)
          | inr t ↦ ground (arith, k m p, h)
        ])
      ]

      tick_keeps :
          (names : List Text) (known : Pods) (s : S) (m : Text)
          → IsSettled (known m)
          → IsSettled ((update_pod_statuses v st wire inspect ex names known s).0 m)
      unfolding update_pod_statuses
      tick_keeps [] known s m h = h
      tick_keeps (name ∷ names) known s m h =
          let r = update_one v st wire inspect ex (known name) known s in
          tick_keeps names r.0 r.1 m (turn_keeps known s name m h)

      tick_settles :
          (names : List Text) (known : Pods) (s : S)
          → IsKeyed known
          → All
              (λ m. IsSettled ((update_pod_statuses v st wire inspect ex names known s).0 m))
              names
      unfolding update_pod_statuses
      tick_settles [] known s k = tt
      tick_settles (name ∷ names) known s k =
          let r = update_one v st wire inspect ex (known name) known s in
          (
            tick_keeps names r.0 r.1 name (turn_settles known s name k),
            tick_settles names r.0 r.1 (turn-IsKeyed known s name k),
          )

      settled_turn :
          (o : Option Pod) (known : Pods) (s : S)
          → IsSettled o
          → update_one v st wire inspect ex o known s ≡ (known, s)
      unfolding update_one IsSettled
      settled_turn none known s h = refl
      settled_turn (some pod) known s (inl e) = rw e refl
      settled_turn (some pod) known s (inr f) = elim (Bool-cases (get_pod_status inspect pod).1) [
        | inl e ↦ rw e refl
        | inr e ↦ rw (e, f) refl
      ]

      settled_tick :
          (names : List Text) (known : Pods) (s : S)
          → All (λ m. IsSettled (known m)) names
          → update_pod_statuses v st wire inspect ex names known s ≡ (known, s)
      unfolding update_pod_statuses
      settled_tick [] known s h = refl
      settled_tick (name ∷ names) known s h =
          ap (λ (r : Pods × S). update_pod_statuses v st wire inspect ex names r.0 r.1)
            (settled_turn (known name) known s h.0)
          ∙ settled_tick names known s h.1

    -- A status is sent once: while Docker answers as before, the next tick of updatePodStatuses changes
    -- neither the kubelet's pods nor the store, also where the first tick's requests were lost, or the
    -- server refused them, whatever the store has become, and in whatever order the two ticks range over
    -- the map: the second one meets only names that the first one met. The map holds each pod under its
    -- name.
    pub status_sent_once :
        (ex ex' : Text → Exchange) (names names' : List Text) (known : Pods) (s s' : S)
        → ((name : Text) (pod : Pod) → known name ≡ some pod → pod.name ≡ name)
        → ((name : Text) → Elem name names' → Elem name names)
        → update_pod_statuses v st wire inspect ex' names'
            (update_pod_statuses v st wire inspect ex names known s).0
            s'
          ≡ ((update_pod_statuses v st wire inspect ex names known s).0, s')
    unfolding IsKeyed
    status_sent_once ex ex' names names' known s s' k within =
        let known' = (update_pod_statuses v st wire inspect ex names known s).0 in
        settled_tick ex' names' known' s' (
          All-within (λ m. IsSettled (known' m)) names names' within
            (tick_settles ex names known s k))

-- ===== src/Kubelet/Server/Registration.antt =====
-- Registering a node, once and again.
use gokube.Prelude.{
  Text, text_eq_refl, ◌≡◌, ◌≢◌, refl, ap, ◌∙◌, sym, inl, inr, List, [], ◌∷◌, arith, some,
  if◌then◌else◌,
}
use gokube.Exec.{ok, err, Result-cases, etcd_client, node_already_exists}
use gokube.Api.{Node, Validator}
use gokube.Storage.{Storage, Lawful, holds}
use gokube.Registry.Nodes
use gokube.Registry.Nodes.{node_key}
use gokube.Registry.Nodes.Laws.{get_node-create_node, create_node_taken}
use gokube.Handlers.{Write, error_write, status_created}
use gokube.Handlers.Nodes as Requests
use gokube.Kubelet.Server.Answers.{accepted, watching_accepted}
use gokube.Kubelet.Server.{
  answered, exchange, status_code, Wire, own_node, register_node, not_registered, watching, refused,
  start, check_answer, started_by,
}

conflict_ends :
    {S : Type 0} (writes : List (Write Requests.Body)) (t : S)
    → writes ≡ error_write 409 ∷ []
    → started_by (check_answer status_created (some writes, t)) ≡ (not_registered (refused 409), t)
conflict_ends writes t e = rw e (unfold status_code in refl)

module _ {S J : Type 0} (v : Validator) (st : Storage S Node) (l : Lawful st) (wire : Wire Node J)
    (name : Text) (body : J) (sent : wire.marshal (own_node name) ≡ some body)
    (received : wire.read_entity body ≡ some (own_node name)) where
  created_iff :
      (node : Node) (s : S)
      → status_code (Requests.create_node v st (some node) s).0 ≡ 201
      → (Nodes.create_node v st node s).0 ≡ ok tt
  unfolding Requests.create_node status_code
  created_iff node s h = elim (Result-cases (Nodes.create_node v st node s).0) [
    | inl (_, e) ↦ ground (arith, e)
    | inr (x, e) ↦ ground (arith, e)
  ]

  posted :
      (s : S)
      → start v st wire answered name s
        ≡ started_by (
            check_answer status_created (
              some (Requests.create_node v st (some (own_node name)) s).0,
              (Requests.create_node v st (some (own_node name)) s).1,
            ))
  unfolding start register_node exchange
  posted s = rw (sent, received) refl

  same_state :
      (node : Node) (s : S)
      → (Requests.create_node v st (some node) s).1 ≡ (Nodes.create_node v st node s).1
  unfolding Requests.create_node
  same_state node s = elim (Result-cases (Nodes.create_node v st node s).0) [
    | inl (_, e) ↦ ground (arith, e)
    | inr (x, e) ↦ ground (arith, e)
  ]

  refused_again :
      (node : Node) (s : S)
      → (Nodes.create_node v st node s).0 ≡ err node_already_exists
      → (Requests.create_node v st (some node) s).0 ≡ error_write 409 ∷ []
  unfolding Requests.create_node
  refused_again node s h = ground (arith, h)

  -- A kubelet that starts again under the name that it has registered does not start, while the store
  -- answers: the server refuses the node with 409, and no slot changes.
  pub restart_refused :
      (s s₁ : S) (j : Text)
      → l.written (own_node name) ≡ holds (own_node name)
      → start v st wire answered name s ≡ (watching, s₁)
      → (st.get (node_key name) s₁).0 ≢ err etcd_client
      → ((start v st wire answered name s₁).0 ≡ not_registered (refused 409))
        × (l.slot (start v st wire answered name s₁).1 j ≡ l.slot s₁ j)
  restart_refused s s₁ j w h answers =
      let node = own_node name in
      let created = Requests.create_node v st (some node) s in
      let (n, same) =
        watching_accepted (check_answer status_created (some created.0, created.1)) s₁
          (sym (posted s) ∙ h) in
      let ok_created = created_iff node s (accepted status_created created.0 created.1 n) in
      let (_, _, slot) = get_node-create_node v st l node s (node_key name) w ok_created in
      let taken : l.slot s₁ (node_key name) ≡ holds node =
        ap (λ x. l.slot x (node_key name)) (sym (sym (same_state node s) ∙ same))
        ∙ slot
        ∙ ap (λ b. if b then holds node else l.slot s (node_key name))
            (text_eq_refl (node_key name)) in
      let (e, kept) = create_node_taken v st l node node s₁ j taken answers in
      let again = refused_again node s₁ e in
      let ended = posted s₁ ∙ conflict_ends (Requests.create_node v st (some node) s₁).0 _ again in
      (
        ap (λ r. r.0) ended,
        ap (λ r. l.slot r.1 j) ended ∙ ap (λ t. l.slot t j) (same_state node s₁) ∙ kept,
      )

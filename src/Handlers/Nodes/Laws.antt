-- ===== src/Handlers/Nodes/Laws.antt =====
-- What a client of the node routes sees.
use gokube.Prelude.{
  Text, text_eq, text_eq_iff, ◌≡◌, ◌≢◌, ◌⊎◌, inl, inr, [], ◌∷◌, true, false, arith, some,
  if◌then◌else◌,
}
use gokube.Exec.{err, Result-cases, etcd_client}
use gokube.Api.{Node, Validator, validate_node}
use gokube.Storage.{Storage, Lawful, absent, holds}
use gokube.Registry.Nodes
use gokube.Registry.Nodes.{node_key}
use gokube.Handlers.{error_write, entity_write}
use gokube.Handlers.Nodes.{one, create_node, put_route}

module _ {S : Type 0} (v : Validator) (st : Storage S Node) (l : Lawful st) where
  -- POST of a node, while the store answers: a taken name is one answer 409, and otherwise an invalid
  -- node one answer 400; neither changes a slot.
  pub create_node_rejects :
      (node : Node) (s : S) (j : Text)
      → (st.get (node_key node.name) s).0 ≢ err etcd_client
      → (((old : Node) × (l.slot s (node_key node.name) ≡ holds old))
          ⊎ ((l.slot s (node_key node.name) ≡ absent) × (validate_node v node ≡ false)))
      → (((create_node v st (some node) s).0 ≡ error_write 409 ∷ [])
          ⊎ ((validate_node v node ≡ false)
              × ((create_node v st (some node) s).0 ≡ error_write 400 ∷ [])))
        × (l.slot (create_node v st (some node) s).1 j ≡ l.slot s j)
  unfolding create_node Nodes.create_node
  create_node_rejects node s j answered (inl (old, taken)) = (
    inl (ground (arith, l.get_reply (node_key node.name) s)),
    ground (arith, l.get_reply (node_key node.name) s, l.get_keeps (node_key node.name) s j),
  )
  create_node_rejects node s j answered (inr (free, invalid)) = (
    inr (invalid, ground (arith, l.get_reply (node_key node.name) s)),
    ground (arith, l.get_reply (node_key node.name) s, l.get_keeps (node_key node.name) s j),
  )

  -- PUT answers 200 only if the key of the name in the path held a node of the body's name and the body
  -- is valid; the slot of the body's key then holds the body, and every other slot is as it was.
  pub put_node_ok :
      (name : Text) (node shown : Node) (s : S) (j : Text)
      → (put_route v st name (some node) s).0 ≡ entity_write 200 (one shown) ∷ []
      → (shown ≡ node)
        × ((old : Node) × (l.slot s (node_key name) ≡ holds old) × (old.name ≡ node.name))
        × (validate_node v node ≡ true)
        × (l.slot (put_route v st name (some node) s).1 j
            ≡ (if text_eq (node_key node.name) j then l.written node else l.slot s j))
  unfolding put_route Nodes.get_node Nodes.update_node
  put_node_ok name node shown s j h = elim (Result-cases (st.get (node_key name) s).0) [
    | inr (x, e) ↦ absurd (ground arith)
    | inl (old, e) ↦
        let s₁ = (st.get (node_key name) s).1 in
        (
          ground arith,
          (
            old,
            ground (arith, l.get_reply (node_key name) s),
            ground (arith, text_eq_iff old.name node.name),
          ),
          ground arith,
          ground (
            arith,
            l.update_ok (node_key node.name) node s₁ (ground arith) j,
            l.get_keeps (node_key name) s j,
          ),
        )
  ]

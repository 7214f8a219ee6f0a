-- ===== src/Registry/Nodes/Laws.antt =====
-- What the registry of nodes promises, slot by slot.
use gokube.Prelude.{
  Text, text_eq, text_eq_refl, starts_with, starts_with-append, ◌≡◌, ◌≢◌, ◌↔◌, ◌⊎◌, List, Elem,
  true, arith, if◌then◌else◌,
}
use gokube.Exec.{Result, ok, err, etcd_client, internal, node_already_exists, node_not_found}
use gokube.Api.{Node, Validator, validate_node}
use gokube.Storage.{Storage, Lawful, Slot, absent, garbled, holds, read_all}
use gokube.Storage.Reading.{Elem-read_all, Elem-of_read_all}
use gokube.Registry.PathJoin.{IsPlain}
use gokube.Registry.Nodes.{node_key, node_prefix, create_node, get_node, list_nodes}
use gokube.Registry.Nodes.Keys.{node_key_plain}

-- What GetNode answers for a slot.
abbrev pub found : Slot Node → Result Node
found absent = err node_not_found
found garbled = err internal
found (holds node) = ok node

module _ {S : Type 0} (v : Validator) (st : Storage S Node) (l : Lawful st) where
  abbrev pub looked_up : Node → S → S
  looked_up node s = (st.get (node_key node.name) s).1

  -- If the node reads back as written, a creation that succeeds has written a valid node under its
  -- key, which a lookup returns unless the store fails, and every other slot is as it was.
  pub get_node-create_node :
      (node : Node) (s : S) (j : Text)
      → l.written node ≡ holds node
      → (create_node v st node s).0 ≡ ok tt
      → (validate_node v node ≡ true)
        × (((get_node st node.name (create_node v st node s).1).0 ≡ err internal)
            ⊎ ((get_node st node.name (create_node v st node s).1).0 ≡ ok node))
        × (l.slot (create_node v st node s).1 j
            ≡ (if text_eq (node_key node.name) j then holds node else l.slot s j))
  unfolding create_node get_node
  get_node-create_node node s j w h = (
    ground arith,
    ground (
      arith,
      l.create_ok (node_key node.name) node (looked_up node s) (ground arith) (node_key node.name),
      text_eq_refl (node_key node.name),
      l.get_reply (node_key node.name) (st.create (node_key node.name) node (looked_up node s)).1,
    ),
    ground (
      arith,
      l.create_ok (node_key node.name) node (looked_up node s) (ground arith) j,
      l.get_keeps (node_key node.name) s j,
    ),
  )

  -- If the name is taken, and the store answers the lookup, CreateNode fails and changes no slot.
  pub create_node_taken :
      (node old : Node) (s : S) (j : Text)
      → l.slot s (node_key node.name) ≡ holds old
      → (st.get (node_key node.name) s).0 ≢ err etcd_client
      → ((create_node v st node s).0 ≡ err node_already_exists)
        × (l.slot (create_node v st node s).1 j ≡ l.slot s j)
  unfolding create_node
  create_node_taken node old s j taken answered = (
    ground (arith, l.get_reply (node_key node.name) s),
    ground (arith, l.get_reply (node_key node.name) s, l.get_keeps (node_key node.name) s j),
  )

  -- If ListNodes succeeds, it returns the nodes stored below the prefix and no other.
  pub list_nodes_iff :
      (s : S) (nodes : List Node) (node : Node)
      → (list_nodes st s).0 ≡ ok nodes
      → Elem node nodes
        ↔ ((k : Text) × (starts_with node_prefix k ≡ true) × (l.slot s k ≡ holds node))
  unfolding list_nodes
  list_nodes_iff s nodes node h =
      let ks = l.keys s node_prefix in
      let listed : read_all (l.slot s) ks ≡ ok nodes = ground (arith, l.list_reply node_prefix s) in
      (
        λ m.
            let (k, mk, e) = Elem-of_read_all (l.slot s) ks nodes node listed m in
            (k, ((l.keys_iff node_prefix s k).0 mk).0, e),
        λ x.
            Elem-read_all (l.slot s) ks nodes x.0 node listed
              ((l.keys_iff node_prefix s x.0).1 (x.1, λ gone. cc)) x.2,
      )

  -- A node with a plain name that is stored under its key is listed by a ListNodes that succeeds.
  pub listed-IsPlain :
      (s : S) (nodes : List Node) (node : Node)
      → (list_nodes st s).0 ≡ ok nodes
      → IsPlain node.name
      → l.slot s (node_key node.name) ≡ holds node
      → Elem node nodes
  listed-IsPlain s nodes node h p e = (list_nodes_iff s nodes node h).1 (
    node_key node.name,
    rw (node_key_plain node.name p) (starts_with-append node_prefix node.name),
    e,
  )

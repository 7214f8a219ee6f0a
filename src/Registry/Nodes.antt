-- ===== src/Registry/Nodes.antt =====
-- pkg/registry/node_registry.go. The key of a node is path.Join of the prefix and the name.
pub mod Keys
pub mod Laws
mod Examples
use gokube.Prelude.{Text, codes, Bool, true, false, List, if◌then◌else◌}
use gokube.Exec.{
  Exec, Error, Result, ok, err, pure, raise, attempt, replace_error, ◌>>=◌, not_found, internal,
  node_already_exists, node_not_found, list_nodes_failed, node_invalid,
}
use gokube.Api.{Node, Validator, validate_node}
use gokube.Storage.{Storage}
use gokube.Registry.PathJoin.{join}

abbrev pub node_prefix : Text
node_prefix = codes "/registry/nodes/"

unfoldable pub node_key : Text → Text
unfolding join
node_key name = join node_prefix name

-- The switch of GetNode on errors.Is(err, storage.ErrNotFound).
abbrev pub lookup_error : Error → Error
lookup_error not_found = node_not_found
lookup_error _ = internal

abbrev lookup_reply : {S : Type 0} → Result Node × S → Result Node × S
lookup_reply (ok node, s) = (ok node, s)
lookup_reply (err e, s) = (err (lookup_error e), s)

module _ {S : Type 0} (st : Storage S Node) where
  unfoldable pub get_node : Text → Exec S Node
  get_node name s = lookup_reply (st.get (node_key name) s)

  unfoldable pub delete_node : Text → Exec S (Unit {0})
  delete_node name = st.delete (node_key name)

  unfoldable pub list_nodes : Exec S (List Node)
  list_nodes s = replace_error list_nodes_failed (st.list node_prefix s)

module _ {S : Type 0} (v : Validator) (st : Storage S Node) where
  create_if_missing : Result Node → Text → Node → Exec S (Unit {0})
  create_if_missing (ok _) key node = raise node_already_exists
  create_if_missing (err _) key node =
      if validate_node v node then st.create key node else raise node_invalid

  unfoldable pub create_node : Node → Exec S (Unit {0})
  unfolding create_if_missing
  create_node node = do
    existing ← attempt (st.get (node_key node.name))
    create_if_missing existing (node_key node.name) node

  unfoldable pub update_node : Node → Exec S (Unit {0})
  update_node node =
      if validate_node v node then st.update (node_key node.name) node else raise node_invalid

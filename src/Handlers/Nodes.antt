-- ===== src/Handlers/Nodes.antt =====
-- pkg/api/handlers/node.go.
pub mod Laws
mod Examples
use gokube.Prelude.{
  Text, text_eq, Bool, true, false, List, [], ◌∷◌, Option, none, some, if◌then◌else◌,
}
use gokube.Exec.{Error, Result, ok, err, node_already_exists, node_invalid, node_not_found}
use gokube.Api.{Node, Validator}
use gokube.Storage.{Storage}
use gokube.Registry.Nodes
use gokube.Handlers.{
  Write, Handler, write_error, write_response, status_ok, status_created, status_no_content,
  status_bad_request, status_not_found, status_conflict, status_internal,
}

-- An object, or a list of objects, as the body of an answer.
pub data Body : Type 0 where
  one : Node → Body
  many : List Node → Body

-- The switch of LoadNodeIntoRequest.
abbrev pub load_failed : {S : Type 0} → Error → Handler S Body
load_failed node_not_found = write_error status_not_found
load_failed _ = write_error status_internal

module _ {S : Type 0} (v : Validator) (st : Storage S Node) where
  load_answer : (Option Node → Handler S Body) → Result Node × S → List (Write Body) × S
  load_answer next (ok node, s) = next (some node) s
  load_answer next (err e, s) = load_failed e s

  -- LoadNodeIntoRequest, with the rest of the filter chain.
  unfoldable pub load_node_into_request : Text → (Option Node → Handler S Body) → Handler S Body
  unfolding load_answer
  load_node_into_request name next s = load_answer next (Nodes.get_node st name s)

  -- The switch on the error of the registry's creation.
  create_failed : Error → Handler S Body
  create_failed node_already_exists = write_error status_conflict
  create_failed node_invalid = write_error status_bad_request
  create_failed _ = write_error status_internal

  create_answer : Node → Result (Unit {0}) × S → List (Write Body) × S
  unfolding create_failed
  create_answer node (ok _, s) = write_response status_created (some (one node)) s
  create_answer node (err e, s) = create_failed e s

  -- The creation, on the decoded body.
  unfoldable pub create_node : Option Node → Handler S Body
  unfolding create_answer
  create_node none s = write_error status_bad_request s
  create_node (some node) s = create_answer node (Nodes.create_node v st node s)

  -- The lookup, on the attribute that the filter sets.
  unfoldable pub get_node : Option Node → Handler S Body
  get_node none = write_error status_internal
  get_node (some node) = write_response status_ok (some (one node))

  update_failed : Error → Handler S Body
  update_failed node_invalid = write_error status_bad_request
  update_failed _ = write_error status_internal

  update_answer : Node → Result (Unit {0}) × S → List (Write Body) × S
  unfolding update_failed
  update_answer node (ok _, s) = write_response status_ok (some (one node)) s
  update_answer node (err e, s) = update_failed e s

  update_named : Node → Node → Handler S Body
  unfolding update_answer
  update_named existing node s =
      if text_eq existing.name node.name
      then update_answer node (Nodes.update_node v st node s)
      else write_error status_bad_request s

  -- The update, on the decoded body and the attribute.
  unfoldable pub update_node : Option Node → Option Node → Handler S Body
  unfolding update_named
  update_node body none s = write_error status_internal s
  update_node none (some existing) s = write_error status_bad_request s
  update_node (some node) (some existing) s = update_named existing node s

  delete_answer : Result (Unit {0}) × S → List (Write Body) × S
  delete_answer (ok _, s) = write_response status_no_content none s
  delete_answer (err e, s) = write_error status_internal s

  unfoldable pub delete_node : Option Node → Handler S Body
  unfolding delete_answer
  delete_node none s = write_error status_internal s
  delete_node (some node) s = delete_answer (Nodes.delete_node st node.name s)

  list_answer : Result (List Node) × S → List (Write Body) × S
  list_answer (ok found, s) = write_response status_ok (some (many found)) s
  list_answer (err e, s) = write_error status_internal s

  unfoldable pub list_nodes : Handler S Body
  unfolding list_answer
  list_nodes s = list_answer (Nodes.list_nodes st s)

  -- The routes with a name.
  unfoldable pub get_route : Text → Handler S Body
  unfolding get_node load_node_into_request
  get_route name = load_node_into_request name get_node

  unfoldable pub put_route : Text → Option Node → Handler S Body
  unfolding update_node load_node_into_request
  put_route name body = load_node_into_request name (update_node body)

  unfoldable pub delete_route : Text → Handler S Body
  unfolding delete_node load_node_into_request
  delete_route name = load_node_into_request name delete_node

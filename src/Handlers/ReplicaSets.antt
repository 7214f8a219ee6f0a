-- ===== src/Handlers/ReplicaSets.antt =====
-- pkg/api/handlers/replicaset.go.
pub mod Laws
mod Examples
use gokube.Prelude.{
  Text, text_eq, Bool, true, false, List, [], ◌∷◌, Option, none, some, if◌then◌else◌,
}
use gokube.Exec.{Error, Result, ok, err, replica_set_exists, replica_set_not_found}
use gokube.Api.{ReplicaSet}
use gokube.Storage.{Storage}
use gokube.Registry.ReplicaSets
use gokube.Handlers.{
  Write, Handler, write_error, write_response, status_ok, status_created, status_no_content,
  status_bad_request, status_not_found, status_conflict, status_internal,
}

-- An object, or a list of objects, as the body of an answer.
pub data Body : Type 0 where
  one : ReplicaSet → Body
  many : List ReplicaSet → Body

-- The switch of LoadReplicasetIntoRequest.
abbrev pub load_failed : {S : Type 0} → Error → Handler S Body
load_failed replica_set_not_found = write_error status_not_found
load_failed _ = write_error status_internal

module _ {S : Type 0} (st : Storage S ReplicaSet) where
  load_answer : (Option ReplicaSet → Handler S Body) → Result ReplicaSet × S → List (Write Body) × S
  load_answer next (ok replica_set, s) = next (some replica_set) s
  load_answer next (err e, s) = load_failed e s

  -- LoadReplicasetIntoRequest, with the rest of the filter chain.
  unfoldable pub load_replica_set_into_request :
      Text → (Option ReplicaSet → Handler S Body) → Handler S Body
  unfolding load_answer
  load_replica_set_into_request name next s = load_answer next (ReplicaSets.get st name s)

  -- The switch on the error of the registry's creation.
  create_failed : Error → Handler S Body
  create_failed replica_set_exists = write_error status_conflict
  create_failed _ = write_error status_internal

  create_answer : ReplicaSet → Result (Unit {0}) × S → List (Write Body) × S
  unfolding create_failed
  create_answer replica_set (ok _, s) = write_response status_created (some (one replica_set)) s
  create_answer replica_set (err e, s) = create_failed e s

  -- The creation, on the decoded body.
  unfoldable pub create_replica_set : Option ReplicaSet → Handler S Body
  unfolding create_answer
  create_replica_set none s = write_error status_bad_request s
  create_replica_set (some replica_set) s =
      create_answer replica_set (ReplicaSets.create st replica_set s)

  -- The lookup, on the attribute that the filter sets.
  unfoldable pub get_replica_set : Option ReplicaSet → Handler S Body
  get_replica_set none = write_error status_internal
  get_replica_set (some replica_set) = write_response status_ok (some (one replica_set))

  update_answer : ReplicaSet → Result (Unit {0}) × S → List (Write Body) × S
  update_answer replica_set (ok _, s) = write_response status_ok (some (one replica_set)) s
  update_answer replica_set (err e, s) = write_error status_internal s

  update_named : ReplicaSet → ReplicaSet → Handler S Body
  unfolding update_answer
  update_named existing replica_set s =
      if text_eq existing.name replica_set.name
      then update_answer replica_set (ReplicaSets.update st replica_set s)
      else write_error status_bad_request s

  -- The update, on the decoded body and the attribute.
  unfoldable pub update_replica_set : Option ReplicaSet → Option ReplicaSet → Handler S Body
  unfolding update_named
  update_replica_set body none s = write_error status_internal s
  update_replica_set none (some existing) s = write_error status_bad_request s
  update_replica_set (some replica_set) (some existing) s = update_named existing replica_set s

  delete_answer : Result (Unit {0}) × S → List (Write Body) × S
  delete_answer (ok _, s) = write_response status_no_content none s
  delete_answer (err e, s) = write_error status_internal s

  unfoldable pub delete_replica_set : Option ReplicaSet → Handler S Body
  unfolding delete_answer
  delete_replica_set none s = write_error status_internal s
  delete_replica_set (some replica_set) s = delete_answer (ReplicaSets.delete st replica_set.name s)

  list_answer : Result (List ReplicaSet) × S → List (Write Body) × S
  list_answer (ok found, s) = write_response status_ok (some (many found)) s
  list_answer (err e, s) = write_error status_internal s

  unfoldable pub list_replica_sets : Handler S Body
  unfolding list_answer
  list_replica_sets s = list_answer (ReplicaSets.list st s)

  -- The routes with a name.
  unfoldable pub get_route : Text → Handler S Body
  unfolding get_replica_set load_replica_set_into_request
  get_route name = load_replica_set_into_request name get_replica_set

  unfoldable pub put_route : Text → Option ReplicaSet → Handler S Body
  unfolding update_replica_set load_replica_set_into_request
  put_route name body = load_replica_set_into_request name (update_replica_set body)

  unfoldable pub delete_route : Text → Handler S Body
  unfolding delete_replica_set load_replica_set_into_request
  delete_route name = load_replica_set_into_request name delete_replica_set

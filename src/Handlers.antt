-- ===== src/Handlers.antt =====
-- pkg/api/handlers and pkg/api/response.go. A handler of go-restful reads a request and writes to a
-- response. Of the request the handlers use the path parameter, the query parameter, the decoded body
-- (`none` if ReadEntity fails) and the attribute that the filter before them sets; the response is
-- the list of writes, in order.
pub mod Pods
pub mod Nodes
pub mod ReplicaSets
use gokube.Prelude.{ℕ, List, [], ◌∷◌, Option, none, some, length}

pub data Write (B : Type 0) : Type 0 where
  -- WriteError: a status and the text of an error
  error_write : ℕ → Write B
  -- WriteHeaderAndEntity: a status and a body
  entity_write : ℕ → B → Write B
  -- WriteHeader, where WriteResponse has no entity
  header_write : ℕ → Write B

abbrev pub Handler : Type 0 → Type 0 → Type 0
Handler S B = S → List (Write B) × S

abbrev pub write_error : {S B : Type 0} → ℕ → Handler S B
write_error status s = (error_write status ∷ [], s)

-- WriteResponse, with an entity or without one.
abbrev pub write_response : {S B : Type 0} → ℕ → Option B → Handler S B
write_response status (some entity) s = (entity_write status entity ∷ [], s)
write_response status none s = (header_write status ∷ [], s)

abbrev pub status_ok : ℕ
status_ok = 200

abbrev pub status_created : ℕ
status_created = 201

abbrev pub status_no_content : ℕ
status_no_content = 204

abbrev pub status_bad_request : ℕ
status_bad_request = 400

abbrev pub status_not_found : ℕ
status_not_found = 404

abbrev pub status_conflict : ℕ
status_conflict = 409

abbrev pub status_internal : ℕ
status_internal = 500

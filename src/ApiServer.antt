-- ===== src/ApiServer.antt =====
-- pkg/api/server/server.go and the functions Register…Routes of pkg/api/handlers: the routes of the API
-- server. Which of the routes that match the method and the path of a request go-restful takes, if it
-- takes one, is a parameter, and so is what it answers where it takes none. Paths are the segments below
-- /api/v1.
pub mod Dispatch
mod Examples
use gokube.Prelude.{
  ℕ, Text, codes, text_eq, Bool, true, false, List, [], ◌∷◌, ◌++◌, map, Option, none, some,
  if◌then◌else◌,
}
use gokube.Api.{Pod, Node, ReplicaSet, Validator}
use gokube.Storage.{Storage}
use gokube.Handlers.{
  Write, error_write, entity_write, header_write, Handler, write_response, status_ok,
}
use gokube.Handlers.Pods
use gokube.Handlers.Nodes
use gokube.Handlers.ReplicaSets

pub data Method : Type 0 where
  get post put delete : Method

abbrev pub same_method : Method → Method → Bool
same_method get get = true
same_method post post = true
same_method put put = true
same_method delete delete = true
same_method _ _ = false

-- A segment of a route's path: a text, or `{name}`.
pub data Part : Type 0 where
  literal : Text → Part
  parameter : Part

-- The functions of the handlers, each behind the filter that its route has.
pub data Endpoint : Type 0 where
  healthz : Endpoint
  create_pod list_pods get_pod update_pod delete_pod list_unassigned_pods : Endpoint
  create_node list_nodes get_node update_node delete_node : Endpoint
  create_replica_set list_replica_sets get_replica_set : Endpoint
  update_replica_set delete_replica_set : Endpoint

-- A route, with the media types that it consumes and produces.
pub record Route : Type 0 where
  pub method : Method
  pub path : List Part
  pub endpoint : Endpoint
  pub consumes : List Text
  pub produces : List Text

-- restful.MIME_JSON
abbrev pub mime_json : Text
mime_json = codes "application/json"

-- A route of the web service, which has `Consumes(restful.MIME_JSON).Produces(restful.MIME_JSON)`.
abbrev pub route : Method → List Part → Endpoint → Route
route method path endpoint = record {
  method = method;
  path = path;
  endpoint = endpoint;
  consumes = mime_json ∷ [];
  produces = mime_json ∷ [];
}

-- The segments of the paths.
abbrev pub pods_segment : Text
pods_segment = codes "pods"

abbrev pub nodes_segment : Text
nodes_segment = codes "nodes"

abbrev pub replica_sets_segment : Text
replica_sets_segment = codes "replicasets"

abbrev pub unassigned_segment : Text
unassigned_segment = codes "unassigned"

abbrev pub healthz_segment : Text
healthz_segment = codes "healthz"

-- RegisterPodRoutes
unfoldable pub pod_routes : List Route
pod_routes =
    route post (literal pods_segment ∷ []) create_pod
    ∷ route get (literal pods_segment ∷ []) list_pods
    ∷ route get (literal pods_segment ∷ parameter ∷ []) get_pod
    ∷ route put (literal pods_segment ∷ parameter ∷ []) update_pod
    ∷ route delete (literal pods_segment ∷ parameter ∷ []) delete_pod
    ∷ route get (literal pods_segment ∷ literal unassigned_segment ∷ []) list_unassigned_pods
    ∷ []

-- RegisterNodeRoutes
unfoldable pub node_routes : List Route
node_routes =
    route post (literal nodes_segment ∷ []) create_node
    ∷ route get (literal nodes_segment ∷ []) list_nodes
    ∷ route get (literal nodes_segment ∷ parameter ∷ []) get_node
    ∷ route put (literal nodes_segment ∷ parameter ∷ []) update_node
    ∷ route delete (literal nodes_segment ∷ parameter ∷ []) delete_node
    ∷ []

-- RegisterReplicasetRoutes
unfoldable pub replica_set_routes : List Route
replica_set_routes =
    route post (literal replica_sets_segment ∷ []) create_replica_set
    ∷ route get (literal replica_sets_segment ∷ []) list_replica_sets
    ∷ route get (literal replica_sets_segment ∷ parameter ∷ []) get_replica_set
    ∷ route put (literal replica_sets_segment ∷ parameter ∷ []) update_replica_set
    ∷ route delete (literal replica_sets_segment ∷ parameter ∷ []) delete_replica_set
    ∷ []

-- registerRoutes
unfoldable pub register_routes : List Route
unfolding pod_routes node_routes replica_set_routes
register_routes =
    route get (literal healthz_segment ∷ []) healthz
    ∷ (pod_routes ++ (node_routes ++ replica_set_routes))

-- A route that matches the method and the path of a request, with the path parameter if it has one.
pub record Candidate : Type 0 where
  pub endpoint : Endpoint
  pub name : Option Text
  pub consumes : List Text
  pub produces : List Text

abbrev pub named_as : Text → Option (Option Text) → Option (Option Text)
named_as name none = none
named_as name (some _) = some (some name)

unfoldable pub match_path : List Part → List Text → Option (Option Text)
match_path [] [] = some none
match_path [] (_ ∷ _) = none
match_path (_ ∷ _) [] = none
match_path (literal t ∷ parts) (segment ∷ path) =
    let rest = match_path parts path in if text_eq t segment then rest else none
match_path (parameter ∷ parts) (segment ∷ path) = named_as segment (match_path parts path)

abbrev pub candidate_onto : Route → Option (Option Text) → List Candidate → List Candidate
candidate_onto r none rest = rest
candidate_onto r (some name) rest =
    record { endpoint = r.endpoint; name = name; consumes = r.consumes; produces = r.produces }
    ∷ rest

unfoldable pub candidates : List Route → Method → List Text → List Candidate
unfolding match_path
candidates [] method path = []
candidates (r ∷ rs) method path =
    let rest = candidates rs method path in
    if same_method r.method method then candidate_onto r (match_path r.path path) rest else rest

-- A request: its headers Content-Type and Accept, the query parameter `nodeName`, and what ReadEntity makes of its body as each type.
pub record Request : Type 0 where
  pub method : Method
  pub path : List Text
  pub content_type : Option Text
  pub accept : Option Text
  pub node_name : Text
  pub pod_entity : Option Pod
  pub node_entity : Option Node
  pub replica_set_entity : Option ReplicaSet

pub data Body : Type 0 where
  pod_body : Pods.Body → Body
  node_body : Nodes.Body → Body
  replica_set_body : ReplicaSets.Body → Body

abbrev pub with_body : {B : Type 0} → (B → Body) → Write B → Write Body
with_body f (error_write status) = error_write status
with_body f (entity_write status b) = entity_write status (f b)
with_body f (header_write status) = header_write status

abbrev pub answering : {S B : Type 0} → (B → Body) → List (Write B) × S → List (Write Body) × S
answering f (writes, s) = (map (with_body f) writes, s)

abbrev pub path_parameter : Option Text → Text
path_parameter none = []
path_parameter (some name) = name

module _ {S : Type 0} (v : Validator) (sp : Storage S Pod) (sn : Storage S Node)
    (sr : Storage S ReplicaSet) where
  unfoldable pub run_endpoint : Endpoint → Text → Request → Handler S Body
  run_endpoint healthz name req s = write_response status_ok none s
  run_endpoint create_pod name req s = answering pod_body (Pods.create_pod v sp req.pod_entity s)
  run_endpoint list_pods name req s = answering pod_body (Pods.list_pods sp req.node_name s)
  run_endpoint get_pod name req s = answering pod_body (Pods.get_route v sp name s)
  run_endpoint update_pod name req s =
      answering pod_body (Pods.put_route v sp name req.pod_entity s)
  run_endpoint delete_pod name req s = answering pod_body (Pods.delete_route v sp name s)
  run_endpoint list_unassigned_pods name req s = answering pod_body (Pods.list_unassigned_pods sp s)
  run_endpoint create_node name req s =
      answering node_body (Nodes.create_node v sn req.node_entity s)
  run_endpoint list_nodes name req s = answering node_body (Nodes.list_nodes v sn s)
  run_endpoint get_node name req s = answering node_body (Nodes.get_route v sn name s)
  run_endpoint update_node name req s =
      answering node_body (Nodes.put_route v sn name req.node_entity s)
  run_endpoint delete_node name req s = answering node_body (Nodes.delete_route v sn name s)
  run_endpoint create_replica_set name req s =
      answering replica_set_body (ReplicaSets.create_replica_set sr req.replica_set_entity s)
  run_endpoint list_replica_sets name req s =
      answering replica_set_body (ReplicaSets.list_replica_sets sr s)
  run_endpoint get_replica_set name req s =
      answering replica_set_body (ReplicaSets.get_route sr name s)
  run_endpoint update_replica_set name req s =
      answering replica_set_body (ReplicaSets.put_route sr name req.replica_set_entity s)
  run_endpoint delete_replica_set name req s =
      answering replica_set_body (ReplicaSets.delete_route sr name s)

  -- The container: the route that go-restful takes among those that match, or its own answer.
  module _ (choose : Request → List Candidate → Option Candidate)
      (refusal : Request → List (Write Body)) where
    abbrev pub run_chosen : Request → Option Candidate → Handler S Body
    run_chosen req none s = (refusal req, s)
    run_chosen req (some c) s = run_endpoint c.endpoint (path_parameter c.name) req s

    unfoldable pub serve : Request → Handler S Body
    serve req = run_chosen req (choose req (candidates register_routes req.method req.path))

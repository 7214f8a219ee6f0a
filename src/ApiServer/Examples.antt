-- ===== src/ApiServer/Examples.antt =====
-- A choice of routes, and a request over an etcd in memory.
use gokube.Prelude.{inl, inr, Text, codes, List, [], ◌∷◌, Option, none, some, ◌≡◌, ◌≢◌, refl, false}
use gokube.Handlers.{Write, error_write}
use gokube.Handlers.Pods
use gokube.Memory.Samples.{checks, running_web, with_running, pods, nodes, sets}
use gokube.ApiServer.{
  mime_json, Body, get, put, delete, Candidate, Request, pod_body, answering, serve, pods_segment,
  unassigned_segment,
}
use gokube.ApiServer.Dispatch.{IsLiteralFirst, pod_requests_reach}

abbrev choose_named : Candidate → Candidate → Option Text → Option Text → Option Candidate
choose_named c d (some _) none = some d
choose_named c d _ _ = some c

-- It takes any request; go-restful refuses those with other media types.
abbrev choose : Request → List Candidate → Option Candidate
choose req [] = none
choose req (c ∷ []) = some c
choose req (c ∷ d ∷ _) = choose_named c d c.name d.name

abbrev refusal : Request → List (Write Body)
refusal req = error_write 404 ∷ []

choose-IsLiteralFirst : IsLiteralFirst choose
choose-IsLiteralFirst = record {
  none_of_none = λ req. refl;
  only = λ req c served. refl;
  literal_first = λ req c d name served served' e f. rw (e, f) refl;
}

abbrev request : Request
request = record {
  method = put;
  path = pods_segment ∷ codes "web" ∷ [];
  content_type = some mime_json;
  accept = none;
  node_name = [];
  pod_entity = some running_web;
  node_entity = none;
  replica_set_entity = none;
}

abbrev web : Text
web = codes "web"

pod_requests_reach_example :
    (request.method ≡ put
      → serve checks (pods false) nodes sets choose refusal request with_running
        ≡ answering pod_body
            (Pods.put_route checks (pods false) web (some running_web) with_running))
    × (request.method ≡ delete
        → serve checks (pods false) nodes sets choose refusal request with_running
          ≡ answering pod_body (Pods.delete_route checks (pods false) web with_running))
    × (request.method ≡ get
        → web ≢ unassigned_segment
        → serve checks (pods false) nodes sets choose refusal request with_running
          ≡ answering pod_body (Pods.get_route checks (pods false) web with_running))
    × (request.method ≡ get
        → web ≡ unassigned_segment
        → serve checks (pods false) nodes sets choose refusal request with_running
          ≡ answering pod_body (Pods.list_unassigned_pods (pods false) with_running))
pod_requests_reach_example =
    pod_requests_reach checks (pods false) nodes sets choose refusal choose-IsLiteralFirst request
      web with_running refl (inl (mime_json, refl, inl refl), inr refl)

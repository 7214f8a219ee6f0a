-- ===== src/ApiServer/Dispatch.antt =====
-- Which handler a request for a pod reaches.
use gokube.Prelude.{
  Text, Elem, ◌⊎◌, text_eq, text_eq_ne, List, [], ◌∷◌, Option, none, some, ◌≡◌, ◌≢◌, refl, ap, ◌∙◌,
  sym, if◌then◌else◌,
}
use gokube.Api.{Validator, Pod, Node, ReplicaSet}
use gokube.Storage.{Storage}
use gokube.Handlers.{Write}
use gokube.Handlers.Pods
use gokube.ApiServer.{
  literal, route, mime_json, Method, candidate_onto, get, put, delete, Endpoint, get_pod,
  update_pod, delete_pod, list_unassigned_pods, register_routes, Candidate, candidates, Request,
  Body, pod_body, answering, serve, run_endpoint, run_chosen, pods_segment, unassigned_segment,
  match_path,
}

-- The media types of a request are those of a route: its content is of a type that the route consumes,
-- which a GET and a DELETE need not name, and it accepts a type that the route produces, or any.
abbrev IsBodyless : Method → Type 0
IsBodyless m = (m ≡ get) ⊎ (m ≡ delete)

abbrev pub IsServed : Request → List Text → List Text → Type 0
IsServed req consumes produces =
    (((t : Text) × (req.content_type ≡ some t) × Elem t consumes)
      ⊎ ((req.content_type ≡ none) × IsBodyless req.method))
    × (((t : Text) × (req.accept ≡ some t) × Elem t produces) ⊎ (req.accept ≡ none))

-- What go-restful documents of its choice: none among none, and among routes with the media types of the
-- request the only one, and a path of literals before one with a parameter.
pub record IsLiteralFirst (choose : Request → List Candidate → Option Candidate) : Type 0 where
  pub none_of_none : (req : Request) → choose req [] ≡ none
  pub only :
      (req : Request) (c : Candidate)
      → IsServed req c.consumes c.produces
      → choose req (c ∷ []) ≡ some c
  pub literal_first :
      (req : Request) (c d : Candidate) (name : Text)
      → IsServed req c.consumes c.produces
      → IsServed req d.consumes d.produces
      → c.name ≡ some name
      → d.name ≡ none
      → choose req (c ∷ d ∷ []) ≡ some d

candidate : Endpoint → Option Text → Candidate
candidate endpoint name = record {
  endpoint = endpoint;
  name = name;
  consumes = mime_json ∷ [];
  produces = mime_json ∷ [];
}

abbrev named_pod : Endpoint → Text → Candidate
named_pod endpoint name = candidate endpoint (some name)

get_candidates :
    (name : Text)
    → name ≢ unassigned_segment
    → candidates register_routes get (pods_segment ∷ name ∷ []) ≡ named_pod get_pod name ∷ []
unfolding candidates register_routes match_path text_eq candidate
get_candidates name ne =
    ap
      (λ b.
        named_pod get_pod name
        ∷ candidate_onto
            (route get (literal pods_segment ∷ literal unassigned_segment ∷ [])
              list_unassigned_pods)
            (if b then some none else none) [])
      (text_eq_ne unassigned_segment name (λ e. ne (sym e)))

put_candidates :
    (name : Text)
    → candidates register_routes put (pods_segment ∷ name ∷ []) ≡ named_pod update_pod name ∷ []
unfolding candidates register_routes match_path text_eq candidate
put_candidates name = refl

delete_candidates :
    (name : Text)
    → candidates register_routes delete (pods_segment ∷ name ∷ []) ≡ named_pod delete_pod name ∷ []
unfolding candidates register_routes match_path text_eq candidate
delete_candidates name = refl

unassigned_candidates :
    candidates register_routes get (pods_segment ∷ unassigned_segment ∷ [])
    ≡ named_pod get_pod unassigned_segment ∷ candidate list_unassigned_pods none ∷ []
unfolding candidates register_routes match_path text_eq candidate
unassigned_candidates = refl

module _ {S : Type 0} (v : Validator) (sp : Storage S Pod) (sn : Storage S Node)
    (sr : Storage S ReplicaSet) (choose : Request → List Candidate → Option Candidate)
    (refusal : Request → List (Write Body)) (literal_first : IsLiteralFirst choose) where
  taken :
      (req : Request) (c : Candidate) (s : S)
      → choose req (candidates register_routes req.method req.path) ≡ some c
      → serve v sp sn sr choose refusal req s ≡ run_chosen v sp sn sr choose refusal req (some c) s
  unfolding serve
  taken req c s h = ap (λ o. run_chosen v sp sn sr choose refusal req o s) h

  chosen :
      (req : Request) (name : Text)
      → req.path ≡ pods_segment ∷ name ∷ []
      → (m : Method) → req.method ≡ m
      → candidates register_routes req.method req.path
        ≡ candidates register_routes m (pods_segment ∷ name ∷ [])
  chosen req name p m e =
      ap (λ path. candidates register_routes req.method path) p
      ∙ ap (λ (m : Method). candidates register_routes m (pods_segment ∷ name ∷ [])) e

  -- If go-restful prefers literal paths, a request for /pods/NAME with JSON as its content and accepting
  -- JSON or anything reaches the route of that name: a PUT and a DELETE for every name, a GET for every
  -- name but "unassigned". GET /pods/unassigned lists the unassigned pods, also where a pod has that name.
  -- A GET and a DELETE may also name no type of content.
  pub pod_requests_reach :
      (req : Request) (name : Text) (s : S)
      → req.path ≡ pods_segment ∷ name ∷ []
      → IsServed req (mime_json ∷ []) (mime_json ∷ [])
      → (req.method ≡ put
          → serve v sp sn sr choose refusal req s
            ≡ answering pod_body (Pods.put_route v sp name req.pod_entity s))
        × (req.method ≡ delete
            → serve v sp sn sr choose refusal req s
              ≡ answering pod_body (Pods.delete_route v sp name s))
        × (req.method ≡ get
            → name ≢ unassigned_segment
            → serve v sp sn sr choose refusal req s
              ≡ answering pod_body (Pods.get_route v sp name s))
        × (req.method ≡ get
            → name ≡ unassigned_segment
            → serve v sp sn sr choose refusal req s
              ≡ answering pod_body (Pods.list_unassigned_pods sp s))
  unfolding run_endpoint candidate
  pod_requests_reach req name s p json = (
    λ m. taken req (named_pod update_pod name) s (
        ap (choose req) (chosen req name p put m ∙ put_candidates name)
        ∙ literal_first.only req (named_pod update_pod name) json),
    λ m. taken req (named_pod delete_pod name) s (
        ap (choose req) (chosen req name p delete m ∙ delete_candidates name)
        ∙ literal_first.only req (named_pod delete_pod name) json),
    λ m ne. taken req (named_pod get_pod name) s (
        ap (choose req) (chosen req name p get m ∙ get_candidates name ne)
        ∙ literal_first.only req (named_pod get_pod name) json),
    λ m e.
        let lists = candidate list_unassigned_pods none in
        taken req lists s (
          ap (choose req) (
            chosen req name p get m
            ∙ ap (λ n. candidates register_routes get (pods_segment ∷ n ∷ [])) e
            ∙ unassigned_candidates)
          ∙ literal_first.literal_first req (named_pod get_pod unassigned_segment) lists
              unassigned_segment json json refl refl),
  )

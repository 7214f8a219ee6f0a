-- ===== src/Api.antt =====
-- pkg/api/types.go, pod.go and node.go: the stored objects, what makes one valid, and which pods a
-- replica set owns.
pub mod Validation
pub mod Ownership
use gokube.Prelude.{
  ℕ, zero, suc, ℤ, pos, Text, codes, text_eq, starts_with, Bool, true, false, not, ◌&&◌, List, [],
  ◌∷◌, all,
}

-- A slice may be nil, which the tag `required` tells from an empty one.
pub data Slice (A : Type 0) : Type 0 where
  nil : Slice A
  items : List A → Slice A

abbrev pub elements : {A : Type 0} → Slice A → List A
elements nil = []
elements (items xs) = xs

-- PodStatus is a string type. `unset` is the empty string, and `other` any string that is not one of
-- the constants.
pub data PodStatus : Type 0 where
  pod_pending pod_running pod_succeeded pod_failed pod_scheduled unset : PodStatus
  other : Text → PodStatus

unfoldable pub status_eq : PodStatus → PodStatus → Bool
status_eq pod_pending pod_pending = true
status_eq pod_running pod_running = true
status_eq pod_succeeded pod_succeeded = true
status_eq pod_failed pod_failed = true
status_eq pod_scheduled pod_scheduled = true
status_eq unset unset = true
status_eq (other s) (other t) = text_eq s t
status_eq _ _ = false

pub data NodeStatus : Type 0 where
  node_not_ready node_ready node_memory_pressure node_disk_pressure no_status : NodeStatus
  other_status : Text → NodeStatus

pub record Container : Type 0 where
  pub name : Text
  pub image : Text

-- The time stamp is a number that nothing reads; 0 is the zero time.
pub record ObjectMeta : Type 0 where
  pub name : Text
  pub namespace : Text
  pub uid : Text
  pub resource_version : Text
  pub creation_timestamp : ℕ

pub record PodSpec : Type 0 where
  pub containers : Slice Container
  pub replicas : ℤ

pub record Pod : Type 0 where
  pub meta : ObjectMeta
  pub open meta use *
  pub spec : PodSpec
  pub node_name : Text
  pub status : PodStatus

pub record NodeSpec : Type 0 where
  pub unschedulable : Bool
  pub provider_id : Text

pub record Node : Type 0 where
  pub meta : ObjectMeta
  pub open meta use *
  pub spec : NodeSpec
  pub status : NodeStatus

pub record PodTemplateSpec : Type 0 where
  pub meta : ObjectMeta
  pub spec : PodSpec

-- `map[string]string` as a list of pairs; nothing reads it.
pub record ReplicaSetSpec : Type 0 where
  pub replicas : ℤ
  pub selector : List (Text × Text)
  pub template : PodTemplateSpec

pub record ReplicaSetStatus : Type 0 where
  pub replicas : ℤ
  pub fully_labeled_replicas : ℤ
  pub ready_replicas : ℤ
  pub available_replicas : ℤ

pub record ReplicaSet : Type 0 where
  pub meta : ObjectMeta
  pub open meta use *
  pub spec : ReplicaSetSpec
  pub status : ReplicaSetStatus

-- `api.ObjectMeta{Name: name}`
abbrev pub named : Text → ObjectMeta
named name = record {
  name = name;
  namespace = [];
  uid = [];
  resource_version = [];
  creation_timestamp = 0;
}

-- The checks of github.com/go-playground/validator that the tags ask for: `required` on a string, on
-- a slice, and `gte=0` on a number. `required` on a plain struct field is ignored by validator.New().
pub record Validator : Type 0 where
  pub required : Text → Bool
  pub required_slice : Slice Container → Bool
  pub gte_zero : ℤ → Bool

module _ (v : Validator) where
  valid_meta : ObjectMeta → Bool
  valid_meta m = v.required m.name

  valid_container : Container → Bool
  valid_container c = v.required c.name && v.required c.image

  -- `required,dive,required`: the slice, then the fields of each element.
  valid_containers : Slice Container → Bool
  unfolding valid_container
  valid_containers cs = v.required_slice cs && all valid_container (elements cs)

  -- Validate of Pod: `validate.Struct` walks the tags.
  unfoldable pub validate_pod : Pod → Bool
  unfolding valid_meta valid_containers
  validate_pod p =
      valid_meta p.meta && (valid_containers p.spec.containers && v.gte_zero p.spec.replicas)

  -- Validate of Node: no tag but that of the name.
  unfoldable pub validate_node : Node → Bool
  unfolding valid_meta
  validate_node n = valid_meta n.meta

unfoldable pub is_active : Pod → Bool
unfolding status_eq
is_active p = not (status_eq p.status pod_failed)

unfoldable pub is_owned_by : Pod → ObjectMeta → Bool
is_owned_by pod meta = starts_with meta.name pod.name

unfoldable pub is_pod_active_and_owned_by : Pod → ObjectMeta → Bool
unfolding is_owned_by is_active
is_pod_active_and_owned_by pod meta = is_owned_by pod meta && is_active pod

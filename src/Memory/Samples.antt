-- ===== src/Memory/Samples.antt =====
-- Objects and tables, a validator and a name generator for the examples.
use gokube.Prelude.{
  ℕ, suc, ℤ, pos, negsuc, Text, codes, Bool, true, false, ◌≡◌, ◌≢◌, refl, ◌↔◌, ◌+◌, [], ◌∷◌, ◌++◌,
  ltb_ℤ, arith, Option-cases, inl, inr,
}
use gokube.Api.{
  Slice, nil, items, Container, Pod, PodStatus, pod_pending, pod_running, unset, Node, node_ready,
  ReplicaSet, Validator, named,
}
use gokube.Api.Validation.{IsDocumented}
use gokube.Names.{NameGenerator, truncate}
use gokube.Registry.Pods.{pod_key}
use gokube.Storage.{Storage, Lawful, Neighbour, Answers, holds}
use gokube.Storage.Etcd.{etcd_storage}
use gokube.Storage.Etcd.Refinement.{etcd_lawful, slot_of, etcd_storage-Neighbour}
use gokube.Memory.Laws.{memory-IsEtcd}
use gokube.Memory.{memory, cell, pod_codec, node_codec, set_codec, Object, pod_object, Table}

abbrev nonempty : Text → Bool
nonempty [] = false
nonempty (_ ∷ _) = true

abbrev not_nil : Slice Container → Bool
not_nil nil = false
not_nil (items _) = true

abbrev not_negative : ℤ → Bool
not_negative (pos _) = true
not_negative (negsuc _) = false

abbrev pub checks : Validator
checks = record { required = nonempty; required_slice = not_nil; gte_zero = not_negative }

required_iff : (t : Text) → (nonempty t ≡ true) ↔ (t ≢ [])
required_iff [] = (λ h. ground arith, λ h. ground arith)
required_iff (c ∷ t) = (λ h e. ground arith, λ h. refl)

required_slice_iff : (cs : Slice Container) → (not_nil cs ≡ true) ↔ (cs ≢ nil)
required_slice_iff nil = (λ h. ground arith, λ h. ground arith)
required_slice_iff (items xs) = (λ h e. ground arith, λ h. refl)

gte_zero_iff : (n : ℤ) → (not_negative n ≡ true) ↔ (ltb_ℤ n (pos 0) ≡ false)
gte_zero_iff (pos n) = (λ h. ground arith, λ h. refl)
gte_zero_iff (negsuc n) = (λ h. ground arith, λ h. ground arith)

pub checks-IsDocumented : IsDocumented checks
checks-IsDocumented = record {
  required_iff = required_iff;
  required_slice_iff = required_slice_iff;
  gte_zero_iff = gte_zero_iff;
}

-- Five letters, the first of which counts.
abbrev pub letters_of : ℕ → Text
letters_of g = (98 + g) ∷ codes "cdfg"

abbrev pub counting : NameGenerator ℕ
counting = record {
  generate = λ base g. (truncate base ++ letters_of g, suc g);
  generate_suffix = λ base g. (letters_of g, refl, refl);
}

abbrev pub web_container : Container
web_container = record { name = codes "web"; image = codes "nginx" }

-- A pod of one container.
abbrev pub pod_in : PodStatus → Text → Text → Pod
pod_in status node name = record {
  meta = named name;
  spec = record { containers = items (web_container ∷ []); replicas = pos 0 };
  node_name = node;
  status = status;
}

abbrev pub web : Pod
web = pod_in unset [] (codes "web")

abbrev pub pending_web : Pod
pending_web = pod_in pod_pending [] (codes "web")

abbrev pub running_web : Pod
running_web = pod_in pod_running (codes "n1") (codes "web")

abbrev pub nameless : Pod
nameless = pod_in unset [] []

abbrev pub n1 : Node
n1 = record {
  meta = named (codes "n1");
  spec = record { unschedulable = false; provider_id = [] };
  status = node_ready;
}

abbrev pub set_named : Text → ℕ → ReplicaSet
set_named name n = record {
  meta = named name;
  spec = record {
    replicas = pos n;
    selector = [];
    template = record {
      meta = named (codes "t");
      spec = record { containers = items (web_container ∷ []); replicas = pos 0 };
    };
  };
  status = record {
    replicas = pos 0;
    fully_labeled_replicas = pos 0;
    ready_replicas = pos 0;
    available_replicas = pos 0;
  };
}

abbrev pub rs : ReplicaSet
rs = set_named (codes "rs") 2

abbrev pub at : Pod → Text × Object
at p = (pod_key p.name, pod_object p)

abbrev pub empty_table : Table
empty_table = []

abbrev pub with_running : Table
with_running = at running_web ∷ []

abbrev pub with_pending : Table
with_pending = at pending_web ∷ []

-- The stores over the etcd in memory, and what they keep.
unfoldable pub pods : Bool → Storage Table Pod
unfolding memory etcd_storage
pods down = etcd_storage (memory down) pod_codec

unfoldable pub nodes : Storage Table Node
unfolding memory etcd_storage
nodes = etcd_storage (memory false) node_codec

unfoldable pub sets : Storage Table ReplicaSet
unfolding memory etcd_storage
sets = etcd_storage (memory false) set_codec

unfoldable pub pods-Lawful : (down : Bool) → Lawful (pods down)
unfolding pods memory etcd_lawful memory-IsEtcd slot_of cell
pods-Lawful down = etcd_lawful (memory down) pod_codec (memory-IsEtcd down)

unfoldable pub nodes-Lawful : Lawful nodes
unfolding nodes memory etcd_lawful memory-IsEtcd slot_of cell
nodes-Lawful = etcd_lawful (memory false) node_codec (memory-IsEtcd false)

unfoldable pub sets-Lawful : Lawful sets
unfolding sets memory etcd_lawful memory-IsEtcd slot_of cell
sets-Lawful = etcd_lawful (memory false) set_codec (memory-IsEtcd false)

pub pod_written : (down : Bool) (p : Pod) → (pods-Lawful down).written p ≡ holds p
unfolding pods-Lawful
pod_written down p = refl

pub node_written : (n : Node) → nodes-Lawful.written n ≡ holds n
unfolding nodes-Lawful
node_written n = refl

pub sets_beside_pods : Neighbour sets (pods-Lawful false).slot
unfolding sets pods-Lawful
sets_beside_pods = etcd_storage-Neighbour (memory false) set_codec pod_codec (memory-IsEtcd false)

pub nodes_beside_pods : Neighbour nodes (pods-Lawful false).slot
unfolding nodes pods-Lawful
nodes_beside_pods = etcd_storage-Neighbour (memory false) node_codec pod_codec (memory-IsEtcd false)

pub pods_answer : Answers (pods false) (pods-Lawful false)
unfolding pods pods-Lawful
pods_answer k s = elim (Option-cases (cell s k)) [
  | inl e ↦ ground (arith, e)
  | inr (o, e) ↦ ground (arith, e)
]

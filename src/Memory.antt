-- ===== src/Memory.antt =====
-- An etcd in memory, to run the model on: the values under their keys, newest first. It never fails,
-- but for lookups of single keys when `down` is true. Objects are stored as they are.
pub mod Laws
pub mod Samples
use gokube.Prelude.{
  Text, text_eq, starts_with, Bool, true, false, List, [], ◌∷◌, ◌++◌, Option, none, some,
  if◌then◌else◌,
}
use gokube.Api.{Pod, Node, ReplicaSet}
use gokube.Storage.{Storage}
use gokube.Storage.Etcd.{Client, Codec, etcd_storage, pair_of, pairs_of}

pub data Object : Type 0 where
  pod_object : Pod → Object
  node_object : Node → Object
  set_object : ReplicaSet → Object

abbrev pub Table : Type 0
Table = List (Text × Object)

unfoldable pub cell : Table → Text → Option Object
cell [] key = none
cell ((k, o) ∷ rest) key = if text_eq k key then some o else cell rest key

unfoldable pub without : Text → Table → Table
without key [] = []
without key ((k, o) ∷ rest) =
    let others = without key rest in if text_eq key k then others else (k, o) ∷ others

unfoldable pub without_prefix : Text → Table → Table
without_prefix p [] = []
without_prefix p ((k, o) ∷ rest) =
    let others = without_prefix p rest in if starts_with p k then others else (k, o) ∷ others

unfoldable pub remove_key : Text → List Text → List Text
remove_key key [] = []
remove_key key (k ∷ ks) =
    let others = remove_key key ks in if text_eq key k then others else k ∷ others

unfoldable pub keys : Table → Text → List Text
unfolding remove_key
keys [] p = []
keys ((k, o) ∷ rest) p =
    let others = remove_key k (keys rest p) in if starts_with p k then k ∷ others else others

unfoldable pub memory : Bool → Client Object
unfolding cell without without_prefix keys pairs_of
memory down = record {
  Server = Table;
  put = λ k o s. (some tt, (k, o) ∷ without k s);
  get = λ k s. (if down then none else some (pair_of k (cell s k)), s);
  get_prefix = λ p s. (some (pairs_of (cell s) (keys s p)), s);
  delete = λ k s. (some tt, without k s);
  delete_prefix = λ p s. (some tt, without_prefix p s);
}

abbrev pub pod_of : Object → Option Pod
pod_of (pod_object p) = some p
pod_of _ = none

abbrev pub node_of : Object → Option Node
node_of (node_object n) = some n
node_of _ = none

abbrev pub set_of : Object → Option ReplicaSet
set_of (set_object rs) = some rs
set_of _ = none

abbrev pub pod_codec : Codec Object Pod
pod_codec = record { encode = λ p. some (pod_object p); decode = pod_of }

abbrev pub node_codec : Codec Object Node
node_codec = record { encode = λ n. some (node_object n); decode = node_of }

abbrev pub set_codec : Codec Object ReplicaSet
set_codec = record { encode = λ rs. some (set_object rs); decode = set_of }

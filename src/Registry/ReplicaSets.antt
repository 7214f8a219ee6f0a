-- ===== src/Registry/ReplicaSets.antt =====
-- pkg/registry/replicaset_registry.go. A method runs to its end before another one starts.
pub mod Laws
mod Examples
use gokube.Prelude.{Text, codes, List, ◌++◌}
use gokube.Exec.{
  Exec, Error, Result, ok, err, pure, raise, attempt, ◌>>=◌, ◌>>◌, replace_error,
  replica_set_exists, replica_set_not_found, list_replica_sets,
}
use gokube.Api.{ReplicaSet}
use gokube.Storage.{Storage}

abbrev pub replica_set_prefix : Text
replica_set_prefix = codes "/replicasets"

abbrev pub replica_set_key : Text → Text
replica_set_key name = replica_set_prefix ++ codes "/" ++ name

module _ {S : Type 0} (st : Storage S ReplicaSet) where
  create_if_missing : Result ReplicaSet → Text → ReplicaSet → Exec S (Unit {0})
  create_if_missing (ok _) key rs = raise replica_set_exists
  create_if_missing (err _) key rs = st.create key rs

  unfoldable pub create : ReplicaSet → Exec S (Unit {0})
  unfolding create_if_missing
  create rs = do
    existing ← attempt (st.get (replica_set_key rs.name))
    create_if_missing existing (replica_set_key rs.name) rs

  unfoldable pub get : Text → Exec S ReplicaSet
  get name s = replace_error replica_set_not_found (st.get (replica_set_key name) s)

  update_if_found : Result ReplicaSet → Text → ReplicaSet → Exec S (Unit {0})
  update_if_found (ok _) key rs = st.update key rs
  update_if_found (err _) key rs = raise replica_set_not_found

  unfoldable pub update : ReplicaSet → Exec S (Unit {0})
  unfolding update_if_found
  update rs = do
    existing ← attempt (st.get (replica_set_key rs.name))
    update_if_found existing (replica_set_key rs.name) rs

  unfoldable pub delete : Text → Exec S (Unit {0})
  delete name = st.delete (replica_set_key name)

  unfoldable pub list : Exec S (List ReplicaSet)
  list s = replace_error list_replica_sets (st.list replica_set_prefix s)

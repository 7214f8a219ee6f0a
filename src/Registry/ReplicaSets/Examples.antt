-- ===== src/Registry/ReplicaSets/Examples.antt =====
-- The registry of replica sets over an etcd in memory.
use gokube.Prelude.{◌≡◌, refl, [], ◌∷◌, text_eq}
use gokube.Exec.{ok}
use gokube.Memory.{Table, memory, cell, set_object}
use gokube.Memory.Samples.{rs, sets}
use gokube.Registry.ReplicaSets.{replica_set_key, update}

abbrev with_set : Table
with_set = (replica_set_key rs.name, set_object rs) ∷ []

set_updated : (update sets rs with_set).0 ≡ ok tt
unfolding update sets memory cell text_eq
set_updated = refl

-- ===== src/Handlers/ReplicaSets/Examples.antt =====
-- Requests for replica sets over an etcd in memory.
use gokube.Prelude.{codes, ◌≡◌, ◌⊎◌, [], ◌∷◌}
use gokube.Api.{ReplicaSet}
use gokube.Storage.{holds}
use gokube.Memory.{Table, set_object}
use gokube.Memory.Samples.{rs, sets, sets-Lawful}
use gokube.Registry.ReplicaSets.{replica_set_key}
use gokube.Handlers.{error_write, entity_write}
use gokube.Handlers.ReplicaSets.{one, get_route}
use gokube.Handlers.ReplicaSets.Laws.{get_route_answers}

abbrev with_rs : Table
with_rs = (replica_set_key rs.name, set_object rs) ∷ []

get_route_answers_example :
    ((found : ReplicaSet) × (sets-Lawful.slot with_rs (replica_set_key (codes "rs")) ≡ holds found)
      × ((get_route sets (codes "rs") with_rs).0 ≡ entity_write 200 (one found) ∷ []))
    ⊎ ((get_route sets (codes "rs") with_rs).0 ≡ error_write 404 ∷ [])
get_route_answers_example = get_route_answers sets sets-Lawful (codes "rs") with_rs

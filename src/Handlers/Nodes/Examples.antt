-- ===== src/Handlers/Nodes/Examples.antt =====
-- Requests for nodes over an etcd in memory.
use gokube.Prelude.{codes, ◌≡◌, refl, [], ◌∷◌, some, text_eq}
use gokube.Api.{validate_node}
use gokube.Memory.{Table, memory, cell, node_object}
use gokube.Memory.Samples.{checks, n1, nodes}
use gokube.Registry.Nodes
use gokube.Registry.Nodes.{node_key}
use gokube.Registry.PathJoin.{split, resolve, enter}
use gokube.Handlers.{entity_write}
use gokube.Handlers.Nodes.{one, put_route}

abbrev with_n1 : Table
with_n1 = (codes "/registry/nodes/n1", node_object n1) ∷ []

node_put :
    (put_route checks nodes (codes "n1") (some n1) with_n1).0 ≡ entity_write 200 (one n1) ∷ []
unfolding put_route Nodes.get_node Nodes.update_node nodes memory cell text_eq validate_node
    node_key split resolve enter
node_put = refl

-- ===== src/Registry/Nodes/Examples.antt =====
-- The node registry over an etcd in memory.
use gokube.Prelude.{codes, ◌≡◌, ◌++◌, arith}
use gokube.Registry.Pods.{pod_key}
use gokube.Registry.PathJoin.{IsPlain}
use gokube.Registry.Nodes.{node_key}
use gokube.Registry.Nodes.Keys.{node_key_escapes}

n1-IsPlain : IsPlain (codes "n1")
n1-IsPlain = record {
  no_slash = (λ e. ground arith, (λ e. ground arith, tt));
  some_byte = λ e. ground arith;
  not_dot = λ e. ground arith;
  not_dots = λ e. ground arith;
}

node_key_escapes_example : node_key (codes "../../pods/" ++ codes "n1") ≡ pod_key (codes "n1")
node_key_escapes_example = node_key_escapes (codes "n1") n1-IsPlain

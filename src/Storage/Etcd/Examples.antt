-- ===== src/Storage/Etcd/Examples.antt =====
-- EtcdStorage over the etcd in memory.
use gokube.Prelude.{Text, false, ◌≡◌}
use gokube.Api.{Pod}
use gokube.Storage.{Lawful}
use gokube.Storage.Etcd.{etcd_storage}
use gokube.Storage.Etcd.Refinement.{slot_of, etcd_storage-Lawful}
use gokube.Memory.{memory, pod_codec}
use gokube.Memory.Laws.{memory-IsEtcd}

etcd_storage-Lawful_example :
    (l : Lawful (etcd_storage (memory false) pod_codec)) × ((s : (memory false).Server) (k : Text)
      → l.slot s k ≡ slot_of pod_codec ((memory-IsEtcd false).cell s k))
    × ((a : Pod) → l.written a ≡ slot_of pod_codec (pod_codec.encode a))
etcd_storage-Lawful_example = etcd_storage-Lawful (memory false) pod_codec (memory-IsEtcd false)

-- ===== src/EmbeddedEtcd/Examples.antt =====
-- A host with one data directory, on which the server starts but its client does not.
use gokube.Prelude.{codes, Text, true, false, some, [], ◌∷◌, refl, arith}
use gokube.EmbeddedEtcd.{Host, Machine, run_api_server}
use gokube.EmbeddedEtcd.Cleanup.{Left, run_api_server-Left}

abbrev dir : Text
dir = codes "/tmp/2"

abbrev machine : Machine
machine = record {
  make_temp = some dir;
  absolute = λ path. some path;
  listen_peer = some 40000;
  listen_client = some 40001;
  closes = λ port. true;
  starts = λ e. true;
  ready = λ e. true;
}

abbrev host : Host
host = record { dirs = codes "/tmp/1" ∷ []; servers = [] }

run_api_server-Left_example :
    Left machine host dir (run_api_server machine 0 2379 (λ port. false) true host)
run_api_server-Left_example =
    run_api_server-Left machine host dir 0 2379 (λ port. false) true refl refl
      (λ e. ground arith, tt) tt

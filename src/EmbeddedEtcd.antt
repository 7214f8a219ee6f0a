-- ===== src/EmbeddedEtcd.antt =====
-- pkg/storage/etcd.go: the etcd server that the API server runs in its own process, with its ports and
-- its data directory, and cmd/apiserver/apiserver.go: runAPIServer, which starts and stops it. What the
-- operating system and etcd's embed package answer is a parameter.
pub mod Cleanup
mod Examples
use gokube.Prelude.{
  ℕ, zero, suc, Text, text_eq, Bool, true, false, not, List, [], ◌∷◌, select, Option, none, some,
  if◌then◌else◌,
}

-- embed.Etcd: its data directory and its ports. Its server runs until Server.Stop; its listeners are
-- there until Close.
pub record Server : Type 0 where
  pub dir : Text
  pub peer_port : ℕ
  pub client_port : ℕ
  pub running : Bool

-- The directories that createTempDir made, none inside another, and the servers with open listeners.
pub record Host : Type 0 where
  pub dirs : List Text
  pub servers : List Server

pub record Machine : Type 0 where
  -- os.MkdirTemp and filepath.Abs
  pub make_temp : Option Text
  pub absolute : Text → Option Text
  -- net.Listen on port 0, for the peer and for the client, and whether the listener closes
  pub listen_peer : Option ℕ
  pub listen_client : Option ℕ
  pub closes : ℕ → Bool
  -- embed.StartEtcd, and whether the server is ready within ten seconds
  pub starts : Server → Bool
  pub ready : Server → Bool

unfoldable pub create_temp_dir : Machine → Host → Option Text × Host
create_temp_dir m h = elim m.make_temp [
  | none ↦ (none, h)
  | some dir ↦ (m.absolute dir, record h { dirs = dir ∷ h.dirs })
]

-- PickAvailableRandomPort, with the answer of net.Listen.
unfoldable pub pick_available_random_port : Machine → Option ℕ → Option ℕ
pick_available_random_port m none = none
pick_available_random_port m (some port) = if m.closes port then some port else none

abbrev pub port_or_random : Machine → Option ℕ → ℕ → Option ℕ
port_or_random m listened zero = pick_available_random_port m listened
port_or_random m listened (suc port) = some (suc port)

-- embed.StartEtcd and the wait for the server; a server that takes too long is stopped, not closed.
unfoldable pub start_etcd : Machine → Server → Host → Option (Server × ℕ) × Host
start_etcd m e h =
    if not (m.starts e)
    then (none, h)
    else if m.ready e
    then (some (e, e.client_port), record h { servers = e ∷ h.servers })
    else (none, record h { servers = record e { running = false } ∷ h.servers })

abbrev pub start_on : Machine → Text → Option ℕ → Option ℕ → Host → Option (Server × ℕ) × Host
start_on m dir none client h = (none, h)
start_on m dir (some peer) none h = (none, h)
start_on m dir (some peer) (some client) h =
    start_etcd m (record { dir = dir; peer_port = peer; client_port = client; running = true }) h

abbrev pub start_in : Machine → ℕ → ℕ → Option Text × Host → Option (Server × ℕ) × Host
start_in m peer_port client_port (none, h) = (none, h)
start_in m peer_port client_port (some dir, h) =
    start_on m dir (port_or_random m m.listen_peer peer_port)
      (port_or_random m m.listen_client client_port) h

unfoldable pub start_embedded_etcd_with_port : Machine → ℕ → ℕ → Host → Option (Server × ℕ) × Host
start_embedded_etcd_with_port m peer_port client_port h =
    start_in m peer_port client_port (create_temp_dir m h)

unfoldable pub start_embedded_etcd : Machine → Host → Option (Server × ℕ) × Host
start_embedded_etcd m h = start_embedded_etcd_with_port m 0 0 h

-- Close, and os.RemoveAll of the data directory.
unfoldable pub stop_embedded_etcd : Server → Host → Host
stop_embedded_etcd e h = record {
  dirs = select (λ dir. not (text_eq e.dir dir)) h.dirs;
  servers = select (λ other. not (text_eq e.dir other.dir)) h.servers;
}

-- How runAPIServer ends: an error of StartEmbeddedEtcdWithPort or of clientv3.New, the end of the HTTP
-- server, or a signal.
pub data ExitReason : Type 0 where
  etcd_failed client_failed server_ended signalled : ExitReason

-- The select over the end of the HTTP server and a signal.
abbrev pub await_end : Bool → Server → Host → ExitReason × Host
await_end ends e h = (if ends then server_ended else signalled, stop_embedded_etcd e h)

abbrev pub with_client : (ℕ → Bool) → Bool → Option (Server × ℕ) × Host → ExitReason × Host
with_client dials ends (none, h) = (etcd_failed, h)
with_client dials ends (some (e, port), h) =
    if dials port then await_end ends e h else (client_failed, h)

-- runAPIServer: `dials` is clientv3.New, and `ends` whether the HTTP server ends before a signal.
unfoldable pub run_api_server : Machine → ℕ → ℕ → (ℕ → Bool) → Bool → Host → ExitReason × Host
run_api_server m peer_port client_port dials ends h =
    with_client dials ends (start_embedded_etcd_with_port m peer_port client_port h)

-- ===== src/EmbeddedEtcd/Cleanup.antt =====
-- What a run of the API server leaves of its embedded etcd.
use gokube.Prelude.{
  ℕ, Text, text_eq, text_eq_refl, text_eq_ne, Bool, true, false, not, List, [], ◌∷◌, select, Option,
  none, some, if◌then◌else◌, if_keeps, All, ◌≡◌, ◌≢◌, refl, sym, ap, ◌∙◌, arith, subst,
}
use gokube.EmbeddedEtcd.{
  Server, Host, Machine, create_temp_dir, port_or_random, start_etcd, start_on, start_in,
  start_embedded_etcd_with_port, stop_embedded_etcd, ExitReason, etcd_failed, client_failed,
  server_ended, signalled, await_end, with_client, run_api_server,
}

module _ {A : Type 0} (dir_of : A → Text) where
  others_stay :
      (dir : Text) (xs : List A)
      → All (λ x. dir ≢ dir_of x) xs
      → select (λ x. not (text_eq dir (dir_of x))) xs ≡ xs
  unfolding select
  others_stay dir [] h = refl
  others_stay dir (x ∷ xs) h =
      ap
        (λ (b : Bool).
          let rest = select (λ x. not (text_eq dir (dir_of x))) xs in
          if not b then x ∷ rest else rest)
        (text_eq_ne dir (dir_of x) h.0)
      ∙ ap (λ (ys : List A). x ∷ ys) (others_stay dir xs h.1)

  first_goes :
      (x : A) (xs : List A)
      → All (λ y. dir_of x ≢ dir_of y) xs
      → select (λ y. not (text_eq (dir_of x) (dir_of y))) (x ∷ xs) ≡ xs
  unfolding select
  first_goes x xs h =
      ap
        (λ (b : Bool).
          let rest = select (λ y. not (text_eq (dir_of x) (dir_of y))) xs in
          if not b then x ∷ rest else rest)
        (text_eq_refl (dir_of x))
      ∙ others_stay (dir_of x) xs h

-- What a call of StartEmbeddedEtcdWithPort makes of a host on which it creates `dir`.
abbrev pub Started : Host → Text → Option (Server × ℕ) × Host → Type 0
Started h dir (none, t) = t.dirs ≡ dir ∷ h.dirs
Started h dir (some (e, port), t) =
    (t ≡ record { dirs = dir ∷ h.dirs; servers = e ∷ h.servers })
    × (e.dir ≡ dir)
    × (e.running ≡ true)
    × (e.client_port ≡ port)

module _ (m : Machine) (h : Host) (dir : Text) where
  abbrev with_dir : Host
  with_dir = record h { dirs = dir ∷ h.dirs }

  start_etcd-Started :
      (e : Server) → e.dir ≡ dir → e.running ≡ true → Started h dir (start_etcd m e with_dir)
  unfolding start_etcd
  start_etcd-Started e same up =
      if_keeps (Started h dir) (not (m.starts e)) (none, with_dir)
        (if m.ready e
          then (some (e, e.client_port), record with_dir { servers = e ∷ h.servers })
          else (none, record with_dir { servers = record e { running = false } ∷ h.servers }))
        (λ x. refl)
        (λ x.
          if_keeps (Started h dir) (m.ready e)
            (some (e, e.client_port), record with_dir { servers = e ∷ h.servers })
            (none, record with_dir { servers = record e { running = false } ∷ h.servers })
            (λ x. (refl, same, up, refl)) (λ x. refl))

  start_on-Started : (peer client : Option ℕ) → Started h dir (start_on m dir peer client with_dir)
  start_on-Started none client = refl
  start_on-Started (some peer) none = refl
  start_on-Started (some peer) (some client) =
      start_etcd-Started
        (record { dir = dir; peer_port = peer; client_port = client; running = true }) refl refl

  made_dir :
      m.make_temp ≡ some dir
      → m.absolute dir ≡ some dir
      → create_temp_dir m h ≡ (some dir, with_dir)
  unfolding create_temp_dir
  made_dir made whole = ground (arith, made, whole)

  pub start-Started :
      (peer_port client_port : ℕ)
      → m.make_temp ≡ some dir
      → m.absolute dir ≡ some dir
      → Started h dir (start_embedded_etcd_with_port m peer_port client_port h)
  unfolding start_embedded_etcd_with_port
  start-Started peer_port client_port made whole =
      subst (λ r. Started h dir (start_in m peer_port client_port r)) (sym (made_dir made whole))
        (start_on-Started (port_or_random m m.listen_peer peer_port)
          (port_or_random m m.listen_client client_port))

  -- What is left of the embedded etcd of a run of the API server that created `dir`.
  abbrev pub Left : ExitReason × Host → Type 0
  Left (etcd_failed, t) = t.dirs ≡ dir ∷ h.dirs
  Left (client_failed, t) =
      (t.dirs ≡ dir ∷ h.dirs) × ((e : Server) × (t.servers ≡ e ∷ h.servers) × (e.running ≡ true))
  Left (server_ended, t) = t ≡ h
  Left (signalled, t) = t ≡ h

  stopped :
      (e : Server)
      → e.dir ≡ dir
      → All (λ other. dir ≢ other) h.dirs
      → All (λ other. dir ≢ other.dir) h.servers
      → stop_embedded_etcd e (record { dirs = dir ∷ h.dirs; servers = e ∷ h.servers }) ≡ h
  unfolding stop_embedded_etcd
  stopped e same fresh apart =
      let kept = select (λ (other : Server). not (text_eq e.dir other.dir)) (e ∷ h.servers) in
      ap
        (λ (d : Text). record {
          dirs = select (λ other. not (text_eq d other)) (dir ∷ h.dirs);
          servers = kept;
        })
        same
      ∙ ap (λ (ds : List Text). record { dirs = ds; servers = kept })
          (first_goes (λ d. d) dir h.dirs fresh)
      ∙ ap (λ (es : List Server). record { dirs = h.dirs; servers = es })
          (first_goes (λ (e : Server). e.dir) e h.servers
            (subst (λ d. All (λ (other : Server). d ≢ other.dir) h.servers) (sym same) apart))

  served :
      (dials : ℕ → Bool) (ends : Bool) (r : Option (Server × ℕ) × Host)
      → All (λ other. dir ≢ other) h.dirs
      → All (λ other. dir ≢ other.dir) h.servers
      → Started h dir r
      → Left (with_client dials ends r)
  served dials ends (none, t) fresh apart x = x
  served dials ends (some (e, port), t) fresh apart (same, named, up, given) =
      if_keeps Left (dials port) (await_end ends e t) (client_failed, t)
        (λ d.
          if_keeps (λ x. Left (x, stop_embedded_etcd e t)) ends server_ended signalled
            (λ x. ap (stop_embedded_etcd e) same ∙ stopped e named fresh apart)
            (λ x. ap (stop_embedded_etcd e) same ∙ stopped e named fresh apart))
        (λ d. (ap (λ (t : Host). t.dirs) same, (e, ap (λ (t : Host). t.servers) same, up)))

  -- A run of the API server creates `dir`, which no directory or server of the host has, under a path
  -- that is absolute. If the HTTP server ends or a signal comes, the host is as it was. If etcd fails to
  -- start, the directory is left; if its client fails, the directory and a running server are.
  pub run_api_server-Left :
      (peer_port client_port : ℕ) (dials : ℕ → Bool) (ends : Bool)
      → m.make_temp ≡ some dir
      → m.absolute dir ≡ some dir
      → All (λ other. dir ≢ other) h.dirs
      → All (λ other. dir ≢ other.dir) h.servers
      → Left (run_api_server m peer_port client_port dials ends h)
  unfolding run_api_server
  run_api_server-Left peer_port client_port dials ends made whole fresh apart =
      served dials ends (start_embedded_etcd_with_port m peer_port client_port h) fresh apart
        (start-Started peer_port client_port made whole)

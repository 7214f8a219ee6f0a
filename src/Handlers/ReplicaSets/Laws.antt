-- ===== src/Handlers/ReplicaSets/Laws.antt =====
-- What a client of the replica set routes sees.
use gokube.Prelude.{
  Text, text_eq, text_eq_iff, ◌≡◌, ◌⊎◌, inl, inr, [], ◌∷◌, arith, some, if◌then◌else◌,
}
use gokube.Exec.{Result-cases}
use gokube.Api.{ReplicaSet}
use gokube.Storage.{Storage, Lawful, holds}
use gokube.Registry.ReplicaSets
use gokube.Registry.ReplicaSets.{replica_set_key}
use gokube.Handlers.{error_write, entity_write}
use gokube.Handlers.ReplicaSets.{one, get_route, put_route}

module _ {S : Type 0} (st : Storage S ReplicaSet) (l : Lawful st) where
  -- A GET that does not find a set answers 404, also where the store fails or the bytes do not decode;
  -- it never answers 500.
  pub get_route_answers :
      (name : Text) (s : S)
      → ((rs : ReplicaSet) × (l.slot s (replica_set_key name) ≡ holds rs)
          × ((get_route st name s).0 ≡ entity_write 200 (one rs) ∷ []))
        ⊎ ((get_route st name s).0 ≡ error_write 404 ∷ [])
  unfolding get_route ReplicaSets.get
  get_route_answers name s = elim (Result-cases (st.get (replica_set_key name) s).0) [
    | inr (x, e) ↦ inr (ground arith)
    | inl (rs, e) ↦ inl (rs, ground (arith, l.get_reply (replica_set_key name) s), ground arith)
  ]

  -- PUT answers 200 only if a set stood under the name of the body when it was written; the slot then
  -- holds the body, and every other slot is as it was.
  pub put_set_ok :
      (name : Text) (rs shown : ReplicaSet) (s : S) (j : Text)
      → (put_route st name (some rs) s).0 ≡ entity_write 200 (one shown) ∷ []
      → (shown ≡ rs)
        × ((old : ReplicaSet) × (l.slot s (replica_set_key name) ≡ holds old)
            × (old.name ≡ rs.name))
        × (l.slot (put_route st name (some rs) s).1 j
            ≡ (if text_eq (replica_set_key rs.name) j then l.written rs else l.slot s j))
  unfolding put_route ReplicaSets.get ReplicaSets.update
  put_set_ok name rs shown s j h = elim (Result-cases (st.get (replica_set_key name) s).0) [
    | inr (x, e) ↦ absurd (ground arith)
    | inl (old, e) ↦
        let s₁ = (st.get (replica_set_key name) s).1 in
        let s₂ = (st.get (replica_set_key rs.name) s₁).1 in
        (
          ground arith,
          (
            old,
            ground (arith, l.get_reply (replica_set_key name) s),
            ground (arith, text_eq_iff old.name rs.name),
          ),
          ground (
            arith,
            l.update_ok (replica_set_key rs.name) rs s₂ (ground arith) j,
            l.get_keeps (replica_set_key rs.name) s₁ j,
            l.get_keeps (replica_set_key name) s j,
          ),
        )
  ]

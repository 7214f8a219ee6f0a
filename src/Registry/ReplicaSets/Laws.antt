-- ===== src/Registry/ReplicaSets/Laws.antt =====
-- What the registry of replica sets promises.
use gokube.Prelude.{
  Text, text_eq, text_eq_refl, starts_with, ◌≡◌, ◌≢◌, ◌↔◌, ◌⊎◌, inl, inr, List, Elem, true, arith,
  if◌then◌else◌,
}
use gokube.Exec.{
  Result, ok, err, Result-cases, etcd_client, replica_set_exists, replica_set_not_found,
}
use gokube.Api.{ReplicaSet}
use gokube.Storage.{Storage, Lawful, Slot, absent, garbled, holds, read_all}
use gokube.Storage.Reading.{Elem-read_all, Elem-of_read_all}
use gokube.Registry.ReplicaSets.{replica_set_key, replica_set_prefix, create, get, update, list}

-- What Get answers for a slot.
abbrev pub found : Slot ReplicaSet → Result ReplicaSet
found absent = err replica_set_not_found
found garbled = err replica_set_not_found
found (holds rs) = ok rs

module _ {S : Type 0} (st : Storage S ReplicaSet) (l : Lawful st) where
  abbrev pub looked_up : ReplicaSet → S → S
  looked_up rs s = (st.get (replica_set_key rs.name) s).1

  -- Get answers by the slot of its key; whatever goes wrong, in the slot or in the store, is
  -- ErrReplicaSetNotFound.
  pub get-slot :
      (name : Text) (s : S)
      → ((get st name s).0 ≡ err replica_set_not_found)
        ⊎ ((get st name s).0 ≡ found (l.slot s (replica_set_key name)))
  unfolding get
  get-slot name s = ground (arith, l.get_reply (replica_set_key name) s)

  slot_of_get :
      (rs : ReplicaSet) (s : S)
      → (update st rs s).0 ≡ ok tt
      → (old : ReplicaSet) × (l.slot s (replica_set_key rs.name) ≡ holds old)
  unfolding update
  slot_of_get rs s h = elim (Result-cases (st.get (replica_set_key rs.name) s).0) [
    | inl (old, e) ↦ (old, ground (arith, l.get_reply (replica_set_key rs.name) s))
    | inr (x, e) ↦ absurd (ground arith)
  ]

  -- A set that Create has stored is what Get returns under its name, unless the store fails; every
  -- other slot is as it was.
  pub get-create :
      (rs : ReplicaSet) (s : S) (j : Text)
      → l.written rs ≡ holds rs
      → (create st rs s).0 ≡ ok tt
      → (((get st rs.name (create st rs s).1).0 ≡ err replica_set_not_found)
          ⊎ ((get st rs.name (create st rs s).1).0 ≡ ok rs))
        × (l.slot (create st rs s).1 j
            ≡ (if text_eq (replica_set_key rs.name) j then holds rs else l.slot s j))
  unfolding create get
  get-create rs s j w h = (
    ground (
      arith,
      l.create_ok (replica_set_key rs.name) rs (looked_up rs s) (ground arith)
          (replica_set_key rs.name),
      text_eq_refl (replica_set_key rs.name),
      l.get_reply (replica_set_key rs.name)
          (st.create (replica_set_key rs.name) rs (looked_up rs s)).1,
    ),
    ground (
      arith,
      l.create_ok (replica_set_key rs.name) rs (looked_up rs s) (ground arith) j,
      l.get_keeps (replica_set_key rs.name) s j,
    ),
  )

  -- A name that is taken, if the store answers the lookup, is refused, and no slot changes.
  pub create_taken :
      (rs old : ReplicaSet) (s : S) (j : Text)
      → l.slot s (replica_set_key rs.name) ≡ holds old
      → (st.get (replica_set_key rs.name) s).0 ≢ err etcd_client
      → ((create st rs s).0 ≡ err replica_set_exists) × (l.slot (create st rs s).1 j ≡ l.slot s j)
  unfolding create
  create_taken rs old s j taken answered = (
    ground (arith, l.get_reply (replica_set_key rs.name) s),
    ground
        (arith, l.get_reply (replica_set_key rs.name) s, l.get_keeps (replica_set_key rs.name) s j),
  )

  -- An Update that succeeds has found a set under the name; its slot is then what writing the new
  -- set leaves, and every other slot is as it was.
  pub update-slot :
      (rs : ReplicaSet) (s : S) (j : Text)
      → (update st rs s).0 ≡ ok tt
      → ((old : ReplicaSet) × (l.slot s (replica_set_key rs.name) ≡ holds old))
        × (l.slot (update st rs s).1 j
            ≡ (if text_eq (replica_set_key rs.name) j then l.written rs else l.slot s j))
  unfolding update
  update-slot rs s j h = (
    slot_of_get rs s h,
    ground (
      arith,
      l.update_ok (replica_set_key rs.name) rs (looked_up rs s) (ground arith) j,
      l.get_keeps (replica_set_key rs.name) s j,
    ),
  )

  -- On a free name Update fails with ErrReplicaSetNotFound and changes no slot.
  pub update_missing :
      (rs : ReplicaSet) (s : S) (j : Text)
      → l.slot s (replica_set_key rs.name) ≡ absent
      → ((update st rs s).0 ≡ err replica_set_not_found)
        × (l.slot (update st rs s).1 j ≡ l.slot s j)
  unfolding update
  update_missing rs s j free = (
    ground (arith, l.get_reply (replica_set_key rs.name) s),
    ground
        (arith, l.get_reply (replica_set_key rs.name) s, l.get_keeps (replica_set_key rs.name) s j),
  )

  -- List returns the stored sets and no other.
  pub list_iff :
      (s : S) (sets : List ReplicaSet) (rs : ReplicaSet)
      → (list st s).0 ≡ ok sets
      → Elem rs sets
        ↔ ((k : Text) × (starts_with replica_set_prefix k ≡ true) × (l.slot s k ≡ holds rs))
  unfolding list
  list_iff s sets rs h =
      let ks = l.keys s replica_set_prefix in
      let listed : read_all (l.slot s) ks ≡ ok sets =
        ground (arith, l.list_reply replica_set_prefix s) in
      (
        λ m.
            let (k, mk, e) = Elem-of_read_all (l.slot s) ks sets rs listed m in
            (k, ((l.keys_iff replica_set_prefix s k).0 mk).0, e),
        λ x.
            Elem-read_all (l.slot s) ks sets x.0 rs listed
              ((l.keys_iff replica_set_prefix s x.0).1 (x.1, λ gone. cc)) x.2,
      )

-- ===== src/Storage/Etcd/Refinement.antt =====
-- EtcdStorage keeps the promises of the interface: seen through the coding, etcd's map is a store of
-- slots, and the refinement theorem fills `Lawful`.
use gokube.Prelude.{
  Text, text_eq, text_eq_iff, starts_with, ◌≡◌, ◌≢◌, refl, sym, ap, ◌↔◌, ◌⊎◌, inl, inr, true, List,
  [], ◌∷◌, ◌++◌, Option, none, some, Elem, if◌then◌else◌, arith, Option-cases,
}
use mathlib.Core.List.{append-nil, append_assoc}
use gokube.Exec.{Result, ok, err, etcd_client}
use gokube.Storage.{Slot, absent, garbled, holds, read, read_all, push, Lawful, Neighbour}
use gokube.Storage.Etcd.{
  Client, Codec, IsEtcd, pairs_of, put_encoded, get, delete, delete_prefix, list, decode_all,
  etcd_storage,
}

module _ {Raw A : Type 0} (codec : Codec Raw A) where
  unfoldable pub decoded : Option A → Slot A
  decoded none = garbled
  decoded (some a) = holds a

  unfoldable pub slot_of : Option Raw → Slot A
  unfolding decoded
  slot_of none = absent
  slot_of (some raw) = decoded (codec.decode raw)

-- The loop of List collects what the slots of the listed keys hold.
module _ {Raw A : Type 0} (c : Client Raw) (codec : Codec Raw A) where
  prepend : List A → Result (List A) → Result (List A)
  prepend acc (ok rest) = ok (acc ++ rest)
  prepend acc (err x) = err x

  prepend-push :
      (acc : List A) (a : A) (r : Result (List A))
      → prepend (acc ++ a ∷ []) r ≡ prepend acc (push a r)
  unfolding prepend
  prepend-push acc a (ok rest) = ap ok (append_assoc acc (a ∷ []) rest)
  prepend-push acc a (err x) = refl

  decode_all-read_all :
      (acc : List A) (cell : Text → Option Raw) (ks : List Text)
      → decode_all c codec acc (pairs_of cell ks)
        ≡ prepend acc (read_all (λ k. slot_of codec (cell k)) ks)
  unfolding decode_all pairs_of read_all slot_of decoded prepend
  decode_all-read_all acc cell [] = ap ok (sym (append-nil acc))
  decode_all-read_all acc cell (k ∷ ks) = elim (Option-cases (cell k)) [
    | inl gone ↦ ground (arith, decode_all-read_all acc cell ks)
    | inr (raw, here) ↦ elim (Option-cases (codec.decode raw)) [
      | inl bad ↦ ground arith
      | inr (a, good) ↦ ground (
        arith,
        decode_all-read_all (acc ++ a ∷ []) cell ks,
        prepend-push acc a (read_all (λ j. slot_of codec (cell j)) ks),
      )
    ]
  ]

  prepend-nil : (r : Result (List A)) → prepend [] r ≡ r
  unfolding prepend
  prepend-nil (ok rest) = refl
  prepend-nil (err x) = refl

module _ {Raw A : Type 0} (c : Client Raw) (codec : Codec Raw A) (e : IsEtcd c) where
  abbrev pub view : c.Server → Text → Slot A
  view s k = slot_of codec (e.cell s k)

  abbrev pub encoded : A → Slot A
  encoded a = slot_of codec (codec.encode a)

  pub put_encoded_ok :
      (k : Text) (o : Option Raw) (s : c.Server)
      → (put_encoded c codec k o s).0 ≡ ok tt
      → (j : Text)
      → view (put_encoded c codec k o s).1 j ≡ (if text_eq k j then slot_of codec o else view s j)
  unfolding put_encoded
  put_encoded_ok k none s h j = cc
  put_encoded_ok k (some r) s h j = ground (arith, e.put_ok k r s, e.put_ok k r s (ground arith) j)

  pub put_encoded_slot :
      (k : Text) (o : Option Raw) (s : c.Server) (j : Text)
      → (view (put_encoded c codec k o s).1 j ≡ view s j)
        ⊎ (view (put_encoded c codec k o s).1 j
            ≡ (if text_eq k j then slot_of codec o else view s j))
  unfolding put_encoded
  put_encoded_slot k none s j = inl refl
  put_encoded_slot k (some r) s j = ground (arith, e.put_cell k r s j)

  pub get_slot :
      (k : Text) (s : c.Server)
      → ((get c codec k s).0 ≡ err etcd_client) ⊎ ((get c codec k s).0 ≡ read (view s k))
  unfolding get slot_of decoded
  get_slot k s = ground (arith, e.get_reply k s)

  pub get_keeps : (k : Text) (s : c.Server) (j : Text) → view (get c codec k s).1 j ≡ view s j
  unfolding get
  get_keeps k s j = ground (arith, e.get_keeps k s j)

  pub delete_ok :
      (k : Text) (s : c.Server)
      → (delete c codec k s).0 ≡ ok tt
      → (j : Text) → view (delete c codec k s).1 j ≡ (if text_eq k j then absent else view s j)
  unfolding delete slot_of
  delete_ok k s h j = ground (arith, e.delete_ok k s (ground arith) j)

  pub delete_slot :
      (k : Text) (s : c.Server) (j : Text)
      → (view (delete c codec k s).1 j ≡ view s j)
        ⊎ (view (delete c codec k s).1 j ≡ (if text_eq k j then absent else view s j))
  unfolding delete slot_of
  delete_slot k s j = ground (arith, e.delete_cell k s j)

  pub delete_prefix_ok :
      (p : Text) (s : c.Server)
      → (delete_prefix c codec p s).0 ≡ ok tt
      → (j : Text)
      → view (delete_prefix c codec p s).1 j ≡ (if starts_with p j then absent else view s j)
  unfolding delete_prefix slot_of
  delete_prefix_ok p s h j = ground (arith, e.delete_prefix_ok p s (ground arith) j)

  pub list_reply :
      (p : Text) (s : c.Server)
      → ((list c codec p s).0 ≡ err etcd_client)
        ⊎ ((list c codec p s).0 ≡ read_all (view s) (e.keys s p))
  unfolding list
  list_reply p s = ground (
    arith,
    e.prefix_reply p s,
    decode_all-read_all c codec [] (e.cell s) (e.keys s p),
    prepend-nil c codec (read_all (view s) (e.keys s p)),
  )

  pub list_keeps : (p : Text) (s : c.Server) (j : Text) → view (list c codec p s).1 j ≡ view s j
  unfolding list
  list_keeps p s j = ground (arith, e.prefix_keeps p s j)

  slot_of-ne-absent : (o : Option Raw) → slot_of codec o ≢ absent → (r : Raw) × (o ≡ some r)
  unfolding slot_of
  slot_of-ne-absent none h = absurd (h refl)
  slot_of-ne-absent (some r) h = (r, refl)

  slot_of-some : (o : Option Raw) (r : Raw) → o ≡ some r → slot_of codec o ≢ absent
  unfolding slot_of decoded
  slot_of-some o r h x = ground arith

  pub keys_iff :
      (p : Text) (s : c.Server) (k : Text)
      → Elem k (e.keys s p) ↔ ((starts_with p k ≡ true) × (view s k ≢ absent))
  keys_iff p s k = (
    λ m. let (h, r, x) = (e.keys_iff p s k).0 m in (h, slot_of-some (e.cell s k) r x),
    λ h. let (r, x) = slot_of-ne-absent (e.cell s k) h.1 in (e.keys_iff p s k).1 (h.0, r, x),
  )

  -- The abstract store that EtcdStorage keeps.
  unfoldable pub etcd_lawful : Lawful (etcd_storage c codec)
  unfolding etcd_storage
  etcd_lawful = record {
    slot = view;
    written = encoded;
    keys = e.keys;
    get_reply = get_slot;
    get_keeps = get_keeps;
    create_ok = λ k a s. put_encoded_ok k (codec.encode a) s;
    create_slot = λ k a s. put_encoded_slot k (codec.encode a) s;
    update_ok = λ k a s. put_encoded_ok k (codec.encode a) s;
    update_slot = λ k a s. put_encoded_slot k (codec.encode a) s;
    delete_ok = delete_ok;
    delete_slot = delete_slot;
    delete_prefix_ok = delete_prefix_ok;
    list_reply = list_reply;
    list_keeps = list_keeps;
    keys_iff = keys_iff;
    keys_distinct = e.keys_distinct;
  }

  -- Over any client that is etcd, and whatever the coding, EtcdStorage is a lawful store: the slot of
  -- a key is what etcd has under it, decoded, and an object that is written leaves its encoding,
  -- decoded again.
  pub etcd_storage-Lawful :
      (l : Lawful (etcd_storage c codec)) × ((s : c.Server) (k : Text)
        → l.slot s k ≡ slot_of codec (e.cell s k))
      × ((a : A) → l.written a ≡ slot_of codec (codec.encode a))
  unfolding etcd_lawful
  etcd_storage-Lawful = (etcd_lawful, λ s k. refl, λ a. refl)

-- Two types over one client are neighbours.
module _ {Raw A B : Type 0} (c : Client Raw) (mine : Codec Raw A) (other : Codec Raw B)
    (e : IsEtcd c) where
  put_encoded_keeps :
      (k : Text) (o : Option Raw) (s : c.Server) (j : Text)
      → k ≢ j
      → slot_of other (e.cell (put_encoded c mine k o s).1 j) ≡ slot_of other (e.cell s j)
  unfolding put_encoded
  put_encoded_keeps k none s j ne = refl
  put_encoded_keeps k (some r) s j ne = ground (arith, e.put_cell k r s j, text_eq_iff k j)

  -- A write of one type touches, of the slots of the other, that of its own key only.
  pub etcd_storage-Neighbour : Neighbour (etcd_storage c mine) (λ s k. slot_of other (e.cell s k))
  unfolding etcd_storage
  etcd_storage-Neighbour = record {
    get_keeps = λ k s j. unfold get in ground (arith, e.get_keeps k s j);
    list_keeps = λ p s j. unfold list in ground (arith, e.prefix_keeps p s j);
    create_keeps = λ k a s j ne. put_encoded_keeps k (mine.encode a) s j ne;
    update_keeps = λ k a s j ne. put_encoded_keeps k (mine.encode a) s j ne;
    delete_keeps =
        λ k s j ne. unfold delete in ground (arith, e.delete_cell k s j, text_eq_iff k j);
  }

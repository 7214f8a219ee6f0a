-- ===== src/Storage.antt =====
-- pkg/storage/storage.go: the interface between the registries and the store, for one type of object,
-- and what a client may rely on. Every operation may fail; a write that failed may have happened.
pub mod Counting
pub mod Etcd
pub mod Reading
pub mod Watch
use gokube.Prelude.{
  Text, text_eq, starts_with, ◌≡◌, ◌≢◌, ◌↔◌, ◌⊎◌, true, List, [], ◌∷◌, All, Elem, if◌then◌else◌,
}
use gokube.Exec.{Exec, Result, ok, err, not_found, decoding, etcd_client}

pub record Storage (S A : Type 0) : Type 0 where
  pub create : Text → A → Exec S (Unit {0})
  pub get : Text → Exec S A
  pub update : Text → A → Exec S (Unit {0})
  pub delete : Text → Exec S (Unit {0})
  pub delete_prefix : Text → Exec S (Unit {0})
  pub list : Text → Exec S (List A)

-- What stands under a key: nothing, bytes that do not decode to an `A`, or an object.
pub data Slot (A : Type 0) : Type 0 where
  absent garbled : Slot A
  holds : A → Slot A

module _ {A : Type 0} where
  abbrev pub read : Slot A → Result A
  read absent = err not_found
  read garbled = err decoding
  read (holds a) = ok a

  abbrev pub push : A → Result (List A) → Result (List A)
  push a (ok rest) = ok (a ∷ rest)
  push a (err e) = err e

  abbrev pub join_slot : Slot A → Result (List A) → Result (List A)
  join_slot absent rest = rest
  join_slot garbled rest = err decoding
  join_slot (holds a) rest = push a rest

  -- The objects under the keys, in order, unless one does not decode.
  unfoldable pub read_all : (Text → Slot A) → List Text → Result (List A)
  read_all slot [] = ok []
  read_all slot (k ∷ ks) = join_slot (slot k) (read_all slot ks)

-- No key twice.
abbrev pub Distinct : List Text → Type 0
Distinct [] = Unit
Distinct (k ∷ ks) = All (λ j. k ≢ j) ks × Distinct ks

-- The abstract store: a slot for each key. `written a` is what reading back an `a` finds.
pub record Lawful {S A : Type 0} (st : Storage S A) : Type 0 where
  pub slot : S → Text → Slot A
  pub written : A → Slot A
  pub keys : S → Text → List Text
  pub get_reply :
      (k : Text) (s : S) → ((st.get k s).0 ≡ err etcd_client) ⊎ ((st.get k s).0 ≡ read (slot s k))
  pub get_keeps : (k : Text) (s : S) (j : Text) → slot (st.get k s).1 j ≡ slot s j
  pub create_ok :
      (k : Text) (a : A) (s : S)
      → (st.create k a s).0 ≡ ok tt
      → (j : Text) → slot (st.create k a s).1 j ≡ (if text_eq k j then written a else slot s j)
  pub create_slot :
      (k : Text) (a : A) (s : S) (j : Text)
      → (slot (st.create k a s).1 j ≡ slot s j)
        ⊎ (slot (st.create k a s).1 j ≡ (if text_eq k j then written a else slot s j))
  pub update_ok :
      (k : Text) (a : A) (s : S)
      → (st.update k a s).0 ≡ ok tt
      → (j : Text) → slot (st.update k a s).1 j ≡ (if text_eq k j then written a else slot s j)
  pub update_slot :
      (k : Text) (a : A) (s : S) (j : Text)
      → (slot (st.update k a s).1 j ≡ slot s j)
        ⊎ (slot (st.update k a s).1 j ≡ (if text_eq k j then written a else slot s j))
  pub delete_ok :
      (k : Text) (s : S)
      → (st.delete k s).0 ≡ ok tt
      → (j : Text) → slot (st.delete k s).1 j ≡ (if text_eq k j then absent else slot s j)
  pub delete_slot :
      (k : Text) (s : S) (j : Text)
      → (slot (st.delete k s).1 j ≡ slot s j)
        ⊎ (slot (st.delete k s).1 j ≡ (if text_eq k j then absent else slot s j))
  pub delete_prefix_ok :
      (p : Text) (s : S)
      → (st.delete_prefix p s).0 ≡ ok tt
      → (j : Text)
      → slot (st.delete_prefix p s).1 j ≡ (if starts_with p j then absent else slot s j)
  pub list_reply :
      (p : Text) (s : S)
      → ((st.list p s).0 ≡ err etcd_client) ⊎ ((st.list p s).0 ≡ read_all (slot s) (keys s p))
  pub list_keeps : (p : Text) (s : S) (j : Text) → slot (st.list p s).1 j ≡ slot s j
  pub keys_iff :
      (p : Text) (s : S) (k : Text)
      → Elem k (keys s p) ↔ ((starts_with p k ≡ true) × (slot s k ≢ absent))
  pub keys_distinct : (p : Text) (s : S) → Distinct (keys s p)

-- What the operations of one storage do to the slots of another type in the same store: reads do
-- nothing, and a write touches its own key only.
pub record Neighbour {S A B : Type 0} (st : Storage S A) (slot : S → Text → Slot B) : Type 0 where
  pub get_keeps : (k : Text) (s : S) (j : Text) → slot (st.get k s).1 j ≡ slot s j
  pub list_keeps : (p : Text) (s : S) (j : Text) → slot (st.list p s).1 j ≡ slot s j
  pub create_keeps :
      (k : Text) (a : A) (s : S) (j : Text) → k ≢ j → slot (st.create k a s).1 j ≡ slot s j
  pub update_keeps :
      (k : Text) (a : A) (s : S) (j : Text) → k ≢ j → slot (st.update k a s).1 j ≡ slot s j
  pub delete_keeps : (k : Text) (s : S) (j : Text) → k ≢ j → slot (st.delete k s).1 j ≡ slot s j

-- The store answers every lookup.
abbrev pub Answers : {S A : Type 0} (st : Storage S A) → Lawful st → Type 0
Answers {S} st l = (k : Text) (s : S) → (st.get k s).0 ≡ read (l.slot s k)

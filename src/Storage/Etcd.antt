-- ===== src/Storage/Etcd.antt =====
-- pkg/storage/etcd_storage.go: the store over an etcd client, and pkg/runtime/object.go.
-- The client of go.etcd.io/etcd is a parameter, and so are the bytes and their coding.
pub mod Refinement
mod Examples
use gokube.Prelude.{
  Text, text_eq, starts_with, ◌≡◌, ◌↔◌, ◌⊎◌, true, List, [], ◌∷◌, ◌++◌, Option, none, some, Elem,
  if◌then◌else◌,
}
use gokube.Exec.{Exec, Result, ok, err, encoding, decoding, not_found, etcd_client}
use gokube.Storage.{Storage, Distinct}

-- A remote call: `none` is an error of the client.
abbrev pub Call : Type 0 → Type 0 → Type 0
Call S A = S → Option A × S

pub record Client (Raw : Type 0) : Type 1 where
  pub Server : Type 0
  pub put : Text → Raw → Call Server (Unit {0})
  pub get : Text → Call Server (List (Text × Raw))
  pub get_prefix : Text → Call Server (List (Text × Raw))
  pub delete : Text → Call Server (Unit {0})
  pub delete_prefix : Text → Call Server (Unit {0})

-- runtime.Encode and runtime.Decode at one type: json.Marshal, and json.Unmarshal into a new object.
pub record Codec (Raw A : Type 0) : Type 0 where
  pub encode : A → Option Raw
  pub decode : Raw → Option A

abbrev pub pair_of : {Raw : Type 0} → Text → Option Raw → List (Text × Raw)
pair_of k none = []
pair_of k (some r) = (k, r) ∷ []

unfoldable pub pairs_of : {Raw : Type 0} → (Text → Option Raw) → List Text → List (Text × Raw)
pairs_of cell [] = []
pairs_of cell (k ∷ ks) = pair_of k (cell k) ++ pairs_of cell ks

-- What etcd documents of a client: a map from keys to values. A call that fails with an error may
-- have been carried out; an answered read tells the values of that moment, a range each key once.
pub record IsEtcd {Raw : Type 0} (c : Client Raw) : Type 0 where
  pub cell : c.Server → Text → Option Raw
  pub keys : c.Server → Text → List Text
  pub get_reply :
      (k : Text) (s : c.Server)
      → ((c.get k s).0 ≡ none) ⊎ ((c.get k s).0 ≡ some (pair_of k (cell s k)))
  pub get_keeps : (k : Text) (s : c.Server) (j : Text) → cell (c.get k s).1 j ≡ cell s j
  pub put_ok :
      (k : Text) (r : Raw) (s : c.Server)
      → (c.put k r s).0 ≡ some tt
      → (j : Text) → cell (c.put k r s).1 j ≡ (if text_eq k j then some r else cell s j)
  pub put_cell :
      (k : Text) (r : Raw) (s : c.Server) (j : Text)
      → (cell (c.put k r s).1 j ≡ cell s j)
        ⊎ (cell (c.put k r s).1 j ≡ (if text_eq k j then some r else cell s j))
  pub delete_ok :
      (k : Text) (s : c.Server)
      → (c.delete k s).0 ≡ some tt
      → (j : Text) → cell (c.delete k s).1 j ≡ (if text_eq k j then none else cell s j)
  pub delete_cell :
      (k : Text) (s : c.Server) (j : Text)
      → (cell (c.delete k s).1 j ≡ cell s j)
        ⊎ (cell (c.delete k s).1 j ≡ (if text_eq k j then none else cell s j))
  pub delete_prefix_ok :
      (p : Text) (s : c.Server)
      → (c.delete_prefix p s).0 ≡ some tt
      → (j : Text) → cell (c.delete_prefix p s).1 j ≡ (if starts_with p j then none else cell s j)
  pub prefix_reply :
      (p : Text) (s : c.Server)
      → ((c.get_prefix p s).0 ≡ none) ⊎ ((c.get_prefix p s).0 ≡ some (pairs_of (cell s) (keys s p)))
  pub prefix_keeps : (p : Text) (s : c.Server) (j : Text) → cell (c.get_prefix p s).1 j ≡ cell s j
  pub keys_iff :
      (p : Text) (s : c.Server) (k : Text)
      → Elem k (keys s p) ↔ ((starts_with p k ≡ true) × (r : Raw) × (cell s k ≡ some r))
  pub keys_distinct : (p : Text) (s : c.Server) → Distinct (keys s p)

-- `if err != nil { return ErrEtcdClient }`
abbrev pub or_client_error : {S A : Type 0} → Option A × S → Result A × S
or_client_error (none, s) = (err etcd_client, s)
or_client_error (some a, s) = (ok a, s)

module _ {Raw A : Type 0} (c : Client Raw) (codec : Codec Raw A) where
  -- The part that Create and Update share: encode, then put.
  pub put_encoded : Text → Option Raw → Exec c.Server (Unit {0})
  put_encoded key none s = (err encoding, s)
  put_encoded key (some raw) s = or_client_error (c.put key raw s)

  pub create : Text → A → Exec c.Server (Unit {0})
  unfolding put_encoded
  create key obj = put_encoded key (codec.encode obj)

  pub update : Text → A → Exec c.Server (Unit {0})
  unfolding put_encoded
  update key obj = put_encoded key (codec.encode obj)

  or_decoding : Option A → Result A
  or_decoding none = err decoding
  or_decoding (some a) = ok a

  first_decoded : List (Text × Raw) → Result A
  unfolding or_decoding
  first_decoded [] = err not_found
  first_decoded ((_, raw) ∷ _) = or_decoding (codec.decode raw)

  get_answer : Option (List (Text × Raw)) × c.Server → Result A × c.Server
  unfolding first_decoded
  get_answer (none, s) = (err etcd_client, s)
  get_answer (some kvs, s) = (first_decoded kvs, s)

  pub get : Text → Exec c.Server A
  unfolding get_answer
  get key s = get_answer (c.get key s)

  pub delete : Text → Exec c.Server (Unit {0})
  delete key s = or_client_error (c.delete key s)

  pub delete_prefix : Text → Exec c.Server (Unit {0})
  delete_prefix prefix s = or_client_error (c.delete_prefix prefix s)

  -- The loop of List: the objects are appended one by one, and the first failure ends it.
  decode_all : List A → List (Text × Raw) → Result (List A)
  decode_all acc [] = ok acc
  decode_all acc ((_, raw) ∷ rest) = elim (codec.decode raw) [
    | none ↦ err decoding
    | some obj ↦ decode_all (acc ++ obj ∷ []) rest
  ]

  list_answer : Option (List (Text × Raw)) × c.Server → Result (List A) × c.Server
  unfolding decode_all
  list_answer (none, s) = (err etcd_client, s)
  list_answer (some kvs, s) = (decode_all [] kvs, s)

  pub list : Text → Exec c.Server (List A)
  unfolding list_answer
  list prefix s = list_answer (c.get_prefix prefix s)

  unfoldable pub etcd_storage : Storage c.Server A
  unfolding create get update delete delete_prefix list
  etcd_storage = record {
    create = create;
    get = get;
    update = update;
    delete = delete;
    delete_prefix = delete_prefix;
    list = list;
  }

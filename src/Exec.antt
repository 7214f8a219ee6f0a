-- ===== src/Exec.antt =====
-- Methods that act on the cluster's store and may return an error. A Go method that fails keeps the
-- writes it made, so the state comes back beside the error too. `Error` has one constructor for each
-- sentinel that errors.Is can find in the chain of a returned error (pkg/storage/etcd_storage.go,
-- pkg/registry/*.go), and one for each plain fmt.Errorf; the text of a message is not modelled.
use gokube.Prelude.{◌≡◌, refl, ◌⊎◌, inl, inr}

pub data Error : Type 0 where
  -- storage
  encoding decoding not_found etcd_client : Error
  -- registry
  internal : Error
  pod_already_exists pod_not_found list_pods_failed pod_invalid : Error
  node_already_exists node_not_found list_nodes_failed node_invalid : Error
  replica_set_exists replica_set_not_found list_replica_sets : Error
  -- plain errors of the scheduler, one for each message
  pending_list_failed node_list_failed no_nodes update_failed : Error

pub data Result (A : Type 0) : Type 0 where
  ok : A → Result A
  err : Error → Result A

abbrev pub Exec : Type 0 → Type 0 → Type 0
Exec S A = S → Result A × S

module _ {S A : Type 0} where
  abbrev pub pure : A → Exec S A
  pure a s = (ok a, s)

  abbrev pub raise : Error → Exec S A
  raise e s = (err e, s)

  -- `err := m; …`: the error is a value that the code goes on to look at.
  abbrev pub attempt : Exec S A → Exec S (Result A)
  attempt m s = let (r, s') = m s in (ok r, s')

module _ {S A B : Type 0} where
  abbrev pub resume : (A → Exec S B) → Result A × S → Result B × S
  resume f (ok a, s) = f a s
  resume f (err e, s) = (err e, s)

  infixl 5 ◌>>=◌
  abbrev pub ◌>>=◌ : Exec S A → (A → Exec S B) → Exec S B
  ◌>>=◌ m f s = resume f (m s)

module _ {S B : Type 0} where
  infixl 5 ◌>>◌
  abbrev pub ◌>>◌ : Exec S (Unit {0}) → Exec S B → Exec S B
  m >> k = m >>= λ _. k

-- `if err := m; err != nil { return fmt.Errorf(e) }`
abbrev pub replace_error : {S A : Type 0} → Error → Result A × S → Result A × S
replace_error e (ok a, s) = (ok a, s)
replace_error e (err _, s) = (err e, s)

pub Result-cases :
    {A : Type 0} (r : Result A) → ((a : A) × (r ≡ ok a)) ⊎ ((e : Error) × (r ≡ err e))
Result-cases (ok a) = inl (a, refl)
Result-cases (err e) = inr (e, refl)

-- A block that succeeds did so in both parts.
module _ {S A B : Type 0} where
  resume-eq-ok :
      (p : Result A × S) (f : A → Exec S B) (b : B)
      → (resume f p).0 ≡ ok b
      → (a : A) × (p.0 ≡ ok a) × (resume f p ≡ f a p.1)
  resume-eq-ok (ok a, s) f b h = (a, refl, refl)
  resume-eq-ok (err e, s) f b h = cc

  pub >>=-eq-ok :
      (m : Exec S A) (f : A → Exec S B) (s : S) (b : B)
      → ((m >>= f) s).0 ≡ ok b
      → (a : A) × ((m s).0 ≡ ok a) × ((m >>= f) s ≡ f a (m s).1)
  >>=-eq-ok m f s b h = resume-eq-ok (m s) f b h

module _ {S A : Type 0} where
  pub replace_error_state : (x : Error) (p : Result A × S) → (replace_error x p).1 ≡ p.1
  replace_error_state x (ok a, s) = refl
  replace_error_state x (err e, s) = refl

  pub replace_error-eq-ok :
      (x : Error) (p : Result A × S) (a : A) → (replace_error x p).0 ≡ ok a → p.0 ≡ ok a
  replace_error-eq-ok x (ok b, s) a h = h
  replace_error-eq-ok x (err e, s) a h = cc

-- What every step keeps, the whole keeps, wherever an error ends it.
module _ {S A B : Type 0} (P : S → Type 0) where
  resume-keeps :
      (f : A → Exec S B) (r : Result A × S)
      → P r.1
      → ((a : A) (t : S) → P t → P (f a t).1)
      → P (resume f r).1
  resume-keeps f (ok a, s) h k = k a s h
  resume-keeps f (err e, s) h k = h

  pub >>=-keeps :
      (m : Exec S A) (f : A → Exec S B) (s : S)
      → P (m s).1
      → ((a : A) (t : S) → P t → P (f a t).1)
      → P ((m >>= f) s).1
  >>=-keeps m f s h k = resume-keeps f (m s) h k

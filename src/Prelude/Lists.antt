-- ===== src/Prelude/Lists.antt =====
-- Lists measured by native numbers, membership as data, and tests on every element.
use Prim.Native.Nat.{ℕ, zero, suc, ◌+◌, ◌-◌, min}
use mathlib.Core.Path.{◌≡◌, refl, ap}
use mathlib.Core.Logic.{◌⊎◌, inl, inr}
use mathlib.Core.Bool.{Bool, true, ◌&&◌}
use mathlib.Core.Option.{Option, none, some}
use mathlib.Core.List.{List, [], ◌∷◌, ◌++◌, map}
use native.Mathlib.Omega.{arith}
use gokube.Prelude.Tests.{if◌then◌else◌, Bool-cases}

module _ {ℓ} {A : Type ℓ} where
  abbrev pub length : List A → ℕ
  length [] = 0
  length (x ∷ xs) = suc (length xs)

  abbrev pub take : ℕ → List A → List A
  take zero xs = []
  take (suc n) [] = []
  take (suc n) (x ∷ xs) = x ∷ take n xs

  abbrev pub drop : ℕ → List A → List A
  drop zero xs = xs
  drop (suc n) [] = []
  drop (suc n) (x ∷ xs) = drop n xs

  abbrev pub get_elem? : List A → ℕ → Option A
  get_elem? [] i = none
  get_elem? (x ∷ xs) zero = some x
  get_elem? (x ∷ xs) (suc i) = get_elem? xs i

  abbrev pub get_or : List A → ℕ → A → A
  get_or [] i d = d
  get_or (x ∷ xs) zero d = x
  get_or (x ∷ xs) (suc i) d = get_or xs i d

  abbrev pub all : (A → Bool) → List A → Bool
  all p [] = true
  all p (x ∷ xs) = p x && all p xs

  -- What a `for` loop that appends the elements with `p` collects.
  unfoldable pub select : (A → Bool) → List A → List A
  select p [] = []
  select p (x ∷ xs) = let rest = select p xs in if p x then x ∷ rest else rest

  pub length-append : (xs ys : List A) → length (xs ++ ys) ≡ length xs + length ys
  length-append [] ys = omega arith
  length-append (x ∷ xs) ys = omega (arith, length-append xs ys)

  pub length-take : (n : ℕ) (xs : List A) → length (take n xs) ≡ min n (length xs)
  length-take zero xs = omega arith
  length-take (suc n) [] = omega arith
  length-take (suc n) (x ∷ xs) = omega (arith, length-take n xs)

  pub length-drop : (n : ℕ) (xs : List A) → length (drop n xs) ≡ length xs - n
  length-drop zero xs = omega arith
  length-drop (suc n) [] = omega arith
  length-drop (suc n) (x ∷ xs) = omega (arith, length-drop n xs)

  pub take-append-drop : (n : ℕ) (xs : List A) → take n xs ++ drop n xs ≡ xs
  take-append-drop zero xs = refl
  take-append-drop (suc n) [] = refl
  take-append-drop (suc n) (x ∷ xs) = ap (λ (ys : List A). x ∷ ys) (take-append-drop n xs)

  abbrev pub All {κ} : (A → Type κ) → List A → Type κ
  All P [] = Unit
  All P (x ∷ xs) = P x × All P xs

  pub All-append {κ} : (P : A → Type κ) (xs ys : List A) → All P xs → All P ys → All P (xs ++ ys)
  All-append P [] ys h k = k
  All-append P (x ∷ xs) ys h k = (h.0, All-append P xs ys h.1 k)

module _ {A : Type 0} where
  -- Membership, with the place kept.
  abbrev pub Elem : A → List A → Type 0
  Elem a [] = ⊥
  Elem a (x ∷ xs) = (a ≡ x) ⊎ Elem a xs

  pub Elem-left : (a : A) (xs ys : List A) → Elem a xs → Elem a (xs ++ ys)
  Elem-left a [] ys m = absurd m
  Elem-left a (x ∷ xs) ys (inl e) = inl e
  Elem-left a (x ∷ xs) ys (inr m) = inr (Elem-left a xs ys m)

  pub Elem-right : (a : A) (xs ys : List A) → Elem a ys → Elem a (xs ++ ys)
  Elem-right a [] ys m = m
  Elem-right a (x ∷ xs) ys m = inr (Elem-right a xs ys m)

  pub Elem-append-cases : (a : A) (xs ys : List A) → Elem a (xs ++ ys) → Elem a xs ⊎ Elem a ys
  Elem-append-cases a [] ys m = inr m
  Elem-append-cases a (x ∷ xs) ys (inl e) = inl (inl e)
  Elem-append-cases a (x ∷ xs) ys (inr m) = elim (Elem-append-cases a xs ys m) [
    | inl h ↦ inl (inr h)
    | inr h ↦ inr h
  ]

  pub All-Elem : (P : A → Type 0) {a : A} (xs : List A) → All P xs → Elem a xs → P a
  All-Elem P [] h m = absurd m
  All-Elem P (x ∷ xs) h (inl e) = rw e h.0
  All-Elem P (x ∷ xs) h (inr m) = All-Elem P xs h.1 m

  pub All-within :
      (P : A → Type 0) (xs ys : List A) → ((a : A) → Elem a ys → Elem a xs) → All P xs → All P ys
  All-within P xs [] within h = tt
  All-within P xs (y ∷ ys) within h =
      (All-Elem P xs h (within y (inl refl)), All-within P xs ys (λ a m. within a (inr m)) h)

  pub All-of_Elem : (P : A → Type 0) (xs : List A) → ((a : A) → Elem a xs → P a) → All P xs
  All-of_Elem P [] h = tt
  All-of_Elem P (x ∷ xs) h = (h x (inl refl), All-of_Elem P xs (λ a m. h a (inr m)))

  -- The selected elements are those of the list with `p`.
  pub Elem-select :
      (p : A → Bool) (a : A) (xs : List A) → Elem a xs → p a ≡ true → Elem a (select p xs)
  unfolding select
  Elem-select p a [] m h = m
  Elem-select p a (x ∷ xs) (inl e) h = rw (← e, h) (inl refl)
  Elem-select p a (x ∷ xs) (inr m) h = elim (Bool-cases (p x)) [
    | inl t ↦ rw t (inr (Elem-select p a xs m h))
    | inr f ↦ rw f (Elem-select p a xs m h)
  ]

  pub Elem-of_select :
      (p : A → Bool) (a : A) (xs : List A) → Elem a (select p xs) → Elem a xs × (p a ≡ true)
  unfolding select
  Elem-of_select p a [] m = absurd m
  Elem-of_select p a (x ∷ xs) m =
      let ih = Elem-of_select p a xs in
      elim (Bool-cases (p x)) [
        | inl t ↦ elim (rw t at m) [ inl e ↦ (inl e, rw e t) | inr m' ↦ (inr (ih m').0, (ih m').1) ]
        | inr f ↦ (inr (ih (rw f at m)).0, (ih (rw f at m)).1)
      ]

module _ {A B : Type 0} where
  pub length-map : (f : A → B) (xs : List A) → length (map f xs) ≡ length xs
  length-map f [] = refl
  length-map f (x ∷ xs) = ap suc (length-map f xs)

  pub All-map :
      (P : B → Type 0) (f : A → B) (xs : List A) → All (λ x. P (f x)) xs → All P (map f xs)
  All-map P f [] h = tt
  All-map P f (x ∷ xs) h = (h.0, All-map P f xs h.1)

  pub Elem-map : (f : A → B) (xs : List A) (a : A) → Elem a xs → Elem (f a) (map f xs)
  Elem-map f [] a m = absurd m
  Elem-map f (x ∷ xs) a (inl e) = inl (ap f e)
  Elem-map f (x ∷ xs) a (inr m) = inr (Elem-map f xs a m)

  pub Elem-of_map :
      (f : A → B) (xs : List A) (b : B) → Elem b (map f xs) → (a : A) × Elem a xs × (b ≡ f a)
  Elem-of_map f [] b m = absurd m
  Elem-of_map f (x ∷ xs) b (inl e) = (x, inl refl, e)
  Elem-of_map f (x ∷ xs) b (inr m) = let (a, h, e) = Elem-of_map f xs b m in (a, inr h, e)

module _ {A B C : Type 0} where
  pub map-map : (g : B → C) (f : A → B) (xs : List A) → map g (map f xs) ≡ map (λ x. g (f x)) xs
  map-map g f [] = refl
  map-map g f (x ∷ xs) = ap (λ (ys : List C). g (f x) ∷ ys) (map-map g f xs)

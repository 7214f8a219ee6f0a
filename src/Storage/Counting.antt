-- ===== src/Storage/Counting.antt =====
-- Sums over lists of keys without repetition, and over the objects that the keys hold.
use gokube.Prelude.{
  ℕ, ◌+◌, Text, Bool, ◌≡◌, ◌≢◌, refl, sym, ap, ◌∙◌, ◌⊎◌, inl, inr, ◌↔◌, List, [], ◌∷◌, ◌++◌, length,
  select, Elem, All-Elem, All-of_Elem, arith, if◌then◌else◌, subst,
}
use gokube.Exec.{ok, err, decoding}
use gokube.Storage.{Slot, absent, garbled, holds, read_all, Distinct}
use gokube.Storage.Reading.{push-eq-ok, Slot-cases}

module _ (f : Text → ℕ) where
  unfoldable pub total : List Text → ℕ
  total [] = 0
  total (k ∷ ks) = f k + total ks

  pub total-append : (xs ys : List Text) → total (xs ++ ys) ≡ total xs + total ys
  unfolding total
  total-append [] ys = omega arith
  total-append (x ∷ xs) ys = omega (arith, total-append xs ys)

  -- A list without the key `k`.
  Without : Text → List Text → List Text → Type 0
  Without k ks rest =
      (total ks ≡ f k + total rest)
      × Distinct rest
      × ((j : Text) → Elem j rest → Elem j ks × (k ≢ j))
      × ((j : Text) → Elem j ks → (j ≡ k) ⊎ Elem j rest)

  without :
      (k : Text) (ks : List Text) → Elem k ks → Distinct ks → (rest : List Text) × Without k ks rest
  unfolding total Without
  without k [] m d = absurd m
  without k (y ∷ ys) (inl e) d = (
    ys,
    (
      rw e refl,
      d.1,
      λ j m. (inr m, rw e (All-Elem (λ i. y ≢ i) ys d.0 m)),
      λ j m. elim m [ inl h ↦ inl (h ∙ sym e) | inr h ↦ inr h ],
    ),
  )
  without k (y ∷ ys) (inr m) d =
      let (rest, (t, dr, from, to)) = without k ys m d.1 in
      (
        y ∷ rest,
        (
          omega (arith, t),
          (All-of_Elem (λ i. y ≢ i) rest (λ i mi. All-Elem (λ i. y ≢ i) ys d.0 (from i mi).0), dr),
          λ j mj. elim mj [
            | inl e ↦ (inl e, λ h. All-Elem (λ i. y ≢ i) ys d.0 m (sym (h ∙ e)))
            | inr h ↦ (inr (from j h).0, (from j h).1)
          ],
          λ j mj. elim mj [
            | inl e ↦ inr (inl e)
            | inr h ↦ elim (to j h) [ inl e ↦ inl e | inr x ↦ inr (inr x) ]
          ],
        ),
      )

  -- Two lists with the same keys, each once, have the same sum.
  pub same_total :
      (xs ys : List Text)
      → Distinct xs
      → Distinct ys
      → ((k : Text) → Elem k xs ↔ Elem k ys)
      → total xs ≡ total ys
  unfolding total Without
  same_total [] [] d e same = refl
  same_total [] (y ∷ ys) d e same = absurd ((same y).1 (inl refl))
  same_total (x ∷ xs) ys d e same =
      let (rest, (t, dr, from, to)) = without x ys ((same x).0 (inl refl)) e in
      let ih = same_total xs rest d.1 dr (λ k. (
        λ m. elim (to k ((same k).0 (inr m))) [
          | inl h ↦ absurd (All-Elem (λ j. x ≢ j) xs d.0 m (sym h))
          | inr h ↦ h
        ],
        λ m. elim ((same k).1 (from k m).0) [ inl h ↦ absurd ((from k m).1 (sym h)) | inr h ↦ h ],
      )) in
      omega (arith, t, ih)

pub total_agree :
    (f g : Text → ℕ) (ks : List Text)
    → ((k : Text) → Elem k ks → f k ≡ g k)
    → total f ks ≡ total g ks
unfolding total
total_agree f g [] h = refl
total_agree f g (k ∷ ks) h = omega (arith, h k (inl refl), total_agree f g ks (λ j m. h j (inr m)))

module _ {A : Type 0} (p : A → Bool) where
  -- 1 for an object with `p`.
  abbrev pub one_if : Slot A → ℕ
  one_if absent = 0
  one_if garbled = 0
  one_if (holds a) = if p a then 1 else 0

  selected :
      (a : A) (rest : List A)
      → length (select p (a ∷ rest)) ≡ one_if (holds a) + length (select p rest)
  unfolding select
  selected a rest = ground arith

  pub length-select :
      (slot : Text → Slot A) (ks : List Text) (out : List A)
      → read_all slot ks ≡ ok out
      → length (select p out) ≡ total (λ k. one_if (slot k)) ks
  unfolding read_all total select
  length-select slot [] out h = subst (λ (xs : List A). length (select p xs) ≡ 0) (ok_eq h) refl
    where
      ok_eq : ok [] ≡ ok out → [] ≡ out
      ok_eq x = cc
  length-select slot (k ∷ ks) out h =
      let ih = length-select slot ks in
      elim (Slot-cases (slot k)) [
        | inl e ↦ omega (arith, ih out (rw e at h), ap one_if e)
        | inr (inl e) ↦ absurd (garbled_fails (rw e at h))
        | inr (inr (a, e)) ↦
            let (rest, r, o) = push-eq-ok a (read_all slot ks) out (rw e at h) in
            omega
              (arith, ap (λ xs. length (select p xs)) o, selected a rest, ih rest r, ap one_if e)
      ]
    where
      garbled_fails : err decoding ≡ ok out → ⊥
      garbled_fails x = cc

-- A key of a list that is read holds an object, if it is not absent.
pub read_holds :
    {A : Type 0} (slot : Text → Slot A) (ks : List Text) (out : List A) (k : Text)
    → read_all slot ks ≡ ok out
    → Elem k ks
    → slot k ≢ absent
    → (a : A) × (slot k ≡ holds a)
unfolding read_all
read_holds slot [] out k h m there = absurd m
read_holds {A} slot (j ∷ ks) out k h m there = elim (Slot-cases (slot j)) [
  | inl e ↦ elim m [
    | inl x ↦ absurd (there (ap slot x ∙ e))
    | inr m' ↦ read_holds slot ks out k (rw e at h) m' there
  ]
  | inr (inl e) ↦ absurd (garbled_fails (rw e at h))
  | inr (inr (a, e)) ↦
      let (rest, r, o) = push-eq-ok a (read_all slot ks) out (rw e at h) in
      elim m [ inl x ↦ (a, ap slot x ∙ e) | inr m' ↦ read_holds slot ks rest k r m' there ]
]
  where
    garbled_fails : err decoding ≡ ok out → ⊥
    garbled_fails x = cc

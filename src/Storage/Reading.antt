-- ===== src/Storage/Reading.antt =====
-- What a listing that succeeds contains.
use gokube.Prelude.{Text, ◌≡◌, refl, sym, ◌∙◌, ◌⊎◌, inl, inr, List, [], ◌∷◌, Elem, ap, subst}
use gokube.Exec.{Result, ok, err, decoding}
use gokube.Storage.{Slot, absent, garbled, holds, read_all, push}

module _ {A : Type 0} where
  pub push-eq-ok :
      (a : A) (r : Result (List A)) (out : List A)
      → push a r ≡ ok out
      → (rest : List A) × (r ≡ ok rest) × (out ≡ a ∷ rest)
  push-eq-ok a (ok rest) out h = (rest, refl, cc)
  push-eq-ok a (err e) out h = cc

  pub Slot-cases : (x : Slot A) → (x ≡ absent) ⊎ ((x ≡ garbled) ⊎ ((a : A) × (x ≡ holds a)))
  Slot-cases absent = inl refl
  Slot-cases garbled = inr (inl refl)
  Slot-cases (holds a) = inr (inr (a, refl))

  -- The objects listed are those that the listed keys hold.
  pub Elem-of_read_all :
      (slot : Text → Slot A) (ks : List Text) (out : List A) (a : A)
      → read_all slot ks ≡ ok out
      → Elem a out
      → (k : Text) × Elem k ks × (slot k ≡ holds a)
  unfolding read_all
  Elem-of_read_all slot [] out a h m = absurd (subst (Elem a) (ok-inj h) m)
    where
      ok-inj : ok [] ≡ ok out → out ≡ []
      ok-inj e = cc
  Elem-of_read_all slot (k ∷ ks) out a h m =
      let ih = Elem-of_read_all slot ks in
      elim (Slot-cases (slot k)) [
        | inl e ↦ let (j, mj, ej) = ih out a (rw e at h) m in (j, inr mj, ej)
        | inr (inl e) ↦ absurd (garbled_fails (rw e at h))
        | inr (inr (b, e)) ↦
            let (rest, r, o) = push-eq-ok b (read_all slot ks) out (rw e at h) in
            elim (subst (Elem a) o m) [
              | inl x ↦ (k, inl refl, rw x e)
              | inr m' ↦ let (j, mj, ej) = ih rest a r m' in (j, inr mj, ej)
            ]
      ]
    where
      garbled_fails : err decoding ≡ ok out → ⊥
      garbled_fails x = cc

  pub Elem-read_all :
      (slot : Text → Slot A) (ks : List Text) (out : List A) (k : Text) (a : A)
      → read_all slot ks ≡ ok out
      → Elem k ks
      → slot k ≡ holds a
      → Elem a out
  unfolding read_all
  Elem-read_all slot [] out k a h m e = absurd m
  Elem-read_all slot (j ∷ ks) out k a h m e =
      let ih = λ (rest : List A). Elem-read_all slot ks rest k a in
      elim (Slot-cases (slot j)) [
        | inl x ↦ elim m [
          | inl y ↦ absurd (clash (sym e ∙ ap slot y ∙ x))
          | inr m' ↦ ih out (rw x at h) m' e
        ]
        | inr (inl x) ↦ absurd (garbled_fails (rw x at h))
        | inr (inr (b, x)) ↦
            let (rest, r, o) = push-eq-ok b (read_all slot ks) out (rw x at h) in
            rw o (elim m [
              | inl y ↦ inl (same b (sym e ∙ ap slot y ∙ x))
              | inr m' ↦ inr (ih rest r m' e)
            ])
      ]
    where
      clash : holds a ≡ absent → ⊥
      clash y = cc

      garbled_fails : err decoding ≡ ok out → ⊥
      garbled_fails x = cc

      same : (b : A) → holds a ≡ holds b → a ≡ b
      same b y = cc

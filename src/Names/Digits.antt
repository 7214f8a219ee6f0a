-- ===== src/Names/Digits.antt =====
-- The bit-shifting loop of String takes the accepted base-32 digits of the draws in order.
use gokube.Prelude.{
  ℕ, zero, suc, ◌+◌, ◌*◌, ◌/◌, ◌%◌, ◌≤◌, ◌<◌, ◌≡◌, refl, sym, ap, Text, List, [], ◌∷◌, ◌++◌, Option,
  some, true, false, ltb, length, take, get_or, length-append, if◌then◌else◌, arith, Bool,
}
use native.Mathlib.Decide.{dec_lt}
use mathlib.Core.List.{append_assoc}
use gokube.Names.{
  Loop, consume, refill, fill, start, random_string, alphanums, idx_base, max_alphanums_per_int,
}

-- The lowest `m` base-32 digits of a number, lowest first.
unfoldable pub digits : ℕ → ℕ → List ℕ
digits zero x = []
digits (suc m) x = x % idx_base ∷ digits m (x / idx_base)

-- The digits of `c` draws from number `p` on, twelve of each.
unfoldable pub digits_from : (ℕ → ℕ) → ℕ → ℕ → List ℕ
unfolding digits
digits_from draws p zero = []
digits_from draws p (suc c) = digits max_alphanums_per_int (draws p) ++ digits_from draws (suc p) c

-- The letters of the digits that are an index into alphanums; the others are passed over.
unfoldable pub letters : List ℕ → Text
letters [] = []
letters (d ∷ ds) =
    let rest = letters ds in if ltb d (length alphanums) then get_or alphanums d 0 ∷ rest else rest

take_all : (n : ℕ) (b r : Text) → length b ≡ n → take n (b ++ r) ≡ b
take_all zero [] r h = refl
take_all zero (x ∷ b) r h = absurd (omega arith)
take_all (suc n) [] r h = absurd (omega arith)
take_all (suc n) (x ∷ b) r h = ap (λ (t : Text). x ∷ t) (take_all n b r (omega arith))

-- A byte written now or left for the rest makes the same text.
append_letter :
    (t : Bool) (b rest : Text) (x : ℕ)
    → (if t then b ++ x ∷ [] else b) ++ rest ≡ b ++ (if t then x ∷ rest else rest)
append_letter true b rest x = append_assoc b (x ∷ []) rest
append_letter false b rest x = refl

length-append_letter :
    (t : Bool) (b : Text) (x : ℕ) → length (if t then b ++ x ∷ [] else b) ≤ suc (length b)
length-append_letter true b x = omega (arith, length-append b (x ∷ []))
length-append_letter false b x = omega arith

abbrev at : Text → ℕ → ℕ → ℕ → Loop
at b x r d = record { b = b; random = x; remaining = r; drawn = d }

module _ (draws : ℕ → ℕ) where
  -- What the loop ends with: the first `n` bytes of what was written and what the digits still give.
  abbrev Ends : ℕ → Text → Option Loop → Type 0
  Ends n all o = (l : Loop) × (o ≡ some l) × (l.b ≡ take n all)

  done-Ends :
      (fuel n : ℕ) (l : Loop) (rest : Text)
      → length l.b ≡ n
      → Ends n (l.b ++ rest) (fill draws fuel n l)
  unfolding fill
  done-Ends zero n l rest h = (l, ground arith, sym (take_all n l.b rest h))
  done-Ends (suc fuel) n l rest h = (l, ground arith, sym (take_all n l.b rest h))

  step_fill :
      (fuel n : ℕ) (l : Loop)
      → length l.b < n
      → fill draws (suc fuel) n l ≡ fill draws fuel n (consume (refill draws l))
  unfolding fill
  step_fill fuel n l h = ground arith

  -- What is written when the digit `d` has been looked at.
  abbrev extended : Text → ℕ → Text
  extended b d = if ltb d (length alphanums) then b ++ get_or alphanums d 0 ∷ [] else b

  consume-at :
      (b : Text) (x r d : ℕ)
      → consume (refill draws (at b x (suc r) d))
        ≡ at (extended b (x % idx_base)) (x / idx_base) r d
  unfolding consume refill
  consume-at b x r d = ground arith

  consume-at_zero :
      (b : Text) (x d : ℕ)
      → consume (refill draws (at b x 0 d))
        ≡ at (extended b (draws d % idx_base)) (draws d / idx_base) 11 (suc d)
  unfolding consume refill
  consume-at_zero b x d = ground arith

  extended-letters :
      (b : Text) (d : ℕ) (ds : List ℕ) → extended b d ++ letters ds ≡ b ++ letters (d ∷ ds)
  unfolding letters
  extended-letters b d ds = append_letter (ltb d (length alphanums)) b (letters ds) _

  length-extended : (b : Text) (d n : ℕ) → length b < n → length (extended b d) ≤ n
  length-extended b d n h =
      omega (arith, length-append_letter (ltb d (length alphanums)) b (get_or alphanums d 0))

  -- One round, from the state that it leaves.
  round-Ends :
      (fuel n : ℕ) (l : Loop) (b : Text) (x r d' d : ℕ) (ds : List ℕ)
      → length l.b < n
      → consume (refill draws l) ≡ at (extended b d) x r d'
      → Ends n (extended b d ++ letters ds) (fill draws fuel n (at (extended b d) x r d'))
      → Ends n (b ++ letters (d ∷ ds)) (fill draws (suc fuel) n l)
  round-Ends fuel n l b x r d' d ds h e ih =
      rw (step_fill fuel n l h, e, ← extended-letters b d ds) ih

  fill-Ends :
      (fuel n : ℕ) (b : Text) (x r d c : ℕ)
      → length b ≤ n
      → n ≤ length (b ++ letters (digits r x ++ digits_from draws d c))
      → r + max_alphanums_per_int * c ≤ fuel
      → Ends n (b ++ letters (digits r x ++ digits_from draws d c)) (fill draws fuel n (at b x r d))
  unfolding digits digits_from
  fill-Ends zero n b x zero d zero short enough fuelled =
      done-Ends zero n (at b x 0 d) _ (unfold letters in omega (arith, length-append b []))
  fill-Ends zero n b x zero d (suc c) short enough fuelled = absurd (omega arith)
  fill-Ends zero n b x (suc r) d c short enough fuelled = absurd (omega arith)
  fill-Ends (suc fuel) n b x zero d zero short enough fuelled =
      done-Ends (suc fuel) n (at b x 0 d) _ (unfold letters in omega (arith, length-append b []))
  fill-Ends (suc fuel) n b x zero d (suc c) short enough fuelled =
      let ds = digits 11 (draws d / idx_base) ++ digits_from draws (suc d) c in
      elim (dec_lt (length b) n) [
        | yes more ↦
            round-Ends fuel n (at b x 0 d) b _ 11 (suc d) (draws d % idx_base) ds more
              (consume-at_zero b x d)
              (fill-Ends fuel n (extended b (draws d % idx_base)) (draws d / idx_base) 11 (suc d) c
                (length-extended b (draws d % idx_base) n more)
                (rw (extended-letters b (draws d % idx_base) ds) enough) (omega arith))
        | no full ↦ done-Ends (suc fuel) n (at b x 0 d) _ (omega arith)
      ]
  fill-Ends (suc fuel) n b x (suc r) d c short enough fuelled =
      let ds = digits r (x / idx_base) ++ digits_from draws d c in
      elim (dec_lt (length b) n) [
        | yes more ↦
            round-Ends fuel n (at b x (suc r) d) b _ r d (x % idx_base) ds more (consume-at b x r d)
              (fill-Ends fuel n (extended b (x % idx_base)) (x / idx_base) r d c
                (length-extended b (x % idx_base) n more)
                (rw (extended-letters b (x % idx_base) ds) enough) (omega arith))
        | no full ↦ done-Ends (suc fuel) n (at b x (suc r) d) _ (omega arith)
      ]

-- String(n) returns: if `c` draws give at least `n` letters, then looking at their 12 * c digits is
-- enough, and the result is the first `n` letters of the digits of the draws.
pub random_string-letters :
    (draws : ℕ → ℕ) (fuel n drawn c : ℕ)
    → n ≤ length (letters (digits_from draws drawn c))
    → max_alphanums_per_int * c ≤ fuel
    → (l : Loop) × (random_string draws fuel n drawn ≡ some l)
      × (l.b ≡ take n (letters (digits_from draws drawn c)))
unfolding random_string digits_from
random_string-letters draws fuel zero drawn zero enough fuelled =
    done-Ends draws fuel 0 (start draws drawn) [] refl
random_string-letters draws fuel (suc n) drawn zero enough fuelled =
    absurd (unfold letters in omega arith)
random_string-letters draws fuel n drawn (suc c) enough fuelled =
    fill-Ends draws fuel n [] (draws drawn) max_alphanums_per_int (suc drawn) c (omega arith) enough
      (omega arith)

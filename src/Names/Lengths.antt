-- ===== src/Names/Lengths.antt =====
-- The length and the shape of generated names, and the generator that fills the interface.
use gokube.Prelude.{
  ℕ, zero, suc, [], ◌∷◌, refl, sym, ◌∙◌, ◌*◌, ◌≤◌, ◌<◌, ◌≡◌, ap, Text, ◌++◌, Option, none, some,
  true, false, length, take, length-append, length-take, arith, starts_with, starts_with-append,
  length_of_starts_with, Bool-cases, inl, inr,
}
use Prim.Native.Nat.{min}
use native.Mathlib.Decide.{dec_lt}
use gokube.Names.{
  truncate, generate_name, with_base, random_length, max_generated_name_length, max_name_length,
  max_alphanums_per_int, NameGenerator,
}
use gokube.Names.Digits.{digits_from, letters, random_string-letters}

length-truncate : (base : Text) → length (truncate base) ≤ max_generated_name_length
unfolding truncate
length-truncate base = elim (dec_lt max_generated_name_length (length base)) [
  | yes long ↦ ground (arith, length-take max_generated_name_length base)
  | no short ↦ ground arith
]

pub length-truncate-min :
    (base : Text) → length (truncate base) ≡ min max_generated_name_length (length base)
unfolding truncate
length-truncate-min base = elim (dec_lt max_generated_name_length (length base)) [
  | yes long ↦ ground (arith, length-take max_generated_name_length base)
  | no short ↦ ground arith
]

pub truncate_short : (base : Text) → length base ≤ max_generated_name_length → truncate base ≡ base
unfolding truncate
truncate_short base h = ground arith

take_all : (n : ℕ) (xs : Text) → length xs ≤ n → take n xs ≡ xs
take_all zero [] h = refl
take_all zero (x ∷ xs) h = absurd (omega (arith, h))
take_all (suc n) [] h = refl
take_all (suc n) (x ∷ xs) h = ap (λ ys. x ∷ ys) (take_all n xs (omega (arith, h)))

-- The base is cut to its first 58 bytes.
truncate-take : (base : Text) → truncate base ≡ take 58 base
unfolding truncate
truncate-take base = elim (dec_lt max_generated_name_length (length base)) [
  | yes long ↦ ground (arith, long)
  | no short ↦ ground (arith, short, take_all 58 base)
]

module _ (draws : ℕ → ℕ) (fuel drawn c : ℕ) where
  -- With draws that give five letters, and fuel for their digits, GenerateName returns the base,
  -- cut to 58 bytes, and a suffix of five letters, at most 63 bytes in all.
  pub generate_name-suffix :
      (base : Text)
      → random_length ≤ length (letters (digits_from draws drawn c))
      → max_alphanums_per_int * c ≤ fuel
      → (suffix : Text) × (g : ℕ) × (generate_name draws fuel base drawn
          ≡ some (take 58 base ++ suffix, g))
        × (suffix ≡ take 5 (letters (digits_from draws drawn c)))
        × (length suffix ≡ 5)
        × (length (take 58 base ++ suffix) ≤ 63)
  unfolding generate_name
  generate_name-suffix base enough fuelled =
      let (l, e, b) = random_string-letters draws fuel random_length drawn c enough fuelled in
      let five : length l.b ≡ random_length =
        rw b (omega (arith, length-take random_length (letters (digits_from draws drawn c)))) in
      (
        l.b,
        l.drawn,
        ap (with_base (truncate base)) e
            ∙ ap (λ (t : Text). some (t ++ l.b, l.drawn)) (truncate-take base),
        b,
        five,
        omega (arith, length-append (take 58 base) l.b, length-take 58 base),
      )

-- SimpleNameGenerator as a NameGenerator, for a source in which every `c` draws in a row give five
-- letters; its state is the number of draws taken.
abbrev IsRich : (ℕ → ℕ) → ℕ → Type 0
IsRich draws c = (drawn : ℕ) → random_length ≤ length (letters (digits_from draws drawn c))

abbrev or_base : Text → ℕ → Option (Text × ℕ) → Text × ℕ
or_base base drawn none = (base, drawn)
or_base base drawn (some r) = r

module _ (draws : ℕ → ℕ) (c : ℕ) (rich : IsRich draws c) where
  simple_generate : Text → ℕ → Text × ℕ
  simple_generate base drawn =
      or_base base drawn (generate_name draws (max_alphanums_per_int * c) base drawn)

  simple_generate-suffix :
      (base : Text) (drawn : ℕ)
      → (suffix : Text) × ((simple_generate base drawn).0 ≡ truncate base ++ suffix)
        × (length suffix ≡ random_length)
  unfolding simple_generate
  simple_generate-suffix base drawn =
      let (suffix, g, e, _, five, _) =
        generate_name-suffix draws (max_alphanums_per_int * c) drawn c base (rich drawn)
          (omega arith) in
      (
        suffix,
        ap (λ (o : Option (Text × ℕ)). (or_base base drawn o).0) e
            ∙ ap (λ t. t ++ suffix) (sym (truncate-take base)),
        five,
      )

  pub simple_name_generator : NameGenerator ℕ
  simple_name_generator = record {
    generate = simple_generate;
    generate_suffix = simple_generate-suffix;
  }

-- What every generator does with the name of an owner.
module _ {G : Type 0} (gen : NameGenerator G) (base : Text) (g : G) where
  -- A generated name begins with a base of at most 58 bytes.
  pub generate-starts_with :
      length base ≤ max_generated_name_length → starts_with base (gen.generate base g).0 ≡ true
  generate-starts_with short =
      let (suffix, e, _) = gen.generate_suffix base g in
      rw (e, truncate_short base short) (starts_with-append base suffix)

  -- A generated name has at most 63 bytes, and at least five.
  pub length-generate :
      (length (gen.generate base g).0 ≤ max_name_length)
      × (random_length ≤ length (gen.generate base g).0)
  length-generate =
      let (suffix, e, five) = gen.generate_suffix base g in
      rw e (
        omega (arith, length-append (truncate base) suffix, length-truncate base),
        omega (arith, length-append (truncate base) suffix),
      )

  -- A name generated from a base of more than 63 bytes does not begin with that base.
  pub generate_long :
      max_name_length < length base → starts_with base (gen.generate base g).0 ≡ false
  generate_long long = elim (Bool-cases (starts_with base (gen.generate base g).0)) [
    | inl t ↦
        absurd
          (omega (arith, length_of_starts_with base (gen.generate base g).0 t, length-generate))
    | inr f ↦ f
  ]

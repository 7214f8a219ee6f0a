-- ===== src/Names.antt =====
-- pkg/registry/names/generate.go: generated names. math/rand is a stream of non-negative 63-bit
-- numbers, of which each call of `Int63` takes the next one. The loop of String runs until enough
-- digits are accepted, so it takes fuel: the number of digits that it may look at.
pub mod Digits
pub mod Lengths
mod Examples
use gokube.Prelude.{
  ℕ, zero, suc, ◌+◌, ◌-◌, ◌*◌, ◌/◌, ◌%◌, Text, codes, List, [], ◌∷◌, ◌++◌, Option, none, some, ltb,
  ◌==◌, length, take, get_or, if◌then◌else◌, ◌≡◌,
}

abbrev pub max_name_length : ℕ
max_name_length = 63

abbrev pub random_length : ℕ
random_length = 5

abbrev pub max_generated_name_length : ℕ
max_generated_name_length = max_name_length - random_length

abbrev pub alphanums : Text
alphanums = codes "bcdfghjklmnpqrstvwxz2456789"

-- alphanumsIdxMask + 1: `x & mask` is `x % 32`, and `x >>= bits` is `x / 32`.
abbrev pub idx_base : ℕ
idx_base = 32

abbrev pub max_alphanums_per_int : ℕ
max_alphanums_per_int = 63 / 5

-- The variables of the loop: the bytes written so far, so that `i` is their number, the current
-- number with the digits it has left, and how many numbers have been drawn.
pub record Loop : Type 0 where
  pub b : Text
  pub random : ℕ
  pub remaining : ℕ
  pub drawn : ℕ

-- The rest of the loop's body: look at the lowest digit, and shift.
unfoldable pub consume : Loop → Loop
consume l =
    let idx = l.random % idx_base in
    record l {
      b = if ltb idx (length alphanums) then l.b ++ get_or alphanums idx 0 ∷ [] else l.b;
      random = l.random / idx_base;
      remaining = l.remaining - 1;
    }

module _ (draws : ℕ → ℕ) where
  unfoldable pub refill : Loop → Loop
  refill l =
      if l.remaining == 0
      then record l {
        random = draws l.drawn;
        remaining = max_alphanums_per_int;
        drawn = suc l.drawn;
      }
      else l

  unfoldable pub fill : ℕ → ℕ → Loop → Option Loop
  unfolding refill consume
  fill zero n l = if ltb (length l.b) n then none else some l
  fill (suc fuel) n l =
      let rest = fill fuel n (consume (refill l)) in if ltb (length l.b) n then rest else some l

  abbrev pub start : ℕ → Loop
  start drawn = record {
    b = [];
    random = draws drawn;
    remaining = max_alphanums_per_int;
    drawn = suc drawn;
  }

  -- String(n), when `drawn` numbers have been taken before; `none` means that the fuel ran out.
  unfoldable pub random_string : ℕ → ℕ → ℕ → Option Loop
  unfolding fill
  random_string fuel n drawn = fill fuel n (start drawn)

-- `if len(base) > MaxGeneratedNameLength { base = base[:MaxGeneratedNameLength] }`
unfoldable pub truncate : Text → Text
truncate base =
    if ltb max_generated_name_length (length base)
    then take max_generated_name_length base
    else base

-- The result of GenerateName: the text and the number of draws taken so far.
abbrev pub with_base : Text → Option Loop → Option (Text × ℕ)
with_base base none = none
with_base base (some l) = some (base ++ l.b, l.drawn)

-- GenerateName of SimpleNameGenerator.
unfoldable pub generate_name : (ℕ → ℕ) → ℕ → Text → ℕ → Option (Text × ℕ)
unfolding random_string truncate
generate_name draws fuel base drawn =
    with_base (truncate base) (random_string draws fuel random_length drawn)

-- The interface NameGenerator, over the generator's own state `G`, and what SimpleNameGenerator
-- says of it: the base, cut to 58 bytes, and a suffix of five.
pub record NameGenerator (G : Type 0) : Type 0 where
  pub generate : Text → G → Text × G
  pub generate_suffix :
      (base : Text) (g : G)
      → (suffix : Text) × ((generate base g).0 ≡ truncate base ++ suffix)
        × (length suffix ≡ random_length)

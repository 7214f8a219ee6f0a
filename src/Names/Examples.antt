-- ===== src/Names/Examples.antt =====
-- Generated names on a source whose every number is 1, whose twelve digits are c b b b and so on.
use gokube.Prelude.{ℕ, Text, codes, ◌≡◌, ◌≤◌, ◌++◌, some, length, take, arith}
use gokube.Names.{Loop, random_string, generate_name}
use gokube.Names.Digits.{digits, digits_from, letters, random_string-letters}
use gokube.Names.Lengths.{generate_name-suffix}

abbrev ones : ℕ → ℕ
ones _ = 1

enough : 5 ≤ length (letters (digits_from ones 0 1))
unfolding digits_from digits letters
enough = omega arith

random_string-letters_example :
    (l : Loop) × (random_string ones 12 5 0 ≡ some l)
    × (l.b ≡ take 5 (letters (digits_from ones 0 1)))
random_string-letters_example = random_string-letters ones 12 5 0 1 enough (omega arith)

generate_name-suffix_example :
    (suffix : Text) × (g : ℕ) × (generate_name ones 12 (codes "rs") 0
      ≡ some (take 58 (codes "rs") ++ suffix, g))
    × (suffix ≡ take 5 (letters (digits_from ones 0 1)))
    × (length suffix ≡ 5)
    × (length (take 58 (codes "rs") ++ suffix) ≤ 63)
generate_name-suffix_example = generate_name-suffix ones 12 0 1 (codes "rs") enough (omega arith)

abbrev long_name : Text
long_name = codes "a-replica-set-whose-name-takes-all-of-the-sixty-three-bytes-and-more"

-- ===== src/Prelude/Strings.antt =====
-- A Go string is a sequence of bytes. `text_eq` is `==` on strings, `starts_with` is
-- strings.HasPrefix.
use Prim.Native.Nat.{ℕ, ◌≤◌}
use Prim.Native.Char.{code}
use Prim.Native.String.{String}
use mathlib.Core.Path.{◌≡◌, refl}
use mathlib.Core.Logic.{◌↔◌, ◌≢◌}
use mathlib.Core.Bool.{Bool, true, false, ◌&&◌}
use mathlib.Core.List.{List, [], ◌∷◌, ◌++◌}
use native.Mathlib.Omega.{arith}
use gokube.Prelude.Tests.{◌==◌}
use gokube.Prelude.Lists.{length}

abbrev pub Text : Type 0
Text = List ℕ

-- A literal of the source. All of them are ASCII, so a character is one byte.
abbrev pub codes : String → Text
codes String.[] = []
codes (String.◌∷◌ c s) = code c ∷ codes s

unfoldable pub text_eq : Text → Text → Bool
text_eq [] [] = true
text_eq [] (y ∷ ys) = false
text_eq (x ∷ xs) [] = false
text_eq (x ∷ xs) (y ∷ ys) = x == y && text_eq xs ys

unfoldable pub starts_with : Text → Text → Bool
starts_with [] ys = true
starts_with (x ∷ xs) [] = false
starts_with (x ∷ xs) (y ∷ ys) = x == y && starts_with xs ys

pub text_eq_refl : (t : Text) → text_eq t t ≡ true
unfolding text_eq
text_eq_refl [] = refl
text_eq_refl (x ∷ xs) = ground (arith, text_eq_refl xs)

pub eq_of_text_eq : (s t : Text) → text_eq s t ≡ true → s ≡ t
unfolding text_eq
eq_of_text_eq [] [] h = refl
eq_of_text_eq [] (y ∷ ys) h = cc
eq_of_text_eq (x ∷ xs) [] h = cc
eq_of_text_eq (x ∷ xs) (y ∷ ys) h = ground (arith, eq_of_text_eq xs ys)

pub text_eq_iff : (s t : Text) → (text_eq s t ≡ true) ↔ (s ≡ t)
text_eq_iff s t = (eq_of_text_eq s t, λ e. rw e (text_eq_refl t))

pub text_eq_ne : (s t : Text) → s ≢ t → text_eq s t ≡ false
text_eq_ne s t h = ground (arith, text_eq_iff s t)

pub starts_with-append : (p t : Text) → starts_with p (p ++ t) ≡ true
unfolding starts_with
starts_with-append [] t = refl
starts_with-append (x ∷ xs) t = ground (arith, starts_with-append xs t)

-- A text with the prefix `p` is `p` and a rest.
pub starts_with-split : (p t : Text) → starts_with p t ≡ true → (r : Text) × (t ≡ p ++ r)
unfolding starts_with
starts_with-split [] t h = (t, refl)
starts_with-split (x ∷ xs) [] h = cc
starts_with-split (x ∷ xs) (y ∷ ys) h =
    let h' : (x ≡ y) × (starts_with xs ys ≡ true) = ground arith in
    let (r, e) = starts_with-split xs ys h'.1 in (r, cc)

pub length_of_starts_with : (p t : Text) → starts_with p t ≡ true → length p ≤ length t
unfolding starts_with
length_of_starts_with [] t h = omega arith
length_of_starts_with (x ∷ xs) [] h = cc
length_of_starts_with (x ∷ xs) (y ∷ ys) h = ground (arith, length_of_starts_with xs ys)

pub append_cancel : (p s t : Text) → p ++ s ≡ p ++ t → s ≡ t
append_cancel [] s t h = h
append_cancel (x ∷ xs) s t h = append_cancel xs s t (ground arith)

pub starts_with_trans :
    (p q t : Text) → starts_with p q ≡ true → starts_with q t ≡ true → starts_with p t ≡ true
unfolding starts_with
starts_with_trans [] q t h k = refl
starts_with_trans (x ∷ xs) [] t h k = cc
starts_with_trans (x ∷ xs) (y ∷ ys) [] h k = cc
starts_with_trans (x ∷ xs) (y ∷ ys) (z ∷ zs) h k = ground (arith, starts_with_trans xs ys zs)

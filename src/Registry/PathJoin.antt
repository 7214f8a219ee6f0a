-- ===== src/Registry/PathJoin.antt =====
-- path.Join of Go's standard library, as NodeRegistry calls it: a first element that begins with a
-- slash, and a second one that may be empty. Join puts a slash between the elements that are not
-- empty and cleans the result: empty and `.` components go, and `..` takes the component before it.
use gokube.Prelude.{
  ℕ, Text, codes, text_eq, ◌||◌, List, [], ◌∷◌, ◌++◌, ◌==◌, if◌then◌else◌, ◌≡◌, ◌≢◌, refl, All,
  arith,
}
use mathlib.Core.List.{reverse}

abbrev pub slash : ℕ
slash = b'/'

abbrev pub onto_first : ℕ → List Text → List Text
onto_first c [] = (c ∷ []) ∷ []
onto_first c (t ∷ ts) = (c ∷ t) ∷ ts

-- The components between the slashes.
unfoldable pub split : Text → List Text
split [] = [] ∷ []
split (c ∷ cs) = let rest = split cs in if c == slash then [] ∷ rest else onto_first c rest

abbrev pub drop_last : List Text → List Text
drop_last [] = []
drop_last (t ∷ ts) = ts

-- The components kept so far, the last one first.
unfoldable pub enter : List Text → Text → List Text
enter out c =
    if text_eq c [] || text_eq c (codes ".")
    then out
    else if text_eq c (codes "..")
    then drop_last out
    else c ∷ out

unfoldable pub resolve : List Text → List Text → List Text
unfolding enter
resolve out [] = reverse out
resolve out (c ∷ cs) = resolve (enter out c) cs

abbrev pub with_slashes : List Text → Text
with_slashes [] = []
with_slashes (c ∷ cs) = slash ∷ c ++ with_slashes cs

abbrev pub or_root : Text → Text
or_root [] = slash ∷ []
or_root t = t

-- path.Clean of a path that begins with a slash.
unfoldable pub clean : Text → Text
unfolding resolve split
clean p = or_root (with_slashes (resolve [] (split p)))

unfoldable pub join : Text → Text → Text
unfolding clean
join dir name = if text_eq name [] then clean dir else clean (dir ++ slash ∷ name)

-- A name that is one component and stays one.
pub record IsPlain (t : Text) : Type 0 where
  pub no_slash : All (λ c. c ≢ slash) t
  pub some_byte : t ≢ []
  pub not_dot : t ≢ codes "."
  pub not_dots : t ≢ codes ".."

pub split-no_slash : (t : Text) → All (λ c. c ≢ slash) t → split t ≡ t ∷ []
unfolding split
split-no_slash [] h = refl
split-no_slash (c ∷ cs) h = ground (arith, split-no_slash cs h.1)

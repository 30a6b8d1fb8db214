-- ===== src/PathName.antt =====
-- src/std/c_path.c: the directory and the last component of a path, a list of bytes.
pub mod Parts
pub mod Split
pub mod Template
pub mod Uri
use ocsync.Base.{
  Option, false, none, some, ltb, true, ◌&&◌, ◌+◌, ◌-◌, ◌*◌, ◌/◌, ◌%◌, ◌^◌, ◌++◌, take, ℕ, ◌==◌,
  Bool, not, List, [], ◌∷◌, if◌then◌else◌, drop, length,
}

abbrev pub slash : ℕ
slash = b'/'

abbrev pub is_slash : ℕ → Bool
is_slash c = c == slash

abbrev pub not_slash : ℕ → Bool
not_slash c = not (c == slash)

-- `while (len > 0 && p(path[len - 1])) --len;`: the prefix that is left
unfoldable pub drop_trailing : (ℕ → Bool) → List ℕ → List ℕ
drop_trailing p [] = []
drop_trailing p (x ∷ xs) = elim (drop_trailing p xs) [
  | [] ↦ if p x then [] else x ∷ []
  | y ∷ ys ↦ x ∷ y ∷ ys
]

abbrev pub dot : List ℕ
dot = b'.' ∷ []

-- The end of `c_dirname`: `front` is the path up to and with the last slash before its name.
abbrev pub dirname_of_front : List ℕ → List ℕ
dirname_of_front [] = dot
dirname_of_front (c ∷ []) = slash ∷ []
dirname_of_front (c ∷ d ∷ cs) = drop_trailing is_slash (c ∷ d ∷ cs)

abbrev pub dirname_of_trimmed : List ℕ → List ℕ
dirname_of_trimmed [] = slash ∷ []
dirname_of_trimmed (c ∷ cs) = dirname_of_front (drop_trailing not_slash (c ∷ cs))

unfoldable pub c_dirname : List ℕ → List ℕ
unfolding drop_trailing
c_dirname [] = dot
c_dirname (c ∷ cs) = dirname_of_trimmed (drop_trailing is_slash (c ∷ cs))

-- The end of `c_basename` for a path and its front: with no slash before the name the path itself
-- is returned, its trailing slashes included.
abbrev pub basename_of_front : List ℕ → List ℕ → List ℕ
basename_of_front path [] = path
basename_of_front path (c ∷ cs) = drop_trailing is_slash (drop (length (c ∷ cs)) path)

abbrev pub basename_of_trimmed : List ℕ → List ℕ → List ℕ
basename_of_trimmed path [] = slash ∷ []
basename_of_trimmed path (c ∷ cs) = basename_of_front path (drop_trailing not_slash (c ∷ cs))

unfoldable pub c_basename : List ℕ → List ℕ
unfolding drop_trailing
c_basename [] = dot
c_basename (c ∷ cs) = basename_of_trimmed (c ∷ cs) (drop_trailing is_slash (c ∷ cs))

-- the six random digits of `c_tmpname`, of which number `i` is made of the bits from `5 * i` on
abbrev pub tmp_digit : ℕ → ℕ
tmp_digit d = if ltb 9 d then d + b'a' - 10 else d + b'0'

unfoldable pub tmp_digits : (i : ℕ) → (rands : List ℕ) → List ℕ
tmp_digits i [] = []
tmp_digits i (r ∷ rs) = tmp_digit (r / 2 ^ (i * 5) % 32) ∷ tmp_digits (i + 1) rs

abbrev pub is_x : ℕ → Bool
is_x c = c == b'X'

abbrev pub all_x : List ℕ → Bool
all_x [] = true
all_x (c ∷ cs) = is_x c && all_x cs

abbrev pub is_template : List ℕ → Bool
is_template template =
    if ltb (length template) 6 then false else all_x (drop (length template - 6) template)

-- the template with its last six bytes replaced; `rands` are the values of the six calls of `rand`
unfoldable pub fill_template : (rands : List ℕ) → (template : List ℕ) → List ℕ
unfolding tmp_digits
fill_template rands template = take (length template - 6) template ++ tmp_digits 0 rands

unfoldable pub c_tmpname : (rands : List ℕ) → (template : List ℕ) → Option (List ℕ)
c_tmpname rands template =
    if is_template template then some (fill_template rands template) else none

-- ===== src/PathName/Split.antt =====
-- src/std/c_path.c, `c_split_path`: the directory, the name and the extension of a path.
use ocsync.Base.{
  ℕ, ◌==◌, ◌≡◌, refl, ◌∙◌, ap, Bool, true, false, Option, none, some, List, [], ◌∷◌, ◌++◌,
  if◌then◌else◌, append_assoc, append-nil,
}
use ocsync.PathName.{is_slash}

abbrev is_dot : ℕ → Bool
is_dot c = c == b'.'

abbrev is_tilde : ℕ → Bool
is_tilde c = c == b'~'

-- what precedes the last byte that satisfies `p`, that byte, and what follows
unfoldable pub split_last : (ℕ → Bool) → List ℕ → Option (List ℕ × ℕ × List ℕ)
split_last p [] = none
split_last p (x ∷ xs) = elim (split_last p xs) [
  | some (before, c, rest) ↦ some (x ∷ before, c, rest)
  | none ↦ if p x then some ([], x, xs) else none
]

pub record PathInfo : Type 0 where
  pub directory : List ℕ
  pub filename : List ℕ
  pub extension : List ℕ

-- the last byte of a name of two bytes at least, where it is a tilde
abbrev split_tilde : (before : List ℕ) → List ℕ → List ℕ × List ℕ
split_tilde before [] = (before, [])
split_tilde before (c ∷ []) = if is_tilde c then (before, c ∷ []) else (before ++ c ∷ [], [])
split_tilde before (c ∷ d ∷ cs) = split_tilde (before ++ c ∷ []) (d ∷ cs)

-- the name and the extension of a last component, of which the first byte is always in the name
unfoldable pub split_extension : List ℕ → List ℕ × List ℕ
unfolding split_last
split_extension [] = ([], [])
split_extension (c ∷ cs) = elim (split_last is_dot cs) [
  | some (before, d, rest) ↦ (c ∷ before, d ∷ rest)
  | none ↦ split_tilde (c ∷ []) cs
]

abbrev path_info : (directory component : List ℕ) → PathInfo
unfolding split_extension
path_info dir name = record {
  directory = dir;
  filename = (split_extension name).0;
  extension = (split_extension name).1;
}

unfoldable pub c_split_path : List ℕ → PathInfo
unfolding split_last split_extension
c_split_path path = elim (split_last is_slash path) [
  | none ↦ path_info [] path
  | some (before, c, rest) ↦ path_info (before ++ c ∷ []) rest
]

abbrev Splits : List ℕ → Option (List ℕ × ℕ × List ℕ) → Type 0
Splits xs none = Unit
Splits xs (some (before, c, rest)) = before ++ c ∷ rest ≡ xs

split_last-Splits : (p : ℕ → Bool) (xs : List ℕ) → Splits xs (split_last p xs)
unfolding split_last
split_last-Splits p [] = tt
split_last-Splits p (x ∷ xs) = step (split_last p xs) (split_last-Splits p xs)
  where
    step :
        (o : Option (List ℕ × ℕ × List ℕ))
        → Splits xs o
        → Splits (x ∷ xs) (elim o [
          | some (before, c, rest) ↦ some (x ∷ before, c, rest)
          | none ↦ if p x then some ([], x, xs) else none
        ])
    step (some (before, c, rest)) h = ap (λ ys. x ∷ ys) h
    step none h = at_once (p x)
      where
        at_once : (b : Bool) → Splits (x ∷ xs) (if b then some ([], x, xs) else none)
        at_once true = refl
        at_once false = tt

abbrev Whole : List ℕ → List ℕ × List ℕ → Type 0
Whole xs parts = parts.0 ++ parts.1 ≡ xs

tilde_whole :
    (before xs : List ℕ) → (split_tilde before xs).0 ++ (split_tilde before xs).1 ≡ before ++ xs
tilde_whole before [] = refl
tilde_whole before (c ∷ []) = choose (is_tilde c)
  where
    choose :
        (b : Bool)
        → Whole (before ++ c ∷ []) (if b then (before, c ∷ []) else (before ++ c ∷ [], []))
    choose true = refl
    choose false = append-nil (before ++ c ∷ [])
tilde_whole before (c ∷ d ∷ cs) =
    tilde_whole (before ++ c ∷ []) (d ∷ cs) ∙ append_assoc before (c ∷ []) (d ∷ cs)

extension_whole : (xs : List ℕ) → (split_extension xs).0 ++ (split_extension xs).1 ≡ xs
unfolding split_extension
extension_whole [] = refl
extension_whole (c ∷ cs) = step (split_last is_dot cs) (split_last-Splits is_dot cs)
  where
    step :
        (o : Option (List ℕ × ℕ × List ℕ))
        → Splits cs o
        → Whole (c ∷ cs) (elim o [
          | some (before, d, rest) ↦ (c ∷ before, d ∷ rest)
          | none ↦ split_tilde (c ∷ []) cs
        ])
    step none h = tilde_whole (c ∷ []) cs
    step (some (before, d, rest)) h = ap (λ ys. c ∷ ys) h

-- The three parts of a path, put together, are the path.
pub c_split_path_whole :
    (path : List ℕ)
    → (c_split_path path).directory
        ++ ((c_split_path path).filename ++ (c_split_path path).extension)
      ≡ path
unfolding c_split_path
c_split_path_whole path = step (split_last is_slash path) (split_last-Splits is_slash path)
  where
    parts : Option (List ℕ × ℕ × List ℕ) → PathInfo
    parts o = elim o [
      | none ↦ path_info [] path
      | some (before, c, rest) ↦ path_info (before ++ c ∷ []) rest
    ]

    step :
        (o : Option (List ℕ × ℕ × List ℕ))
        → Splits path o
        → (parts o).directory ++ ((parts o).filename ++ (parts o).extension) ≡ path
    step none h = extension_whole path
    step (some (before, c, rest)) h =
        ap (λ ys. (before ++ c ∷ []) ++ ys) (extension_whole rest)
        ∙ append_assoc before (c ∷ []) rest
        ∙ h

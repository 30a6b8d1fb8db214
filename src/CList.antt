-- ===== src/CList.antt =====
-- src/std/c_list.c: the doubly linked list, by the data of its elements from the first one on. The
-- `prev` links mirror the `next` links; `c_list_alloc` is taken to return memory.
pub mod Sort
use ocsync.Base.{
  ℕ, zero, suc, ◌+◌, ◌%◌, ◌^◌, Ordering, lt, eq, gt, Option, none, some, List, [], ◌∷◌, ◌++◌,
  length, ℤ, pos, negsuc,
}

module _ {ℓ} {A : Type ℓ} where
  unfoldable pub c_list_append : List A → A → List A
  c_list_append xs x = xs ++ x ∷ []

  unfoldable pub c_list_prepend : List A → A → List A
  c_list_prepend xs x = x ∷ xs

  -- before the element at a position, which the list has
  insert_before : List A → A → ℕ → List A
  unfolding c_list_append
  insert_before [] x n = x ∷ []
  insert_before (y ∷ ys) x zero = x ∷ y ∷ ys
  insert_before (y ∷ ys) x (suc n) = y ∷ insert_before ys x n

  -- With no such position, the element is appended.
  unfoldable pub c_list_insert : List A → A → (position : ℤ) → List A
  unfolding insert_before c_list_append
  c_list_insert xs x (negsuc n) = c_list_append xs x
  c_list_insert xs x (pos n) = insert_before xs x n

  unfoldable pub c_list_length : List A → ℕ
  c_list_length [] = 0
  c_list_length (x ∷ xs) = (c_list_length xs + 1) % 2 ^ 64

  -- the list from the element at a position on
  unfoldable pub c_list_position : List A → (position : ℤ) → List A
  c_list_position xs (negsuc n) = xs
  c_list_position [] (pos n) = []
  c_list_position (x ∷ xs) (pos zero) = x ∷ xs
  c_list_position (x ∷ xs) (pos (suc n)) = c_list_position xs (pos n)

  module _ (fn : A → A → Ordering) where
    -- the list from the first element on that compares equal
    unfoldable pub c_list_find_custom : List A → A → List A
    c_list_find_custom [] x = []
    c_list_find_custom (y ∷ ys) x =
        let rest = c_list_find_custom ys x in elim (fn y x) [ eq ↦ y ∷ ys | _ ↦ rest ]

    unfoldable pub c_list_insert_sorted : List A → A → List A
    c_list_insert_sorted [] x = x ∷ []
    c_list_insert_sorted (y ∷ ys) x =
        let rest = c_list_insert_sorted ys x in elim (fn x y) [ gt ↦ y ∷ rest | _ ↦ x ∷ y ∷ ys ]

    unfoldable pub c_list_merge : List A → List A → List A
    c_list_merge [] ys = ys
    c_list_merge (x ∷ xs) [] = x ∷ xs
    c_list_merge (x ∷ xs) (y ∷ ys) = elim (fn x y) [
      | gt ↦ y ∷ c_list_merge (x ∷ xs) ys
      | _ ↦ x ∷ c_list_merge xs (y ∷ ys)
    ]

    -- what stays in the list, and the second list
    unfoldable pub c_list_split : List A → List A × List A
    c_list_split [] = ([], [])
    c_list_split (x ∷ []) = (x ∷ [], [])
    c_list_split (x ∷ y ∷ zs) = let (first, second) = c_list_split zs in (x ∷ first, y ∷ second)

    -- the recursion, with fuel
    unfoldable pub sort_within : (fuel : ℕ) → List A → List A
    unfolding c_list_split c_list_merge
    sort_within fuel [] = []
    sort_within fuel (x ∷ []) = x ∷ []
    sort_within zero (x ∷ y ∷ zs) = x ∷ y ∷ zs
    sort_within (suc fuel) (x ∷ y ∷ zs) =
        let (first, second) = c_list_split (x ∷ y ∷ zs) in
        c_list_merge (sort_within fuel first) (sort_within fuel second)

    -- with as much fuel as the list has elements
    unfoldable pub c_list_sort : List A → List A
    unfolding sort_within
    c_list_sort xs = sort_within (length xs) xs

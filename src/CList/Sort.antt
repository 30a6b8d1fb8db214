-- ===== src/CList/Sort.antt =====
-- The merge sort and the sorted insertion of src/std/c_list.c.
use ocsync.Base.{
  ℕ, zero, suc, ◌+◌, ◌≤◌, Ordering, gt, true, false, ap, Bool, ◌≡◌, refl, List, [], ◌∷◌, length,
  All, All-imp, arith, if◌then◌else◌, Ordering-cases, inl, inr,
}
use ocsync.CList.{c_list_insert_sorted, c_list_merge, c_list_split, sort_within, c_list_sort}

-- what a comparison function says by a result that is not positive
abbrev pub is_le : Ordering → Bool
is_le gt = false
is_le _ = true

-- A total order, in which different elements may compare equal.
pub record IsOrder {A : Type 0} (fn : A → A → Ordering) : Type 0 where
  pub total : (x y : A) → is_le (fn x y) ≡ false → is_le (fn y x) ≡ true
  pub trans : (x y z : A) → is_le (fn x y) ≡ true → is_le (fn y z) ≡ true → is_le (fn x z) ≡ true

module _ {A : Type 0} where
  -- how many elements pass a test
  abbrev pub count : (A → Bool) → List A → ℕ
  count p [] = 0
  count p (x ∷ xs) = (if p x then 1 else 0) + count p xs

  abbrev pub Sorted : (A → A → Ordering) → List A → Type 0
  Sorted fn [] = Unit
  Sorted fn (x ∷ xs) = All (λ y. is_le (fn x y) ≡ true) xs × Sorted fn xs

  count-split :
      (p : A → Bool) (fn : A → A → Ordering) (xs : List A)
      → count p (c_list_split fn xs).0 + count p (c_list_split fn xs).1 ≡ count p xs
  unfolding c_list_split
  count-split p fn [] = refl
  count-split p fn (x ∷ []) = omega arith
  count-split p fn (x ∷ y ∷ zs) = omega (arith, count-split p fn zs)

  length-split :
      (fn : A → A → Ordering) (xs : List A)
      → (length (c_list_split fn xs).0 ≤ length xs) × (length (c_list_split fn xs).1 ≤ length xs)
  unfolding c_list_split
  length-split fn [] = (omega arith, omega arith)
  length-split fn (x ∷ []) = (omega arith, omega arith)
  length-split fn (x ∷ y ∷ zs) = let r = length-split fn zs in (omega arith, omega arith)

  count-merge :
      (p : A → Bool) (fn : A → A → Ordering) (xs ys : List A)
      → count p (c_list_merge fn xs ys) ≡ count p xs + count p ys
  unfolding c_list_merge
  count-merge p fn [] ys = omega arith
  count-merge p fn (x ∷ xs) [] = omega arith
  count-merge p fn (x ∷ xs) (y ∷ ys) =
      let a = count-merge p fn xs (y ∷ ys) in let b = count-merge p fn (x ∷ xs) ys in ground arith

  All-merge :
      (P : A → Type 0) (fn : A → A → Ordering) (xs ys : List A)
      → All P xs
      → All P ys
      → All P (c_list_merge fn xs ys)
  unfolding c_list_merge
  All-merge P fn [] ys h k = k
  All-merge P fn (x ∷ xs) [] h k = h
  All-merge P fn (x ∷ xs) (y ∷ ys) h k =
      let a = All-merge P fn xs (y ∷ ys) h.1 k in
      let b = All-merge P fn (x ∷ xs) ys h k.1 in
      elim (Ordering-cases (fn x y)) [
        | inl e ↦ rw (e, All) (h.0, a)
        | inr (inl e) ↦ rw (e, All) (h.0, a)
        | inr (inr e) ↦ rw (e, All) (k.0, b)
      ]

  count-sort_within :
      (p : A → Bool) (fn : A → A → Ordering) (fuel : ℕ) (xs : List A)
      → count p (sort_within fn fuel xs) ≡ count p xs
  unfolding sort_within
  count-sort_within p fn fuel [] = refl
  count-sort_within p fn fuel (x ∷ []) = refl
  count-sort_within p fn zero (x ∷ y ∷ zs) = refl
  count-sort_within p fn (suc fuel) (x ∷ y ∷ zs) =
      let halves = c_list_split fn (x ∷ y ∷ zs) in
      let a = count-sort_within p fn fuel halves.0 in
      let b = count-sort_within p fn fuel halves.1 in
      let m = count-merge p fn (sort_within fn fuel halves.0) (sort_within fn fuel halves.1) in
      let s = count-split p fn (x ∷ y ∷ zs) in ground arith

  module _ (fn : A → A → Ordering) (order : IsOrder fn) where
    below-All :
        (x y : A) (ys : List A)
        → is_le (fn x y) ≡ true
        → Sorted fn (y ∷ ys)
        → All (λ z. is_le (fn x z) ≡ true) (y ∷ ys)
    below-All x y ys le k =
        (le, All-imp {P = λ z. is_le (fn y z) ≡ true} (λ z h. order.trans x y z le h) ys k.0)

    left :
        (x : A) (xs : List A) (y : A) (ys : List A)
        → is_le (fn x y) ≡ true
        → Sorted fn (x ∷ xs)
        → Sorted fn (y ∷ ys)
        → All (λ z. is_le (fn x z) ≡ true) (c_list_merge fn xs (y ∷ ys))
    left x xs y ys le h k =
        All-merge (λ z. is_le (fn x z) ≡ true) fn xs (y ∷ ys) h.0 (below-All x y ys le k)

    right :
        (x : A) (xs : List A) (y : A) (ys : List A)
        → is_le (fn y x) ≡ true
        → Sorted fn (x ∷ xs)
        → Sorted fn (y ∷ ys)
        → All (λ z. is_le (fn y z) ≡ true) (c_list_merge fn (x ∷ xs) ys)
    right x xs y ys le h k =
        All-merge (λ z. is_le (fn y z) ≡ true) fn (x ∷ xs) ys (below-All y x xs le h) k.0

    merge-Sorted :
        (xs ys : List A) → Sorted fn xs → Sorted fn ys → Sorted fn (c_list_merge fn xs ys)
    unfolding c_list_merge
    merge-Sorted [] ys h k = k
    merge-Sorted (x ∷ xs) [] h k = h
    merge-Sorted (x ∷ xs) (y ∷ ys) h k =
        let a = merge-Sorted xs (y ∷ ys) h.1 k in
        let b = merge-Sorted (x ∷ xs) ys h k.1 in
        elim (Ordering-cases (fn x y)) [
          | inl e ↦
              let le : is_le (fn x y) ≡ true = ap is_le e in
              rw (e, Sorted) (left x xs y ys le h k, a)
          | inr (inl e) ↦
              let le : is_le (fn x y) ≡ true = ap is_le e in
              rw (e, Sorted) (left x xs y ys le h k, a)
          | inr (inr e) ↦
              let le : is_le (fn y x) ≡ true = order.total x y (ap is_le e) in
              rw (e, Sorted) (right x xs y ys le h k, b)
        ]

    sort_within-Sorted :
        (fuel : ℕ) (xs : List A) → length xs ≤ suc fuel → Sorted fn (sort_within fn fuel xs)
    unfolding sort_within
    sort_within-Sorted fuel [] h = tt
    sort_within-Sorted fuel (x ∷ []) h = (tt, tt)
    sort_within-Sorted zero (x ∷ y ∷ zs) h = absurd (omega arith)
    sort_within-Sorted (suc fuel) (x ∷ y ∷ zs) h =
        let halves = c_list_split fn (x ∷ y ∷ zs) in
        let r = length-split fn zs in
        merge-Sorted (sort_within fn fuel halves.0) (sort_within fn fuel halves.1)
          (sort_within-Sorted fuel halves.0 (omega (arith, h, r.0)))
          (sort_within-Sorted fuel halves.1 (omega (arith, h, r.1)))

    -- Where the comparison function is a total order, the sort returns the same elements in this order:
    -- each compares as not above any later one, and as many elements as before pass each test.
    pub c_list_sort-Sorted :
        (xs : List A)
        → Sorted fn (c_list_sort fn xs)
          × ((p : A → Bool) → count p (c_list_sort fn xs) ≡ count p xs)
    unfolding c_list_sort
    c_list_sort-Sorted xs = (
      sort_within-Sorted (length xs) xs (omega arith),
      λ p. count-sort_within p fn (length xs) xs,
    )

    All-insert :
        (P : A → Type 0) (xs : List A) (x : A)
        → All P xs
        → P x
        → All P (c_list_insert_sorted fn xs x)
    unfolding c_list_insert_sorted
    All-insert P [] x h k = (k, tt)
    All-insert P (y ∷ ys) x h k =
        let a = All-insert P ys x h.1 k in
        elim (Ordering-cases (fn x y)) [
          | inl e ↦ rw (e, All) (k, h)
          | inr (inl e) ↦ rw (e, All) (k, h)
          | inr (inr e) ↦ rw (e, All) (h.0, a)
        ]

    insert-Sorted : (xs : List A) (x : A) → Sorted fn xs → Sorted fn (c_list_insert_sorted fn xs x)
    unfolding c_list_insert_sorted
    insert-Sorted [] x h = (tt, tt)
    insert-Sorted (y ∷ ys) x h =
        let a = insert-Sorted ys x h.1 in
        elim (Ordering-cases (fn x y)) [
          | inl e ↦
              let le : is_le (fn x y) ≡ true = ap is_le e in
              rw (e, Sorted) (below-All x y ys le h, h)
          | inr (inl e) ↦
              let le : is_le (fn x y) ≡ true = ap is_le e in
              rw (e, Sorted) (below-All x y ys le h, h)
          | inr (inr e) ↦
              let le : is_le (fn y x) ≡ true = order.total x y (ap is_le e) in
              rw (e, Sorted) (All-insert (λ z. is_le (fn y z) ≡ true) ys x h.0 le, a)
        ]

    insert-count :
        (p : A → Bool) (xs : List A) (x : A)
        → count p (c_list_insert_sorted fn xs x) ≡ count p (x ∷ xs)
    unfolding c_list_insert_sorted
    insert-count p [] x = refl
    insert-count p (y ∷ ys) x = let a = insert-count p ys x in ground arith

    -- The sorted insertion into a sorted list adds the element and keeps the list sorted.
    pub c_list_insert_sorted-Sorted :
        (xs : List A) (x : A)
        → Sorted fn xs
        → Sorted fn (c_list_insert_sorted fn xs x)
          × ((p : A → Bool) → count p (c_list_insert_sorted fn xs x) ≡ count p (x ∷ xs))
    c_list_insert_sorted-Sorted xs x h = (insert-Sorted xs x h, λ p. insert-count p xs x)

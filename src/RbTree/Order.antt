-- ===== src/RbTree/Order.antt =====
-- Trees whose data ascends by a key, and searching them.
use ocsync.Base.{
  ℕ, suc, ◌<◌, compare, Ordering, ◌≡◌, refl, Option, none, some, List, [], ◌∷◌, ◌++◌, arith, ◌==◌,
  if◌then◌else◌, All, All-append, All-imp,
}
use ocsync.RbTree.{Tree, nil, node, subtree_find}
use ocsync.RbTree.InOrder.{to_list}

-- the first of two results
abbrev pub or_else {ℓ} : {A : Type ℓ} → Option A → Option A → Option A
or_else none p = p
or_else (some a) p = some a

module _ {ℓ} {D : Type ℓ} (key : D → ℕ) where
  -- the keys strictly ascend
  abbrev pub Ascends : List D → Type 0
  Ascends [] = Unit
  Ascends (x ∷ xs) = All (λ y. key x < key y) xs × Ascends xs

  abbrev pub AllBelow : ℕ → List D → Type 0
  AllBelow k xs = All (λ y. key y < k) xs

  abbrev pub AllAbove : ℕ → List D → Type 0
  AllAbove k xs = All (λ y. k < key y) xs

  -- the entry with a key, in a list
  abbrev pub search_list : ℕ → List D → Option D
  search_list k [] = none
  search_list k (x ∷ xs) = if k == key x then some x else search_list k xs

  pub All-left {κ} : (P : D → Type κ) (xs ys : List D) → All P (xs ++ ys) → All P xs
  All-left P [] ys h = tt
  All-left P (x ∷ xs) ys h = (h.0, All-left P xs ys h.1)

  pub All-right {κ} : (P : D → Type κ) (xs ys : List D) → All P (xs ++ ys) → All P ys
  All-right P [] ys h = h
  All-right P (x ∷ xs) ys h = All-right P xs ys h.1

  pub Ascends-split :
      (xs : List D) (y : D) (zs : List D)
      → Ascends (xs ++ y ∷ zs)
      → Ascends xs × AllBelow (key y) xs × AllAbove (key y) zs × Ascends zs
  Ascends-split [] y zs h = (tt, tt, h.0, h.1)
  Ascends-split (x ∷ xs) y zs h =
      let rest = Ascends-split xs y zs h.1 in
      let later = All-right (λ a. key x < key a) xs (y ∷ zs) h.0 in
      ((All-left _ xs (y ∷ zs) h.0, rest.0), (later.0, rest.1), rest.2, rest.3)

  pub Ascends-join :
      (xs : List D) (y : D) (zs : List D)
      → Ascends xs
      → AllBelow (key y) xs
      → AllAbove (key y) zs
      → Ascends zs
      → Ascends (xs ++ y ∷ zs)
  Ascends-join [] y zs a b c d = (c, d)
  Ascends-join (x ∷ xs) y zs a b c d = (
    All-append (λ w. key x < key w) xs (y ∷ zs) a.0
        (b.0, All-imp {P = λ w. key y < key w} (λ w p. omega arith) zs c),
    Ascends-join xs y zs a.1 b.1 c d,
  )

  pub Ascends-left : (xs ys : List D) → Ascends (xs ++ ys) → Ascends xs
  Ascends-left [] ys h = tt
  Ascends-left (x ∷ xs) ys h = (All-left _ xs ys h.0, Ascends-left xs ys h.1)

  pub Ascends-right : (xs ys : List D) → Ascends (xs ++ ys) → Ascends ys
  Ascends-right [] ys h = h
  Ascends-right (x ∷ xs) ys h = Ascends-right xs ys h.1

  pub search_list-append :
      (k : ℕ) (xs ys : List D)
      → search_list k (xs ++ ys) ≡ or_else (search_list k xs) (search_list k ys)
  search_list-append k [] ys = refl
  search_list-append k (x ∷ xs) ys = ground (arith, search_list-append k xs ys)

  pub search_list-AllBelow :
      (k j : ℕ) (xs : List D) → j < suc k → AllBelow j xs → search_list k xs ≡ none
  search_list-AllBelow k j [] le h = refl
  search_list-AllBelow k j (x ∷ xs) le h = ground (arith, search_list-AllBelow k j xs)

  pub search_list-AllAbove :
      (k j : ℕ) (xs : List D) → k < suc j → AllAbove j xs → search_list k xs ≡ none
  search_list-AllAbove k j [] le h = refl
  search_list-AllAbove k j (x ∷ xs) le h = ground (arith, search_list-AllAbove k j xs)

  -- The search of a tree whose keys ascend is the search of its sequence.
  pub find-search_list :
      (cmp : ℕ → D → Ordering) (law : (k : ℕ) (d : D) → cmp k d ≡ compare k (key d)) (k : ℕ)
      (t : Tree D)
      → Ascends (to_list t)
      → subtree_find cmp k t ≡ search_list k (to_list t)
  unfolding subtree_find
  find-search_list cmp law k nil s = refl
  find-search_list cmp law k (node c l d r) s =
      let parts = Ascends-split (to_list l) d (to_list r) s in
      rw search_list-append (
        ground (
          arith,
          law k d,
          find-search_list cmp law k l parts.0,
          find-search_list cmp law k r parts.3,
          search_list-AllBelow k (key d) (to_list l),
          search_list-AllAbove k (key d) (to_list r),
        ))

-- ===== src/RbTree/Build.antt =====
-- src/std/c_rbtree.c: a tree that is built by insertions, as the update detection builds one.
use ocsync.Base.{
  ℕ, ◌+◌, ◌*◌, ◌^◌, ◌≤◌, ◌==◌, ==_iff, arith, compare, true, ◌≡◌, refl, ap, ◌∙◌, Option, none, some,
  ℤ, List, [], ◌∷◌, length, if◌then◌else◌, inl, inr, Bool-cases, Option-cases,
}
use ocsync.RbTree.{RbTree, c_rbtree_create, c_rbtree_insert, c_rbtree_find}
use ocsync.RbTree.Depth.{depth, depth-IsValid}
use ocsync.RbTree.InOrder.{to_list}
use ocsync.RbTree.Insert.{IsValid, insert_absent, insert_present}

module _ {D : Type 0} where
  abbrev pub then_insert :
      (again : RbTree ℕ D → Option (RbTree ℕ D)) → Option (ℤ × RbTree ℕ D) → Option (RbTree ℕ D)
  then_insert again none = none
  then_insert again (some (rc, t)) = again t

  -- one insertion after the other, with memory for each node; `none` is a null pointer
  unfoldable pub insert_each : List D → RbTree ℕ D → Option (RbTree ℕ D)
  unfolding c_rbtree_insert
  insert_each [] t = some t
  insert_each (x ∷ xs) t = then_insert (insert_each xs) (c_rbtree_insert true t x)

module _ {D : Type 0} (key : D → ℕ) where
  -- what was there before, or else the first element with the key
  abbrev pub kept_or_first : Option D → ℕ → List D → Option D
  kept_or_first (some y) k xs = some y
  kept_or_first none k [] = none
  kept_or_first none k (x ∷ xs) =
      let rest = kept_or_first none k xs in if k == key x then some x else rest

  kept_or_first-added :
      (o : Option D) (k : ℕ) (x : D) (xs : List D)
      → (k == key x ≡ true → o ≡ none)
      → kept_or_first (if k == key x then some x else o) k xs ≡ kept_or_first o k (x ∷ xs)
  kept_or_first-added (some y) k x xs h = elim (Bool-cases (k == key x)) [
    | inl e ↦ absurd (cc (h e))
    | inr e ↦ rw (e) refl
  ]
  kept_or_first-added none k x xs h = elim (Bool-cases (k == key x)) [
    | inl e ↦ rw (e) refl
    | inr e ↦ rw (e) refl
  ]

  kept_or_first-kept :
      (o : Option D) (k : ℕ) (x y : D) (xs : List D)
      → (k == key x ≡ true → o ≡ some y)
      → kept_or_first o k xs ≡ kept_or_first o k (x ∷ xs)
  kept_or_first-kept (some z) k x y xs h = refl
  kept_or_first-kept none k x y xs h = elim (Bool-cases (k == key x)) [
    | inl e ↦ absurd (cc (h e))
    | inr e ↦ rw (e) refl
  ]

  record Built (xs : List D) (t t' : RbTree ℕ D) : Type 0 where
    valid : IsValid key t'
    finds : (k : ℕ) → c_rbtree_find t' k ≡ kept_or_first (c_rbtree_find t k) k xs
    within : length (to_list t'.root) ≤ length (to_list t.root) + length xs

  insert_each-Built :
      (xs : List D) (t : RbTree ℕ D)
      → IsValid key t
      → (t' : RbTree ℕ D) × (insert_each xs t ≡ some t') × Built xs t t'
  unfolding insert_each
  insert_each-Built [] t v =
      (t, refl, record { valid = v; finds = λ k. same (c_rbtree_find t k) k; within = omega arith })
    where
      same : (o : Option D) (k : ℕ) → o ≡ kept_or_first o k []
      same none k = refl
      same (some y) k = refl
  insert_each-Built (x ∷ xs) t v = elim (Option-cases (c_rbtree_find t (key x))) [
    | inl absent ↦
        let (t₁, inserted, added) = insert_absent key x t v absent in
        let (t', done, built) = insert_each-Built xs t₁ added.valid in
        (
          t',
          ap (then_insert (insert_each xs)) inserted ∙ done,
          record {
            valid = built.valid;
            finds = λ k.
                built.finds k
                ∙ ap (λ o. kept_or_first o k xs) (added.finds k)
                ∙ kept_or_first-added (c_rbtree_find t k) k x xs
                    (λ e. ap (c_rbtree_find t) ((==_iff k (key x)).0 e) ∙ absent);
            within = omega (arith, built.within, added.longer);
          },
        )
    | inr (y, found) ↦
        let kept = insert_present key true x t v found in
        let (t', done, built) = insert_each-Built xs t v in
        (
          t',
          ap (then_insert (insert_each xs)) kept ∙ done,
          record {
            valid = built.valid;
            finds = λ k.
                built.finds k
                ∙ kept_or_first-kept (c_rbtree_find t k) k x y xs
                    (λ e. ap (c_rbtree_find t) ((==_iff k (key x)).0 e) ∙ found);
            within = omega (arith, built.within);
          },
        )
  ]

  abbrev pub empty : RbTree ℕ D
  empty = c_rbtree_create (λ k d. compare k (key d)) (λ d e. compare (key d) (key e))

  empty-IsValid : IsValid key empty
  unfolding c_rbtree_create
  empty-IsValid = record {
    keyed = record { by_key = λ k d. refl; by_data = λ d e. refl };
    ascends = tt;
    balanced = (0, refl);
    root_black = refl;
    counted = refl;
  }

  -- Any elements can be inserted one after the other into an empty tree that compares by a key, with
  -- memory for each node. A search in the tree then finds the first of the elements that has its key,
  -- and no other, and the tree is shallow: for some `n` no path is longer than 2 * n, and there are
  -- at least 2 ^ n - 1 elements.
  pub insert_each_shallow :
      (xs : List D)
      → (t : RbTree ℕ D) × (insert_each xs empty ≡ some t)
        × ((k : ℕ) → c_rbtree_find t k ≡ kept_or_first none k xs)
        × ((n : ℕ) × (depth t.root ≤ 2 * n) × (2 ^ n ≤ length xs + 1))
  unfolding c_rbtree_create c_rbtree_find
  insert_each_shallow xs =
      let (t, done, built) = insert_each-Built xs empty empty-IsValid in
      let (n, small, full) = depth-IsValid key t built.valid in
      (t, done, built.finds, (n, small, omega (arith, full, built.within)))

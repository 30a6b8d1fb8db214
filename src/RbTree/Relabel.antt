-- ===== src/RbTree/Relabel.antt =====
-- Changes of the data of a tree's nodes that leave their keys.
use ocsync.Base.{
  ℕ, zero, suc, ◌≡◌, refl, ◌∙◌, ap, sym, List, [], ◌∷◌, map, arith, length, ◌==◌, if◌then◌else◌,
}
use mathlib.Core.Option
use ocsync.RbTree.{
  black, red, Tree, nil, node, RbTree, color_of, subtree_modify, modify_found, c_rbtree_find,
}
use ocsync.RbTree.InOrder.{to_list}
use ocsync.RbTree.Balance.{HasHeight}
use ocsync.RbTree.Insert.{IsValid}
use ocsync.RbTree.Walk.{SameShape, Ascends-keys, find-modify, modify-keys, modify-SameShape}

module _ {D : Type 0} where
  SameShape-color : (t u : Tree D) → SameShape t u → color_of u ≡ color_of t
  SameShape-color nil nil h = refl
  SameShape-color nil (node c l d r) h = absurd h
  SameShape-color (node c l d r) nil h = absurd h
  SameShape-color (node c l d r) (node c' l' d' r') h = h.0

  SameShape-HasHeight : (n : ℕ) (t u : Tree D) → SameShape t u → HasHeight n t → HasHeight n u
  SameShape-HasHeight n nil nil h b = b
  SameShape-HasHeight n nil (node c l d r) h b = absurd h
  SameShape-HasHeight n (node c l d r) nil h b = absurd h
  SameShape-HasHeight n (node red l d r) (node black l' d' r') h b = absurd (ground arith)
  SameShape-HasHeight n (node black l d r) (node red l' d' r') h b = absurd (ground arith)
  SameShape-HasHeight n (node red l d r) (node red l' d' r') h b = (
    SameShape-HasHeight n l l' h.1 b.0,
    SameShape-HasHeight n r r' h.2 b.1,
    SameShape-color l l' h.1 ∙ b.2,
    SameShape-color r r' h.2 ∙ b.3,
  )
  SameShape-HasHeight zero (node black l d r) (node black l' d' r') h b = b
  SameShape-HasHeight (suc n) (node black l d r) (node black l' d' r') h b =
      (SameShape-HasHeight n l l' h.1 b.0, SameShape-HasHeight n r r' h.2 b.1)

  length-keys : (key : D → ℕ) (xs ys : List D) → map key xs ≡ map key ys → length xs ≡ length ys
  length-keys key [] [] e = refl
  length-keys key [] (y ∷ ys) e = cc
  length-keys key (x ∷ xs) [] e = cc
  length-keys key (x ∷ xs) (y ∷ ys) e =
      let tails : map key xs ≡ map key ys = cc in ap suc (length-keys key xs ys tails)

module _ {D : Type 0} (key : D → ℕ) where
  pub IsValid-relabel :
      (t : RbTree ℕ D) (root : Tree D)
      → IsValid key t
      → map key (to_list root) ≡ map key (to_list t.root)
      → SameShape t.root root
      → IsValid key (record t { root = root })
  IsValid-relabel t root v e h = record {
    keyed = record { by_key = v.keyed.by_key; by_data = v.keyed.by_data };
    ascends = Ascends-keys key (to_list t.root) (to_list root) (sym e) v.ascends;
    balanced = (v.balanced.0, SameShape-HasHeight v.balanced.0 t.root root h v.balanced.1);
    root_black = SameShape-color t.root root h ∙ v.root_black;
    counted = rw (length-keys key (to_list root) (to_list t.root) e) (v.counted);
  }

  pub modify_found-IsValid :
      (t : RbTree ℕ D) (k : ℕ) (f : D → D)
      → ((d : D) → key (f d) ≡ key d)
      → IsValid key t
      → IsValid key (modify_found t k f)
  unfolding modify_found
  modify_found-IsValid t k f keeps v =
      IsValid-relabel t (subtree_modify t.key_compare k f t.root) v
        (modify-keys key t.key_compare v.keyed.by_key f keeps k t.root)
        (modify-SameShape key t.key_compare v.keyed.by_key f k t.root)

  -- a search after a write through the pointer found for `k`
  pub find-modify_found :
      (t : RbTree ℕ D) (j k : ℕ) (f : D → D)
      → ((d : D) → key (f d) ≡ key d)
      → IsValid key t
      → c_rbtree_find (modify_found t k f) j
        ≡ (if j == k then Option.map f (c_rbtree_find t k) else c_rbtree_find t j)
  unfolding modify_found c_rbtree_find
  find-modify_found t j k f keeps v =
      find-modify key t.key_compare v.keyed.by_key f keeps j k t.root

-- ===== src/PathName/Template.antt =====
-- src/std/c_path.c, `c_tmpname`: what is left of a template.
use ocsync.Base.{
  Bool-cases, Bool, inl, inr, ℕ, zero, suc, ◌+◌, ◌-◌, ◌*◌, ◌/◌, ◌%◌, ◌^◌, ◌≡◌, refl, sym, ◌∙◌, ap,
  List, [], ◌∷◌, ◌++◌, none, some, true, false, arith, length, length-append, take, drop, ltb,
  if◌then◌else◌, ◌≤◌,
}
use ocsync.PathName.{tmp_digit, tmp_digits, is_x, all_x, is_template, fill_template, c_tmpname}

length-tmp_digits : (i : ℕ) (rands : List ℕ) → length (tmp_digits i rands) ≡ length rands
unfolding tmp_digits
length-tmp_digits i [] = refl
length-tmp_digits i (r ∷ rs) = omega (arith, length-tmp_digits (i + 1) rs)

length-take : (n : ℕ) (xs : List ℕ) → n ≤ length xs → length (take n xs) ≡ n
length-take zero xs le = refl
length-take (suc n) [] le = omega (arith, le)
length-take (suc n) (x ∷ xs) le = omega (arith, length-take n xs (omega (arith, le)))

drop-append : (xs ys : List ℕ) → drop (length xs) (xs ++ ys) ≡ ys
drop-append [] ys = refl
drop-append (x ∷ xs) ys = drop-append xs ys

tmp_digit-is_x : (d : ℕ) → is_x (tmp_digit d) ≡ false
tmp_digit-is_x d = ground arith

digits-all_x : (r : ℕ) (rs : List ℕ) → all_x (tmp_digits 0 (r ∷ rs)) ≡ false
unfolding tmp_digits
digits-all_x r rs = rw (tmp_digit-is_x (r / 2 ^ (0 * 5) % 32)) refl

-- the last six bytes of what is filled in are the digits
drop-fill_template :
    (rands t : List ℕ)
    → length rands ≡ 6
    → 6 ≤ length t
    → drop (length (fill_template rands t) - 6) (fill_template rands t) ≡ tmp_digits 0 rands
unfolding fill_template
drop-fill_template rands t six le =
    let front = take (length t - 6) t in
    let digits = tmp_digits 0 rands in
    let n : length (front ++ digits) - 6 ≡ length front =
      omega (arith, length-append front digits, length-tmp_digits 0 rands, six) in
    ap (λ k. drop k (front ++ digits)) n ∙ drop-append front digits

at_least_six : (t : List ℕ) → is_template t ≡ true → 6 ≤ length t
at_least_six t e = ground arith

digits_not_all_x : (rands : List ℕ) → length rands ≡ 6 → all_x (tmp_digits 0 rands) ≡ false
digits_not_all_x [] six = cc
digits_not_all_x (r ∷ rs) six = digits-all_x r rs

filled_is_no_template :
    (rands t : List ℕ)
    → length rands ≡ 6
    → 6 ≤ length t
    → is_template (fill_template rands t) ≡ false
filled_is_no_template rands t six le =
    let tail = ap all_x (drop-fill_template rands t six le) ∙ digits_not_all_x rands six in
    elim (Bool-cases (ltb (length (fill_template rands t)) 6)) [
      | inl e ↦ rw (e) refl
      | inr e ↦ rw (e) tail
    ]

taken : (b : Bool) (x y : List ℕ) → (if b then some x else none) ≡ some y → (b ≡ true) × (x ≡ y)
taken true x y e = (refl, cc)
taken false x y e = absurd cc

-- What `c_tmpname` makes of a template is not a template: a second call on it fails.
pub c_tmpname_once :
    (rands rands' t t' : List ℕ)
    → length rands ≡ 6
    → c_tmpname rands t ≡ some t'
    → c_tmpname rands' t' ≡ none
unfolding c_tmpname
c_tmpname_once rands rands' t t' six e =
    let filled = taken (is_template t) (fill_template rands t) t' e in
    let no = filled_is_no_template rands t six (at_least_six t filled.0) in
    ap (λ u. if is_template u then some (fill_template rands' u) else none) (sym (filled.1))
    ∙ rw (no) refl

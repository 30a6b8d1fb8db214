-- ===== src/PathName/Parts.antt =====
-- `c_dirname` and `c_basename` of a path that has both.
use ocsync.Base.{
  ℕ, Bool, true, false, not, ◌≡◌, ◌≢◌, refl, ◌∙◌, sym, ap, List, [], ◌∷◌, ◌++◌, append_assoc, drop,
  length, All, All-append, arith,
}
use ocsync.PathName.{
  slash, is_slash, not_slash, drop_trailing, dirname_of_front, dirname_of_trimmed, c_dirname,
  basename_of_front, basename_of_trimmed, c_basename,
}

drop_trailing-All :
    (p : ℕ → Bool) (zs : List ℕ) → All (λ z. p z ≡ true) zs → drop_trailing p zs ≡ []
unfolding drop_trailing
drop_trailing-All p [] h = refl
drop_trailing-All p (z ∷ zs) h = rw (drop_trailing-All p zs h.1, h.0)

drop_trailing-cons :
    (p : ℕ → Bool) (x : ℕ) (xs : List ℕ)
    → drop_trailing p xs ≢ []
    → drop_trailing p (x ∷ xs) ≡ x ∷ drop_trailing p xs
unfolding drop_trailing
drop_trailing-cons p x xs h = ground arith

append-ne-nil : (xs : List ℕ) (y : ℕ) (zs : List ℕ) → xs ++ y ∷ zs ≢ []
append-ne-nil [] y zs = λ e. cc
append-ne-nil (x ∷ xs) y zs = λ e. cc

-- Trailing bytes that satisfy `p` are dropped, up to one that does not.
drop_trailing-append :
    (p : ℕ → Bool) (xs : List ℕ) (y : ℕ) (zs : List ℕ)
    → p y ≡ false
    → All (λ z. p z ≡ true) zs
    → drop_trailing p (xs ++ y ∷ zs) ≡ xs ++ y ∷ []
drop_trailing-append p [] y zs e h = unfold drop_trailing in rw (drop_trailing-All p zs h, e)
drop_trailing-append p (x ∷ xs) y zs e h =
    let rest = drop_trailing-append p xs y zs e h in
    drop_trailing-cons p x (xs ++ y ∷ zs) (rw rest (append-ne-nil xs y [])) ∙ ap (◌∷◌ x) rest

drop-length : (xs ys : List ℕ) → drop (length xs) (xs ++ ys) ≡ ys
drop-length [] ys = refl
drop-length (x ∷ xs) ys = drop-length xs ys

c_dirname_trimmed :
    (p : List ℕ) → p ≢ [] → c_dirname p ≡ dirname_of_trimmed (drop_trailing is_slash p)
unfolding c_dirname
c_dirname_trimmed [] h = absurd (h refl)
c_dirname_trimmed (x ∷ xs) h = refl

dirname_of_trimmed_front :
    (p : List ℕ) → p ≢ [] → dirname_of_trimmed p ≡ dirname_of_front (drop_trailing not_slash p)
dirname_of_trimmed_front [] h = absurd (h refl)
dirname_of_trimmed_front (x ∷ xs) h = refl

dirname_of_front_long :
    (d : List ℕ) (e : ℕ) (ys : List ℕ)
    → ys ≢ []
    → dirname_of_front (d ++ e ∷ ys) ≡ drop_trailing is_slash (d ++ e ∷ ys)
dirname_of_front_long [] e [] h = absurd (h refl)
dirname_of_front_long [] e (y ∷ ys) h = refl
dirname_of_front_long (x ∷ []) e ys h = refl
dirname_of_front_long (x ∷ z ∷ d) e ys h = refl

c_basename_trimmed :
    (p : List ℕ) → p ≢ [] → c_basename p ≡ basename_of_trimmed p (drop_trailing is_slash p)
unfolding c_basename
c_basename_trimmed [] h = absurd (h refl)
c_basename_trimmed (x ∷ xs) h = refl

basename_of_trimmed_front :
    (p t : List ℕ)
    → t ≢ []
    → basename_of_trimmed p t ≡ basename_of_front p (drop_trailing not_slash t)
basename_of_trimmed_front p [] h = absurd (h refl)
basename_of_trimmed_front p (x ∷ xs) h = refl

basename_of_front_long :
    (p f : List ℕ) → f ≢ [] → basename_of_front p f ≡ drop_trailing is_slash (drop (length f) p)
basename_of_front_long p [] h = absurd (h refl)
basename_of_front_long p (x ∷ xs) h = refl

-- A path with a directory `d ++ e ∷ []` that ends in no slash, some slashes, a component
-- `n ++ m ∷ []` with no slash, and trailing slashes.
module _ (d : List ℕ) (e : ℕ) (seps : List ℕ) (n : List ℕ) (m : ℕ) (trailing : List ℕ)
    (e_plain : is_slash e ≡ false) (seps_slash : All (λ c. is_slash c ≡ true) seps)
    (n_plain : All (λ c. not_slash c ≡ true) n) (m_plain : is_slash m ≡ false)
    (trailing_slash : All (λ c. is_slash c ≡ true) trailing) where
  abbrev front : List ℕ
  front = d ++ e ∷ (seps ++ slash ∷ [])

  abbrev path : List ℕ
  path = front ++ (n ++ m ∷ trailing)

  front-slash : (zs : List ℕ) → front ++ zs ≡ (d ++ e ∷ seps) ++ slash ∷ zs
  front-slash zs = simp append_assoc

  front-ne-nil : (zs : List ℕ) → front ++ zs ≢ []
  front-ne-nil zs = rw (front-slash zs) (append-ne-nil (d ++ e ∷ seps) slash zs)

  trimmed : drop_trailing is_slash path ≡ front ++ (n ++ m ∷ [])
  trimmed =
      ap (drop_trailing is_slash) (sym (append_assoc front n (m ∷ trailing)))
      ∙ (drop_trailing-append is_slash (front ++ n) m trailing m_plain trailing_slash
          ∙ append_assoc front n (m ∷ []))

  fronted : drop_trailing not_slash (front ++ (n ++ m ∷ [])) ≡ front
  fronted =
      ap (drop_trailing not_slash) (front-slash (n ++ m ∷ []))
      ∙ (drop_trailing-append not_slash (d ++ e ∷ seps) slash (n ++ m ∷ []) refl
            (All-append (λ c. not_slash c ≡ true) n (m ∷ []) n_plain (ap not m_plain, tt))
          ∙ append_assoc d (e ∷ seps) (slash ∷ []))

  -- A path of a directory, a component with no slash and slashes between and behind them is taken
  -- apart into the directory, less its trailing slashes, and the component.
  pub c_dirname-c_basename : (c_dirname path ≡ d ++ e ∷ []) × (c_basename path ≡ n ++ m ∷ [])
  c_dirname-c_basename = (
    c_dirname_trimmed path (front-ne-nil (n ++ m ∷ trailing))
        ∙ rw
            (
              trimmed,
              dirname_of_trimmed_front (front ++ (n ++ m ∷ [])) (front-ne-nil (n ++ m ∷ [])),
              fronted,
              dirname_of_front_long d e (seps ++ slash ∷ []) (append-ne-nil seps slash []),
            )
            (drop_trailing-append is_slash d e (seps ++ slash ∷ []) e_plain
              (All-append (λ c. is_slash c ≡ true) seps (slash ∷ []) seps_slash (refl, tt))),
    c_basename_trimmed path (front-ne-nil (n ++ m ∷ trailing))
        ∙ rw
            (
              trimmed,
              basename_of_trimmed_front path (front ++ (n ++ m ∷ [])) (front-ne-nil (n ++ m ∷ [])),
              fronted,
              basename_of_front_long path front (append-ne-nil d e (seps ++ slash ∷ [])),
            )
            (rw (drop-length front (n ++ m ∷ trailing))
              (drop_trailing-append is_slash n m trailing m_plain trailing_slash)),
  )

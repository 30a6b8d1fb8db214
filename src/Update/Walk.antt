-- ===== src/Update/Walk.antt =====
-- The tree walk, for any walker function: properties of the context over its steps.
use ocsync.Base.{
  ℕ, zero, suc, Bool, true, false, ◌≡◌, refl, Option, none, some, List, [], ◌∷◌, ◌++◌, ℤ, pos,
  is_negative, if◌then◌else◌, Bool-cases, inl, inr,
}
use ocsync.PathName.{slash}
use ocsync.Types.{Str, StatusCode, status_is_ok, update_error, Ctx}
use ocsync.Update.{
  Opened, refused, entries, Vio, Walker, flag_of_stat, excluded_here, is_dots, is_flag_dir,
  ftw_visit, ftw_loop, ftw_opened, ftw_dir, csync_ftw,
}

-- The code returns, follows no null pointer, and leaves a context with this property.
abbrev pub Ends : (Ctx → Type 0) → Option (ℤ × Ctx) → Type 0
Ends Good none = ⊥
Ends Good (some (rc, ctx)) = Good ctx

module _ (Good : Ctx → Type 0) where
  pub Ends-bind :
      (o : Option (ℤ × Ctx)) (k : ℤ → Ctx → Option (ℤ × Ctx))
      → Ends Good o
      → ((rc : ℤ) (ctx : Ctx) → Good ctx → Ends Good (k rc ctx))
      → Ends Good (elim o [ none ↦ none | some (rc, ctx) ↦ k rc ctx ])
  Ends-bind none k h f = h
  Ends-bind (some (rc, ctx)) k h f = f rc ctx h

  pub Ends-if :
      (b : Bool) (x y : Option (ℤ × Ctx))
      → (b ≡ true → Ends Good x)
      → (b ≡ false → Ends Good y)
      → Ends Good (if b then x else y)
  Ends-if true x y hx hy = hx refl
  Ends-if false x y hx hy = hy refl

-- what a property of contexts needs so that the walk keeps it
pub record IsKept (matches : (pattern name : Str) → Bool) (vio : Vio) (fn : Walker)
    (Good : Ctx → Type 0) : Type 0 where
  pub any_status :
      (ctx : Ctx) (code : StatusCode) → Good ctx → Good (record ctx { status_code = code })
  pub by_walker :
      (ctx : Ctx) (name : Str)
      → Good ctx
      → excluded_here matches ctx name ≡ false
      → let fs = vio.stat name in Ends Good (fn ctx name fs (flag_of_stat fs))

module _ (matches : (pattern name : Str) → Bool) (vio : Vio) (fn : Walker) (Good : Ctx → Type 0)
    (kept : IsKept matches vio fn Good) where
  -- the recursive call keeps the property
  abbrev pub Descends : (ℤ → Ctx → Str → Option (ℤ × Ctx)) → Type 0
  Descends descend = (rc : ℤ) (ctx : Ctx) (name : Str) → Good ctx → Ends Good (descend rc ctx name)

  Good-status :
      (ctx : Ctx)
      → Good ctx
      → Good
          (if status_is_ok ctx.status_code then ctx else record ctx { status_code = update_error })
  Good-status ctx g = elim (Bool-cases (status_is_ok ctx.status_code)) [
    | inl e ↦ rw e g
    | inr e ↦ rw e (kept.any_status ctx update_error g)
  ]

  pub ftw_visit-Ends :
      (descend : ℤ → Ctx → Str → Option (ℤ × Ctx)) (ctx : Ctx) (name : Str)
      → Descends descend
      → Good ctx
      → excluded_here matches ctx name ≡ false
      → Ends Good (ftw_visit matches vio fn descend ctx name)
  unfolding ftw_visit
  ftw_visit-Ends descend ctx name d g e =
      let fs = vio.stat name in
      let flag = flag_of_stat fs in
      Ends-bind Good (fn ctx name fs flag) _ (kept.by_walker ctx name g e) (λ rc c h.
        Ends-if Good (is_negative rc) _ _ (λ _. Good-status c h)
          (λ _. Ends-if Good (is_flag_dir flag) _ _ (λ _. d rc c name h) (λ _. h)))

  pub ftw_loop-Ends :
      (descend : ℤ → Ctx → Str → Option (ℤ × Ctx)) (uri : Str) (rc : ℤ) (ctx : Ctx)
      (names : List (Option Str))
      → Descends descend
      → Good ctx
      → Ends Good (ftw_loop matches vio fn descend uri rc ctx names)
  unfolding ftw_loop
  ftw_loop-Ends descend uri rc ctx [] d g = g
  ftw_loop-Ends descend uri rc ctx (none ∷ rest) d g = kept.any_status ctx _ g
  ftw_loop-Ends descend uri rc ctx (some n ∷ rest) d g =
      let skipped = ftw_loop-Ends descend uri rc ctx rest d g in
      let filename = uri ++ slash ∷ n in
      Ends-if Good (is_dots n) _ _ (λ _. skipped)
        (λ _.
          Ends-if Good (excluded_here matches ctx filename) _ _ (λ _. skipped)
            (λ e.
              Ends-bind Good (ftw_visit matches vio fn descend ctx filename) _
                (ftw_visit-Ends descend ctx filename d g e)
                (λ rc' c h.
                  Ends-if Good (is_negative rc') _ _ (λ _. h)
                    (λ _. ftw_loop-Ends descend uri rc' c rest d h))))

  ftw_opened-Ends :
      (descend : ℤ → Ctx → Str → Option (ℤ × Ctx)) (ctx : Ctx) (uri : Str) (o : Opened)
      → Descends descend
      → Good ctx
      → Ends Good (ftw_opened matches vio fn descend ctx uri o)
  unfolding ftw_opened
  ftw_opened-Ends descend ctx uri (refused errno) d g = kept.any_status ctx _ g
  ftw_opened-Ends descend ctx uri (entries names) d g =
      ftw_loop-Ends descend uri (pos 0) ctx names d g

  ftw_dir-Ends :
      (descend : ℤ → Ctx → Str → Option (ℤ × Ctx)) (ctx : Ctx) (uri : Str)
      → Descends descend
      → Good ctx
      → Ends Good (ftw_dir matches vio fn descend ctx uri)
  unfolding ftw_dir
  ftw_dir-Ends descend ctx [] d g = kept.any_status ctx _ g
  ftw_dir-Ends descend ctx (c ∷ cs) d g =
      ftw_opened-Ends descend ctx (c ∷ cs) (vio.opendir (c ∷ cs)) d g

  -- A walk of any depth ends, and keeps the property.
  pub csync_ftw-Ends :
      (depth : ℕ) (ctx : Ctx) (uri : Str)
      → Good ctx
      → Ends Good (csync_ftw matches vio fn depth ctx uri)
  unfolding csync_ftw
  csync_ftw-Ends zero ctx uri g =
      ftw_dir-Ends (λ rc c name. some (rc, c)) ctx uri (λ rc c name h. h) g
  csync_ftw-Ends (suc n) ctx uri g =
      ftw_dir-Ends (λ rc c name. csync_ftw matches vio fn n c name) ctx uri
        (λ rc c name h. csync_ftw-Ends n c name h) g

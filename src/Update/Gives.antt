-- ===== src/Update/Gives.antt =====
-- Predicates on a return code and the context that comes with it.
use ocsync.Base.{Bool, true, false, ◌≡◌, ◌≢◌, refl, Option, none, some, ℤ, if◌then◌else◌}
use ocsync.Types.{Ctx}
use ocsync.Update.Walk.{Ends}

-- what the code returns satisfies this
abbrev pub Gives : (ℤ → Ctx → Type 0) → Option (ℤ × Ctx) → Type 0
Gives R none = ⊥
Gives R (some (rc, ctx)) = R rc ctx

pub Gives-bind :
    (R R' : ℤ → Ctx → Type 0) (o : Option (ℤ × Ctx)) (k : ℤ → Ctx → Option (ℤ × Ctx))
    → Gives R o
    → ((rc : ℤ) (ctx : Ctx) → R rc ctx → Gives R' (k rc ctx))
    → Gives R' (elim o [ none ↦ none | some (rc, ctx) ↦ k rc ctx ])
Gives-bind R R' none k h f = h
Gives-bind R R' (some (rc, ctx)) k h f = f rc ctx h

pub Gives-if :
    (R : ℤ → Ctx → Type 0) (b : Bool) (x y : Option (ℤ × Ctx))
    → (b ≡ true → Gives R x)
    → (b ≡ false → Gives R y)
    → Gives R (if b then x else y)
Gives-if R true x y hx hy = hx refl
Gives-if R false x y hx hy = hy refl

pub Gives-Ends :
    (Good : Ctx → Type 0) (R : ℤ → Ctx → Type 0) (o : Option (ℤ × Ctx))
    → ((rc : ℤ) (ctx : Ctx) → Good ctx → R rc ctx)
    → Ends Good o
    → Gives R o
Gives-Ends Good R (some (rc, ctx)) f g = f rc ctx g
Gives-Ends Good R none f g = g

pub Gives-some :
    (R : ℤ → Ctx → Type 0) (o : Option (ℤ × Ctx))
    → Gives R o
    → (rc : ℤ) × (ctx : Ctx) × (o ≡ some (rc, ctx)) × R rc ctx
Gives-some R none h = elim h [ ]
Gives-some R (some (rc, ctx)) h = (rc, ctx, refl, h)

pub true-ne-false : true ≢ false
true-ne-false e = cc

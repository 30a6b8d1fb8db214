-- ===== src/FileSystem/Keeps.antt =====
-- Properties of a function's state over its steps, for functions of the monad.
use ocsync.Base.{ℕ, Bool, true, false, Option, none, some, ℤ, if◌then◌else◌, ◌≡◌}
use ocsync.Types.{Str, Replica, StatusCode}
use native.Mathlib.Omega.{arith}
use ocsync.Misc.{Errno}
use ocsync.FileSystem.{
  is_zero, errno_rc, FileSystem, Run, Outcome, next, out, hang, Action, after, ◌>>=◌, pure, exit,
  gets, call, run_on, set_status, set_replica, status_of_errno, fail_errno, or_fail,
}

pub errno_rc-nonzero : (e : Errno) → is_zero (errno_rc e) ≡ false
errno_rc-nonzero e = ground arith

module _ {W : Type 0} where
  -- where the step goes on, `Q` holds, and where it leaves, `E`
  abbrev pub Ensures :
      {A : Type 0} → (A → Run W → Type 0) → (ℤ → Run W → Type 0) → Outcome W A → Type 0
  Ensures Q E (next a r) = Q a r
  Ensures Q E (out rc r) = E rc r
  Ensures Q E hang = Unit

  pub Ensures-after :
      {A B : Type 0} (Q : A → Run W → Type 0) (Q' : B → Run W → Type 0) (E : ℤ → Run W → Type 0)
      (o : Outcome W A) (f : A → Action W B)
      → Ensures Q E o
      → ((a : A) (r : Run W) → Q a r → Ensures Q' E (f a r))
      → Ensures Q' E (after f o)
  Ensures-after Q Q' E (next a r) f h k = k a r h
  Ensures-after Q Q' E (out rc r) f h k = h
  Ensures-after Q Q' E hang f h k = h

  -- a property that the context's return data, the world and the locals do not touch
  pub record IsFrame (I : Run W → Type 0) : Type 0 where
    pub by_world : (r : Run W) (w : W) → I r → I (record r { world = w })
    pub by_status :
        (r : Run W) (code : StatusCode)
        → I r
        → I (record r { ctx = record (r.ctx) { status_code = code } })
    pub by_replica :
        (r : Run W) (q : Replica) → I r → I (record r { ctx = record (r.ctx) { replica = q } })
    pub by_source : (r : Run W) (h : Option ℕ) → I r → I (record r { source = h })
    pub by_target : (r : Run W) (h : Option ℕ) → I r → I (record r { target = h })
    pub by_temporary : (r : Run W) (name : Option Str) → I r → I (record r { temporary = name })

  module _ (I : Run W → Type 0) where
    -- from `I` the step goes on with `Q`, or leaves with `I` and a return code that is not 0
    pub record Leads {A : Type 0} (Q : A → Run W → Type 0) (m : Action W A) : Type 0 where
      pub leads : (r : Run W) → I r → Ensures Q (λ rc s. I s × (is_zero rc ≡ false)) (m r)

    abbrev pub Keeps : {A : Type 0} → Action W A → Type 0
    Keeps m = Leads (λ a s. I s) m

    pub Leads-bind :
        {A B : Type 0} {Q : B → Run W → Type 0} {m : Action W A} {f : A → Action W B}
        → Keeps m
        → ((a : A) → Leads Q (f a))
        → Leads Q (m >>= f)
    Leads-bind {Q = Q} {m = m} {f = f} h k = record {
      leads = λ r i.
          Ensures-after (λ a s. I s) Q (λ rc s. I s × (is_zero rc ≡ false)) (m r) f (h.leads r i)
            (λ a s j. (k a).leads s j);
    }

    pub Keeps-if :
        {A : Type 0} (b : Bool) {m n : Action W A} → Keeps m → Keeps n → Keeps (if b then m else n)
    Keeps-if true h k = h
    Keeps-if false h k = k

    pub Keeps-option :
        {A B : Type 0} {m : Action W B} {f : A → Action W B} (o : Option A)
        → Keeps m
        → ((a : A) → Keeps (f a))
        → Keeps (elim o [ none ↦ m | some a ↦ f a ])
    Keeps-option none h k = h
    Keeps-option (some a) h k = k a

    pub Keeps-gets : {A : Type 0} (f : Run W → A) → Keeps (gets f)
    Keeps-gets f = record { leads = λ r i. i }

    pub Keeps-pure : {A : Type 0} (a : A) → Keeps (pure a)
    Keeps-pure a = record { leads = λ r i. i }

    pub Keeps-exit : {A : Type 0} (rc : ℤ) → is_zero rc ≡ false → Keeps (exit {A = A} rc)
    Keeps-exit rc e = record { leads = λ r i. (i, e) }

    module _ (frame : IsFrame I) where
      pub Keeps-call : {A : Type 0} (f : W → A × W) → Keeps (call f)
      Keeps-call f = record { leads = λ r i. frame.by_world r (f r.world).1 i }

      pub Keeps-run_on : (f : W → W) → Keeps (run_on f)
      Keeps-run_on f = record { leads = λ r i. frame.by_world r (f r.world) i }

      pub Keeps-set_status : (code : StatusCode) → Keeps (set_status code)
      Keeps-set_status code = record { leads = λ r i. frame.by_status r code i }

      pub Keeps-set_replica : (q : Replica) → Keeps (set_replica q)
      Keeps-set_replica q = record { leads = λ r i. frame.by_replica r q i }

      module _ (fs : FileSystem W) where
        pub Keeps-status_of_errno : Keeps (status_of_errno fs)
        Keeps-status_of_errno = record { leads = λ r i. frame.by_status r _ i }

        pub Keeps-fail_errno : {A : Type 0} → Keeps (fail_errno fs {A = A})
        Keeps-fail_errno = record {
          leads = λ r i. (frame.by_status r _ i, errno_rc-nonzero (fs.errno r.world));
        }

        pub Keeps-or_fail : (ok : Bool) → Keeps (or_fail fs ok)
        Keeps-or_fail true = Keeps-pure tt
        Keeps-or_fail false = Keeps-fail_errno

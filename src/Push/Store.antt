-- ===== src/Push/Store.antt =====
-- What a push relies on of the file systems, and a total logic for its functions.
use ocsync.Base.{
  ℕ, ◌<◌, Bool, true, false, Option, none, some, [], ◌++◌, ℤ, if◌then◌else◌, ◌≡◌, refl, ◌≢◌, length,
}
use ocsync.Types.{Str, Replica, StatusCode}
use ocsync.FileSystem.{
  FileSystem, Run, Outcome, next, out, hang, Action, after, ◌>>=◌, is_zero, exit, call, fail_errno,
  gets, modify, pure, run_on, set_replica, set_status, status_of_errno, ◌>>◌,
}
use ocsync.FileSystem.Keeps.{errno_rc-nonzero}

-- Documented behaviour: reading gives a file's bytes in order and an empty chunk at their end,
-- creating a file empties it, writing appends, renaming moves the bytes, and a call on one replica
-- leaves the open files of the other alone.
pub record IsStore {W : Type 0} (fs : FileSystem W) : Type 0 where
  -- the bytes of a file, what a handle has not read yet, and the file that a handle writes to
  pub content : Replica → Str → W → Str
  pub unread : Replica → ℕ → W → Str
  pub target_of : Replica → ℕ → W → Str
  pub open_read_some :
      (q : Replica) (uri : Str) (noatime : Bool) (w : W) (h : ℕ)
      → (fs.open_read q uri noatime w).0 ≡ some h
      → unread q h ((fs.open_read q uri noatime w).1) ≡ content q uri w
  pub rand_unread : (q : Replica) (h : ℕ) (w : W) → unread q h ((fs.rand w).1) ≡ unread q h w
  pub create_some :
      (q : Replica) (uri : Str) (w : W) (h : ℕ)
      → (fs.open_create q uri w).0 ≡ some h
      → (content q uri ((fs.open_create q uri w).1) ≡ [])
        × (target_of q h ((fs.open_create q uri w).1) ≡ uri)
  pub create_unread :
      (p q : Replica) (uri : Str) (h : ℕ) (w : W)
      → p ≢ q
      → unread p h ((fs.open_create q uri w).1) ≡ unread p h w
  pub read_some :
      (q : Replica) (h size : ℕ) (w : W) (buf : Str)
      → (fs.read q h size w).0 ≡ some buf
      → unread q h w ≡ buf ++ unread q h ((fs.read q h size w).1)
  pub read_end :
      (q : Replica) (h size : ℕ) (w : W)
      → 0 < size
      → (fs.read q h size w).0 ≡ some []
      → unread q h w ≡ []
  pub read_content :
      (p q : Replica) (uri : Str) (h size : ℕ) (w : W)
      → content p uri ((fs.read q h size w).1) ≡ content p uri w
  pub read_target :
      (p q : Replica) (g h size : ℕ) (w : W)
      → target_of p g ((fs.read q h size w).1) ≡ target_of p g w
  pub write_some :
      (q : Replica) (h : ℕ) (uri buf : Str) (w : W)
      → target_of q h w ≡ uri
      → (fs.write q h buf w).0 ≡ some (length buf)
      → content q uri ((fs.write q h buf w).1) ≡ content q uri w ++ buf
  pub write_target :
      (q : Replica) (h : ℕ) (buf : Str) (w : W)
      → target_of q h ((fs.write q h buf w).1) ≡ target_of q h w
  pub write_unread :
      (p q : Replica) (g h : ℕ) (buf : Str) (w : W)
      → p ≢ q
      → unread p g ((fs.write q h buf w).1) ≡ unread p g w
  pub close_content :
      (p q : Replica) (uri : Str) (h : ℕ) (w : W)
      → content p uri ((fs.close q h w).1) ≡ content p uri w
  pub stat_content :
      (q : Replica) (uri uri' : Str) (w : W)
      → content q uri ((fs.stat_size q uri' w).1) ≡ content q uri w
  pub rename_true :
      (q : Replica) (from to : Str) (w : W)
      → (fs.rename q from to w).0 ≡ true
      → content q to ((fs.rename q from to w).1) ≡ content q from w
  pub chmod_content :
      (q : Replica) (uri uri' : Str) (mode : ℕ) (w : W)
      → content q uri ((fs.chmod q uri' mode w).1) ≡ content q uri w
  pub chown_content :
      (q : Replica) (uri uri' : Str) (uid gid : ℕ) (w : W)
      → content q uri (fs.chown q uri' uid gid w) ≡ content q uri w
  pub utimes_content :
      (q : Replica) (uri uri' : Str) (time : ℕ) (w : W)
      → content q uri (fs.utimes q uri' time w) ≡ content q uri w

module _ {W : Type 0} where
  -- the step comes back: it goes on with `Q`, or leaves with a return code that is not 0
  abbrev pub Total : {A : Type 0} → (A → Run W → Type 0) → Outcome W A → Type 0
  Total Q (next a r) = Q a r
  Total Q (out rc r) = is_zero rc ≡ false
  Total Q hang = ⊥

  pub record Runs {A : Type 0} (P : Run W → Type 0) (m : Action W A) (Q : A → Run W → Type 0)
      : Type 0 where
    pub runs : (r : Run W) → P r → Total Q (m r)

  Total-after :
      {A B : Type 0} (Q : A → Run W → Type 0) (R : B → Run W → Type 0) (o : Outcome W A)
      (f : A → Action W B)
      → Total Q o
      → ((a : A) (r : Run W) → Q a r → Total R (f a r))
      → Total R (after f o)
  Total-after Q R (next a r) f h k = k a r h
  Total-after Q R (out rc r) f h k = h
  Total-after Q R hang f h k = h

  pub Runs-bind :
      {A B : Type 0} {P : Run W → Type 0} (Q : A → Run W → Type 0) {R : B → Run W → Type 0}
      {m : Action W A} {f : A → Action W B}
      → Runs P m Q
      → ((a : A) → Runs (Q a) (f a) R)
      → Runs P (m >>= f) R
  Runs-bind Q {R = R} {m = m} {f = f} h k = record {
    runs = λ r p. Total-after Q R (m r) f (h.runs r p) (λ a s q. (k a).runs s q);
  }

  pub Runs-exit :
      {A : Type 0} {P : Run W → Type 0} {Q : A → Run W → Type 0} (rc : ℤ)
      → is_zero rc ≡ false
      → Runs P (exit rc) Q
  Runs-exit rc e = record { runs = λ r p. e }

  pub Runs-if :
      {A : Type 0} {P : Run W → Type 0} {Q : A → Run W → Type 0} {m n : Action W A} (b : Bool)
      → (b ≡ true → Runs P m Q)
      → (b ≡ false → Runs P n Q)
      → Runs P (if b then m else n) Q
  Runs-if true h k = h refl
  Runs-if false h k = k refl

  pub Runs-option :
      {A B : Type 0} {P : Run W → Type 0} {Q : B → Run W → Type 0} {m : Action W B}
      {f : A → Action W B} (o : Option A)
      → (o ≡ none → Runs P m Q)
      → ((a : A) → o ≡ some a → Runs P (f a) Q)
      → Runs P (elim o [ none ↦ m | some a ↦ f a ]) Q
  Runs-option none h k = h refl
  Runs-option (some a) h k = k a refl

  pub Runs-fail_errno :
      {A : Type 0} {P : Run W → Type 0} {Q : A → Run W → Type 0} (fs : FileSystem W)
      → Runs P (fail_errno fs) Q
  Runs-fail_errno fs = record { runs = λ r p. errno_rc-nonzero (fs.errno r.world) }

  -- a step that only returns: `Q` holds for what it returns wherever `P` does
  pub Runs-call :
      {A : Type 0} {P : Run W → Type 0} (f : W → A × W) (Q : A → Run W → Type 0)
      → ((r : Run W) → P r → Q (f r.world).0 (record r { world = (f r.world).1 }))
      → Runs P (call f) Q
  Runs-call f Q h = record { runs = h }

  pub Runs-gets :
      {A : Type 0} {P : Run W → Type 0} (f : Run W → A) (Q : A → Run W → Type 0)
      → ((r : Run W) → P r → Q (f r) r)
      → Runs P (gets f) Q
  Runs-gets f Q h = record { runs = h }

  -- a step that changes the locals or the context only
  pub Runs-modify :
      {P : Run W → Type 0} (f : Run W → Run W) (Q : Run W → Type 0)
      → ((r : Run W) → P r → Q (f r))
      → Runs P (modify f) (λ _. Q)
  Runs-modify f Q h = record { runs = h }

  pub Runs-set_replica :
      {P : Run W → Type 0} (q : Replica) (Q : Run W → Type 0)
      → ((r : Run W) → P r → Q (record r { ctx = record (r.ctx) { replica = q } }))
      → Runs P (set_replica q) (λ _. Q)
  Runs-set_replica q Q h = record { runs = h }

  pub Runs-pure :
      {A : Type 0} {P : Run W → Type 0} (a : A) (Q : A → Run W → Type 0)
      → ((r : Run W) → P r → Q a r)
      → Runs P (pure a) Q
  Runs-pure a Q h = record { runs = h }

  -- a fact that does not depend on the state
  pub Runs-given :
      {A E : Type 0} {P : Run W → Type 0} {Q : A → Run W → Type 0} {m : Action W A}
      → (E → Runs P m Q)
      → Runs (λ r. P r × E) m Q
  Runs-given h = record { runs = λ r p. (h p.1).runs r p.0 }

  pub Runs-status_of_errno :
      {P : Run W → Type 0} (fs : FileSystem W) (Q : Run W → Type 0)
      → ((r : Run W) (code : StatusCode)
          → P r
          → Q (record r { ctx = record (r.ctx) { status_code = code } }))
      → Runs P (status_of_errno fs) (λ _. Q)
  Runs-status_of_errno fs Q h = record { runs = λ r p. h r _ p }

  pub Runs-fail :
      {A : Type 0} {P : Run W → Type 0} {Q : A → Run W → Type 0} (fs : FileSystem W) (rc : ℤ)
      → is_zero rc ≡ false
      → Runs P (do status_of_errno fs; exit rc) Q
  Runs-fail fs rc e = record { runs = λ r p. e }

  pub Runs-refuse :
      {A : Type 0} {P : Run W → Type 0} {Q : A → Run W → Type 0} (code : StatusCode) (rc : ℤ)
      → is_zero rc ≡ false
      → Runs P (do set_status code; exit rc) Q
  Runs-refuse code rc e = record { runs = λ r p. e }

  pub Runs-run_on :
      {P : Run W → Type 0} (f : W → W) (Q : Run W → Type 0)
      → ((r : Run W) → P r → Q (record r { world = f r.world }))
      → Runs P (run_on f) (λ _. Q)
  Runs-run_on f Q h = record { runs = h }

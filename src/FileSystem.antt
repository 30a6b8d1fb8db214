-- ===== src/FileSystem.antt =====
-- The operations of a file system that the propagation calls (src/vio/csync_vio.h), and a monad for
-- the functions that call them.
--
-- The file system of each replica is a parameter: what its calls return, and what they make of the
-- world `W`, which also holds `errno`, the clock and the state of `rand`.
pub mod Keeps
use ocsync.Base.{
  ℕ, zero, suc, Bool, Option, none, some, List, [], ◌∷◌, ℤ, pos, negsuc, minus_one, ◌==◌, false,
  if◌then◌else◌,
}
use ocsync.Types.{Str, Replica, StatusCode, propagate_error, FileStat, Ctx}
use ocsync.Misc.{Errno, csync_errno_to_status, is_enomem}

-- A handle is a number. `none` is a null handle or an error, and `false` is -1.
pub record FileSystem (W : Type 0) : Type 0 where
  pub open_read : Replica → Str → (noatime : Bool) → W → Option ℕ × W
  pub open_create : Replica → Str → W → Option ℕ × W
  pub read : Replica → ℕ → (size : ℕ) → W → Option Str × W
  pub write : Replica → ℕ → Str → W → Option ℕ × W
  pub close : Replica → ℕ → W → Bool × W
  pub stat_size : Replica → Str → W → Option ℕ × W
  pub rename : Replica → (from to : Str) → W → Bool × W
  pub unlink : Replica → Str → W → Bool × W
  pub chmod : Replica → Str → (mode : ℕ) → W → Bool × W
  pub chown : Replica → Str → (uid gid : ℕ) → W → W
  pub utimes : Replica → Str → (time : ℕ) → W → W
  pub mkdirs : Replica → Str → W → Bool × W
  pub rmdir : Replica → Str → W → Bool × W
  pub compare_file : Str → Str → W → Bool × W
  pub errno : W → Errno
  pub rand : W → ℕ × W
  pub time_string : W → Str

-- The state of a function: the context, the entry that it works on, the world, and the locals that
-- its label `out` reads.
pub record Run (W : Type 0) : Type 0 where
  pub ctx : Ctx
  pub st : FileStat
  pub world : W
  pub source : Option ℕ
  pub target : Option ℕ
  pub temporary : Option Str

-- A step goes on with a value, goes to `out` with the return code, or never comes back.
pub data Outcome (W A : Type 0) : Type 0 where
  next : A → Run W → Outcome W A
  out : ℤ → Run W → Outcome W A
  hang : Outcome W A

abbrev pub Action : Type 0 → Type 0 → Type 0
Action W A = Run W → Outcome W A

abbrev pub is_zero : ℤ → Bool
is_zero (pos n) = n == 0
is_zero (negsuc n) = false

-- `rc = -1` for `ENOMEM` and 1 for every other `errno`
abbrev pub errno_rc : Errno → ℤ
errno_rc e = if is_enomem e then minus_one else pos 1

module _ {W : Type 0} where
  abbrev pub after : {A B : Type 0} → (A → Action W B) → Outcome W A → Outcome W B
  after f (next a r) = f a r
  after f (out rc r) = out rc r
  after f hang = hang

  infixl 5 ◌>>=◌ ◌>>◌
  abbrev pub ◌>>=◌ : {A B : Type 0} → Action W A → (A → Action W B) → Action W B
  ◌>>=◌ m f r = after f (m r)

  abbrev pub ◌>>◌ : {A B : Type 0} → Action W A → Action W B → Action W B
  m >> k = m >>= λ _. k

  abbrev pub pure : {A : Type 0} → A → Action W A
  pure a r = next a r

  abbrev pub exit : {A : Type 0} → ℤ → Action W A
  exit rc r = out rc r

  abbrev pub gets : {A : Type 0} → (Run W → A) → Action W A
  gets f r = next (f r) r

  abbrev pub modify : (Run W → Run W) → Action W Unit
  modify f r = next tt (f r)

  abbrev pub call : {A : Type 0} → (W → A × W) → Action W A
  call f r = let (a, w) = f r.world in next a (record r { world = w })

  abbrev pub run_on : (W → W) → Action W Unit
  run_on f r = next tt (record r { world = f r.world })

  abbrev pub set_status : StatusCode → Action W Unit
  set_status code r = next tt (record r { ctx = record (r.ctx) { status_code = code } })

  abbrev pub set_replica : Replica → Action W Unit
  set_replica q r = next tt (record r { ctx = record (r.ctx) { replica = q } })

module _ {W : Type 0} (fs : FileSystem W) where
  -- `ctx->status_code = csync_errno_to_status(errno, CSYNC_STATUS_PROPAGATE_ERROR)`
  abbrev pub status_of_errno : Action W Unit
  status_of_errno r = set_status (csync_errno_to_status (fs.errno r.world) propagate_error) r

  -- the same, and the exit with the return code of `errno`
  abbrev pub fail_errno : {A : Type 0} → Action W A
  fail_errno = do status_of_errno; e ← gets (λ r. fs.errno r.world); exit (errno_rc e)

  abbrev pub or_fail : Bool → Action W Unit
  or_fail ok = if ok then pure tt else fail_errno

  -- some values of `rand`
  abbrev pub rands : ℕ → W → List ℕ × W
  rands zero w = ([], w)
  rands (suc n) w = let (x, w₁) = fs.rand w in let (xs, w₂) = rands n w₁ in (x ∷ xs, w₂)

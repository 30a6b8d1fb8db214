-- ===== src/Base/Words.antt =====
-- The conversions between C's signed and unsigned words of 32 and 64 bits.
use Prim.Native.Nat.{ℕ, ◌-◌, ◌%◌, ◌<◌}
use mathlib.Core.Path.{◌≡◌, refl}
use mathlib.Core.Bool.{Bool, true, false}
use native.Mathlib.Omega.{arith}
use ocsync.Base.Tests.{ltb, if◌then◌else◌}
use ocsync.Base.Int.{ℤ, pos, negsuc}

-- the bits of a number as a signed word, in two's complement
unfoldable pub to_int32 : ℕ → ℤ
to_int32 n = let m = n % 0x100000000 in if ltb m 0x80000000 then pos m else negsuc (0xffffffff - m)

unfoldable pub to_int64 : ℕ → ℤ
to_int64 n =
    let m = n % 0x10000000000000000 in
    if ltb m 0x8000000000000000 then pos m else negsuc (0xffffffffffffffff - m)

-- a signed number as an unsigned word
unfoldable pub to_uint32 : ℤ → ℕ
to_uint32 (pos n) = n % 0x100000000
to_uint32 (negsuc n) = 0xffffffff - n % 0x100000000

unfoldable pub to_uint64 : ℤ → ℕ
to_uint64 (pos n) = n % 0x10000000000000000
to_uint64 (negsuc n) = 0xffffffffffffffff - n % 0x10000000000000000

-- the numbers that `int` holds
abbrev pub IsInt32 : ℤ → Type 0
IsInt32 (pos n) = n < 0x80000000
IsInt32 (negsuc n) = n < 0x80000000

pub to_int32-IsInt32 : (n : ℕ) → IsInt32 (to_int32 n)
unfolding to_int32
to_int32-IsInt32 n = split (ltb (n % 0x100000000) 0x80000000) refl
  where
    split :
        (b : Bool)
        → ltb (n % 0x100000000) 0x80000000 ≡ b
        → IsInt32 (if b then pos (n % 0x100000000) else negsuc (0xffffffff - n % 0x100000000))
    split true e = ground arith
    split false e = ground arith

pub to_uint32-to_int32 : (n : ℕ) → n < 0x100000000 → to_uint32 (to_int32 n) ≡ n
unfolding to_int32 to_uint32
to_uint32-to_int32 n h = ground arith

pub to_uint64-to_int64 : (n : ℕ) → n < 0x10000000000000000 → to_uint64 (to_int64 n) ≡ n
unfolding to_int64 to_uint64
to_uint64-to_int64 n h = ground arith

pub to_int64_small : (n : ℕ) → n < 0x8000000000000000 → to_int64 n ≡ pos n
unfolding to_int64
to_int64_small n h = ground arith

pub to_uint64_small : (n : ℕ) → n < 0x8000000000000000 → to_uint64 (pos n) ≡ n
unfolding to_uint64
to_uint64_small n h = ground arith

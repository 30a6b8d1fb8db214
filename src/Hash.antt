-- ===== src/Hash.antt =====
-- src/std/c_jhash.h: the 64-bit hash of a path, by which the trees and the journal find a file.
-- A byte string is a list of numbers below 256; a `uint64_t` is a number whose sums, differences
-- and left shifts wrap at 2 ^ 64.
pub mod Mix
pub mod Xor
use Prim.Native.Nat.{bit_xor}
use ocsync.Base.{ℕ, zero, suc, ◌+◌, ◌-◌, ◌*◌, ◌/◌, ◌%◌, ◌^◌, List, [], ◌∷◌, length, take, drop}

abbrev pub word : ℕ
word = 2 ^ 64

abbrev pub add64 : ℕ → ℕ → ℕ
add64 a b = (a + b) % word

abbrev pub sub64 : ℕ → ℕ → ℕ
sub64 a b = (a + word - b) % word

abbrev pub shl64 : ℕ → ℕ → ℕ
shl64 a k = (a * 2 ^ k) % word

abbrev pub shr64 : ℕ → ℕ → ℕ
shr64 a k = a / 2 ^ k

-- `a -= b; a -= c; a ^= (c >> k)`
unfoldable pub stir_right : ℕ → ℕ → ℕ → ℕ → ℕ
stir_right k a b c = bit_xor (sub64 (sub64 a b) c) (shr64 c k)

-- `b -= c; b -= a; b ^= (a << k)`
unfoldable pub stir_left : ℕ → ℕ → ℕ → ℕ → ℕ
stir_left k b c a = bit_xor (sub64 (sub64 b c) a) (shl64 a k)

pub record State : Type 0 where
  pub a : ℕ
  pub b : ℕ
  pub c : ℕ

-- three lines of `_c_mix64`
unfoldable pub mix_round : ℕ → ℕ → ℕ → State → State
unfolding stir_right stir_left
mix_round i j k s =
    let a = stir_right i s.a s.b s.c in
    let b = stir_left j s.b s.c a in let c = stir_right k s.c a b in record { a = a; b = b; c = c }

-- `_c_mix64`
unfoldable pub mix64 : State → State
unfolding mix_round
mix64 s = mix_round 12 18 22 (mix_round 35 49 11 (mix_round 38 23 5 (mix_round 43 9 8 s)))

-- `k[0] + (k[1] << 8) + ...`
unfoldable pub little_endian : List ℕ → ℕ
little_endian [] = 0
little_endian (k ∷ ks) = k + 256 * little_endian ks

-- The last bytes, fewer than 24: the first eight go to `a`, the next eight to `b`, and the others
-- to `c` from its second byte on.
unfoldable pub hash_tail : ℕ → List ℕ → State → State
unfolding little_endian
hash_tail len k s = record {
  a = add64 s.a (little_endian (take 8 k));
  b = add64 s.b (little_endian (take 8 (drop 8 k)));
  c = add64 (add64 s.c len) (256 * little_endian (drop 16 k));
}

-- `while (len >= 24)`: as many rounds as the key has blocks of 24 bytes.
unfoldable pub hash_blocks : ℕ → List ℕ → State → State × List ℕ
unfolding little_endian mix64
hash_blocks zero k s = (s, k)
hash_blocks (suc n) k s = hash_blocks n (drop 24 k) (
    mix64 (record {
      a = add64 s.a (little_endian (take 8 k));
      b = add64 s.b (little_endian (take 8 (drop 8 k)));
      c = add64 s.c (little_endian (take 8 (drop 16 k)));
    }))

unfoldable pub c_jhash64 : List ℕ → ℕ → ℕ
c_jhash64 k initial =
    let (s, rest) =
      hash_blocks (length k / 24) k (record { a = initial; b = initial; c = 0x9e3779b97f4a7c13 }) in
    (mix64 (hash_tail (length k) rest s)).c

-- ===== src/Hash/Mix.antt =====
-- `_c_mix64`, its inverse, and the range of the hash.
use Prim.Native.Nat.{bit_xor}
use native.Mathlib.Nat.{div-le_self}
use ocsync.Base.{ℕ, ◌^◌, ◌<◌, ◌≡◌, arith, List}
use ocsync.Hash.{
  word, add64, sub64, shl64, shr64, stir_right, stir_left, State, mix_round, mix64, hash_tail,
  c_jhash64,
}
use ocsync.Hash.Xor.{bit_xor_bound, bit_xor_cancel}

pub record IsWords (s : State) : Type 0 where
  pub a_lt : s.a < word
  pub b_lt : s.b < word
  pub c_lt : s.c < word

unstir_right : ℕ → ℕ → ℕ → ℕ → ℕ
unstir_right k x b c = add64 (add64 (bit_xor x (shr64 c k)) c) b

unstir_left : ℕ → ℕ → ℕ → ℕ → ℕ
unstir_left k x c a = add64 (add64 (bit_xor x (shl64 a k)) a) c

shr64_bound : (a k : ℕ) → a < word → shr64 a k < word
shr64_bound a k h = omega (arith, div-le_self a (2 ^ k))

stir_right_bound : (k a b c : ℕ) → c < word → stir_right k a b c < word
unfolding stir_right
stir_right_bound k a b c hc = bit_xor_bound 64 _ _ (omega arith) (shr64_bound c k hc)

stir_left_bound : (k b c a : ℕ) → stir_left k b c a < word
unfolding stir_left
stir_left_bound k b c a = bit_xor_bound 64 _ _ (omega arith) (omega arith)

unstir-stir_right :
    (k a b c : ℕ) → a < word → b < word → c < word → unstir_right k (stir_right k a b c) b c ≡ a
unfolding stir_right unstir_right
unstir-stir_right k a b c ha hb hc =
    rw (bit_xor_cancel 64 (sub64 (sub64 a b) c) (shr64 c k) (omega arith) (shr64_bound c k hc))
      (omega arith)

unstir-stir_left :
    (k b c a : ℕ) → a < word → b < word → c < word → unstir_left k (stir_left k b c a) c a ≡ b
unfolding stir_left unstir_left
unstir-stir_left k b c a ha hb hc =
    rw (bit_xor_cancel 64 (sub64 (sub64 b c) a) (shl64 a k) (omega arith) (omega arith))
      (omega arith)

pub mix_round-IsWords : (i j k : ℕ) (s : State) → IsWords s → IsWords (mix_round i j k s)
unfolding mix_round
mix_round-IsWords i j k s w =
    let a = stir_right i s.a s.b s.c in
    let b = stir_left j s.b s.c a in
    record {
      a_lt = stir_right_bound i s.a s.b s.c w.c_lt;
      b_lt = stir_left_bound j s.b s.c a;
      c_lt = stir_right_bound k s.c a b (stir_left_bound j s.b s.c a);
    }

unmix_round : ℕ → ℕ → ℕ → State → State
unmix_round i j k t =
    let c = unstir_right k t.c t.a t.b in
    let b = unstir_left j t.b c t.a in
    let a = unstir_right i t.a b c in record { a = a; b = b; c = c }

unmix-mix_round : (i j k : ℕ) (s : State) → IsWords s → unmix_round i j k (mix_round i j k s) ≡ s
unfolding mix_round unmix_round
unmix-mix_round i j k s w =
    let a = stir_right i s.a s.b s.c in
    let b = stir_left j s.b s.c a in
    let ha = stir_right_bound i s.a s.b s.c w.c_lt in
    let hb = stir_left_bound j s.b s.c a in
    rw (
      unstir-stir_right k s.c a b w.c_lt ha hb,
      unstir-stir_left j s.b s.c a ha w.b_lt w.c_lt,
      unstir-stir_right i s.a s.b s.c w.a_lt w.b_lt w.c_lt,
    )

-- the inverse of the mix
pub unmix64 : State → State
unmix64 t = unmix_round 43 9 8 (unmix_round 38 23 5 (unmix_round 35 49 11 (unmix_round 12 18 22 t)))

-- The mix keeps three 64-bit words within 64 bits, and they can be computed back from the result:
-- it is reversible.
pub unmix64-mix64 : (s : State) → IsWords s → IsWords (mix64 s) × (unmix64 (mix64 s) ≡ s)
unfolding mix64 unmix64
unmix64-mix64 s w =
    let w₁ = mix_round-IsWords 43 9 8 s w in
    let w₂ = mix_round-IsWords 38 23 5 _ w₁ in
    let w₃ = mix_round-IsWords 35 49 11 _ w₂ in
    (
      mix_round-IsWords 12 18 22 _ w₃,
      rw (
        unmix-mix_round 12 18 22 _ w₃,
        unmix-mix_round 35 49 11 _ w₂,
        unmix-mix_round 38 23 5 _ w₁,
        unmix-mix_round 43 9 8 s w,
      ),
    )

hash_tail-IsWords : (len : ℕ) (k : List ℕ) (s : State) → IsWords (hash_tail len k s)
unfolding hash_tail
hash_tail-IsWords len k s = record { a_lt = omega arith; b_lt = omega arith; c_lt = omega arith }

-- The hash is a 64-bit word, for every key and every start value.
pub c_jhash64-lt-word : (k : List ℕ) (initial : ℕ) → c_jhash64 k initial < word
unfolding c_jhash64
c_jhash64-lt-word k initial = (unmix64-mix64 _ (hash_tail-IsWords _ _ _)).0.c_lt

-- ===== src/Hash/Fnv.antt =====
-- `hash_key` of src/dsa/hashtable.hpp against the one-byte-at-a-time definition of FNV-1a.
use Prim.Native.Nat.{bit_xor}
use mathlib.Core.List.{foldl}
use vector_db.Prelude.{ℕ, ◌+◌, ◌*◌, ◌%◌, ◌^◌, ◌<◌, ◌≡◌, refl, List, [], ◌∷◌, arith}
use vector_db.Hash.{initial, mix, hash_rest, hash_quads, hash_key}

hash_rest-foldl : (h : ℕ) (bs : List ℕ) → hash_rest h bs ≡ foldl mix h bs
unfolding hash_rest
hash_rest-foldl h [] = refl
hash_rest-foldl h (b ∷ bs) = hash_rest-foldl (mix h b) bs

hash_quads-foldl : (h : ℕ) (bs : List ℕ) → hash_quads h bs ≡ foldl mix h bs
unfolding hash_quads
hash_quads-foldl h (a ∷ b ∷ c ∷ d ∷ bs) = hash_quads-foldl (mix (mix (mix (mix h a) b) c) d) bs
hash_quads-foldl h bs = hash_rest-foldl h bs

mix-lt : (h b : ℕ) → mix h b < 2 ^ 64
unfolding mix
mix-lt h b = omega arith

hash_rest-lt : (h : ℕ) (bs : List ℕ) → h < 2 ^ 64 → hash_rest h bs < 2 ^ 64
unfolding hash_rest
hash_rest-lt h [] p = p
hash_rest-lt h (b ∷ bs) p = hash_rest-lt (mix h b) bs (mix-lt h b)

-- The published definition of 64-bit FNV-1a: the prime, the offset basis, and a step, which xors a byte in
-- and then multiplies.
abbrev pub fnv_prime : ℕ
fnv_prime = 2 ^ 40 + 2 ^ 8 + 0xb3

abbrev pub offset_basis : ℕ
offset_basis = 14695981039346656037

abbrev pub fnv_1a : List ℕ → ℕ
fnv_1a = foldl (λ hash byte. bit_xor hash byte * fnv_prime % 2 ^ 64) offset_basis

mix-xor : (λ hash byte. bit_xor hash byte * fnv_prime % 2 ^ 64) ≡ mix
unfolding mix
mix-xor = refl

-- The unrolled loop computes the published 64-bit FNV-1a: from the offset basis, each byte in turn is xored
-- in, and the result is multiplied by the prime, modulo `2 ^ 64`; the hash fits 64 bits.
pub hash_key-foldl : (bytes : List ℕ) → (hash_key bytes ≡ fnv_1a bytes) × (hash_key bytes < 2 ^ 64)
unfolding hash_key
hash_key-foldl bytes = (rw mix-xor (hash_quads-foldl initial bytes), bound)
  where
    bound : hash_quads initial bytes < 2 ^ 64
    bound =
        rw (hash_quads-foldl initial bytes, ← hash_rest-foldl initial bytes)
          (hash_rest-lt initial bytes (omega arith))

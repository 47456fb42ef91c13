-- ===== src/Hash.antt =====
-- src/dsa/hashtable.hpp, `hash_key`: 64-bit FNV-1a over the bytes of a key, unrolled four at a time,
-- and what a template key type `K` brings to the table: its hash and its `==`.
pub mod Fnv
mod Tests
use Prim.Native.Nat.{bit_xor}
use vector_db.Prelude.{
  ℕ, ◌*◌, ◌%◌, ◌^◌, ◌≡◌, ◌↔◌, refl, Bool, true, false, List, [], ◌∷◌, arith, ◌==◌, ◌&&◌,
}

abbrev pub initial : ℕ
initial = 0xCBF29CE484222325

abbrev pub multiplier : ℕ
multiplier = 0x100000001B3

-- `hash = (hash ^ byte) * MULTIPLIER` on `uint64_t`.
unfoldable pub mix : ℕ → ℕ → ℕ
mix hash byte = bit_xor hash byte * multiplier % 2 ^ 64

-- `for (; i < len; i++)`
unfoldable pub hash_rest : ℕ → List ℕ → ℕ
unfolding mix
hash_rest hash [] = hash
hash_rest hash (b ∷ bs) = hash_rest (mix hash b) bs

-- `for (; i + 4 <= len; i += 4)`, then the bytes that are left.
unfoldable pub hash_quads : ℕ → List ℕ → ℕ
unfolding mix hash_rest
hash_quads hash (a ∷ b ∷ c ∷ d ∷ bs) = hash_quads (mix (mix (mix (mix hash a) b) c) d) bs
hash_quads hash bs = hash_rest hash bs

-- `hash_key(data, len)`, for `std::string`, `std::string_view` and `std::vector<uint8_t>`.
unfoldable pub hash_key : List ℕ → ℕ
unfolding hash_quads
hash_key bytes = hash_quads initial bytes

-- The operations on `K` that the table calls.
pub record Key {ℓ} (K : Type ℓ) : Type ℓ where
  pub hash : K → ℕ
  pub beq : K → K → Bool
  pub beq_iff : (a b : K) → (beq a b ≡ true) ↔ (a ≡ b)

abbrev pub bytes_eq : List ℕ → List ℕ → Bool
bytes_eq [] [] = true
bytes_eq [] (_ ∷ _) = false
bytes_eq (_ ∷ _) [] = false
bytes_eq (a ∷ x) (b ∷ y) = a == b && bytes_eq x y

bytes_eq_refl : (x : List ℕ) → bytes_eq x x ≡ true
bytes_eq_refl [] = refl
bytes_eq_refl (a ∷ x) = ground (arith, bytes_eq_refl x)

eq_of_bytes_eq : (x y : List ℕ) → bytes_eq x y ≡ true → x ≡ y
eq_of_bytes_eq [] [] h = refl
eq_of_bytes_eq [] (b ∷ y) h = cc
eq_of_bytes_eq (a ∷ x) [] h = cc
eq_of_bytes_eq (a ∷ x) (b ∷ y) h = ground (arith, eq_of_bytes_eq x y)

pub bytes_eq_iff : (x y : List ℕ) → (bytes_eq x y ≡ true) ↔ (x ≡ y)
bytes_eq_iff x y = (eq_of_bytes_eq x y, λ e. rw e (bytes_eq_refl y))

instance unfoldable pub string_key : Key (List ℕ)
unfolding hash_key
string_key = record { hash = hash_key; beq = bytes_eq; beq_iff = bytes_eq_iff }

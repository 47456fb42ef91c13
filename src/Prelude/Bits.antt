-- ===== src/Prelude/Bits.antt =====
-- `x & m` is no larger than the mask, and taken a digit at a time.
use Prim.Native.Nat.{ℕ, zero, suc, ◌+◌, ◌*◌, ◌/◌, ◌%◌, ◌≤◌, min, bit_and, digits, bit_and-bitwise}
use mathlib.Core.Path.{◌≡◌, refl, ap, ap₂, ◌∙◌}
use native.Mathlib.Omega.{arith}

-- The digits of `x & m`, at most `n` of them.
digits-le : (n x m : ℕ) → digits (λ _. zero) min n x m ≤ m
digits-le zero x m = omega arith
digits-le (suc n) zero m = omega arith
digits-le (suc n) (suc x) m = omega (arith, digits-le n (suc x / 2) (m / 2))

pub bit_and-le : (x m : ℕ) → bit_and x m ≤ m
bit_and-le x m = omega (arith, bit_and-bitwise x m, digits-le x x m)

-- Any number of rounds does, from the number itself on.
rounds : (x m n k : ℕ) → x ≤ n → x ≤ k → digits (λ _. zero) min n x m ≡ digits (λ _. zero) min k x m
rounds zero m zero zero hn hk = refl
rounds zero m zero (suc k) hn hk = refl
rounds zero m (suc n) zero hn hk = refl
rounds zero m (suc n) (suc k) hn hk = refl
rounds (suc x) m zero k hn hk = absurd (omega arith)
rounds (suc x) m (suc n) zero hn hk = absurd (omega arith)
rounds (suc x) m (suc n) (suc k) hn hk =
    omega (arith, rounds (suc x / 2) (m / 2) n k (omega arith) (omega arith))

bit_and-half : (x m : ℕ) → bit_and x m ≡ bit_and (x / 2) (m / 2) * 2 + min (x % 2) (m % 2)
bit_and-half zero m = omega (arith, bit_and-bitwise 0 m, bit_and-bitwise 0 (m / 2))
bit_and-half (suc x) m =
    let enough = rounds (suc x / 2) (m / 2) x (suc x / 2) (omega arith) (omega arith) in
    omega (arith, bit_and-bitwise (suc x) m, bit_and-bitwise (suc x / 2) (m / 2), enough)

-- A mask that ends in three ones behind a zero.
pub bit_and-nibble : (x m : ℕ) → bit_and x (16 * m + 7) ≡ 16 * bit_and (x / 16) m + x % 8
bit_and-nibble x m =
    let third = bit_and-half (x / 2 / 2 / 2) (2 * m) in
    let same : bit_and (x / 2 / 2 / 2 / 2) (2 * m / 2) ≡ bit_and (x / 16) m =
      ap₂ bit_and (omega arith) (omega arith) in
    let second : bit_and (x / 2 / 2) (4 * m + 1)
        ≡ bit_and (x / 2 / 2 / 2) (2 * m) * 2 + x / 2 / 2 % 2 =
      bit_and-half (x / 2 / 2) (4 * m + 1)
      ∙ ap₂ (λ a b. a * 2 + b) (ap (λ z. bit_and (x / 2 / 2 / 2) z) (omega arith)) (omega arith) in
    let first : bit_and (x / 2) (8 * m + 3) ≡ bit_and (x / 2 / 2) (4 * m + 1) * 2 + x / 2 % 2 =
      bit_and-half (x / 2) (8 * m + 3)
      ∙ ap₂ (λ a b. a * 2 + b) (ap (λ z. bit_and (x / 2 / 2) z) (omega arith)) (omega arith) in
    let all : bit_and x (16 * m + 7) ≡ bit_and (x / 2) (8 * m + 3) * 2 + x % 2 =
      bit_and-half x (16 * m + 7)
      ∙ ap₂ (λ a b. a * 2 + b) (ap (λ z. bit_and (x / 2) z) (omega arith)) (omega arith) in
    omega (arith, third, same, second, first, all)

pub bit_and_seven : (x : ℕ) → bit_and x 7 ≡ x % 8
bit_and_seven x = omega (arith, bit_and-nibble x 0, bit_and-le (x / 16) 0)

-- ===== src/CountMinSketch/Powers.antt =====
-- src/cache/CountMinSketch.cpp: `next2Power` gives a power of two.
use native.Mathlib.Nat.{div-div-eq-div-mul}
use native.Mathlib.Numerals.{unary_clauses}
use Prim.Native.Nat.{bit_or, digits, bit_or-bitwise, max}
use mathlib.Core.Path.{ap₂}
use vector_db.Prelude.{
  ℕ, zero, suc, ◌+◌, ◌-◌, ◌*◌, ◌/◌, ◌%◌, ◌^◌, ◌≤◌, ◌<◌, ◌≡◌, refl, sym, ap, ◌∙◌, ◌⊎◌, inl, inr,
  arith, ltb, ltb→lt, ltb-false→le, Bool-cases, if◌then◌else◌,
}
use vector_db.Prelude.Outcome.{ret, fault, overflow}
use vector_db.CountMinSketch.{next_power, at_least_8}

-- Any number of rounds computes `x | y`, from `x` on.
or_rounds : (x y n k : ℕ) → x ≤ n → x ≤ k → digits (λ b. b) max n x y ≡ digits (λ b. b) max k x y
or_rounds zero y zero zero hn hk = refl
or_rounds zero y zero (suc k) hn hk = refl
or_rounds zero y (suc n) zero hn hk = refl
or_rounds zero y (suc n) (suc k) hn hk = refl
or_rounds (suc x) y zero k hn hk = absurd (omega arith)
or_rounds (suc x) y (suc n) zero hn hk = absurd (omega arith)
or_rounds (suc x) y (suc n) (suc k) hn hk =
    omega (arith, or_rounds (suc x / 2) (y / 2) n k (omega arith) (omega arith))

zero-bit_or : (y : ℕ) → bit_or 0 y ≡ y
zero-bit_or y = bit_or-bitwise 0 y

bit_or-half : (x y : ℕ) → bit_or x y ≡ bit_or (x / 2) (y / 2) * 2 + max (x % 2) (y % 2)
bit_or-half zero y = omega (arith, zero-bit_or y, zero-bit_or (y / 2))
bit_or-half (suc x) y =
    let enough = or_rounds (suc x / 2) (y / 2) x (suc x / 2) (omega arith) (omega arith) in
    omega (arith, bit_or-bitwise (suc x) y, bit_or-bitwise (suc x / 2) (y / 2), enough)

half_power : (x t : ℕ) → x / 2 ^ suc t ≡ x / 2 / 2 ^ t
half_power x t =
    let e : 2 ^ suc t ≡ 2 * 2 ^ t = simp unary_clauses (omega arith) in
    ap (λ z. x / z) e ∙ sym (div-div-eq-div-mul x 2 (2 ^ t))

ones : ℕ → ℕ
ones zero = 0
ones (suc n) = 2 * ones n + 1

-- `x |= x >> k`
abbrev smear : ℕ → ℕ → ℕ
smear k x = bit_or x (x / 2 ^ k)

smear-bit :
    (k b bit : ℕ)
    → bit < 2
    → smear (suc k) (2 * b + bit) ≡ 2 * smear (suc k) b + max bit (b / 2 ^ k % 2)
smear-bit k b bit small =
    let x = 2 * b + bit in
    let upper : x / 2 ≡ b = omega arith in
    let shifted : x / 2 ^ suc k ≡ b / 2 ^ k = half_power x k ∙ ap (λ z. z / 2 ^ k) upper in
    let e : 2 ^ suc k ≡ 2 ^ k * 2 = simp unary_clauses (omega arith) in
    let again : b / 2 ^ k / 2 ≡ b / 2 ^ suc k =
      div-div-eq-div-mul b (2 ^ k) 2 ∙ ap (λ z. b / z) (sym e) in
    let rest : bit_or (x / 2) (x / 2 ^ suc k / 2) ≡ smear (suc k) b =
      ap₂ bit_or upper (ap (λ (z : ℕ). z / 2) shifted ∙ again) in
    omega (arith, bit_or-half x (x / 2 ^ suc k), rest, shifted)

-- `k` ones, and `j` bits behind them.
data Leads (k : ℕ) : ℕ → ℕ → Type 0 where
  all_ones : (a : ℕ) → a ≡ ones k → Leads k 0 a
  and_bit : (j a b bit : ℕ) → a ≡ 2 * b + bit → bit < 2 → Leads k j b → Leads k (suc j) a

ones-bit : (k t : ℕ) → t < k → ones k / 2 ^ t % 2 ≡ 1
unfolding ones
ones-bit zero t h = absurd (omega arith)
ones-bit (suc k) zero h = omega arith
ones-bit (suc k) (suc t) h =
    ap (λ z. z % 2) (half_power (ones (suc k)) t ∙ ap (λ z. z / 2 ^ t) (omega arith))
    ∙ ones-bit k t (omega arith)

Leads-bit : (k j a t : ℕ) → Leads k j a → j ≤ t → t < j + k → a / 2 ^ t % 2 ≡ 1
Leads-bit k j a t (all_ones a' e) low high = ap (λ z. z / 2 ^ t % 2) e ∙ ones-bit k t (omega arith)
Leads-bit k j a zero (and_bit j' a' b bit e small rest) low high = absurd (omega arith)
Leads-bit k j a (suc t) (and_bit j' a' b bit e small rest) low high =
    ap (λ z. z % 2) (half_power a t ∙ ap (λ z. z / 2 ^ t) (omega (arith, e)))
    ∙ Leads-bit k j' b t rest (omega arith) (omega arith)

Leads-le : (k j a : ℕ) → Leads k j a → ones k ≤ a
Leads-le k j a (all_ones a' e) = omega (arith, e)
Leads-le k j a (and_bit j' a' b bit e small rest) = omega (arith, e, Leads-le k j' b rest)

bit_or-zero_rounds : (n x : ℕ) → x ≤ n → bit_or x 0 ≡ x
bit_or-zero_rounds n zero h = zero-bit_or 0
bit_or-zero_rounds zero (suc x) h = absurd (omega arith)
bit_or-zero_rounds (suc n) (suc x) h =
    omega (arith, bit_or-half (suc x) 0, bit_or-zero_rounds n (suc x / 2) (omega arith))

pub bit_or-zero : (x : ℕ) → bit_or x 0 ≡ x
bit_or-zero x = bit_or-zero_rounds x x (omega arith)

ones-shift : (m k : ℕ) → m ≤ k → ones m / 2 ^ k ≡ 0
unfolding ones
ones-shift zero zero h = refl
ones-shift zero (suc k) h = half_power 0 k ∙ ones-shift zero k (omega arith)
ones-shift (suc m) zero h = absurd (omega arith)
ones-shift (suc m) (suc k) h =
    half_power (ones (suc m)) k ∙ ap (λ z. z / 2 ^ k) (omega arith) ∙ ones-shift m k (omega arith)

smear-ones : (m k : ℕ) → m ≤ k → smear k (ones m) ≡ ones m
smear-ones m k h = ap (λ z. bit_or (ones m) z) (ones-shift m k h) ∙ bit_or-zero (ones m)

-- Fewer bits behind the ones than there are ones: all become ones.
smear_short :
    (k j a n : ℕ) → Leads (suc k) j a → j < suc k → n ≡ suc k + j → smear (suc k) a ≡ ones n
unfolding ones
smear_short k j a n (all_ones a' e) h en =
    ap (smear (suc k)) e
    ∙ smear-ones (suc k) (suc k) (omega arith)
    ∙ ap ones {x = suc k} {y = n} (omega arith)
smear_short k j a zero (and_bit j' a' b bit e small rest) h en = absurd (omega arith)
smear_short k j a (suc n) (and_bit j' a' b bit e small rest) h en =
    let ih = smear_short k j' b n rest (omega arith) (omega arith) in
    let one = Leads-bit (suc k) j' b k rest (omega arith) (omega arith) in
    ap (smear (suc k)) e ∙ omega (arith, smear-bit k b bit small, ih, one)

-- Otherwise there are twice as many ones after it.
smear_long :
    (k i j a : ℕ) → Leads (suc k) j a → j ≡ suc k + i → Leads (suc k + suc k) i (smear (suc k) a)
unfolding ones
smear_long k i j a (all_ones a' e) h = absurd (omega arith)
smear_long k zero j a (and_bit j' a' b bit e small rest) h =
    let short = smear_short k j' b (suc k + k) rest (omega arith) (omega arith) in
    let one = Leads-bit (suc k) j' b k rest (omega arith) (omega arith) in
    let twice : ones (suc k + suc k) ≡ 2 * ones (suc k + k) + 1 =
      ap ones {x = suc k + suc k} {y = suc (suc k + k)} (omega arith) in
    all_ones (smear (suc k) a)
      (ap (smear (suc k)) e ∙ omega (arith, smear-bit k b bit small, short, one, twice))
smear_long k (suc i) j a (and_bit j' a' b bit e small rest) h =
    and_bit i (smear (suc k) a) (smear (suc k) b) (max bit (b / 2 ^ k % 2))
      (ap (smear (suc k)) e ∙ smear-bit k b bit small) (omega arith)
      (smear_long k i j' b rest (omega arith))

-- The first `k` bits are ones, or all are.
abbrev Topped : ℕ → ℕ → Type 0
Topped k a = ((j : ℕ) × Leads k j a) ⊎ ((m : ℕ) × (m < k) × (a ≡ ones m))

smear-Topped : (k a : ℕ) → Topped (suc k) a → Topped (suc k + suc k) (smear (suc k) a)
smear-Topped k a (inr (m, h, e)) =
    inr (m, omega arith, ap (smear (suc k)) e ∙ smear-ones m (suc k) (omega arith))
smear-Topped k a (inl (j, h)) = elim (Bool-cases (ltb j (suc k))) [
  | inl few ↦
      let less : j < suc k = ltb→lt j (suc k) few in
      inr (suc k + j, omega arith, smear_short k j a (suc k + j) h less refl)
  | inr many ↦
      let more : suc k ≤ j = ltb-false→le j (suc k) many in
      inl (j - suc k, smear_long k (j - suc k) j a h (omega arith))
]

one-Topped : (n a : ℕ) → suc a ≤ n → (j : ℕ) × Leads 1 j (suc a)
unfolding ones
one-Topped zero a h = absurd (omega arith)
one-Topped (suc n) zero h = (0, all_ones 1 refl)
one-Topped (suc n) (suc a) h =
    let (j, rest) = one-Topped n (a / 2) (omega arith) in
    (suc j, and_bit j (suc (suc a)) (suc (a / 2)) (a % 2) (omega arith) (omega arith) rest)

start-Topped : (a : ℕ) → Topped 1 a
unfolding ones
start-Topped zero = inr (0, omega arith, refl)
start-Topped (suc a) = inl (one-Topped (suc a) a (omega arith))

ones_eighth : (m : ℕ) → at_least_8 (ones m + 1) % 8 ≡ 0
unfolding ones
ones_eighth zero = refl
ones_eighth (suc zero) = refl
ones_eighth (suc (suc zero)) = refl
ones_eighth (suc (suc (suc m))) = ground arith

returned :
    (x power : ℕ)
    → (if ltb (x + 1) (2 ^ 31) then ret (x + 1) else fault overflow) ≡ ret power
    → (x + 1 < 2 ^ 31) × (x + 1 ≡ power)
returned x power h = ground arith

power-of_ones :
    (x power : ℕ) → Topped 32 x → x + 1 < 2 ^ 31 → x + 1 ≡ power → at_least_8 power % 8 ≡ 0
unfolding ones
power-of_ones x power (inl (j, h)) small e = absurd (omega (arith, Leads-le 32 j x h))
power-of_ones x power (inr (m, h, all)) small e =
    ap (λ z. at_least_8 z % 8) (sym e ∙ ap (λ (z : ℕ). z + 1) all) ∙ ones_eighth m

-- Where the undefined shift adds no bits, `next2Power` gives a power of two: there are at least eight
-- counters, and they fill whole words.
pub next_power-at_least_8 :
    (shift_32 : ℕ → ℕ) (count_num power : ℕ)
    → ((x : ℕ) → bit_or x (shift_32 x) ≡ x)
    → next_power shift_32 count_num ≡ ret power
    → at_least_8 power % 8 ≡ 0
unfolding next_power
next_power-at_least_8 shift_32 zero power quiet h = ground arith
next_power-at_least_8 shift_32 (suc x) power quiet h =
    let x1 = smear 1 x in
    let x2 = smear 2 x1 in
    let x4 = smear 4 x2 in
    let x8 = smear 8 x4 in
    let x16 = smear 16 x8 in
    let t2 : Topped 2 x1 = smear-Topped 0 x (start-Topped x) in
    let t4 : Topped 4 x2 = smear-Topped 1 x1 t2 in
    let t8 : Topped 8 x4 = smear-Topped 3 x2 t4 in
    let t16 : Topped 16 x8 = smear-Topped 7 x4 t8 in
    let t32 : Topped 32 x16 = smear-Topped 15 x8 t16 in
    let (small, made) = returned (bit_or x16 (shift_32 x16)) power h in
    power-of_ones x16 power t32 (omega (arith, quiet x16)) (omega (arith, quiet x16))

-- ===== src/CountMinSketch/Counters.antt =====
-- src/cache/CountMinSketch.cpp: the eight counters of four bits in a word.
use native.Mathlib.Nat.{div-div-eq-div-mul}
use native.Mathlib.Numerals.{unary_clauses}
use Prim.Native.Nat.{bit_and}
use vector_db.Prelude.{
  ℕ, zero, suc, ◌+◌, ◌*◌, ◌/◌, ◌%◌, ◌^◌, ◌≤◌, ◌<◌, ◌≡◌, ◌≢◌, refl, sym, ap, ◌∙◌, arith,
  bit_and-nibble, bit_and_seven, bit_and-le,
}
use vector_db.CountMinSketch.{halve}

abbrev pub counter : ℕ → ℕ → ℕ
counter w o = w / 2 ^ (o * 4) % 16

place_suc : (o : ℕ) → 2 ^ (suc o * 4) ≡ 16 * 2 ^ (o * 4)
place_suc o =
    let e : suc o * 4 ≡ suc (suc (suc (suc (o * 4)))) = omega arith in
    rw e (simp unary_clauses (omega arith))

counter-zero : (w : ℕ) → counter w 0 ≡ w % 16
counter-zero w = omega arith

counter-suc : (w o : ℕ) → counter w (suc o) ≡ counter (w / 16) o
counter-suc w o =
    ap (λ z. w / z % 16) (place_suc o)
    ∙ ap (λ z. z % 16) (sym (div-div-eq-div-mul w 16 (2 ^ (o * 4))))

pub counter-nothing : (o : ℕ) → counter 0 o ≡ 0
counter-nothing zero = refl
counter-nothing (suc o) = counter-suc 0 o ∙ counter-nothing o

-- A number of the place `suc o`, taken down a place.
add_down : (w o : ℕ) → (w + 2 ^ (suc o * 4)) / 16 ≡ w / 16 + 2 ^ (o * 4)
add_down w o = omega (arith, place_suc o)

pub counter-add_self : (w o : ℕ) → counter w o < 15 → counter (w + 2 ^ (o * 4)) o ≡ counter w o + 1
counter-add_self w zero h = omega arith
counter-add_self w (suc o) h =
    let ih = counter-add_self (w / 16) o (omega (arith, counter-suc w o)) in
    counter-suc (w + 2 ^ (suc o * 4)) o
    ∙ ap (λ z. counter z o) (add_down w o)
    ∙ ih
    ∙ ap (λ (z : ℕ). z + 1) (sym (counter-suc w o))

-- Without a carry.
pub counter-add_other :
    (w o p : ℕ) → o ≢ p → counter w o < 15 → counter (w + 2 ^ (o * 4)) p ≡ counter w p
counter-add_other w zero zero ne h = absurd (ne refl)
counter-add_other w zero (suc p) ne h =
    counter-suc (w + 2 ^ (0 * 4)) p ∙ ap (λ z. counter z p) (omega arith) ∙ sym (counter-suc w p)
counter-add_other w (suc o) zero ne h = omega (arith, place_suc o)
counter-add_other w (suc o) (suc p) ne h =
    counter-suc (w + 2 ^ (suc o * 4)) p
    ∙ ap (λ z. counter z p) (add_down w o)
    ∙ counter-add_other (w / 16) o p (λ e. ne (ap suc e)) (omega (arith, counter-suc w o))
    ∙ sym (counter-suc w p)

sevens : ℕ → ℕ
sevens zero = 0
sevens (suc n) = 16 * sevens n + 7

counter-sevens : (n w o : ℕ) → o < n → counter (bit_and (w / 2) (sevens n)) o ≡ counter w o / 2
unfolding sevens
counter-sevens zero w o h = absurd (omega arith)
counter-sevens (suc n) w zero h = omega (arith, bit_and-nibble (w / 2) (sevens n))
counter-sevens (suc n) w (suc o) h =
    counter-suc (bit_and (w / 2) (sevens (suc n))) o
    ∙ ap (λ z. counter z o)
        (omega
          (arith, bit_and-nibble (w / 2) (sevens n), ap (λ z. bit_and z (sevens n)) (halves w)))
    ∙ counter-sevens n (w / 16) o (omega arith)
    ∙ ap (λ (z : ℕ). z / 2) (sym (counter-suc w o))
  where
    halves : (w : ℕ) → w / 2 / 16 ≡ w / 16 / 2
    halves w = omega arith

-- `decay` halves each counter.
pub counter-halve : (w o : ℕ) → o < 8 → counter (halve w) o ≡ counter w o / 2
unfolding sevens
counter-halve w o h = counter-sevens 8 w o h

pub halve-lt : (w : ℕ) → halve w < 2 ^ 31
halve-lt w = omega (arith, bit_and-le (w / 2) 0x77777777)

-- What `get` reads of a counter below eight.
pub seven-counter : (w o : ℕ) → counter w o < 8 → bit_and (w / 2 ^ (o * 4)) 0x7 ≡ counter w o
seven-counter w o h = omega (arith, bit_and_seven (w / 2 ^ (o * 4)))

-- The bound of words of `n + 1` counters, the last of three bits.
bound : ℕ → ℕ
bound zero = 8
bound (suc n) = 16 * bound n

-- A counter below seven can be counted up.
room-lt : (n w o : ℕ) → o ≤ n → w < bound n → counter w o < 7 → w + 2 ^ (o * 4) < bound n
unfolding bound
room-lt zero w zero h small low = omega arith
room-lt zero w (suc o) h small low = absurd (omega arith)
room-lt (suc n) w zero h small low = omega arith
room-lt (suc n) w (suc o) h small low =
    let rest = room-lt n (w / 16) o (omega arith) (omega arith) (omega (arith, counter-suc w o)) in
    omega (arith, place_suc o)

pub counter_room : (w o : ℕ) → o < 8 → w < 2 ^ 31 → counter w o < 7 → w + 2 ^ (o * 4) < 2 ^ 31
unfolding bound
counter_room w o h small low = room-lt 7 w o (omega arith) small low

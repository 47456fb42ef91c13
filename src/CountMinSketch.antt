-- ===== src/CountMinSketch.antt =====
-- src/cache/CountMinSketch.cpp: `CountMinRow` and `CountMinSketch`. An `int` of a row is a number below 2^31:
-- what would make it negative is the fault `overflow`. The local `value` of `CountMinRow::increment`, which has
-- the name of the parameter, is read as a variable of its own. The seeds are what the generator gives.
use Prim.Native.Nat.{bit_and, bit_or, bit_xor}
pub mod Counters
pub mod Rows
pub mod Powers
pub mod Calls
pub mod Estimates
mod Tests
use vector_db.Prelude.{
  ℕ, zero, suc, ◌+◌, ◌-◌, ◌*◌, ◌/◌, ◌%◌, ◌^◌, none, some, List, [], ◌∷◌, map, ltb, if◌then◌else◌,
  get_elem?, set, replicate,
}
use vector_db.Prelude.Outcome.{Outcome, ret, fault, out_of_bounds, overflow, ◌>>=◌}

pub record CountMinRow : Type 0 where
  pub bits : List ℕ

abbrev pub count_index : ℕ → ℕ
count_index value = value / 8

abbrev pub count_offset : ℕ → ℕ
count_offset value = value % 8 * 4

-- `_bits[countIndex]`
unfoldable pub word : List ℕ → ℕ → Outcome ℕ
word bits i = elim (get_elem? bits i) [ none ↦ fault out_of_bounds | some w ↦ ret w ]

-- `(w >> countOffset) & 0x7`
abbrev pub counter_bits : ℕ → ℕ → ℕ
counter_bits w value = bit_and (w / 2 ^ count_offset value) 0x7

unfoldable pub get : CountMinRow → ℕ → Outcome ℕ
unfolding word
get row value = word row.bits (count_index value) >>= λ w. ret (counter_bits w value)

-- `w += (1 << countOffset)`
abbrev pub add_at : ℕ → ℕ → Outcome ℕ
add_at w value =
    let sum = w + 2 ^ count_offset value in if ltb sum (2 ^ 31) then ret sum else fault overflow

unfoldable pub increment : CountMinRow → ℕ → Outcome CountMinRow
unfolding word
increment row value = word row.bits (count_index value) >>= λ w.
    if ltb (counter_bits w value) 15
    then (add_at w value >>= λ sum. ret (record { bits = set row.bits (count_index value) sum }))
    else ret row

abbrev pub clear_row : CountMinRow → CountMinRow
clear_row row = record { bits = map (λ _. 0) row.bits }

-- `(it >> 1) & 0x77777777`
abbrev pub halve : ℕ → ℕ
halve it = bit_and (it / 2) 0x77777777

abbrev pub decay_row : CountMinRow → CountMinRow
decay_row row = record { bits = map halve row.bits }

abbrev pub new_row : ℕ → CountMinRow
new_row count_num = record { bits = replicate ((if ltb count_num 8 then 8 else count_num) / 8) 0 }

pub record CountMinSketch : Type 0 where
  pub rows : List CountMinRow
  pub seed : List ℕ
  pub mask : ℕ

-- `next2Power`, for an argument below 2^31. A shift of an `int` by 32 is undefined: what it gives is an
-- argument.
unfoldable pub next_power : (ℕ → ℕ) → ℕ → Outcome ℕ
next_power shift_32 zero = ret 0
next_power shift_32 (suc x) =
    let x1 = bit_or x (x / 2 ^ 1) in
    let x2 = bit_or x1 (x1 / 2 ^ 2) in
    let x4 = bit_or x2 (x2 / 2 ^ 4) in
    let x8 = bit_or x4 (x4 / 2 ^ 8) in
    let x16 = bit_or x8 (x8 / 2 ^ 16) in
    let x32 = bit_or x16 (shift_32 x16) in
    if ltb (x32 + 1) (2 ^ 31) then ret (x32 + 1) else fault overflow

-- The counters of a row, from what `next2Power` gives.
abbrev pub at_least_8 : ℕ → ℕ
at_least_8 power = if ltb power 8 then 8 else power

unfoldable pub new : (ℕ → ℕ) → ℕ → List ℕ → Outcome CountMinSketch
unfolding next_power
new shift_32 count_num seeds = next_power shift_32 count_num >>= λ power. ret (record {
  rows = replicate 4 (new_row (at_least_8 power));
  seed = seeds;
  mask = at_least_8 power - 1;
})

-- `(hash ^ seed_[i]) & mask_`
abbrev pub slot : ℕ → ℕ → ℕ → ℕ
slot mask seed hash = bit_and (bit_xor hash seed) mask

-- The loop of `getCountMin`.
unfoldable pub least_count : List CountMinRow → List ℕ → ℕ → ℕ → ℕ → Outcome ℕ
unfolding get
least_count [] seeds mask hash least = ret least
least_count (row ∷ rows) [] mask hash least = fault out_of_bounds
least_count (row ∷ rows) (seed ∷ seeds) mask hash least = get row (slot mask seed hash) >>= λ value.
    least_count rows seeds mask hash (if ltb value least then value else least)

unfoldable pub get_count_min : CountMinSketch → ℕ → Outcome ℕ
unfolding least_count
get_count_min s hash = least_count s.rows s.seed s.mask hash 16

-- The loop of `CountMinSketch::increment`.
unfoldable pub increment_rows : List CountMinRow → List ℕ → ℕ → ℕ → Outcome (List CountMinRow)
unfolding increment
increment_rows [] seeds mask hash = ret []
increment_rows (row ∷ rows) [] mask hash = fault out_of_bounds
increment_rows (row ∷ rows) (seed ∷ seeds) mask hash = do
  row' ← increment row (slot mask seed hash)
  rows' ← increment_rows rows seeds mask hash
  ret (row' ∷ rows')

unfoldable pub increment_all : CountMinSketch → ℕ → Outcome CountMinSketch
unfolding increment_rows
increment_all s hash =
    increment_rows s.rows s.seed s.mask hash >>= λ rows. ret (record s { rows = rows })

abbrev pub decay : CountMinSketch → CountMinSketch
decay s = record s { rows = map decay_row s.rows }

abbrev pub clear : CountMinSketch → CountMinSketch
clear s = record s { rows = map clear_row s.rows }

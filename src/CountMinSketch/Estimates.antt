-- ===== src/CountMinSketch/Estimates.antt =====
-- src/cache/CountMinSketch.cpp: what `getCountMin` says after a sequence of calls.
use vector_db.Prelude.{
  ℕ, ◌+◌, ◌-◌, ◌*◌, ◌/◌, ◌≤◌, ◌<◌, ◌≡◌, refl, ap, List, [], ◌∷◌, map, replicate, arith, bit_and-le,
  ◌==◌, ==_iff, ltb, if◌then◌else◌,
}
use vector_db.Prelude.Outcome.{ret, ◌>>=◌}
use vector_db.CountMinSketch.{
  CountMinRow, CountMinSketch, clear_row, decay_row, new_row, next_power, at_least_8, new, slot,
  least_count, get_count_min, increment_rows, increment_all,
}
use vector_db.CountMinSketch.Rows.{
  IsRow, zeros-IsRow, clear-IsRow, decay-IsRow, get-IsRow, increment-IsRow,
}
use vector_db.CountMinSketch.Calls.{
  Call, count_call, decay_call, clear_call, call, run, tally, increments, smallest, tally-le,
  tally-le-increments, le-smallest,
}
use vector_db.CountMinSketch.Powers.{next_power-at_least_8}
use Prim.Native.Nat.{bit_or, bit_xor}

-- The rows, where the counts of a row are given by its seed.
data AreRows (words k : ℕ) (f : ℕ → ℕ → ℕ) : List CountMinRow → List ℕ → Type 0 where
  no_rows : AreRows words k f [] []
  and_row :
      (row : CountMinRow) (seed : ℕ) (rows : List CountMinRow) (seeds : List ℕ)
      → IsRow words k row (f seed)
      → AreRows words k f rows seeds
      → AreRows words k f (row ∷ rows) (seed ∷ seeds)

widen-AreRows :
    (words k : ℕ) (f : ℕ → ℕ → ℕ) (rows : List CountMinRow) (seeds : List ℕ)
    → k < 8
    → AreRows words k f rows seeds
    → AreRows words 7 f rows seeds
widen-AreRows words k f rows seeds low no_rows = no_rows
widen-AreRows words k f rows seeds low (and_row row seed rows' seeds' h rest) =
    and_row row seed rows' seeds'
      (record {
        sized = h.sized;
        small = h.small;
        counts = h.counts;
        low = λ j b. omega (arith, h.low j b);
      })
      (widen-AreRows words k f rows' seeds' low rest)

module _ (words mask : ℕ) (inside : mask < 8 * words) where
  slot-lt : (seed hash : ℕ) → slot mask seed hash < 8 * words
  slot-lt seed hash = omega (arith, bit_and-le (bit_xor hash seed) mask)

  least_count-smallest :
      (k : ℕ) (f : ℕ → ℕ → ℕ) (rows : List CountMinRow) (seeds : List ℕ) (hash least : ℕ)
      → k < 8
      → AreRows words k f rows seeds
      → least_count rows seeds mask hash least
        ≡ ret (smallest (λ seed. f seed (slot mask seed hash)) seeds least)
  unfolding least_count
  least_count-smallest k f rows seeds hash least low no_rows = refl
  least_count-smallest k f rows seeds hash least low (and_row row seed rows' seeds' h rest) =
      let n = f seed (slot mask seed hash) in
      rw (get-IsRow words k row (f seed) h (slot mask seed hash) (slot-lt seed hash) low)
        (least_count-smallest k f rows' seeds' hash (if ltb n least then n else least) low rest)

  abbrev counted : (ℕ → ℕ → ℕ) → ℕ → ℕ → ℕ → ℕ
  counted f hash seed i = if i == slot mask seed hash then f seed i + 1 else f seed i

  increment-AreRows :
      (k : ℕ) (f : ℕ → ℕ → ℕ) (rows : List CountMinRow) (seeds : List ℕ) (hash : ℕ)
      → k < 7
      → AreRows words k f rows seeds
      → (rows' : List CountMinRow) × (increment_rows rows seeds mask hash ≡ ret rows')
        × AreRows words (k + 1) (counted f hash) rows' seeds
  unfolding increment_rows
  increment-AreRows k f rows seeds hash low no_rows = ([], refl, no_rows)
  increment-AreRows k f rows seeds hash low (and_row row seed rows' seeds' h rest) =
      let (row₁, first, h₁) =
        increment-IsRow words k row (f seed) h (slot mask seed hash) (slot-lt seed hash) low in
      let (rows₁, others, rest₁) = increment-AreRows k f rows' seeds' hash low rest in
      (row₁ ∷ rows₁, rw (first, others), and_row row₁ seed rows₁ seeds' h₁ rest₁)

  decay-AreRows :
      (k : ℕ) (f : ℕ → ℕ → ℕ) (rows : List CountMinRow) (seeds : List ℕ)
      → AreRows words k f rows seeds
      → AreRows words k (λ seed j. f seed j / 2) (map decay_row rows) seeds
  decay-AreRows k f rows seeds no_rows = no_rows
  decay-AreRows k f rows seeds (and_row row seed rows' seeds' h rest) =
      and_row (decay_row row) seed (map decay_row rows') seeds' (decay-IsRow words k row (f seed) h)
        (decay-AreRows k f rows' seeds' rest)

  clear-AreRows :
      (k : ℕ) (f : ℕ → ℕ → ℕ) (rows : List CountMinRow) (seeds : List ℕ)
      → AreRows words k f rows seeds
      → AreRows words k (λ seed j. 0) (map clear_row rows) seeds
  clear-AreRows k f rows seeds no_rows = no_rows
  clear-AreRows k f rows seeds (and_row row seed rows' seeds' h rest) =
      and_row (clear_row row) seed (map clear_row rows') seeds' (clear-IsRow words k row (f seed) h)
        (clear-AreRows k f rows' seeds' rest)

  -- The counts after the calls.
  run-AreRows :
      (cs : List Call) (k : ℕ) (f : ℕ → ℕ → ℕ) (rows : List CountMinRow) (seeds : List ℕ)
      → k + increments cs < 8
      → AreRows words k f rows seeds
      → (rows' : List CountMinRow) × (run cs (record { rows = rows; seed = seeds; mask = mask })
          ≡ ret (record { rows = rows'; seed = seeds; mask = mask }))
        × AreRows words 7
            (λ seed j. tally (λ hash. j == slot mask seed hash) cs (f seed j))
            rows'
            seeds
  unfolding run call increment_all
  run-AreRows [] k f rows seeds low h =
      (rows, refl, widen-AreRows words k f rows seeds (omega arith) h)
  run-AreRows (count_call hash ∷ cs) k f rows seeds low h =
      let (rows₁, done, h₁) = increment-AreRows k f rows seeds hash (omega arith) h in
      let (rows₂, rest, h₂) =
        run-AreRows cs (k + 1) (counted f hash) rows₁ seeds (omega arith) h₁ in
      (rows₂, rw (done, rest), h₂)
  run-AreRows (decay_call ∷ cs) k f rows seeds low h =
      run-AreRows cs k (λ seed j. f seed j / 2) (map decay_row rows) seeds low
        (decay-AreRows k f rows seeds h)
  run-AreRows (clear_call ∷ cs) k f rows seeds low h =
      run-AreRows cs k (λ seed j. 0) (map clear_row rows) seeds low (clear-AreRows k f rows seeds h)

-- A new sketch, where `next2Power` does not overflow and its undefined shift adds no bits, after fewer than
-- eight calls of `increment`, among which `decay` and `clear` are called at will: nothing overflows or is read
-- out of bounds, and the estimate of a hash is the least, over the four rows, of the counts of the hashes that
-- share its slot, counted up, halved and cleared as called, so it is never below the count of the hash itself.
pub get_count_min-smallest :
    (shift_32 : ℕ → ℕ) (count_num a b c d power : ℕ) (cs : List Call)
    → next_power shift_32 count_num ≡ ret power
    → ((x : ℕ) → bit_or x (shift_32 x) ≡ x)
    → increments cs < 8
    → (s : CountMinSketch) × ((new shift_32 count_num (a ∷ b ∷ c ∷ d ∷ []) >>= run cs) ≡ ret s)
      × ((hash : ℕ)
          → (v : ℕ) × (get_count_min s hash ≡ ret v)
            × (v
                ≡ smallest
                    (λ seed.
                      tally
                        (λ other.
                          slot (at_least_8 power - 1) seed hash
                          == slot (at_least_8 power - 1) seed other)
                        cs
                        0)
                    (a ∷ b ∷ c ∷ d ∷ [])
                    16)
            × (tally (λ other. hash == other) cs 0 ≤ v))
unfolding new get_count_min
get_count_min-smallest shift_32 count_num a b c d power cs powered quiet few =
    let eights = next_power-at_least_8 shift_32 count_num power quiet powered in
    let size = at_least_8 power in
    let mask = size - 1 in
    let words = at_least_8 size / 8 in
    let inside : mask < 8 * words = ground arith in
    let seeds = a ∷ b ∷ c ∷ d ∷ [] in
    let zero_row = zeros-IsRow words 0 in
    let start : AreRows words 0 (λ seed j. 0) (replicate 4 (new_row size)) seeds =
      and_row _ a _ _ zero_row
        (and_row _ b _ _ zero_row (and_row _ c _ _ zero_row (and_row _ d _ _ zero_row no_rows))) in
    let (rows, ran, h) =
      run-AreRows words mask inside cs 0 (λ seed j. 0) (replicate 4 (new_row size)) seeds
        (omega arith) start in
    let g = λ (hash seed : ℕ). tally (λ other. slot mask seed hash == slot mask seed other) cs 0 in
    (
      record { rows = rows; seed = seeds; mask = mask },
      rw (powered, ran),
      λ hash. (
        smallest (g hash) seeds 16,
        least_count-smallest words mask inside 7
            (λ seed j. tally (λ other. j == slot mask seed other) cs 0) rows seeds hash 16
            (omega arith) h,
        refl,
        le-smallest (g hash) seeds (tally (λ other. hash == other) cs 0) 16
            (λ seed.
              tally-le (λ other. hash == other)
                (λ other. slot mask seed hash == slot mask seed other) cs 0 0
                (λ other e.
                  (==_iff (slot mask seed hash) (slot mask seed other)).1
                    (ap (λ z. slot mask seed z) ((==_iff hash other).0 e)))
                (omega arith))
            (omega (arith, tally-le-increments (λ other. hash == other) cs 0)),
      ),
    )

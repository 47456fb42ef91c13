-- ===== src/CountMinSketch/Tests.antt =====
-- src/cache/CountMinSketch.cpp on small inputs.
use vector_db.Prelude.{ℕ, ◌-◌, ◌≡◌, ◌≤◌, refl, List, [], ◌∷◌, arith, ◌==◌}
use vector_db.Prelude.Outcome.{ret, ◌>>=◌}
use vector_db.CountMinSketch.{CountMinSketch, next_power, new, at_least_8, slot, get, get_count_min}
use vector_db.CountMinSketch.Calls.{Call, count_call, decay_call, run, tally, smallest}
use vector_db.CountMinSketch.Powers.{bit_or-zero}
use vector_db.CountMinSketch.Estimates.{get_count_min-smallest}

abbrev calls : List Call
calls = count_call 5 ∷ count_call 5 ∷ count_call 9 ∷ count_call 5 ∷ decay_call ∷ count_call 5 ∷ []

power_of_12 : next_power (λ _. 0) 12 ≡ ret 16
unfolding next_power
power_of_12 = refl

get_count_min-smallest_example :
    (s : CountMinSketch) × ((new (λ _. 0) 12 (1 ∷ 2 ∷ 3 ∷ 4 ∷ []) >>= run calls) ≡ ret s)
    × ((hash : ℕ)
        → (v : ℕ) × (get_count_min s hash ≡ ret v)
          × (v
              ≡ smallest
                  (λ seed.
                    tally
                      (λ other.
                        slot (at_least_8 16 - 1) seed hash == slot (at_least_8 16 - 1) seed other)
                      calls
                      0)
                  (1 ∷ 2 ∷ 3 ∷ 4 ∷ [])
                  16)
          × (tally (λ other. hash == other) calls 0 ≤ v))
get_count_min-smallest_example =
    get_count_min-smallest (λ _. 0) 12 1 2 3 4 16 calls power_of_12 bit_or-zero (omega arith)

-- A counter of eight reads as zero.
eight_reads_zero : get (record { bits = 8 ∷ [] }) 0 ≡ ret 0
unfolding get
eight_reads_zero = refl

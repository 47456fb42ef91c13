-- ===== src/CountMinSketch/Calls.antt =====
-- src/cache/CountMinSketch.cpp: sequences of calls, and the counts that they stand for.
use vector_db.Prelude.{
  ℕ, suc, ◌+◌, ◌/◌, ◌≤◌, ◌≡◌, Bool, true, List, [], ◌∷◌, arith, ltb, if◌then◌else◌,
}
use vector_db.Prelude.Outcome.{Outcome, ret, ◌>>=◌}
use vector_db.CountMinSketch.{CountMinSketch, increment_all, decay, clear}

-- The calls that change a sketch.
pub data Call : Type 0 where
  count_call : ℕ → Call
  decay_call clear_call : Call

unfoldable pub call : Call → CountMinSketch → Outcome CountMinSketch
call (count_call hash) s = increment_all s hash
call decay_call s = ret (decay s)
call clear_call s = ret (clear s)

unfoldable pub run : List Call → CountMinSketch → Outcome CountMinSketch
run [] s = ret s
run (c ∷ cs) s = call c s >>= run cs

-- A count from `n` on, of the hashes that pass a test.
abbrev pub tally : (ℕ → Bool) → List Call → ℕ → ℕ
tally same [] n = n
tally same (count_call hash ∷ cs) n = tally same cs (if same hash then n + 1 else n)
tally same (decay_call ∷ cs) n = tally same cs (n / 2)
tally same (clear_call ∷ cs) n = tally same cs 0

-- The calls of `increment` among them.
abbrev pub increments : List Call → ℕ
increments [] = 0
increments (count_call hash ∷ cs) = suc (increments cs)
increments (decay_call ∷ cs) = increments cs
increments (clear_call ∷ cs) = increments cs

-- The least of `least` and the value at each seed.
abbrev pub smallest : (ℕ → ℕ) → List ℕ → ℕ → ℕ
smallest g [] least = least
smallest g (seed ∷ seeds) least = smallest g seeds (if ltb (g seed) least then g seed else least)

pub tally-le :
    (same other : ℕ → Bool) (cs : List Call) (n m : ℕ)
    → ((hash : ℕ) → same hash ≡ true → other hash ≡ true)
    → n ≤ m
    → tally same cs n ≤ tally other cs m
tally-le same other [] n m h le = le
tally-le same other (count_call hash ∷ cs) n m h le =
    tally-le same other cs (if same hash then n + 1 else n) (if other hash then m + 1 else m) h
      (ground (arith, h hash))
tally-le same other (decay_call ∷ cs) n m h le =
    tally-le same other cs (n / 2) (m / 2) h (omega arith)
tally-le same other (clear_call ∷ cs) n m h le = tally-le same other cs 0 0 h (omega arith)

pub tally-le-increments :
    (same : ℕ → Bool) (cs : List Call) (n : ℕ) → tally same cs n ≤ n + increments cs
tally-le-increments same [] n = omega arith
tally-le-increments same (count_call hash ∷ cs) n =
    ground (arith, tally-le-increments same cs (if same hash then n + 1 else n))
tally-le-increments same (decay_call ∷ cs) n = omega (arith, tally-le-increments same cs (n / 2))
tally-le-increments same (clear_call ∷ cs) n = omega (arith, tally-le-increments same cs 0)

pub le-smallest :
    (g : ℕ → ℕ) (seeds : List ℕ) (t least : ℕ)
    → ((seed : ℕ) → t ≤ g seed)
    → t ≤ least
    → t ≤ smallest g seeds least
le-smallest g [] t least h le = le
le-smallest g (seed ∷ seeds) t least h le =
    le-smallest g seeds t (if ltb (g seed) least then g seed else least) h (ground (arith, h seed))

-- ===== src/CountMinSketch/Rows.antt =====
-- src/cache/CountMinSketch.cpp: a row as a function from its slots to their counts.
use vector_db.Prelude.{
  ℕ, zero, suc, ◌+◌, ◌*◌, ◌/◌, ◌%◌, ◌^◌, ◌≤◌, ◌<◌, ◌≡◌, ◌≢◌, refl, sym, ap, ◌∙◌, inl, inr, true,
  false, List, [], ◌∷◌, map, arith, length, get_or, set, get_or-set, length-set, replicate,
  length-replicate, ◌==◌, ==_iff, ltb, lt→ltb, if◌then◌else◌, Bool-cases,
}
use vector_db.Prelude.Outcome.{ret}
use vector_db.CountMinSketch.{
  CountMinRow, word, get, increment, counter_bits, count_offset, clear_row, decay_row, halve,
}
use vector_db.CountMinSketch.Counters.{
  counter, counter-nothing, counter-add_self, counter-add_other, counter-halve, halve-lt,
  seven-counter, counter_room,
}

abbrev pub count_at : List ℕ → ℕ → ℕ
count_at bits j = counter (get_or bits (j / 8) 0) (j % 8)

-- A row of so many words that holds the counts `f`, none of them above `k`.
pub record IsRow (words k : ℕ) (row : CountMinRow) (f : ℕ → ℕ) : Type 0 where
  pub sized : length row.bits ≡ words
  pub small : (i : ℕ) → get_or row.bits i 0 < 2 ^ 31
  pub counts : (j : ℕ) → j < 8 * words → count_at row.bits j ≡ f j
  pub low : (j : ℕ) → j < 8 * words → f j ≤ k

word-get_or : (bits : List ℕ) (i : ℕ) → i < length bits → word bits i ≡ ret (get_or bits i 0)
unfolding word
word-get_or [] i h = absurd (omega arith)
word-get_or (b ∷ bits) zero h = refl
word-get_or (b ∷ bits) (suc i) h = word-get_or bits i (omega arith)

get_or-map :
    (f : ℕ → ℕ) (bits : List ℕ) (i : ℕ) → f 0 ≡ 0 → get_or (map f bits) i 0 ≡ f (get_or bits i 0)
get_or-map f [] i h = sym h
get_or-map f (b ∷ bits) zero h = refl
get_or-map f (b ∷ bits) (suc i) h = get_or-map f bits i h

length-map : (f : ℕ → ℕ) (bits : List ℕ) → length (map f bits) ≡ length bits
length-map f [] = refl
length-map f (b ∷ bits) = ap suc (length-map f bits)

get_or-replicate : (n i : ℕ) → ◌≡◌ {A = ℕ} (get_or (replicate n 0) i 0) 0
get_or-replicate zero i = refl
get_or-replicate (suc n) zero = refl
get_or-replicate (suc n) (suc i) = get_or-replicate n i

pub zeros-IsRow : (words k : ℕ) → IsRow words k (record { bits = replicate words 0 }) (λ _. 0)
zeros-IsRow words k = record {
  sized = length-replicate words 0;
  small = λ i. rw (get_or-replicate words i) (omega arith);
  counts = λ j h. rw (get_or-replicate words (j / 8)) (counter-nothing (j % 8));
  low = λ j h. omega arith;
}

module _ (words k : ℕ) (row : CountMinRow) (f : ℕ → ℕ) (h : IsRow words k row f) where
  pub clear-IsRow : IsRow words k (clear_row row) (λ _. 0)
  clear-IsRow = record {
    sized = length-map (λ _. 0) row.bits ∙ h.sized;
    small = λ i. rw (get_or-map (λ _. 0) row.bits i refl) (omega arith);
    counts = λ j b. rw (get_or-map (λ _. 0) row.bits (j / 8) refl) (counter-nothing (j % 8));
    low = λ j b. omega arith;
  }

  pub decay-IsRow : IsRow words k (decay_row row) (λ j. f j / 2)
  decay-IsRow = record {
    sized = length-map halve row.bits ∙ h.sized;
    small = λ i. rw (get_or-map halve row.bits i refl) (halve-lt (get_or row.bits i 0));
    counts = λ j b. rw (get_or-map halve row.bits (j / 8) refl) (
        counter-halve (get_or row.bits (j / 8) 0) (j % 8) (omega arith)
        ∙ ap (λ (n : ℕ). n / 2) (h.counts j b));
    low = λ j b. omega (arith, h.low j b);
  }

  module _ (j : ℕ) (inside : j < 8 * words) where
    word-counted : word row.bits (j / 8) ≡ ret (get_or row.bits (j / 8) 0)
    word-counted = word-get_or row.bits (j / 8) (omega (arith, h.sized))

    reads : k < 8 → counter_bits (get_or row.bits (j / 8) 0) j ≡ f j
    reads low =
        seven-counter (get_or row.bits (j / 8) 0) (j % 8)
          (omega (arith, h.counts j inside, h.low j inside))
        ∙ h.counts j inside

    pub get-IsRow : k < 8 → get row j ≡ ret (f j)
    unfolding get
    get-IsRow low = rw (word-counted, reads low)

    -- The counts after the word of `j` has been counted up at `j`.
    counted_up :
        (i : ℕ)
        → i < 8 * words
        → k < 7
        → count_at (set row.bits (j / 8) (get_or row.bits (j / 8) 0 + 2 ^ count_offset j)) i
          ≡ (if i == j then f i + 1 else f i)
    counted_up i b low =
        let w = get_or row.bits (j / 8) 0 in
        let here : counter w (j % 8) ≡ f j = h.counts j inside in
        let few : counter w (j % 8) < 15 = omega (arith, here, h.low j inside) in
        let read =
          get_or-set row.bits (j / 8) (i / 8) (w + 2 ^ count_offset j) 0 (omega (arith, h.sized)) in
        elim (Bool-cases (j / 8 == i / 8)) [
          | inr apart ↦
              let other : (i == j) ≡ false = ground arith in rw (read, apart, other) (h.counts i b)
          | inl same ↦ elim (Bool-cases (i == j)) [
            | inl self ↦
                let e : i ≡ j = (==_iff i j).0 self in
                rw (read, same, self)
                  (ap (λ z. counter (w + 2 ^ count_offset j) (z % 8)) e
                    ∙ counter-add_self w (j % 8) few
                    ∙ ap (λ (n : ℕ). n + 1) (here ∙ ap f (sym e)))
            | inr other ↦
                let word_same : j / 8 ≡ i / 8 = (==_iff (j / 8) (i / 8)).0 same in
                let places : j % 8 ≢ i % 8 = λ e. ground arith in
                rw (read, same, other)
                  (counter-add_other w (j % 8) (i % 8) places few
                    ∙ ap (λ z. counter (get_or row.bits z 0) (i % 8)) word_same
                    ∙ h.counts i b)
          ]
        ]

    pub increment-IsRow :
        k < 7
        → (row' : CountMinRow) × (increment row j ≡ ret row')
          × IsRow words (k + 1) row' (λ i. if i == j then f i + 1 else f i)
    unfolding increment
    increment-IsRow low =
        let w = get_or row.bits (j / 8) 0 in
        let few : ltb (counter_bits w j) 15 ≡ true =
          lt→ltb (counter_bits w j) 15 (omega (arith, reads (omega arith), h.low j inside)) in
        let set_read = λ (i : ℕ).
          get_or-set row.bits (j / 8) i (w + 2 ^ count_offset j) 0 (omega (arith, h.sized)) in
        let room : w + 2 ^ count_offset j < 2 ^ 31 =
          counter_room w (j % 8) (omega arith) (h.small (j / 8))
            (omega (arith, h.counts j inside, h.low j inside)) in
        (
          record { bits = set row.bits (j / 8) (w + 2 ^ count_offset j) },
          rw (word-counted, few, lt→ltb (w + 2 ^ count_offset j) (2 ^ 31) room),
          record {
            sized = length-set row.bits (j / 8) (w + 2 ^ count_offset j) ∙ h.sized;
            small = λ i. elim (Bool-cases (j / 8 == i)) [
              | inl same ↦ rw (set_read i, same) room
              | inr apart ↦ rw (set_read i, apart) (h.small i)
            ];
            counts = λ i b. counted_up i b low;
            low = λ i b. ground (arith, h.low i b);
          },
        )

-- ===== src/Heap/Calls.antt =====
-- `push`, `update` after `set_value`, and the reads of src/dsa/heap.hpp on a heap.
use vector_db.Prelude.{
  ℕ, zero, suc, ◌<◌, ◌≡◌, refl, Bool, true, false, ◌&&◌, List, [], ◌∷◌, ◌++◌, arith, ltb, ◌==◌,
  if◌then◌else◌, get_or, get_or-set, set, length, length-set, length-append, Bool-cases, inl, inr,
  lt→leb,
}
use vector_db.Prelude.Outcome.{ret, ◌>>=◌}
use vector_db.Heap.{
  HeapItem, BinaryHeap, default_item, item, parent, sift_up, sift_down, push, update, set_value,
}
use vector_db.Heap.Order.{IsHeap, Sifted}
use vector_db.Heap.Up.{Rising, sift_up-Sifted}
use vector_db.Heap.Down.{Sinking, sift_down-Sifted}

get_or-append :
    (xs : List HeapItem) (x : HeapItem) (i : ℕ)
    → i < length xs
    → get_or (xs ++ x ∷ []) i default_item ≡ get_or xs i default_item
get_or-append [] x i h = absurd (omega arith)
get_or-append (y ∷ xs) x zero h = refl
get_or-append (y ∷ xs) x (suc i) h = get_or-append xs x i (omega arith)

append-Rising : (xs : List HeapItem) (x : HeapItem) → IsHeap xs → Rising (xs ++ x ∷ []) (length xs)
append-Rising xs x h =
    let size = length-append xs (x ∷ []) in
    record {
      within = omega arith;
      elsewhere =
          λ c p q s. ground (arith, get_or-append xs x c, get_or-append xs x (parent c), h c);
      across = λ c p q s t. absurd (omega arith);
    }

-- `push` on a heap, by a thread that does not hold the mutex, returns a heap of the old items and the
-- new one.
pub push-IsHeap :
    (h : BinaryHeap) (x : HeapItem)
    → IsHeap h.items
    → (h' : BinaryHeap) × (push false h x ≡ ret h') × Sifted (h.items ++ x ∷ []) h'.items
unfolding push
push-IsHeap h x ordered =
    let longer = record h { items = h.items ++ x ∷ [] } in
    (
      sift_up longer (length h.items),
      refl,
      sift_up-Sifted longer (length h.items) (append-Rising h.items x ordered),
    )

module _ (h : BinaryHeap) (pos v : ℕ) (ordered : IsHeap h.items)
    (inside : pos < length h.items) where
  -- `heap_[pos].set_value(v)`
  abbrev changed : BinaryHeap
  changed = record h {
    items = set h.items pos (record { value = v; position_ref = (item h pos).position_ref });
  }

  abbrev lowered : Bool
  lowered = ltb 0 pos && ltb (item changed pos).value (item changed (parent pos)).value

  after :
      (c : ℕ)
      → item changed c ≡ (
          if pos == c
          then record { value = v; position_ref = (item h pos).position_ref }
          else item h c)
  after c = get_or-set h.items pos c _ default_item inside

  size_changed : length changed.items ≡ length h.items
  size_changed = length-set h.items pos _

  changed-Rising : lowered ≡ true → Rising changed.items pos
  changed-Rising low = record {
    within = omega (arith, size_changed, inside);
    elsewhere = λ c p q s. ground (
      arith,
      low,
      after c,
      after (parent c),
      after pos,
      after (parent pos),
      ordered c,
      ordered pos,
      size_changed,
    );
    across = λ c p q s t.
        ground (arith, after c, after (parent pos), ordered c, ordered pos, size_changed);
  }

  changed-Sinking : lowered ≡ false → Sinking changed.items pos
  changed-Sinking high = record {
    within = omega (arith, size_changed, inside);
    elsewhere = λ c p q s. ground (
      arith,
      high,
      after c,
      after (parent c),
      after pos,
      after (parent pos),
      ordered c,
      size_changed,
    );
    across = λ c p q s t.
        ground (arith, after c, after (parent pos), ordered c, ordered pos, size_changed);
  }

  updated-Sifted :
      (h' : BinaryHeap) × (update false changed pos ≡ ret h') × Sifted changed.items h'.items
  unfolding update
  updated-Sifted =
      let there = lt→leb (length changed.items) pos (omega (arith, size_changed, inside)) in
      elim (Bool-cases lowered) [
        | inl low ↦
            (sift_up changed pos, rw (there, low), sift_up-Sifted changed pos (changed-Rising low))
        | inr high ↦ (
          sift_down changed pos,
          rw (there, high),
          sift_down-Sifted changed pos (changed-Sinking high),
        )
      ]

-- On a heap, `heap[pos].set_value(v)` and then `update(pos)`, at a position in range and by a thread
-- that does not hold the mutex, return a heap of the same items, but for the value at `pos`.
pub set_value-update_lem :
    (h : BinaryHeap) (pos v : ℕ)
    → IsHeap h.items
    → pos < length h.items
    → (h' : BinaryHeap) × ((set_value false h pos v >>= λ h₁. update false h₁ pos) ≡ ret h')
      × Sifted
          (set h.items pos (record { value = v; position_ref = (item h pos).position_ref }))
          h'.items
unfolding set_value
set_value-update_lem h pos v ordered inside =
    let (h', ran, sifted) = updated-Sifted h pos v ordered inside in
    (h', rw (lt→leb (length h.items) pos inside) ran, sifted)

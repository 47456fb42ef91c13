-- ===== src/Heap/Down.antt =====
-- `sift_down` of src/dsa/heap.hpp turns an array with one item too near the root into a heap.
use mathlib.Core.Path.{subst}
use vector_db.Prelude.{
  ℕ, zero, suc, ◌+◌, ◌≤◌, ◌<◌, ◌≡◌, ◌≢◌, ◌⊎◌, refl, sym, ◌∙◌, set-get_or, false, List, arith, ◌==◌,
  if◌then◌else◌, get_or-set, set, length, length-set, Bool-cases, inl, inr,
}
use vector_db.Heap.{
  HeapItem, BinaryHeap, default_item, item, parent, left_child, right_child, place, min_pos,
  sift_down_loop, sift_down,
}
use vector_db.Heap.Items.{moved, moved-SameItems, get_or-moved, length-moved}
use vector_db.Heap.Order.{key, Sifted}

-- Only the item at `i` may be larger than its children, which are in order with its parent.
pub record Sinking (xs : List HeapItem) (i : ℕ) : Type 0 where
  pub within : i < length xs
  pub elsewhere : (c : ℕ) → parent c ≢ i → 0 < c → c < length xs → key xs (parent c) ≤ key xs c
  pub across : (c : ℕ) → 0 < i → parent c ≡ i → 0 < c → c < length xs → key xs (parent i) ≤ key xs c

-- What stands at `m` once `x` is at `pos`.
abbrev key_with : HeapItem → BinaryHeap → ℕ → ℕ → ℕ
key_with x h pos m = if m == pos then x.value else (item h m).value

child_cases : (c pos : ℕ) → parent c ≡ pos → 0 < c → (c ≡ left_child pos) ⊎ (c ≡ right_child pos)
child_cases c pos e p = omega arith

-- `min_pos` is the place itself or a child, none larger than either child.
min_pos_least :
    (x : HeapItem) (h : BinaryHeap) (pos c : ℕ)
    → parent c ≡ pos
    → 0 < c
    → c < length h.items
    → key_with x h pos (min_pos x h pos) ≤ (item h c).value
unfolding min_pos
min_pos_least x h pos c e p q = elim (child_cases c pos e p) [
  | inl f ↦ rw f (ground arith)
  | inr f ↦ rw f (ground arith)
]

record IsChild (x : HeapItem) (h : BinaryHeap) (pos m : ℕ) : Type 0 where
  within : m < length h.items
  later : pos < m
  child : parent m ≡ pos
  less : (item h m).value < x.value

min_pos-IsChild :
    (x : HeapItem) (h : BinaryHeap) (pos : ℕ)
    → (min_pos x h pos == pos) ≡ false
    → IsChild x h pos (min_pos x h pos)
unfolding min_pos
min_pos-IsChild x h pos e = ground arith

module _ (h : BinaryHeap) (pos m : ℕ) (x : HeapItem) (r : Sinking (set h.items pos x) pos)
    (ch : IsChild x h pos m)
    (least : (c : ℕ)
      → parent c ≡ pos
      → 0 < c
      → c < length h.items
      → (item h m).value ≤ (item h c).value) where
  inside : pos < length h.items
  inside = omega (arith, length-set h.items pos x, r.within)

  apart : (pos == m) ≡ false
  apart = ground (arith, ch.later)

  moved-Sinking : Sinking (moved h.items pos m x) m
  moved-Sinking =
      let at = get_or-moved h.items pos m x inside ch.within apart in
      let before = λ (c : ℕ). get_or-set h.items pos c x default_item inside in
      let size = length-set h.items pos x in
      let size' = length-moved h.items pos m x inside ch.within apart in
      record {
        within = omega (arith, ch.within);
        elsewhere = λ c p q s. ground (
          arith,
          at c,
          at (parent c),
          before c,
          before (parent c),
          before m,
          r.elsewhere c,
          r.across m,
          least c,
          ch.less,
          ch.later,
          ch.child,
        );
        across = λ c p q s t. ground (
          arith,
          at c,
          at (parent m),
          before c,
          before m,
          before (parent c),
          r.elsewhere c,
          ch.later,
          ch.child,
        );
      }

  Sifted-moved :
      (ys : List HeapItem) → Sifted (moved h.items pos m x) ys → Sifted (set h.items pos x) ys
  Sifted-moved ys s = record {
    ordered = s.ordered;
    same = λ p. s.same p ∙ moved-SameItems h.items pos m x inside ch.within apart p;
    sized =
        s.sized
        ∙ length-moved h.items pos m x inside ch.within apart
        ∙ sym (length-set h.items pos x);
  }

-- The loop with the item `x` in hand, and the hole at `pos`.
sift_down_loop-Sifted :
    (fuel : ℕ) (x : HeapItem) (h : BinaryHeap) (pos : ℕ)
    → length h.items ≤ pos + fuel
    → Sinking (set h.items pos x) pos
    → Sifted (set h.items pos x) (sift_down_loop fuel x h pos).items
unfolding sift_down_loop
sift_down_loop-Sifted zero x h pos f r = absurd (omega (arith, r.within, length-set h.items pos x))
sift_down_loop-Sifted (suc fuel) x h pos f r =
    let least = min_pos_least x h pos in
    elim (Bool-cases (min_pos x h pos == pos)) [
      | inl e ↦
          rw (e, sift_down_loop)
            (let inside : pos < length h.items =
                omega (arith, length-set h.items pos x, r.within) in
              let small = λ (c : ℕ) (p : parent c ≡ pos) (q : 0 < c) (s : c < length h.items).
                rw e at (least c p q s) in
              let before = λ (c : ℕ). get_or-set h.items pos c x default_item inside in
              record {
                ordered = λ c p q. ground (
                  arith,
                  small c,
                  before c,
                  before (parent c),
                  r.elsewhere c,
                  length-set h.items pos x,
                );
                same = λ p. refl;
                sized = refl;
              })
      | inr e ↦
          let m = min_pos x h pos in
          let ch = min_pos-IsChild x h pos e in
          let small = λ (c : ℕ) (p : parent c ≡ pos) (q : 0 < c) (s : c < length h.items).
            rw e at (least c p q s) in
          rw (e, sift_down_loop)
            (Sifted-moved h pos m x r ch small _ (
              sift_down_loop-Sifted fuel x (place h pos (item h m)) m
                (omega (arith, length-set h.items pos (item h m), ch.later, f))
                (moved-Sinking h pos m x r ch small)))
    ]

-- `sift_down` at a place where only that item may be too large leaves a heap of the same items.
pub sift_down-Sifted :
    (h : BinaryHeap) (pos : ℕ) → Sinking h.items pos → Sifted h.items (sift_down h pos).items
unfolding sift_down
sift_down-Sifted h pos r =
    let same : set h.items pos (item h pos) ≡ h.items = set-get_or h.items pos default_item in
    subst (λ xs. Sifted xs (sift_down_loop (length h.items) (item h pos) h pos).items) same
      (sift_down_loop-Sifted (length h.items) (item h pos) h pos (omega arith)
        (subst (λ xs. Sinking xs pos) (sym same) r))

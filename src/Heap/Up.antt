-- ===== src/Heap/Up.antt =====
-- `sift_up` of src/dsa/heap.hpp turns an array with one item too far from the root into a heap.
use mathlib.Core.Path.{subst}
use vector_db.Prelude.{
  ℕ, zero, suc, ◌≤◌, ◌<◌, ◌≡◌, ◌≢◌, refl, sym, ◌∙◌, set-get_or, false, ◌&&◌, List, arith, ltb, ◌==◌,
  get_or-set, set, length, length-set, Bool-cases, inl, inr,
}
use vector_db.Heap.{HeapItem, BinaryHeap, default_item, item, parent, place, sift_up_loop, sift_up}
use vector_db.Heap.Items.{moved, moved-SameItems, get_or-moved, length-moved}
use vector_db.Heap.Order.{key, Sifted}

-- Only the item at `i` may be smaller than its parent, and its children are in order with that parent.
pub record Rising (xs : List HeapItem) (i : ℕ) : Type 0 where
  pub within : i < length xs
  pub elsewhere : (c : ℕ) → c ≢ i → 0 < c → c < length xs → key xs (parent c) ≤ key xs c
  pub across : (c : ℕ) → 0 < i → parent c ≡ i → 0 < c → c < length xs → key xs (parent i) ≤ key xs c

module _ (items : List HeapItem) (pos : ℕ) (x : HeapItem) (r : Rising (set items pos x) pos)
    (below : 0 < pos) (less : x.value < key items (parent pos)) where
  abbrev up : ℕ
  up = parent pos

  inside : pos < length items
  inside = omega (arith, length-set items pos x, r.within)

  apart : (pos == up) ≡ false
  apart = ground arith

  moved-Rising : Rising (moved items pos up x) up
  moved-Rising =
      let hu : up < length items = omega (arith, inside) in
      let at = get_or-moved items pos up x inside hu apart in
      let before = λ (c : ℕ). get_or-set items pos c x default_item inside in
      let size = length-set items pos x in
      let size' = length-moved items pos up x inside hu apart in
      record {
        within = omega arith;
        elsewhere = λ c p q s. ground (
          arith,
          at c,
          at (parent c),
          before c,
          before (parent c),
          before up,
          r.elsewhere c,
          r.across c,
          less,
        );
        across = λ c p q s t. ground (
          arith,
          at c,
          at (parent up),
          before c,
          before (parent up),
          before up,
          r.elsewhere c,
          r.elsewhere up,
          r.across c,
          less,
        );
      }

  Sifted-moved :
      (ys : List HeapItem) → Sifted (moved items pos up x) ys → Sifted (set items pos x) ys
  Sifted-moved ys s =
      let hu : up < length items = omega (arith, inside) in
      record {
        ordered = s.ordered;
        same = λ p. s.same p ∙ moved-SameItems items pos up x inside hu apart p;
        sized =
            s.sized ∙ length-moved items pos up x inside hu apart ∙ sym (length-set items pos x);
      }

settled :
    (xs : List HeapItem) (i : ℕ)
    → Rising xs i
    → (0 < i → key xs (parent i) ≤ key xs i)
    → Sifted xs xs
settled xs i r h = record {
  ordered = λ c p q. grind (arith, r.elsewhere c, h);
  same = λ p. refl;
  sized = refl;
}

-- The loop with the item `x` in hand, and the hole at `pos`.
sift_up_loop-Sifted :
    (fuel : ℕ) (x : HeapItem) (h : BinaryHeap) (pos : ℕ)
    → pos ≤ fuel
    → Rising (set h.items pos x) pos
    → Sifted (set h.items pos x) (sift_up_loop fuel x h pos).items
unfolding sift_up_loop
sift_up_loop-Sifted zero x h pos f r = settled (set h.items pos x) pos r (λ p. absurd (omega arith))
sift_up_loop-Sifted (suc fuel) x h pos f r =
    elim (Bool-cases (ltb 0 pos && ltb x.value (item h (parent pos)).value)) [
      | inl e ↦
          let below : 0 < pos = ground arith in
          let less : x.value < key h.items (parent pos) = ground arith in
          rw (e, sift_up_loop)
            (Sifted-moved h.items pos x r below less _ (
              sift_up_loop-Sifted fuel x (place h pos (item h (parent pos))) (parent pos)
                (omega arith) (moved-Rising h.items pos x r below less)))
      | inr e ↦
          let inside : pos < length h.items = omega (arith, length-set h.items pos x, r.within) in
          rw (e, sift_up_loop)
            (settled (set h.items pos x) pos r (λ p. ground (
              arith,
              get_or-set h.items pos pos x default_item inside,
              get_or-set h.items pos (parent pos) x default_item inside,
            )))
    ]

-- `sift_up` at a place where only that item may be too small leaves a heap of the same items.
pub sift_up-Sifted :
    (h : BinaryHeap) (pos : ℕ) → Rising h.items pos → Sifted h.items (sift_up h pos).items
unfolding sift_up
sift_up-Sifted h pos r =
    let same : set h.items pos (item h pos) ≡ h.items = set-get_or h.items pos default_item in
    subst (λ xs. Sifted xs (sift_up_loop pos (item h pos) h pos).items) same
      (sift_up_loop-Sifted pos (item h pos) h pos (omega arith)
        (subst (λ xs. Rising xs pos) (sym same) r))

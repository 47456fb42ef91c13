-- ===== src/Heap/Items.antt =====
-- The items of src/dsa/heap.hpp's vector, counted: what a write changes.
use vector_db.Prelude.{
  ℕ, zero, suc, ◌+◌, ◌<◌, ◌≡◌, ap, ◌∙◌, Bool, true, false, List, [], ◌∷◌, ◌++◌, arith, ◌==◌,
  if◌then◌else◌, length, get_or, set, get_or-set, length-set,
}
use vector_db.Heap.{HeapItem, default_item}

abbrev pub to_nat : Bool → ℕ
to_nat true = 1
to_nat false = 0

-- How many items satisfy `p`.
abbrev pub count : (HeapItem → Bool) → List HeapItem → ℕ
count p [] = 0
count p (x ∷ xs) = to_nat (p x) + count p xs

-- The same items, as often, in any order.
abbrev pub SameItems : List HeapItem → List HeapItem → Type 0
SameItems xs ys = (p : HeapItem → Bool) → count p xs ≡ count p ys

pub count-set :
    (p : HeapItem → Bool) (xs : List HeapItem) (i : ℕ) (v : HeapItem)
    → i < length xs
    → count p (set xs i v) + to_nat (p (get_or xs i default_item)) ≡ count p xs + to_nat (p v)
count-set p [] i v h = absurd (omega arith)
count-set p (x ∷ xs) zero v h = omega arith
count-set p (x ∷ xs) (suc i) v h = omega (arith, count-set p xs i v (omega arith))

pub count-append :
    (p : HeapItem → Bool) (xs ys : List HeapItem) → count p (xs ++ ys) ≡ count p xs + count p ys
count-append p [] ys = omega arith
count-append p (x ∷ xs) ys = omega (arith, count-append p xs ys)

-- Item `j` moved to the hole at `i`, and `x` put in its place.
abbrev pub moved : List HeapItem → ℕ → ℕ → HeapItem → List HeapItem
moved xs i j x = set (set xs i (get_or xs j default_item)) j x

-- They are the items with `x` at the hole, rearranged.
module _ (xs : List HeapItem) (i j : ℕ) (x : HeapItem) (hi : i < length xs) (hj : j < length xs)
    (apart : (i == j) ≡ false) where
  pub moved-SameItems : SameItems (moved xs i j x) (set xs i x)
  moved-SameItems p =
      let y = get_or xs j default_item in
      let kept = get_or-set xs i j y default_item hi in
      let there : get_or (set xs i y) j default_item ≡ y = ground arith in
      omega (
        arith,
        count-set p (set xs i y) j x (omega (arith, length-set xs i y)),
        count-set p xs i y hi,
        count-set p xs i x hi,
        ap (λ (z : HeapItem). to_nat (p z)) there,
      )

  pub get_or-moved :
      (c : ℕ)
      → get_or (moved xs i j x) c default_item ≡ (
          if j == c
          then x
          else if i == c
          then get_or xs j default_item
          else get_or xs c default_item)
  get_or-moved c =
      let y = get_or xs j default_item in
      get_or-set (set xs i y) j c x default_item (omega (arith, length-set xs i y))
      ∙ ap (λ z. if j == c then x else z) (get_or-set xs i c y default_item hi)

  pub length-moved : length (moved xs i j x) ≡ length xs
  length-moved = length-set (set xs i (get_or xs j default_item)) j x ∙ length-set xs i _

-- ===== src/Prelude/Order.antt =====
-- `<`, `>` and `==` of a key type, read through one three-way comparison.
use Prim.Native.Nat.{ℕ, compare, Ordering}
use Prim.Native.Nat.Ordering.{lt, eq, gt}
use mathlib.Core.Path.{◌≡◌, refl}
use mathlib.Core.Logic.{◌⊎◌, inl, inr}
use mathlib.Core.List.{List, [], ◌∷◌}
use native.Mathlib.Omega.{arith}

-- To split on a comparison and keep the equation.
pub Ordering-cases : (c : Ordering) → (c ≡ lt) ⊎ (c ≡ eq) ⊎ (c ≡ gt)
Ordering-cases lt = inl refl
Ordering-cases eq = inr (inl refl)
Ordering-cases gt = inr (inr refl)

-- What a strict total order asks of the comparison.
pub record IsTotal {ℓ} {K : Type ℓ} (three_way : K → K → Ordering) : Type ℓ where
  pub eq_of_compare : (x y : K) → three_way x y ≡ eq → x ≡ y
  pub compare_self : (x : K) → three_way x x ≡ eq
  pub lt_chain : (x y z : K) → three_way x y ≡ lt → three_way y z ≡ lt → three_way x z ≡ lt
  pub flip_lt : (x y : K) → three_way x y ≡ lt → three_way y x ≡ gt
  pub flip_gt : (x y : K) → three_way x y ≡ gt → three_way y x ≡ lt

-- The key type of a template, with its comparison operators.
pub record Ord {ℓ} (K : Type ℓ) : Type ℓ where
  pub three_way : K → K → Ordering
  pub is_total : IsTotal three_way
  pub open is_total use *

pub compare-IsTotal : IsTotal compare
compare-IsTotal = ground arith

instance abbrev pub nat_ord : Ord ℕ
nat_ord = record { three_way = compare; is_total = compare-IsTotal }

-- `std::string`'s order: byte by byte, a proper prefix first.
abbrev pub compare_bytes : List ℕ → List ℕ → Ordering
compare_bytes [] [] = eq
compare_bytes [] (_ ∷ _) = lt
compare_bytes (_ ∷ _) [] = gt
compare_bytes (a ∷ as_) (b ∷ bs) =
    let rest = compare_bytes as_ bs in elim (compare a b) [ lt ↦ lt | eq ↦ rest | gt ↦ gt ]

cmp_refl_bytes : (a : List ℕ) → compare_bytes a a ≡ eq
cmp_refl_bytes [] = refl
cmp_refl_bytes (x ∷ a) = ground (arith, cmp_refl_bytes a)

eq_of_cmp_bytes : (a b : List ℕ) → compare_bytes a b ≡ eq → a ≡ b
eq_of_cmp_bytes [] [] h = refl
eq_of_cmp_bytes [] (y ∷ b) h = ground arith
eq_of_cmp_bytes (x ∷ a) [] h = ground arith
eq_of_cmp_bytes (x ∷ a) (y ∷ b) h = ground (arith, eq_of_cmp_bytes a b)

lt_of_gt_bytes : (a b : List ℕ) → compare_bytes a b ≡ gt → compare_bytes b a ≡ lt
lt_of_gt_bytes [] [] h = ground arith
lt_of_gt_bytes [] (y ∷ b) h = ground arith
lt_of_gt_bytes (x ∷ a) [] h = refl
lt_of_gt_bytes (x ∷ a) (y ∷ b) h = ground (arith, lt_of_gt_bytes a b)

gt_of_lt_bytes : (a b : List ℕ) → compare_bytes a b ≡ lt → compare_bytes b a ≡ gt
gt_of_lt_bytes [] [] h = ground arith
gt_of_lt_bytes [] (y ∷ b) h = refl
gt_of_lt_bytes (x ∷ a) [] h = ground arith
gt_of_lt_bytes (x ∷ a) (y ∷ b) h = ground (arith, gt_of_lt_bytes a b)

lt_trans_bytes :
    (a b c : List ℕ) → compare_bytes a b ≡ lt → compare_bytes b c ≡ lt → compare_bytes a c ≡ lt
lt_trans_bytes [] [] c h k = ground arith
lt_trans_bytes [] (y ∷ b) [] h k = ground arith
lt_trans_bytes [] (y ∷ b) (z ∷ c) h k = refl
lt_trans_bytes (x ∷ a) [] c h k = ground arith
lt_trans_bytes (x ∷ a) (y ∷ b) [] h k = ground arith
lt_trans_bytes (x ∷ a) (y ∷ b) (z ∷ c) h k = ground (arith, lt_trans_bytes a b c)

pub compare_bytes-IsTotal : IsTotal compare_bytes
compare_bytes-IsTotal = record {
  compare_self = cmp_refl_bytes;
  eq_of_compare = eq_of_cmp_bytes;
  flip_gt = lt_of_gt_bytes;
  flip_lt = gt_of_lt_bytes;
  lt_chain = lt_trans_bytes;
}

instance abbrev pub bytes_ord : Ord (List ℕ)
bytes_ord = record { three_way = compare_bytes; is_total = compare_bytes-IsTotal }

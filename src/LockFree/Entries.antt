-- ===== src/LockFree/Entries.antt =====
-- Association lists in the order of their keys: what src/dsa/avl_lockfree.hpp's tree stands for.
use Prim.Native.Nat.Ordering.{lt, eq, gt}
use vector_db.Prelude.{
  ◌≡◌, refl, ap, ◌∙◌, Option, none, some, List, [], ◌∷◌, ◌++◌, arith, All, inl, inr,
}
use vector_db.Prelude.Order.{Ord, Ordering-cases}

module _ {ℓ κ} {K : Type ℓ} {V : Type κ} ⦃o : Ord K⦄ where
  abbrev pub Above : K → List (K × V) → Type 0
  Above k xs = All (λ (e : K × V). o.three_way k e.0 ≡ lt) xs

  abbrev pub Below : K → List (K × V) → Type 0
  Below k xs = All (λ (e : K × V). o.three_way e.0 k ≡ lt) xs

  abbrev pub IsSorted : List (K × V) → Type 0
  IsSorted [] = Unit
  IsSorted ((k, v) ∷ xs) = Above k xs × IsSorted xs

  abbrev pub find : K → List (K × V) → Option V
  find q [] = none
  find q ((k, v) ∷ xs) = elim (o.three_way q k) [ lt ↦ none | eq ↦ some v | gt ↦ find q xs ]

  abbrev pub put : K → V → List (K × V) → List (K × V)
  put q x [] = (q, x) ∷ []
  put q x ((k, v) ∷ xs) = elim (o.three_way q k) [
    | lt ↦ (q, x) ∷ (k, v) ∷ xs
    | eq ↦ (k, x) ∷ xs
    | gt ↦ (k, v) ∷ put q x xs
  ]

  abbrev pub erase : K → List (K × V) → List (K × V)
  erase q [] = []
  erase q ((k, v) ∷ xs) = elim (o.three_way q k) [
    | lt ↦ (k, v) ∷ xs
    | eq ↦ xs
    | gt ↦ (k, v) ∷ erase q xs
  ]

  Above-chain : (a b : K) (xs : List (K × V)) → o.three_way a b ≡ lt → Above b xs → Above a xs
  Above-chain a b [] h s = tt
  Above-chain a b ((k, v) ∷ xs) h (p, s) = (o.lt_chain a b k h p, Above-chain a b xs h s)

  pub Below-chain : (a b : K) (xs : List (K × V)) → o.three_way a b ≡ lt → Below a xs → Below b xs
  Below-chain a b [] h s = tt
  Below-chain a b ((k, v) ∷ xs) h (p, s) = (o.lt_chain k a b p h, Below-chain a b xs h s)

  -- A sorted list around an entry.
  Above-before :
      (a k : K) (v : V) (xs ys : List (K × V)) → Above a (xs ++ (k, v) ∷ ys) → o.three_way a k ≡ lt
  Above-before a k v [] ys s = s.0
  Above-before a k v (x ∷ xs) ys s = Above-before a k v xs ys s.1

  pub Below-before :
      (k : K) (v : V) (xs ys : List (K × V)) → IsSorted (xs ++ (k, v) ∷ ys) → Below k xs
  Below-before k v [] ys s = tt
  Below-before k v ((a, b) ∷ xs) ys s = (Above-before a k v xs ys s.0, Below-before k v xs ys s.1)

  pub IsSorted-before : (xs ys : List (K × V)) → IsSorted (xs ++ ys) → IsSorted xs
  IsSorted-before [] ys s = tt
  IsSorted-before ((a, b) ∷ xs) ys s = (Above-of xs ys s.0, IsSorted-before xs ys s.1)
    where
      Above-of : (zs ys : List (K × V)) → Above a (zs ++ ys) → Above a zs
      Above-of [] ys s = tt
      Above-of (z ∷ zs) ys s = (s.0, Above-of zs ys s.1)

  pub IsSorted-after : (xs ys : List (K × V)) → IsSorted (xs ++ ys) → IsSorted ys
  IsSorted-after [] ys s = s
  IsSorted-after ((a, b) ∷ xs) ys s = IsSorted-after xs ys s.1

  -- Left of an entry with a larger key.
  module _ (q k : K) (v : V) (ys : List (K × V)) (h : o.three_way q k ≡ lt) where
    pub find_left : (xs : List (K × V)) → find q (xs ++ (k, v) ∷ ys) ≡ find q xs
    find_left [] = rw h refl
    find_left ((a, b) ∷ xs) = ground (arith, find_left xs)

    pub put_left :
        (x : V) (xs : List (K × V)) → put q x (xs ++ (k, v) ∷ ys) ≡ put q x xs ++ (k, v) ∷ ys
    put_left x [] = rw h refl
    put_left x ((a, b) ∷ xs) = ground (arith, put_left x xs)

    pub erase_left : (xs : List (K × V)) → erase q (xs ++ (k, v) ∷ ys) ≡ erase q xs ++ (k, v) ∷ ys
    erase_left [] = rw h refl
    erase_left ((a, b) ∷ xs) = ground (arith, erase_left xs)

  -- Past entries with smaller keys.
  module _ (q : K) (ys : List (K × V)) where
    pub find_right : (xs : List (K × V)) → Below q xs → find q (xs ++ ys) ≡ find q ys
    find_right [] s = refl
    find_right ((a, b) ∷ xs) (p, s) = rw (o.flip_lt a q p) (find_right xs s)

    pub put_right : (x : V) (xs : List (K × V)) → Below q xs → put q x (xs ++ ys) ≡ xs ++ put q x ys
    put_right x [] s = refl
    put_right x ((a, b) ∷ xs) (p, s) = rw (o.flip_lt a q p) (ap (◌∷◌ (a, b)) (put_right x xs s))

    pub erase_right : (xs : List (K × V)) → Below q xs → erase q (xs ++ ys) ≡ xs ++ erase q ys
    erase_right [] s = refl
    erase_right ((a, b) ∷ xs) (p, s) = rw (o.flip_lt a q p) (ap (◌∷◌ (a, b)) (erase_right xs s))

  -- At the entry of the key, and past an entry with a smaller key.
  module _ (q k : K) (v : V) (xs ys : List (K × V)) (s : Below q xs) where
    pub find_here : o.three_way q k ≡ eq → find q (xs ++ (k, v) ∷ ys) ≡ some v
    find_here h = find_right q ((k, v) ∷ ys) xs s ∙ rw (h, find) refl

    pub find_past : o.three_way q k ≡ gt → find q (xs ++ (k, v) ∷ ys) ≡ find q ys
    find_past h = find_right q ((k, v) ∷ ys) xs s ∙ rw (h, find) refl

    pub put_here : (x : V) → o.three_way q k ≡ eq → put q x (xs ++ (k, v) ∷ ys) ≡ xs ++ (k, x) ∷ ys
    put_here x h = put_right q ((k, v) ∷ ys) x xs s ∙ rw (h, put) refl

    pub put_past :
        (x : V) → o.three_way q k ≡ gt → put q x (xs ++ (k, v) ∷ ys) ≡ xs ++ (k, v) ∷ put q x ys
    put_past x h = put_right q ((k, v) ∷ ys) x xs s ∙ rw (h, put) refl

    pub erase_here : o.three_way q k ≡ eq → erase q (xs ++ (k, v) ∷ ys) ≡ xs ++ ys
    erase_here h = erase_right q ((k, v) ∷ ys) xs s ∙ rw (h, erase) refl

    pub erase_past : o.three_way q k ≡ gt → erase q (xs ++ (k, v) ∷ ys) ≡ xs ++ (k, v) ∷ erase q ys
    erase_past h = erase_right q ((k, v) ∷ ys) xs s ∙ rw (h, erase) refl

  -- Both updates keep the order.
  Above-put :
      (a q : K) (x : V) (xs : List (K × V))
      → o.three_way a q ≡ lt
      → Above a xs
      → Above a (put q x xs)
  Above-put a q x [] h s = (h, tt)
  Above-put a q x ((k, v) ∷ xs) h (p, s) = ground (arith, Above-put a q x xs h s)

  pub put-IsSorted : (q : K) (x : V) (xs : List (K × V)) → IsSorted xs → IsSorted (put q x xs)
  put-IsSorted q x [] s = (tt, tt)
  put-IsSorted q x ((k, v) ∷ xs) (p, s) = elim (Ordering-cases (o.three_way q k)) [
    | inl h ↦ rw (h, IsSorted) ((h, Above-chain q k xs h p), (p, s))
    | inr (inl h) ↦ rw (h, IsSorted) (p, s)
    | inr (inr h) ↦ rw (h, IsSorted) (Above-put k q x xs (o.flip_gt q k h) p, put-IsSorted q x xs s)
  ]

  Above-erase : (a q : K) (xs : List (K × V)) → Above a xs → Above a (erase q xs)
  Above-erase a q [] s = tt
  Above-erase a q ((k, v) ∷ xs) (p, s) = ground (arith, Above-erase a q xs s)

  pub erase-IsSorted : (q : K) (xs : List (K × V)) → IsSorted xs → IsSorted (erase q xs)
  erase-IsSorted q [] s = tt
  erase-IsSorted q ((k, v) ∷ xs) (p, s) = elim (Ordering-cases (o.three_way q k)) [
    | inl h ↦ rw (h, IsSorted) (p, s)
    | inr (inl h) ↦ rw (h, IsSorted) s
    | inr (inr h) ↦ rw (h, IsSorted) (Above-erase k q xs p, erase-IsSorted q xs s)
  ]

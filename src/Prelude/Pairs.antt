-- ===== src/Prelude/Pairs.antt =====
-- Predicates on an element that stands between two parts of a list, and relations of all pairs of a list.
use mathlib.Core.List.{List, [], ◌∷◌, ◌++◌}
use vector_db.Prelude.Lists.{All, All-weaken}

-- Every element is related to each one behind it.
abbrev pub Pairwise {ℓ κ} : {A : Type ℓ} → (A → A → Type κ) → List A → Type κ
Pairwise R [] = Unit
Pairwise R (x ∷ xs) = All (R x) xs × Pairwise R xs

module _ {ℓ κ} {A : Type ℓ} (P : A → Type κ) where
  pub All-left : (ys zs : List A) → All P (ys ++ zs) → All P ys
  All-left [] zs h = tt
  All-left (y ∷ ys) zs (hy, h) = (hy, All-left ys zs h)

  pub All-right : (ys zs : List A) → All P (ys ++ zs) → All P zs
  All-right [] zs h = h
  All-right (y ∷ ys) zs (hy, h) = All-right ys zs h

  pub All-insert : (ys zs : List A) (a : A) → All P (ys ++ zs) → P a → All P (ys ++ a ∷ zs)
  All-insert [] zs a h ha = (ha, h)
  All-insert (y ∷ ys) zs a (hy, h) ha = (hy, All-insert ys zs a h ha)

  pub All-omit : (ys zs : List A) (a : A) → All P (ys ++ a ∷ zs) → All P (ys ++ zs)
  All-omit [] zs a (ha, h) = h
  All-omit (y ∷ ys) zs a (hy, h) = (hy, All-omit ys zs a h)

  pub All-at : (ys zs : List A) (a : A) → All P (ys ++ a ∷ zs) → P a
  All-at ys zs a h = (All-right ys (a ∷ zs) h).0

module _ {ℓ κ} {A : Type ℓ} (R : A → A → Type κ) where
  pub Pairwise-insert :
      (ys zs : List A) (a : A)
      → Pairwise R (ys ++ zs)
      → All (λ y. R y a) ys
      → All (R a) zs
      → Pairwise R (ys ++ a ∷ zs)
  Pairwise-insert [] zs a h before after = (after, h)
  Pairwise-insert (y ∷ ys) zs a (hy, h) (ra, before) after =
      (All-insert (R y) ys zs a hy ra, Pairwise-insert ys zs a h before after)

  pub Pairwise-omit : (ys zs : List A) (a : A) → Pairwise R (ys ++ a ∷ zs) → Pairwise R (ys ++ zs)
  Pairwise-omit [] zs a (ha, h) = h
  Pairwise-omit (y ∷ ys) zs a (hy, h) = (All-omit (R y) ys zs a hy, Pairwise-omit ys zs a h)

  pub Pairwise-before : (ys zs : List A) (a : A) → Pairwise R (ys ++ a ∷ zs) → All (λ y. R y a) ys
  Pairwise-before [] zs a h = tt
  Pairwise-before (y ∷ ys) zs a (hy, h) = (All-at (R y) ys zs a hy, Pairwise-before ys zs a h)

  pub Pairwise-cross : (ys zs : List A) → Pairwise R (ys ++ zs) → All (λ y. All (R y) zs) ys
  Pairwise-cross [] zs h = tt
  Pairwise-cross (y ∷ ys) zs (hy, h) = (All-right (R y) ys zs hy, Pairwise-cross ys zs h)

  pub Pairwise-left : (ys zs : List A) → Pairwise R (ys ++ zs) → Pairwise R ys
  Pairwise-left [] zs h = tt
  Pairwise-left (y ∷ ys) zs (hy, h) = (All-left (R y) ys zs hy, Pairwise-left ys zs h)

  pub Pairwise-right : (ys zs : List A) → Pairwise R (ys ++ zs) → Pairwise R zs
  Pairwise-right [] zs h = h
  Pairwise-right (y ∷ ys) zs (hy, h) = Pairwise-right ys zs h

pub Pairwise-weaken {ℓ κ μ} :
    {A : Type ℓ} (R : A → A → Type κ) (S : A → A → Type μ) (xs : List A)
    → ((a b : A) → R a b → S a b)
    → Pairwise R xs
    → Pairwise S xs
Pairwise-weaken R S [] f h = tt
Pairwise-weaken R S (x ∷ xs) f (hx, h) =
    (All-weaken (R x) (S x) xs (f x) hx, Pairwise-weaken R S xs f h)

pub All-both {ℓ κ μ ν} :
    {A : Type ℓ} (P : A → Type κ) (Q : A → Type μ) (R : A → Type ν) (xs : List A)
    → ((a : A) → P a → Q a → R a)
    → All P xs
    → All Q xs
    → All R xs
All-both P Q R [] f h k = tt
All-both P Q R (x ∷ xs) f (hx, h) (kx, k) = (f x hx kx, All-both P Q R xs f h k)

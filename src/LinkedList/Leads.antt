-- ===== src/LinkedList/Leads.antt =====
-- src/dsa/list.hpp: the nodes that one of the two pointers leads through.
use vector_db.Prelude.{
  ℕ, suc, ◌≡◌, ◌≢◌, ◌∙◌, true, false, List, [], ◌∷◌, ◌++◌, arith, All, Pairwise, All-left,
  All-right, length, ◌==◌, if◌then◌else◌,
}
use vector_db.Prelude.Outcome.{ret, ◌>>=◌}
use vector_db.LinkedList.{visit}

-- From `a` the pointer leads through the list to `e`.
abbrev pub Leads : (ℕ → ℕ) → ℕ → List ℕ → ℕ → Type 0
Leads f a [] e = f a ≡ e
Leads f a (x ∷ xs) e = (f a ≡ x) × Leads f x xs e

abbrev pub last_of : ℕ → List ℕ → ℕ
last_of a [] = a
last_of a (x ∷ xs) = last_of x xs

abbrev pub first_of_list : List ℕ → ℕ → ℕ
first_of_list [] e = e
first_of_list (x ∷ xs) e = x

abbrev pub Distinct : List ℕ → Type 0
Distinct = Pairwise ◌≢◌

pub Leads-last :
    (f : ℕ → ℕ) (a : ℕ) (ys zs : List ℕ) (e : ℕ)
    → Leads f a (ys ++ zs) e
    → f (last_of a ys) ≡ first_of_list zs e
Leads-last f a [] [] e h = h
Leads-last f a [] (z ∷ zs) e (h, _) = h
Leads-last f a (y ∷ ys) zs e (_, h) = Leads-last f y ys zs e h

pub Leads-next :
    (f : ℕ → ℕ) (a n : ℕ) (ys zs : List ℕ) (e : ℕ)
    → Leads f a (ys ++ n ∷ zs) e
    → f n ≡ first_of_list zs e
Leads-next f a n [] [] e (_, h) = h
Leads-next f a n [] (z ∷ zs) e (_, (h, _)) = h
Leads-next f a n (y ∷ ys) zs e (_, h) = Leads-next f y n ys zs e h

pub All-first_of_list {ℓ} :
    (P : ℕ → Type ℓ) (zs : List ℕ) (e : ℕ) → P e → All P zs → P (first_of_list zs e)
All-first_of_list P [] e he h = he
All-first_of_list P (z ∷ zs) e he (h, _) = h

pub All-last_of {ℓ} : (P : ℕ → Type ℓ) (a : ℕ) (ys : List ℕ) → All P (a ∷ ys) → P (last_of a ys)
All-last_of P a [] (h, _) = h
All-last_of P a (y ∷ ys) (_, h) = All-last_of P y ys h

Leads-same :
    (f g : ℕ → ℕ) (a : ℕ) (xs : List ℕ) (e : ℕ)
    → All (λ q. g q ≡ f q) (a ∷ xs)
    → Leads f a xs e
    → Leads g a xs e
Leads-same f g a [] e (same, _) h = same ∙ h
Leads-same f g a (x ∷ xs) e (same, rest) (h, t) = (same ∙ h, Leads-same f g x xs e rest t)

-- `g` is `f` with `n` behind `p`.
abbrev pub Inserts : (ℕ → ℕ) → (ℕ → ℕ) → ℕ → ℕ → Type 0
Inserts f g p n = (q : ℕ) → g q ≡ (if q == p then n else if q == n then f p else f q)

-- `g` is `f` without `n`, which was behind `p`.
abbrev pub Omits : (ℕ → ℕ) → (ℕ → ℕ) → ℕ → ℕ → Type 0
Omits f g p n = (q : ℕ) → g q ≡ (if q == n then n else if q == p then f n else f q)

module _ (f g : ℕ → ℕ) where
  others-insert :
      (p n : ℕ) (zs : List ℕ)
      → Inserts f g p n
      → All (λ q. p ≢ q) zs
      → All (λ q. n ≢ q) zs
      → All (λ q. g q ≡ f q) zs
  others-insert p n [] h hp hn = tt
  others-insert p n (z ∷ zs) h (pz, hp) (nz, hn) =
      (ground (arith, h z), others-insert p n zs h hp hn)

  others-omit :
      (p n : ℕ) (zs : List ℕ)
      → Omits f g p n
      → All (λ q. p ≢ q) zs
      → All (λ q. n ≢ q) zs
      → All (λ q. g q ≡ f q) zs
  others-omit p n [] h hp hn = tt
  others-omit p n (z ∷ zs) h (pz, hp) (nz, hn) = (ground (arith, h z), others-omit p n zs h hp hn)

  -- From `b`, which now leads where `a` led.
  Leads-moved :
      (a b : ℕ) (zs : List ℕ) (e : ℕ)
      → g b ≡ f a
      → All (λ q. g q ≡ f q) zs
      → Leads f a zs e
      → Leads g b zs e
  Leads-moved a b [] e now same h = now ∙ h
  Leads-moved a b (z ∷ zs) e now same (h, t) = (now ∙ h, Leads-same f g z zs e same t)

  pub Leads-insert :
      (n a : ℕ) (ys zs : List ℕ) (e : ℕ)
      → Inserts f g (last_of a ys) n
      → Distinct (a ∷ ys ++ zs)
      → All (λ q. n ≢ q) (a ∷ ys ++ zs)
      → Leads f a (ys ++ zs) e
      → Leads g a (ys ++ n ∷ zs) e
  Leads-insert n a [] zs e h (apart, _) (na, fresh) t = (
    ground (arith, h a),
    Leads-moved a n zs e (ground (arith, h n)) (others-insert a n zs h apart fresh) t,
  )
  Leads-insert n a (y ∷ ys) zs e h (apart, distinct) (na, fresh) (here, t) =
      let ne = All-last_of (λ q. a ≢ q) y ys (All-left (λ q. a ≢ q) (y ∷ ys) zs apart) in
      (ground (arith, h a), Leads-insert n y ys zs e h distinct fresh t)

  pub Leads-omit :
      (n a : ℕ) (ys zs : List ℕ) (e : ℕ)
      → Omits f g (last_of a ys) n
      → Distinct (a ∷ ys ++ n ∷ zs)
      → Leads f a (ys ++ n ∷ zs) e
      → Leads g a (ys ++ zs) e
  Leads-omit n a [] zs e h ((an, apart), (fresh, distinct)) (here, t) =
      Leads-moved n a zs e (ground (arith, h a)) (others-omit a n zs h apart fresh) t
  Leads-omit n a (y ∷ ys) zs e h (apart, distinct) (here, t) =
      let ne = All-last_of (λ q. a ≢ q) y ys (All-left (λ q. a ≢ q) (y ∷ ys) (n ∷ zs) apart) in
      let an = (All-right (λ q. a ≢ q) (y ∷ ys) (n ∷ zs) apart).0 in
      (ground (arith, h a), Leads-omit n y ys zs e h distinct t)

module _ (f : ℕ → ℕ) (fuel last it : ℕ) where
  visit-last : (it == last) ≡ true → visit f (suc fuel) last it ≡ ret []
  unfolding visit
  visit-last there = rw (there, visit)

  visit-inner :
      (it == last) ≡ false
      → visit f (suc fuel) last it ≡ (visit f fuel last (f it) >>= λ rest. ret (it ∷ rest))
  unfolding visit
  visit-inner inner = rw (inner, visit)

-- A loop from the first node to `e` visits the nodes in their order.
pub visit-Leads :
    (f : ℕ → ℕ) (a : ℕ) (xs : List ℕ) (e : ℕ)
    → All (λ q. e ≢ q) xs
    → Leads f a xs e
    → visit f (suc (length xs)) e (f a) ≡ ret xs
visit-Leads f a [] e ne h = visit-last f 0 e (f a) (ground arith)
visit-Leads f a (x ∷ xs) e (ex, ne) (h, t) =
    visit-inner f (suc (length xs)) e (f a) (ground arith)
    ∙ rw (h, visit-Leads f x xs e ne t, ◌>>=◌)

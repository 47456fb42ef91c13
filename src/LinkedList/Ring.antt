-- ===== src/LinkedList/Ring.antt =====
-- src/dsa/list.hpp: a pointer of the nodes that leads from the sentinel through the list and back to the sentinel.
use mathlib.Core.Path.{subst}
use mathlib.Core.List.{reverse, reverse-append, reverse-cons, reverse-reverse}
use vector_db.Prelude.{
  ℕ, length, length-append, ◌≡◌, ◌≢◌, inl, inr, refl, sym, ap, ◌∙◌, List, [], ◌∷◌, ◌++◌, arith,
  append_assoc, All, Bool-cases, All-append, All-left, All-right, All-insert, All-omit, All-weaken,
  All-at, Pairwise-insert, Pairwise-omit, ◌==◌,
}
use vector_db.LinkedList.Leads.{
  Leads, Distinct, Inserts, Omits, last_of, first_of_list, All-last_of, All-first_of_list,
  Leads-last, Leads-insert, Leads-omit,
}

-- The nodes outside lead to themselves.
pub record IsRing (f : ℕ → ℕ) (head : ℕ) (xs : List ℕ) : Type 0 where
  pub leads : Leads f head xs head
  pub distinct : Distinct (head ∷ xs)
  pub outside : (q : ℕ) → All (λ x. q ≢ x) (head ∷ xs) → f q ≡ q

module _ (f g : ℕ → ℕ) (head n : ℕ) (ys zs : List ℕ) where
  pub insert-IsRing :
      Inserts f g (last_of head ys) n
      → All (λ q. n ≢ q) (head ∷ ys ++ zs)
      → IsRing f head (ys ++ zs)
      → IsRing g head (ys ++ n ∷ zs)
  insert-IsRing h fresh r = record {
    leads = Leads-insert f g n head ys zs head h r.distinct fresh r.leads;
    distinct =
        Pairwise-insert ◌≢◌ (head ∷ ys) zs n r.distinct
          (All-weaken (λ q. n ≢ q) (λ q. q ≢ n) (head ∷ ys) (λ q ne e. ne (sym e))
            (All-left (λ q. n ≢ q) (head ∷ ys) zs fresh))
          (All-right (λ q. n ≢ q) (head ∷ ys) zs fresh);
    outside = λ q ne.
        let far =
          All-last_of (λ x. q ≢ x) head ys (All-left (λ x. q ≢ x) (head ∷ ys) (n ∷ zs) ne) in
        let other = All-at (λ x. q ≢ x) (head ∷ ys) zs n ne in
        let alone = r.outside q (All-omit (λ x. q ≢ x) (head ∷ ys) zs n ne) in ground (arith, h q);
  }

  pub omit-IsRing :
      Omits f g (last_of head ys) n → IsRing f head (ys ++ n ∷ zs) → IsRing g head (ys ++ zs)
  omit-IsRing h r = record {
    leads = Leads-omit f g n head ys zs head h r.distinct r.leads;
    distinct = Pairwise-omit ◌≢◌ (head ∷ ys) zs n r.distinct;
    outside = λ q ne. elim (Bool-cases (q == n)) [
      | inl this ↦ ground (arith, h q)
      | inr other ↦
          let far = All-last_of (λ x. q ≢ x) head ys (All-left (λ x. q ≢ x) (head ∷ ys) zs ne) in
          let apart : q ≢ n = ground arith in
          let alone = r.outside q (All-insert (λ x. q ≢ x) (head ∷ ys) zs n ne apart) in
          ground (arith, h q)
    ];
  }

-- The other direction.
pub reverse-cut : (ys zs : List ℕ) (n : ℕ) → reverse (ys ++ n ∷ zs) ≡ reverse zs ++ n ∷ reverse ys
reverse-cut ys zs n =
    reverse-append ys (n ∷ zs)
    ∙ ap (λ l. l ++ reverse ys) (reverse-cons n zs)
    ∙ append_assoc (reverse zs) (n ∷ []) (reverse ys)

last_of-append : (a n : ℕ) (ys : List ℕ) → last_of a (ys ++ n ∷ []) ≡ n
last_of-append a n [] = refl
last_of-append a n (y ∷ ys) = last_of-append y n ys

pub last_of-reverse : (zs : List ℕ) (e : ℕ) → last_of e (reverse zs) ≡ first_of_list zs e
last_of-reverse [] e = refl
last_of-reverse (z ∷ zs) e =
    ap (λ l. last_of e l) (reverse-cons z zs) ∙ last_of-append e z (reverse zs)

pub first_of_list-reverse : (ys : List ℕ) (a : ℕ) → first_of_list (reverse ys) a ≡ last_of a ys
first_of_list-reverse ys a =
    sym (last_of-reverse (reverse ys) a) ∙ ap (λ l. last_of a l) (reverse-reverse ys)

pub All-reverse {κ} : (P : ℕ → Type κ) (xs : List ℕ) → All P xs → All P (reverse xs)
All-reverse P [] h = h
All-reverse P (x ∷ xs) (hx, h) =
    subst (λ l. All P l) (sym (reverse-cons x xs))
      (All-append P (reverse xs) (x ∷ []) (All-reverse P xs h) (hx, tt))

pub length-reverse : (xs : List ℕ) → length (reverse xs) ≡ length xs
length-reverse [] = refl
length-reverse (x ∷ xs) =
    let cut = ap (λ l. length l) (reverse-cons x xs) in
    let parts = length-append (reverse xs) (x ∷ []) in let rest = length-reverse xs in omega arith

-- No node of the list leads to itself.
pub Leads-moves :
    (f : ℕ → ℕ) (a : ℕ) (xs : List ℕ) (e : ℕ)
    → Distinct (e ∷ xs)
    → Leads f a xs e
    → All (λ q. f q ≢ q) xs
Leads-moves f a [] e d h = tt
Leads-moves f a (x ∷ xs) e ((ex, ne), (apart, d)) (h, t) = (
  λ q.
      All-first_of_list (λ y. x ≢ y) xs e (λ w. ex (sym w)) apart
        (sym q ∙ Leads-last f x [] xs e t),
  Leads-moves f x xs e (ne, d) t,
)

-- ===== src/LinkedList/Cuts.antt =====
-- src/dsa/list.hpp: the operations on the list of the addresses that the sentinel leads through.
use mathlib.Core.Path.{subst}
use vector_db.Prelude.{
  ℕ, ◌≡◌, ◌≢◌, refl, ap, Bool, false, ◌||◌, inl, inr, Option, none, some, some_inj, List, [], ◌∷◌,
  ◌++◌, All, arith, drop, ◌==◌, if◌then◌else◌, Bool-cases,
}
use vector_db.LinkedList.Leads.{last_of, first_of_list}

-- The calls, each with the addresses of its nodes.
pub data Call : Type 0 where
  at_front : ℕ → Call
  at_back : ℕ → Call
  before_node : ℕ → ℕ → Call
  after_node : ℕ → ℕ → Call
  unlink_node : ℕ → Call

abbrev pub has : ℕ → List ℕ → Bool
has n [] = false
has n (x ∷ xs) = (n == x) || has n xs

pub has-fresh : (n : ℕ) (xs : List ℕ) → has n xs ≡ false → All (λ q. n ≢ q) xs
has-fresh n [] h = tt
has-fresh n (x ∷ xs) h = (ground arith, has-fresh n xs (ground arith))

unfoldable pub cons_cut : ℕ → Option (List ℕ × List ℕ) → Option (List ℕ × List ℕ)
cons_cut x none = none
cons_cut x (some c) = some (x ∷ c.0, c.1)

-- The list cut behind `p`, where it stands behind `a`.
unfoldable pub cut_after : ℕ → ℕ → List ℕ → Option (List ℕ × List ℕ)
cut_after p a [] = if a == p then some ([], []) else none
cut_after p a (x ∷ xs) =
    let rest = cut_after p x xs in if a == p then some ([], x ∷ xs) else cons_cut x rest

-- The list cut before `p`, where `e` stands behind it.
unfoldable pub cut_before : ℕ → List ℕ → ℕ → Option (List ℕ × List ℕ)
cut_before p [] e = if e == p then some ([], []) else none
cut_before p (x ∷ xs) e =
    let rest = cut_before p xs e in if x == p then some ([], x ∷ xs) else cons_cut x rest

unfoldable pub insert_cut : ℕ → ℕ → List ℕ → Option (List ℕ × List ℕ) → Option (List ℕ)
insert_cut head n xs none = none
insert_cut head n xs (some c) = if has n (head ∷ xs) then none else some (c.0 ++ n ∷ c.1)

unfoldable pub omit_cut : Option (List ℕ × List ℕ) → Option (List ℕ)
omit_cut none = none
omit_cut (some c) = some (c.0 ++ drop 1 c.1)

-- What a call makes of the list. A node that is added must not be in the list, one that another is placed by
-- is in it or the sentinel, and one that is unlinked is in it.
unfoldable pub list_call : ℕ → Call → List ℕ → Option (List ℕ)
list_call head (at_front n) xs = insert_cut head n xs (some ([], xs))
list_call head (at_back n) xs = insert_cut head n xs (some (xs, []))
list_call head (before_node p n) xs = insert_cut head n xs (cut_before p xs head)
list_call head (after_node p n) xs = insert_cut head n xs (cut_after p head xs)
list_call head (unlink_node p) xs = if head == p then none else omit_cut (cut_before p xs head)

unfoldable pub list_run : ℕ → List Call → List ℕ → Option (List ℕ)
list_run head [] xs = some xs
list_run head (c ∷ cs) xs = elim (list_call head c xs) [
  | none ↦ none
  | some ys ↦ list_run head cs ys
]

pub insert_cut-some :
    (head n : ℕ) (xs : List ℕ) (c : List ℕ × List ℕ) (zs : List ℕ)
    → insert_cut head n xs (some c) ≡ some zs
    → All (λ q. n ≢ q) (head ∷ xs) × (c.0 ++ n ∷ c.1 ≡ zs)
unfolding insert_cut
insert_cut-some head n xs c zs h = elim (Bool-cases (has n (head ∷ xs))) [
  | inl there ↦ ground arith
  | inr fresh ↦ (has-fresh n (head ∷ xs) fresh, ground arith)
]

cons_cut-some :
    (x : ℕ) (rest : Option (List ℕ × List ℕ)) (c : List ℕ × List ℕ)
    → cons_cut x rest ≡ some c
    → (d : List ℕ × List ℕ) × (rest ≡ some d) × ((x ∷ d.0, d.1) ≡ c)
unfolding cons_cut
cons_cut-some x none c h = ground arith
cons_cut-some x (some d) c h = (d, refl, some_inj.0 h)

-- A cut is one of the list, at the node.
pub cut_after-some :
    (p a : ℕ) (xs : List ℕ) (c : List ℕ × List ℕ)
    → cut_after p a xs ≡ some c
    → (c.0 ++ c.1 ≡ xs) × (last_of a c.0 ≡ p)
unfolding cut_after
cut_after-some p a [] c h = elim (Bool-cases (a == p)) [
  | inl here ↦
      let e : ([], []) ≡ c =
        some_inj.0 (subst (λ b. (if b then some ([], []) else none) ≡ some c) here h) in
      subst (λ c. (c.0 ++ c.1 ≡ []) × (last_of a c.0 ≡ p)) e (refl, ground arith)
  | inr other ↦ ground arith
]
cut_after-some p a (x ∷ xs) c h = elim (Bool-cases (a == p)) [
  | inl here ↦
      let e : ([], x ∷ xs) ≡ c = some_inj.0 (
        subst (λ b. (if b then some ([], x ∷ xs) else cons_cut x (cut_after p x xs)) ≡ some c) here
          h) in
      subst (λ c. (c.0 ++ c.1 ≡ x ∷ xs) × (last_of a c.0 ≡ p)) e (refl, ground arith)
  | inr other ↦
      let (d, rest, e) = cons_cut-some x (cut_after p x xs) c (
        subst (λ b. (if b then some ([], x ∷ xs) else cons_cut x (cut_after p x xs)) ≡ some c) other
          h) in
      let (cut, last) = cut_after-some p x xs d rest in
      subst (λ c. (c.0 ++ c.1 ≡ x ∷ xs) × (last_of a c.0 ≡ p)) e (ap (λ l. x ∷ l) cut, last)
]

pub cut_before-some :
    (p : ℕ) (xs : List ℕ) (e : ℕ) (c : List ℕ × List ℕ)
    → cut_before p xs e ≡ some c
    → (c.0 ++ c.1 ≡ xs) × (first_of_list c.1 e ≡ p)
unfolding cut_before
cut_before-some p [] e c h = elim (Bool-cases (e == p)) [
  | inl here ↦
      let q : ([], []) ≡ c =
        some_inj.0 (subst (λ b. (if b then some ([], []) else none) ≡ some c) here h) in
      subst (λ c. (c.0 ++ c.1 ≡ []) × (first_of_list c.1 e ≡ p)) q (refl, ground arith)
  | inr other ↦ ground arith
]
cut_before-some p (x ∷ xs) e c h = elim (Bool-cases (x == p)) [
  | inl here ↦
      let q : ([], x ∷ xs) ≡ c = some_inj.0 (
        subst (λ b. (if b then some ([], x ∷ xs) else cons_cut x (cut_before p xs e)) ≡ some c) here
          h) in
      subst (λ c. (c.0 ++ c.1 ≡ x ∷ xs) × (first_of_list c.1 e ≡ p)) q (refl, ground arith)
  | inr other ↦
      let (d, rest, q) = cons_cut-some x (cut_before p xs e) c (
        subst (λ b. (if b then some ([], x ∷ xs) else cons_cut x (cut_before p xs e)) ≡ some c)
          other h) in
      let (cut, first) = cut_before-some p xs e d rest in
      subst (λ c. (c.0 ++ c.1 ≡ x ∷ xs) × (first_of_list c.1 e ≡ p)) q (ap (λ l. x ∷ l) cut, first)
]

-- ===== src/LinkedList/Calls.antt =====
-- src/dsa/list.hpp: sequences of calls by one thread, on nodes that are linked to themselves at first.
use mathlib.Core.Path.{subst}
use mathlib.Core.List.{reverse}
use vector_db.Prelude.{
  ℕ, suc, ◌≡◌, ◌≢◌, refl, sym, ap, Bool, true, false, not, inl, inr, some, some_inj, List, [], ◌∷◌,
  ◌++◌, length, All, All-weaken, append-nil, arith, drop, ◌==◌, Bool-cases, Option-cases,
}
use vector_db.Prelude.Outcome.{Outcome, ret, ◌>>=◌}
use vector_db.LinkedList.{
  ListNode, walk, walk_back, empty, is_linked, push_front, push_back, insert_before, insert_after,
  unlink,
}
use vector_db.LinkedList.Leads.{last_of, first_of_list, visit-Leads}
use vector_db.LinkedList.Linked.{
  IsLinked, insert_after-IsLinked, insert_before-IsLinked, unlink-IsLinked,
}
use vector_db.LinkedList.Ring.{length-reverse, Leads-moves}
use vector_db.LinkedList.Cuts.{
  Call, at_front, at_back, before_node, after_node, unlink_node, cut_after, cut_before, insert_cut,
  omit_cut, list_call, list_run, insert_cut-some, cut_after-some, cut_before-some,
}

abbrev pub is_empty : List ℕ → Bool
is_empty [] = true
is_empty (x ∷ xs) = false

module _ {ℓ} {T : Type ℓ} where
  unfoldable pub call : ℕ → Call → (ℕ → ListNode T) → Outcome (ℕ → ListNode T)
  call head (at_front n) nodes = push_front false nodes head n
  call head (at_back n) nodes = push_back false nodes head n
  call head (before_node p n) nodes = ret (insert_before nodes p n)
  call head (after_node p n) nodes = ret (insert_after nodes p n)
  call head (unlink_node p) nodes = ret (unlink nodes p)

  unfoldable pub run : ℕ → List Call → (ℕ → ListNode T) → Outcome (ℕ → ListNode T)
  run head [] nodes = ret nodes
  run head (c ∷ cs) nodes = call head c nodes >>= λ nodes. run head cs nodes

  module _ (nodes : ℕ → ListNode T) (head : ℕ) (xs : List ℕ) (r : IsLinked nodes head xs) where
    insert_after-cut :
        (p n : ℕ) (c : List ℕ × List ℕ) (zs : List ℕ)
        → insert_cut head n xs (some c) ≡ some zs
        → c.0 ++ c.1 ≡ xs
        → last_of head c.0 ≡ p
        → IsLinked (insert_after nodes p n) head zs
    insert_after-cut p n c zs h cut last =
        let (fresh, e) = insert_cut-some head n xs c zs h in
        subst (λ l. IsLinked (insert_after nodes p n) head l) e
          (subst (λ q. IsLinked (insert_after nodes q n) head (c.0 ++ n ∷ c.1)) last
            (insert_after-IsLinked nodes head c.0 c.1 n
              (subst (λ l. All (λ q. n ≢ q) (head ∷ l)) (sym cut) fresh)
              (subst (λ l. IsLinked nodes head l) (sym cut) r)))

    insert_before-cut :
        (p n : ℕ) (c : List ℕ × List ℕ) (zs : List ℕ)
        → insert_cut head n xs (some c) ≡ some zs
        → c.0 ++ c.1 ≡ xs
        → first_of_list c.1 head ≡ p
        → IsLinked (insert_before nodes p n) head zs
    insert_before-cut p n c zs h cut first =
        let (fresh, e) = insert_cut-some head n xs c zs h in
        subst (λ l. IsLinked (insert_before nodes p n) head l) e
          (subst (λ q. IsLinked (insert_before nodes q n) head (c.0 ++ n ∷ c.1)) first
            (insert_before-IsLinked nodes head c.0 c.1 n
              (subst (λ l. All (λ q. n ≢ q) (head ∷ l)) (sym cut) fresh)
              (subst (λ l. IsLinked nodes head l) (sym cut) r)))

    unlink-cut :
        (p : ℕ) (ys zs : List ℕ)
        → head ≢ p
        → ys ++ zs ≡ xs
        → first_of_list zs head ≡ p
        → IsLinked (unlink nodes p) head (ys ++ drop 1 zs)
    unlink-cut p ys [] ne cut first = ground arith
    unlink-cut p ys (z ∷ zs) ne cut first =
        subst (λ q. IsLinked (unlink nodes q) head (ys ++ zs)) first
          (unlink-IsLinked nodes head ys zs z (subst (λ l. IsLinked nodes head l) (sym cut) r))

    -- A call that the list allows returns, and the nodes hold the list that it makes.
    call-IsLinked :
        (c : Call) (zs : List ℕ)
        → list_call head c xs ≡ some zs
        → (after : ℕ → ListNode T) × (call head c nodes ≡ ret after) × IsLinked after head zs
    unfolding call list_call insert_cut omit_cut
    call-IsLinked (at_front n) zs h =
        (insert_after nodes head n, refl, insert_after-cut head n ([], xs) zs h refl refl)
    call-IsLinked (at_back n) zs h = (
      insert_before nodes head n,
      refl,
      insert_before-cut head n (xs, []) zs h (append-nil xs) refl,
    )
    call-IsLinked (before_node p n) zs h = elim (Option-cases (cut_before p xs head)) [
      | inl e ↦ ground (arith, e)
      | inr (c, e) ↦
          let (cut, first) = cut_before-some p xs head c e in
          (
            insert_before nodes p n,
            refl,
            insert_before-cut p n c zs (subst (λ o. insert_cut head n xs o ≡ some zs) e h) cut
                first,
          )
    ]
    call-IsLinked (after_node p n) zs h = elim (Option-cases (cut_after p head xs)) [
      | inl e ↦ ground (arith, e)
      | inr (c, e) ↦
          let (cut, last) = cut_after-some p head xs c e in
          (
            insert_after nodes p n,
            refl,
            insert_after-cut p n c zs (subst (λ o. insert_cut head n xs o ≡ some zs) e h) cut last,
          )
    ]
    call-IsLinked (unlink_node p) zs h = elim (Bool-cases (head == p)) [
      | inl this ↦ ground arith
      | inr other ↦ elim (Option-cases (cut_before p xs head)) [
        | inl e ↦ ground (arith, e)
        | inr (c, e) ↦
            let (cut, first) = cut_before-some p xs head c e in
            (
              unlink nodes p,
              refl,
              subst (λ l. IsLinked (unlink nodes p) head l) (ground (arith, e))
                  (unlink-cut p c.0 c.1 (ground arith) cut first),
            )
      ]
    ]

  run-IsLinked :
      (head : ℕ) (cs : List Call) (nodes : ℕ → ListNode T) (xs ys : List ℕ)
      → IsLinked nodes head xs
      → list_run head cs xs ≡ some ys
      → (after : ℕ → ListNode T) × (run head cs nodes ≡ ret after) × IsLinked after head ys
  unfolding run list_run
  run-IsLinked head [] nodes xs ys r h =
      (nodes, refl, subst (λ l. IsLinked nodes head l) (some_inj.0 h) r)
  run-IsLinked head (c ∷ cs) nodes xs ys r h = elim (Option-cases (list_call head c xs)) [
    | inl e ↦ ground (arith, e)
    | inr (zs, e) ↦
        let (between, did, linked) = call-IsLinked nodes head xs r c zs e in
        let (after, rest, last) = run-IsLinked head cs between zs ys linked (ground (arith, e)) in
        (after, rw (did, ◌>>=◌, rest), last)
  ]

  -- What a client sees of the list.
  abbrev pub Shows : (ℕ → ListNode T) → ℕ → List ℕ → Type 0
  Shows nodes head xs =
      (walk nodes head (suc (length xs)) ≡ ret xs)
      × (walk_back nodes head (suc (length xs)) ≡ ret (reverse xs))
      × (empty false nodes head ≡ ret (is_empty xs))
      × All (λ q. is_linked nodes q ≡ true) xs
      × ((q : ℕ) → All (λ x. q ≢ x) (head ∷ xs) → is_linked nodes q ≡ false)

  linked-Shows :
      (nodes : ℕ → ListNode T) (head : ℕ) (xs : List ℕ)
      → IsLinked nodes head xs
      → Shows nodes head xs
  linked-Shows nodes head xs r = (
    visit-Leads (λ q. (nodes q).next) head xs head r.forwards.distinct.0 r.forwards.leads,
    subst (λ n. walk_back nodes head (suc n) ≡ ret (reverse xs)) (length-reverse xs)
        (visit-Leads (λ q. (nodes q).prev) head (reverse xs) head r.backwards.distinct.0
          r.backwards.leads),
    empty-is_empty xs r,
    All-weaken (λ q. (nodes q).next ≢ q) (λ q. is_linked nodes q ≡ true) xs (λ q ne. ground arith)
        (Leads-moves (λ q. (nodes q).next) head xs head r.forwards.distinct r.forwards.leads),
    λ q ne. let alone = r.forwards.outside q ne in ground arith,
  )
    where
      empty-is_empty :
          (xs : List ℕ) → IsLinked nodes head xs → empty false nodes head ≡ ret (is_empty xs)
      empty-is_empty [] r =
          let alone : (nodes head).next ≡ head = r.forwards.leads in
          let same : ((nodes head).next == head) ≡ true = ground arith in
          ap (λ b. ret (not (not b))) same
      empty-is_empty (x ∷ xs) r =
          let there : (nodes head).next ≡ x = r.forwards.leads.0 in
          let ne : head ≢ x = r.forwards.distinct.0.0 in
          let other : ((nodes head).next == head) ≡ false = ground arith in
          ap (λ b. ret (not (not b))) other

  alone-IsLinked :
      (nodes : ℕ → ListNode T) (head : ℕ)
      → ((q : ℕ) → ((nodes q).next ≡ q) × ((nodes q).prev ≡ q))
      → IsLinked nodes head []
  alone-IsLinked nodes head self = record {
    forwards = record { leads = (self head).0; distinct = (tt, tt); outside = λ q ne. (self q).0 };
    backwards = record { leads = (self head).1; distinct = (tt, tt); outside = λ q ne. (self q).1 };
  }

  -- From nodes that are linked to themselves, as they are constructed, a sequence of calls by one thread that
  -- the list of the addresses allows (a node that is added is not in the list and is not the sentinel, one that
  -- another is placed before or behind is in it or is the sentinel, one that is unlinked is in it) returns, and
  -- then shows what the same calls make of the list: a loop from `begin()` to `end()` visits its nodes in
  -- order, one from `end()` back visits them in the reverse order, `empty()` says whether it has none, and
  -- `is_linked()` of a node other than the sentinel whether it has that node.
  pub run-Shows :
      (nodes : ℕ → ListNode T) (head : ℕ) (cs : List Call) (xs : List ℕ)
      → ((q : ℕ) → ((nodes q).next ≡ q) × ((nodes q).prev ≡ q))
      → list_run head cs [] ≡ some xs
      → (after : ℕ → ListNode T) × (run head cs nodes ≡ ret after) × Shows after head xs
  run-Shows nodes head cs xs self h =
      let (after, did, linked) =
        run-IsLinked head cs nodes [] xs (alone-IsLinked nodes head self) h in
      (after, did, linked-Shows after head xs linked)

-- ===== src/LockFree/Calls.antt =====
-- What a client of src/dsa/avl_lockfree.hpp's `AVLTree` observes in one thread, against an association
-- list in the order of its keys.
use Prim.Native.Nat.Ordering.{eq, gt}
use vector_db.Prelude.{
  ◌≡◌, refl, sym, ap, ◌∙◌, some, List, [], ◌∷◌, ◌++◌, arith, inl, inr, Option-cases,
}
use vector_db.Prelude.Order.{Ord, Ordering-cases}
use vector_db.LockFree.{Tree, null, node, insert, remove, search, assign, set, get, del}
use vector_db.LockFree.Entries.{
  IsSorted, Below, find, put, erase, Below-before, Below-chain, IsSorted-before, IsSorted-after,
  find_left, put_left, erase_left, find_here, find_past, put_here, put_past, erase_here, erase_past,
  put-IsSorted, erase-IsSorted,
}
use vector_db.LockFree.Rotations.{entries, entries-fix, entries-remove_found}

-- `set` or `del`.
pub data Call {ℓ κ} (K : Type ℓ) (V : Type κ) : Type (ℓ ⊔ κ) where
  set_call : K → V → Call K V
  del_call : K → Call K V

module _ {ℓ κ} {K : Type ℓ} {V : Type κ} ⦃o : Ord K⦄ where
  -- The entries are in the order of their keys, without duplicates.
  abbrev pub IsOrdered : Tree K V → Type 0
  IsOrdered t = IsSorted (entries t)

  -- What the order says at a node.
  module _ (l : Tree K V) (k : K) (v : V) (r : Tree K V)
      (s : IsSorted (entries l ++ (k, v) ∷ entries r)) where
    left-IsOrdered : IsOrdered l
    left-IsOrdered = IsSorted-before (entries l) ((k, v) ∷ entries r) s

    right-IsOrdered : IsOrdered r
    right-IsOrdered = (IsSorted-after (entries l) ((k, v) ∷ entries r) s).1

    smaller : Below k (entries l)
    smaller = Below-before k v (entries l) (entries r) s

    smaller_here : (q : K) → o.three_way q k ≡ eq → Below q (entries l)
    smaller_here q h = rw (o.eq_of_compare q k h) smaller

    smaller_still : (q : K) → o.three_way q k ≡ gt → Below q (entries l)
    smaller_still q h = Below-chain k q (entries l) (o.flip_gt q k h) smaller

  search-find : (t : Tree K V) (q : K) → IsOrdered t → search t q ≡ find q (entries t)
  unfolding search
  search-find null q s = refl
  search-find (node d w l k v r) q s = elim (Ordering-cases (o.three_way q k)) [
    | inl h ↦
        rw (h, search)
          (search-find l q (left-IsOrdered l k v r s)
            ∙ sym (find_left q k v (entries r) h (entries l)))
    | inr (inl h) ↦
        rw (h, search)
          (sym (find_here q k v (entries l) (entries r) (smaller_here l k v r s q h) h))
    | inr (inr h) ↦
        rw (h, search)
          (search-find r q (right-IsOrdered l k v r s)
            ∙ sym (find_past q k v (entries l) (entries r) (smaller_still l k v r s q h) h))
  ]

  entries-insert :
      (t : Tree K V) (q : K) (x : V) → IsOrdered t → entries (insert t q x) ≡ put q x (entries t)
  unfolding insert
  entries-insert null q x s = refl
  entries-insert (node d w l k v r) q x s = elim (Ordering-cases (o.three_way q k)) [
    | inl h ↦
        rw (h, insert)
          (entries-fix (node d w (insert l q x) k v r)
            ∙ ap (λ z. z ++ (k, v) ∷ entries r) (entries-insert l q x (left-IsOrdered l k v r s))
            ∙ sym (put_left q k v (entries r) h x (entries l)))
    | inr (inl h) ↦
        rw (h, insert)
          (sym (put_here q k v (entries l) (entries r) (smaller_here l k v r s q h) x h))
    | inr (inr h) ↦
        rw (h, insert)
          (entries-fix (node d w l k v (insert r q x))
            ∙ ap (λ z. entries l ++ (k, v) ∷ z) (entries-insert r q x (right-IsOrdered l k v r s))
            ∙ sym (put_past q k v (entries l) (entries r) (smaller_still l k v r s q h) x h))
  ]

  entries-assign :
      (t : Tree K V) (q : K) (x y : V)
      → IsOrdered t
      → search t q ≡ some y
      → entries (assign t q x) ≡ put q x (entries t)
  unfolding assign search
  entries-assign null q x y s e = cc
  entries-assign (node d w l k v r) q x y s e = elim (Ordering-cases (o.three_way q k)) [
    | inl h ↦
        rw (h, assign)
          (ap (λ z. z ++ (k, v) ∷ entries r)
              (entries-assign l q x y (left-IsOrdered l k v r s) (ground arith))
            ∙ sym (put_left q k v (entries r) h x (entries l)))
    | inr (inl h) ↦
        rw (h, assign)
          (sym (put_here q k v (entries l) (entries r) (smaller_here l k v r s q h) x h))
    | inr (inr h) ↦
        rw (h, assign)
          (ap (λ z. entries l ++ (k, v) ∷ z)
              (entries-assign r q x y (right-IsOrdered l k v r s) (ground arith))
            ∙ sym (put_past q k v (entries l) (entries r) (smaller_still l k v r s q h) x h))
  ]

  entries-remove : (t : Tree K V) (q : K) → IsOrdered t → entries (remove t q) ≡ erase q (entries t)
  unfolding remove
  entries-remove null q s = refl
  entries-remove (node d w l k v r) q s = elim (Ordering-cases (o.three_way q k)) [
    | inl h ↦
        rw (h, remove)
          (entries-fix (node d w (remove l q) k v r)
            ∙ ap (λ z. z ++ (k, v) ∷ entries r) (entries-remove l q (left-IsOrdered l k v r s))
            ∙ sym (erase_left q k v (entries r) h (entries l)))
    | inr (inl h) ↦
        rw (h, remove)
          (entries-remove_found d w l r
            ∙ sym (erase_here q k v (entries l) (entries r) (smaller_here l k v r s q h) h))
    | inr (inr h) ↦
        rw (h, remove)
          (entries-fix (node d w l k v (remove r q))
            ∙ ap (λ z. entries l ++ (k, v) ∷ z) (entries-remove r q (right-IsOrdered l k v r s))
            ∙ sym (erase_past q k v (entries l) (entries r) (smaller_still l k v r s q h) h))
  ]

  entries-set :
      (t : Tree K V) (q : K) (x : V) → IsOrdered t → entries (set t q x) ≡ put q x (entries t)
  unfolding set
  entries-set t q x s = elim (Option-cases (search t q)) [
    | inl e ↦ rw (e, set) (entries-insert t q x s)
    | inr (y, e) ↦ rw (e, set) (entries-assign t q x y s e)
  ]

  entries-del : (t : Tree K V) (q : K) → IsOrdered t → entries (del t q) ≡ erase q (entries t)
  unfolding del
  entries-del null q s = refl
  entries-del (node d w l k v r) q s = entries-remove (node d w l k v r) q s

  -- On a tree whose entries are in the order of their keys, `set` puts the entry in its place or replaces
  -- its value, `del` takes it out, `get` finds it, as on the list of the entries, and the order is kept.
  pub set-del-get :
      (t : Tree K V) (q : K) (x : V)
      → IsOrdered t
      → (entries (set t q x) ≡ put q x (entries t))
        × (entries (del t q) ≡ erase q (entries t))
        × (get t q ≡ find q (entries t))
        × IsOrdered (set t q x)
        × IsOrdered (del t q)
  unfolding get
  set-del-get t q x s = (
    entries-set t q x s,
    entries-del t q s,
    search-find t q s,
    rw (entries-set t q x s) (put-IsSorted q x (entries t) s),
    rw (entries-del t q s) (erase-IsSorted q (entries t) s),
  )

  unfoldable pub run : List (Call K V) → Tree K V → Tree K V
  unfolding set del
  run [] t = t
  run (set_call q x ∷ cs) t = run cs (set t q x)
  run (del_call q ∷ cs) t = run cs (del t q)

  -- The same calls, on a list in the order of the keys.
  unfoldable pub replay : List (Call K V) → List (K × V) → List (K × V)
  replay [] xs = xs
  replay (set_call q x ∷ cs) xs = replay cs (put q x xs)
  replay (del_call q ∷ cs) xs = replay cs (erase q xs)

  run-replay :
      (cs : List (Call K V)) (t : Tree K V)
      → IsOrdered t
      → (entries (run cs t) ≡ replay cs (entries t)) × IsOrdered (run cs t)
  unfolding run replay
  run-replay [] t s = (refl, s)
  run-replay (set_call q x ∷ cs) t s =
      let kept = set-del-get t q x s in
      let (same, ordered) = run-replay cs (set t q x) kept.3 in
      (same ∙ ap (replay cs) kept.0, ordered)
  run-replay (del_call q ∷ cs) t s =
      let (same, ordered) =
        run-replay cs (del t q) (rw (entries-del t q s) (erase-IsSorted q (entries t) s)) in
      (same ∙ ap (replay cs) (entries-del t q s), ordered)

  -- From the empty tree, after any sequence of calls of `set` and `del` by one thread, the entries are in
  -- the order of their keys and those of the same calls on a list, and `get` finds a key as in that list.
  pub entries-run :
      (cs : List (Call K V)) (q : K)
      → (entries (run cs null) ≡ replay cs [])
        × IsOrdered (run cs null)
        × (get (run cs null) q ≡ find q (replay cs []))
  unfolding get
  entries-run cs q =
      let (same, ordered) = run-replay cs null tt in
      (same, ordered, search-find (run cs null) q ordered ∙ ap (find q) same)

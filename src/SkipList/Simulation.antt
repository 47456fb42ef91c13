-- ===== src/SkipList/Simulation.antt =====
-- src/dsa/skiplist.hpp: each call on a list does what it does on the set of its keys.
use mathlib.Core.Path.{subst}
use vector_db.Prelude.{
  ℕ, suc, ◌≡◌, sym, ap, ◌∙◌, Bool, true, false, ◌||◌, Bool-cases, inl, inr, none, some, List, [],
  ◌∷◌, ◌++◌, arith, replicate, length, get_elem?-set_other, All, All-right, get_elem?,
}
use vector_db.Prelude.Order.{Ord}
use vector_db.Prelude.Outcome.{dangling}
use vector_db.SkipList.{SkipList, key_lt, key_eq, random_level, add, remove, unlink_victim}
use vector_db.SkipList.Cells.{Cell, node_of, first, last}
use vector_db.SkipList.Find.{
  IsBelow, IsAbove, IsList, node_before, split-key, contains-IsList, at-last, head_cell, IsInner,
}
use vector_db.SkipList.Changes.{
  marked_list, link_new-one, link_new-tall, unlink_victim-one, unlink_victim-tall, add_loop-present,
  add_loop-absent, remove_loop-absent, remove_loop-present,
}
use vector_db.SkipList.Valid.{linked-IsList, unlinked-IsList, at_marked, at_left, place-ne-tail}
use vector_db.SkipList.Places.{key_eq-gt, eq_of_key_eq}
use vector_db.SkipList.Members.{has, has-insert, after-place, key-at_place, others-of_cell}
use vector_db.SkipList.Specification.{
  Call, add_key, remove_key, contains_key, random_level-cases, update, set_call, call, Agrees,
  Simulates, both, faults,
}

or-false-left : (a b : Bool) → (a || b) ≡ false → a ≡ false
or-false-left a b h = ground arith

module _ {ℓ κ} {K : Type ℓ} ⦃o : Ord K⦄ {V : Type κ} (least greatest : K) (nothing : V)
    (max : (k : K) → key_lt greatest k ≡ false) where
  module _ (fuel : ℕ) {l : SkipList K V} (ys zs : List (Cell K V))
      (h : IsList least greatest nothing l (ys ++ zs)) (members : K → Bool)
      (agrees : Agrees greatest (ys ++ zs) members) (k : K) (below : All (IsBelow k) ys)
      (above : IsAbove k zs) where
    member-place : members k ≡ key_eq (node_before least greatest nothing zs).key k
    member-place =
        agrees k ∙ sym (key-at_place least greatest nothing ys zs h k (max k) below above)

    add-Simulates :
        (flips : ℕ → Bool) (v : V)
        → Simulates least greatest nothing
            (add (suc fuel) flips k v l)
            (set_call greatest (add_key flips k v) members)
    unfolding add
    add-Simulates flips v =
        elim (Bool-cases (key_eq (node_before least greatest nothing zs).key k)) [
          | inl e ↦
              let same =
                add_loop-present least greatest nothing ys zs h k (max k) below above fuel
                  (random_level flips) v e in
              rw (member-place, e, same) (both false l (ys ++ zs) members h agrees)
          | inr e ↦
              let absent =
                add_loop-absent least greatest nothing ys zs h k (max k) below above fuel
                  (random_level flips) v e in
              let at_place = at-last least greatest nothing ys zs h in
              let spot = last (head_cell least greatest nothing) ys in
              let made : Cell K V = record {
                ptr = length l.nodes;
                key = k;
                value = v;
                upper = [];
              } in
              elim (random_level-cases flips) [
                | inl (one, low) ↦
                    let (up, small) =
                      after-place least greatest nothing ys zs h k (max k) below above e in
                    rw
                      (
                        member-place,
                        e,
                        one,
                        absent,
                        low,
                        link_new-one l spot (first zs 1) at_place k v (replicate 15 none)
                            (replicate 15 none) h.level,
                      )
                      (both true _ (ys ++ made ∷ zs) (update members k true)
                        (linked-IsList least greatest nothing ys zs h k v below up small)
                        (λ j. ground (arith, agrees j, has-insert j ys zs made)))
                | inr (t, more, tall) ↦
                    rw
                      (
                        member-place,
                        e,
                        more,
                        absent,
                        tall,
                        link_new-tall l spot (first zs 1) at_place t k v (replicate 14 none)
                            (some (first zs 1) ∷ replicate 15 none),
                      )
                      (faults dangling)
              ]
        ]

    remove-absent :
        key_eq (node_before least greatest nothing zs).key k ≡ false
        → Simulates least greatest nothing
            (remove (suc fuel) k l)
            (set_call {V = V} greatest (remove_key k) members)
    unfolding remove
    remove-absent e =
        let (up, small) = after-place least greatest nothing ys zs h k (max k) below above e in
        let absent =
          remove_loop-absent least greatest nothing ys zs h k (max k) below above fuel e in
        rw (key_eq-gt greatest k (o.flip_lt k greatest small), member-place, e, absent)
          (both false l (ys ++ zs) members h agrees)

  module _ (fuel : ℕ) {l : SkipList K V} (members : K → Bool) (k : K) (ys : List (Cell K V))
      (below : All (IsBelow k) ys) where
    -- The sentinel is marked, and `preds` is null above the lowest level.
    remove-tail :
        IsList least greatest nothing l (ys ++ [])
        → key_eq greatest k ≡ true
        → Simulates least greatest nothing
            (remove (suc fuel) k l)
            (set_call {V = V} greatest (remove_key k) members)
    unfolding remove
    remove-tail h e =
        let spot = last (head_cell least greatest nothing) ys in
        let marked = marked_list least greatest nothing ys [] h k (max k) below tt in
        let at_place : get_elem? marked.nodes spot.ptr ≡ some (some (node_of spot 1)) =
          get_elem?-set_other l.nodes 1 spot.ptr _
            (λ same. place-ne-tail least greatest nothing ys [] h (sym same))
          ∙ at-last least greatest nothing ys [] h in
        rw
          (
            e,
            remove_loop-present least greatest nothing ys [] h k (max k) below tt fuel e,
            unlink_victim-tall marked spot 1 at_place 14 (some 1) (replicate 14 none),
          )
          (faults dangling)

    remove-present :
        (zs : List (Cell K V)) (d : Cell K V)
        → IsList least greatest nothing l (ys ++ d ∷ zs)
        → Agrees greatest (ys ++ d ∷ zs) members
        → key_lt d.key k ≡ false
        → key_eq d.key k ≡ true
        → Simulates least greatest nothing
            (remove (suc fuel) k l)
            (set_call {V = V} greatest (remove_key k) members)
    unfolding remove
    remove-present zs d h agrees above e =
        let spot = last (head_cell least greatest nothing) ys in
        let marked = marked_list least greatest nothing ys (d ∷ zs) h k (max k) below above in
        let others = others-of_cell least greatest nothing ys zs d h in
        let same = eq_of_key_eq d.key k e in
        let member : members k ≡ true = ground (arith, agrees k, has-insert k ys zs d) in
        let low = (All-right (IsInner least greatest nothing) ys (d ∷ zs) h.inner).0.1 in
        let present =
          remove_loop-present least greatest nothing ys (d ∷ zs) h k (max k) below above fuel e in
        let one =
          unlink_victim-one marked spot d.ptr (at_left least greatest nothing ys zs d h)
            (record (node_of d (first zs 1)) { marked = true }) (first zs 1) d.upper
            (replicate 15 none) (at_marked least greatest nothing ys zs d h) in
        let levels : unlink_victim (some d.ptr) (suc (length d.upper))
              (some spot.ptr ∷ replicate 15 none) marked
            ≡ unlink_victim (some d.ptr) 1 (some spot.ptr ∷ replicate 15 none) marked =
          ap
            (λ us.
              unlink_victim (some d.ptr) (suc (length us)) (some spot.ptr ∷ replicate 15 none)
                marked)
            low in
        rw
          (
            or-false-left (key_eq greatest k) (has k (ys ++ zs)) (others k e),
            member,
            present,
            levels ∙ one,
          )
          (both true _ (ys ++ zs) (update members k false)
            (unlinked-IsList least greatest nothing ys zs d h)
            (λ j. elim (Bool-cases (key_eq k j)) [
              | inl now ↦ rw (now, others j (ap (λ x. key_eq x j) same ∙ now))
              | inr then_ ↦
                  ground (arith, agrees j, has-insert j ys zs d, ap (λ x. key_eq x j) same)
            ]))

  pub contains-Simulates :
      (fuel : ℕ) {l : SkipList K V} (ys zs : List (Cell K V))
      (h : IsList least greatest nothing l (ys ++ zs)) (members : K → Bool)
      → Agrees greatest (ys ++ zs) members
      → (k : K) → All (IsBelow k) ys
      → IsAbove k zs
      → Simulates least greatest nothing
          (call fuel (contains_key k) l)
          (set_call {V = V} greatest (contains_key k) members)
  unfolding call
  contains-Simulates fuel ys zs h members agrees k below above =
      rw
        (
          member-place fuel ys zs h members agrees k below above,
          contains-IsList least greatest nothing ys zs h k (max k) below above,
        )
        (both _ _ (ys ++ zs) members h agrees)

  remove-Simulates :
      (fuel : ℕ) {l : SkipList K V} (ys zs : List (Cell K V))
      (h : IsList least greatest nothing l (ys ++ zs)) (members : K → Bool)
      → Agrees greatest (ys ++ zs) members
      → (k : K) → All (IsBelow k) ys
      → IsAbove k zs
      → Simulates least greatest nothing
          (remove (suc fuel) k l)
          (set_call {V = V} greatest (remove_key k) members)
  remove-Simulates fuel ys [] h members agrees k below above =
      elim (Bool-cases (key_eq greatest k)) [
        | inl e ↦ remove-tail fuel members k ys below h e
        | inr e ↦ remove-absent fuel ys [] h members agrees k below above e
      ]
  remove-Simulates fuel ys (d ∷ zs) h members agrees k below above =
      elim (Bool-cases (key_eq d.key k)) [
        | inl e ↦ remove-present fuel members k ys below zs d h agrees above e
        | inr e ↦ remove-absent fuel ys (d ∷ zs) h members agrees k below above e
      ]

  pub call-Simulates :
      (fuel : ℕ) (c : Call K V) {l : SkipList K V} (xs : List (Cell K V)) (members : K → Bool)
      → IsList least greatest nothing l xs
      → Agrees greatest xs members
      → Simulates least greatest nothing (call (suc fuel) c l) (set_call greatest c members)
  unfolding call
  call-Simulates fuel (add_key flips k v) {l} xs members h agrees =
      let (ys, zs, same, below, above) = split-key k xs in
      add-Simulates fuel ys zs (subst (IsList least greatest nothing l) same h) members
        (subst (λ cs. Agrees greatest cs members) same agrees) k below above flips v
  call-Simulates fuel (remove_key k) {l} xs members h agrees =
      let (ys, zs, same, below, above) = split-key k xs in
      remove-Simulates fuel ys zs (subst (IsList least greatest nothing l) same h) members
        (subst (λ cs. Agrees greatest cs members) same agrees) k below above
  call-Simulates fuel (contains_key k) {l} xs members h agrees =
      let (ys, zs, same, below, above) = split-key k xs in
      contains-Simulates (suc fuel) ys zs (subst (IsList least greatest nothing l) same h) members
        (subst (λ cs. Agrees greatest cs members) same agrees) k below above

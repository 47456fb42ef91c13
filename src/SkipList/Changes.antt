-- ===== src/SkipList/Changes.antt =====
-- src/dsa/skiplist.hpp: what `add` and `remove` do to a list whose nodes have one level.
use vector_db.Prelude.{
  ℕ, suc, ◌≡◌, refl, true, false, none, some, List, [], ◌∷◌, ◌++◌, All, arith, length, get_elem?,
  set, replicate, ltb, ◌==◌, get_elem?-append_left,
}
use vector_db.Prelude.Order.{Ord}
use vector_db.Prelude.Outcome.{ret, fault, dangling, ◌>>=◌}
use vector_db.SkipList.{
  Node, SkipList, Pointer, key_lt, key_eq, find, link_new, unlink_victim, add_loop, remove_loop,
  no_pointers,
}
use vector_db.SkipList.Cells.{Cell, node_of, first, last}
use vector_db.SkipList.Find.{
  IsBelow, IsAbove, IsList, head_cell, node_before, at-node_before, find-IsList,
  unmarked-node_before,
}

module _ {ℓ κ} {K : Type ℓ} {V : Type κ} (l : SkipList K V) (c : Cell K V) (q : ℕ) where
  -- The list with a new node after the cell.
  abbrev pub linked : K → V → SkipList K V
  linked k v = record l {
    nodes =
        set
          (l.nodes ++ some (record { key = k; value = v; next = some q ∷ []; marked = false }) ∷ [])
          c.ptr (some (node_of c (length l.nodes)));
  }

  -- The list without the node after the cell.
  abbrev pub unlinked : ℕ → SkipList K V
  unlinked r = record l { nodes = set (set l.nodes c.ptr (some (node_of c r))) q none }

module _ {ℓ κ} {K : Type ℓ} ⦃o : Ord K⦄ {V : Type κ} (l : SkipList K V) (c : Cell K V) (q : ℕ)
    (at_cell : get_elem? l.nodes c.ptr ≡ some (some (node_of c q))) where
  pub link_new-tall :
      (t : ℕ) (k : K) (v : V) (ps succs : List Pointer)
      → link_new (suc (suc t)) k v (some c.ptr ∷ none ∷ ps) succs l ≡ fault dangling
  unfolding link_new
  link_new-tall t k v ps succs =
      rw (get_elem?-append_left l.nodes _ c.ptr at_cell, link_new, ◌>>=◌) refl

  pub link_new-one :
      (k : K) (v : V) (ps qs : List Pointer)
      → l.current_level ≡ 1
      → link_new 1 k v (some c.ptr ∷ ps) (some q ∷ qs) l ≡ ret (true, linked l c q k v)
  unfolding link_new
  link_new-one k v ps qs level =
      let same : (q == q) ≡ true = ground arith in
      let low : ltb l.current_level 1 ≡ false = ground arith in
      let made : Node K V = record { key = k; value = v; next = some q ∷ []; marked = false } in
      let held = get_elem?-append_left l.nodes (some made ∷ []) c.ptr at_cell in
      rw (held, link_new, ◌>>=◌, same, ◌>>=◌, held, ◌>>=◌, low)

  pub unlink_victim-tall :
      (t : ℕ) (victim : Pointer) (ps : List Pointer)
      → unlink_victim victim (suc (suc t)) (some c.ptr ∷ none ∷ ps) l ≡ fault dangling
  unfolding unlink_victim
  unlink_victim-tall t victim ps = rw (at_cell, unlink_victim, ◌>>=◌) refl

  pub unlink_victim-one :
      (d : Node K V) (r : ℕ) (us ps : List Pointer)
      → get_elem? l.nodes q ≡ some (some (record d { next = some r ∷ us }))
      → unlink_victim (some q) 1 (some c.ptr ∷ ps) l ≡ ret (true, unlinked l c q r)
  unfolding unlink_victim
  unlink_victim-one d r us ps at_victim =
      let same : (q == q) ≡ true = ground arith in
      rw (at_cell, unlink_victim, ◌>>=◌, same, ◌>>=◌, at_victim, ◌>>=◌, at_cell, ◌>>=◌)

module _ {ℓ κ} {K : Type ℓ} ⦃o : Ord K⦄ {V : Type κ} (least greatest : K) (nothing : V)
    {l : SkipList K V} (ys zs : List (Cell K V)) (h : IsList least greatest nothing l (ys ++ zs))
    (k : K) (max : key_lt greatest k ≡ false) (below : All (IsBelow k) ys)
    (above : IsAbove k zs) where
  -- The last node before the place.
  abbrev pub place : Cell K V
  place = last (head_cell least greatest nothing) ys

  abbrev pub preds : List Pointer
  preds = some place.ptr ∷ replicate 15 none

  abbrev pub succs : List Pointer
  succs = some (first zs 1) ∷ replicate 15 none

  found : find l k no_pointers no_pointers ≡ ret (preds, succs)
  found = find-IsList least greatest nothing ys zs h k max below above no_pointers no_pointers

  pub add_loop-present :
      (fuel top_level : ℕ) (v : V)
      → key_eq (node_before least greatest nothing zs).key k ≡ true
      → add_loop (suc fuel) top_level k v no_pointers no_pointers l ≡ ret (false, l)
  unfolding add_loop
  add_loop-present fuel top_level v same = rw (
    found,
    add_loop,
    ◌>>=◌,
    at-node_before least greatest nothing ys zs h,
    ◌>>=◌,
    same,
    unmarked-node_before least greatest nothing zs,
  )

  pub add_loop-absent :
      (fuel top_level : ℕ) (v : V)
      → key_eq (node_before least greatest nothing zs).key k ≡ false
      → add_loop (suc fuel) top_level k v no_pointers no_pointers l ≡ (
          link_new top_level k v preds succs l >>= λ s. elim s.0 [
            | true ↦ ret (true, s.1)
            | false ↦ add_loop fuel top_level k v preds succs s.1
          ])
  unfolding add_loop
  add_loop-absent fuel top_level v other =
      rw (found, add_loop, ◌>>=◌, at-node_before least greatest nothing ys zs h, ◌>>=◌, other)

  pub remove_loop-absent :
      (fuel : ℕ)
      → key_eq (node_before least greatest nothing zs).key k ≡ false
      → remove_loop (suc fuel) false k no_pointers no_pointers l ≡ ret (false, l)
  unfolding remove_loop
  remove_loop-absent fuel other =
      rw (found, remove_loop, ◌>>=◌, at-node_before least greatest nothing ys zs h, ◌>>=◌, other)

  abbrev pub marked_list : SkipList K V
  marked_list = record l {
    nodes =
        set l.nodes (first zs 1)
          (some (record (node_before least greatest nothing zs) { marked = true }));
  }

  pub remove_loop-present :
      (fuel : ℕ)
      → key_eq (node_before least greatest nothing zs).key k ≡ true
      → remove_loop (suc fuel) false k no_pointers no_pointers l ≡ (
          unlink_victim
            (some (first zs 1))
            (length (node_before least greatest nothing zs).next)
            preds
            marked_list
          >>= λ s. elim s.0 [
            | true ↦ ret (true, s.1)
            | false ↦ remove_loop fuel true k preds succs s.1
          ])
  unfolding remove_loop
  remove_loop-present fuel same = rw (
    found,
    remove_loop,
    ◌>>=◌,
    at-node_before least greatest nothing ys zs h,
    ◌>>=◌,
    same,
    unmarked-node_before least greatest nothing zs,
  )

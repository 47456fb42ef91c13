-- ===== src/SkipList/Find.antt =====
-- src/dsa/skiplist.hpp: what `find` and `contains` see in a list whose nodes have one level.
use Prim.Native.Nat.Ordering.{lt}
use mathlib.Core.Bool.{and-true}
use vector_db.Prelude.{
  ℕ, zero, suc, ◌<◌, ◌≤◌, ◌≡◌, refl, ap, ◌∙◌, true, false, Bool-cases, inl, inr, none, some, List,
  [], ◌∷◌, ◌++◌, All, Pairwise, arith, length, length-append, get_elem?, set, replicate,
}
use vector_db.Prelude.Order.{Ord}
use vector_db.Prelude.Outcome.{ret, ◌>>=◌}
use vector_db.SkipList.{
  Node, SkipList, Pointer, follow, at, is_present, key_lt, key_eq, search_level, find_levels, find,
  walk, walk_levels, contains,
}
use vector_db.SkipList.Cells.{
  Cell, node_of, first, last, Chain, IsApart, Chain-split, Chain-last, first-append,
}

module _ {ℓ κ} {K : Type ℓ} ⦃o : Ord K⦄ {V : Type κ} where
  abbrev pub IsBelow : K → Cell K V → Type 0
  IsBelow k c = key_lt c.key k ≡ true

  -- The key of the first cell is not below `k`.
  abbrev pub IsAbove : K → List (Cell K V) → Type 0
  IsAbove k [] = Unit
  IsAbove k (c ∷ cs) = key_lt c.key k ≡ false

  pub split-key :
      (k : K) (xs : List (Cell K V))
      → (ys : List (Cell K V)) × (zs : List (Cell K V)) × (xs ≡ ys ++ zs)
        × All (IsBelow k) ys
        × IsAbove k zs
  split-key k [] = ([], [], refl, tt, tt)
  split-key k (x ∷ xs) = elim (Bool-cases (key_lt x.key k)) [
    | inl e ↦
        let (ys, zs, same, below, above) = split-key k xs in
        (x ∷ ys, zs, ap (λ cs. x ∷ cs) same, (e, below), above)
    | inr e ↦ ([], x ∷ xs, refl, tt, e)
  ]

  search_level-below :
      (l : SkipList K V) (k : K) (fuel : ℕ) (c : Cell K V) (ys : List (Cell K V)) (q : ℕ)
      (n : Node K V)
      → Chain l.nodes ys q
      → get_elem? l.nodes q ≡ some (some n)
      → n.marked ≡ false
      → key_lt n.key k ≡ false
      → All (IsBelow k) ys
      → length ys < fuel
      → search_level l k 0 fuel (some c.ptr) (some (first ys q))
        ≡ ret (some (last c ys).ptr, some q)
  unfolding search_level
  search_level-below l k zero c ys q n chain at unmarked above below enough = absurd (omega arith)
  search_level-below l k (suc fuel) c [] q n chain at unmarked above below enough =
      rw (at, search_level, unmarked, above) refl
  search_level-below l k (suc fuel) c (d ∷ ys) q n (e, chain) at unmarked above (lower, below)
        enough =
      rw (e, search_level, ◌>>=◌, lower)
        (search_level-below l k fuel d ys q n chain at unmarked above below (omega arith))

  walk-below :
      (l : SkipList K V) (k : K) (fuel : ℕ) (c : Cell K V) (ys : List (Cell K V)) (q : ℕ)
      (n : Node K V)
      → Chain l.nodes (c ∷ ys) q
      → get_elem? l.nodes q ≡ some (some n)
      → key_lt n.key k ≡ false
      → All (IsBelow k) ys
      → length ys < fuel
      → walk l k 0 fuel (some c.ptr) ≡ ret (some (last c ys).ptr)
  unfolding walk
  walk-below l k zero c ys q n chain at above below enough = absurd (omega arith)
  walk-below l k (suc fuel) c [] q n (e, chain) at above below enough =
      rw (e, walk, at, ◌>>=◌, above) refl
  walk-below l k (suc fuel) c (d ∷ ys) q n (e, (e', chain)) at above (lower, below) enough =
      rw (e, walk, e', ◌>>=◌, lower)
        (walk-below l k fuel d ys q n (e', chain) at above below (omega arith))

  module _ (least greatest : K) (nothing : V) where
    abbrev pub head_cell : Cell K V
    head_cell = record { ptr = 0; key = least; value = nothing; upper = replicate 15 (some 1) }

    abbrev pub tail_node : Node K V
    tail_node = record { key = greatest; value = nothing; next = replicate 16 none; marked = false }

    -- The node at the beginning of the rest of a list.
    abbrev pub node_before : List (Cell K V) → Node K V
    node_before [] = tail_node
    node_before (c ∷ cs) = node_of c (first cs 1)

    abbrev pub IsInner : Cell K V → Type 0
    IsInner c = (2 ≤ c.ptr) × (c.upper ≡ []) × (o.three_way c.key greatest ≡ lt)

    abbrev pub IsBefore : Cell K V → Cell K V → Type 0
    IsBefore c d = IsApart c d × (o.three_way c.key d.key ≡ lt)

    -- A list with the cells `xs` between its sentinels.
    pub record IsList (l : SkipList K V) (xs : List (Cell K V)) : Type (ℓ ⊔ κ) where
      pub level : l.current_level ≡ 1
      pub chain : Chain l.nodes (head_cell ∷ xs) 1
      pub tail_at : get_elem? l.nodes 1 ≡ some (some tail_node)
      pub inner : All IsInner xs
      pub ordered : Pairwise IsBefore xs
      pub room : length xs < length l.nodes

    pub unmarked-node_before : (cs : List (Cell K V)) → (node_before cs).marked ≡ false
    unmarked-node_before [] = refl
    unmarked-node_before (c ∷ cs) = refl

    module _ {l : SkipList K V} (ys zs : List (Cell K V)) (h : IsList l (ys ++ zs)) where
      -- The node after the cells `ys`.
      pub at-node_before : get_elem? l.nodes (first zs 1) ≡ some (some (node_before zs))
      at-node_before = at_rest zs (Chain-split l.nodes (head_cell ∷ ys) zs 1 h.chain).1
        where
          at_rest :
              (cs : List (Cell K V))
              → Chain l.nodes cs 1
              → get_elem? l.nodes (first cs 1) ≡ some (some (node_before cs))
          at_rest [] _ = h.tail_at
          at_rest (c ∷ cs) (e, _) = e

      pub chain_before : Chain l.nodes (head_cell ∷ ys) (first zs 1)
      chain_before = (Chain-split l.nodes (head_cell ∷ ys) zs 1 h.chain).0

      pub at-last :
          get_elem? l.nodes (last head_cell ys).ptr
          ≡ some (some (node_of (last head_cell ys) (first zs 1)))
      at-last = Chain-last l.nodes head_cell ys (first zs 1) chain_before

      module _ (k : K) (max : key_lt greatest k ≡ false) (below : All (IsBelow k) ys)
          (above : IsAbove k zs) where
        key-node_before : key_lt (node_before zs).key k ≡ false
        key-node_before = of_rest zs above
          where
            of_rest : (cs : List (Cell K V)) → IsAbove k cs → key_lt (node_before cs).key k ≡ false
            of_rest [] _ = max
            of_rest (c ∷ cs) e = e

        short : length ys < suc (length l.nodes)
        short = omega (arith, h.room, length-append ys zs)

        find-level :
            (preds succs : List Pointer)
            → find_levels l k 1 (some 0) preds succs
              ≡ ret (set preds 0 (some (last head_cell ys).ptr), set succs 0 (some (first zs 1)))
        unfolding find_levels
        find-level preds succs =
            rw
              (
                h.chain.0,
                find_levels,
                ◌>>=◌,
                first-append ys zs 1,
                search_level-below l k (suc (length l.nodes)) head_cell ys (first zs 1)
                    (node_before zs) chain_before.1 at-node_before (unmarked-node_before zs)
                    key-node_before below short,
              )
              refl

        -- `find` sets the lowest level: the last cell below the key, and what follows it.
        pub find-IsList :
            (preds succs : List Pointer)
            → find l k preds succs
              ≡ ret (set preds 0 (some (last head_cell ys).ptr), set succs 0 (some (first zs 1)))
        unfolding find
        find-IsList preds succs =
            ap (λ levels. find_levels l k levels (some 0) preds succs) h.level
            ∙ find-level preds succs

        walk-level : walk_levels l k 1 (some 0) ≡ ret (some (last head_cell ys).ptr)
        unfolding walk_levels
        walk-level =
            rw
              (walk-below l k (suc (length l.nodes)) head_cell ys (first zs 1) (node_before zs)
                chain_before at-node_before key-node_before below short)
              refl

        -- `contains` compares the key with the one that follows the cells below it.
        pub contains-IsList : contains l k ≡ ret (key_eq (node_before zs).key k)
        unfolding contains
        contains-IsList =
            ap
              (λ levels. walk_levels l k levels (some 0) >>= λ curr.
                follow l curr >>= λ n. at n.next 0 >>= λ next. is_present l k next)
              h.level
            ∙ rw (walk-level, ◌>>=◌, at-last, ◌>>=◌, at-node_before, ◌>>=◌, unmarked-node_before zs)
                (ap ret (and-true _))

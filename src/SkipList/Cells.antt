-- ===== src/SkipList/Cells.antt =====
-- src/dsa/skiplist.hpp: the nodes of the lowest level as a list of cells.
use vector_db.Prelude.{
  ℕ, ◌≡◌, ◌≢◌, refl, sym, ◌∙◌, false, Option, some, List, [], ◌∷◌, ◌++◌, All, Pairwise, get_elem?,
  set, get_elem?-set_self, get_elem?-set_other, get_elem?-append_left,
}
use vector_db.SkipList.{Node, Pointer}

-- A node that is not marked, but for the pointer on its lowest level.
pub record Cell {ℓ κ} (K : Type ℓ) (V : Type κ) : Type (ℓ ⊔ κ) where
  pub ptr : ℕ
  pub key : K
  pub value : V
  pub upper : List Pointer

module _ {ℓ κ} {K : Type ℓ} {V : Type κ} where
  -- The node of a cell that `q` follows.
  abbrev pub node_of : Cell K V → ℕ → Node K V
  node_of c q = record { key = c.key; value = c.value; next = some q ∷ c.upper; marked = false }

  abbrev pub first : List (Cell K V) → ℕ → ℕ
  first [] q = q
  first (c ∷ cs) q = c.ptr

  abbrev pub last : Cell K V → List (Cell K V) → Cell K V
  last c [] = c
  last c (d ∷ cs) = last d cs

  -- The nodes of the cells are linked in their order, and the last one leads to `q`.
  abbrev pub Chain : List (Option (Node K V)) → List (Cell K V) → ℕ → Type (ℓ ⊔ κ)
  Chain nodes [] q = Unit
  Chain nodes (c ∷ cs) q =
      (get_elem? nodes c.ptr ≡ some (some (node_of c (first cs q)))) × Chain nodes cs q

  abbrev pub IsApart : Cell K V → Cell K V → Type 0
  IsApart c d = c.ptr ≢ d.ptr

  pub first-append : (ys zs : List (Cell K V)) (q : ℕ) → first (ys ++ zs) q ≡ first ys (first zs q)
  first-append [] zs q = refl
  first-append (y ∷ ys) zs q = refl

  pub Chain-split :
      (nodes : List (Option (Node K V))) (ys zs : List (Cell K V)) (q : ℕ)
      → Chain nodes (ys ++ zs) q
      → Chain nodes ys (first zs q) × Chain nodes zs q
  Chain-split nodes [] zs q h = (tt, h)
  Chain-split nodes (y ∷ ys) zs q (e, h) =
      let (a, b) = Chain-split nodes ys zs q h in ((rw (first-append ys zs q) at e, a), b)

  pub Chain-join :
      (nodes : List (Option (Node K V))) (ys zs : List (Cell K V)) (q : ℕ)
      → Chain nodes ys (first zs q)
      → Chain nodes zs q
      → Chain nodes (ys ++ zs) q
  Chain-join nodes [] zs q h k = k
  Chain-join nodes (y ∷ ys) zs q (e, h) k =
      (rw (first-append ys zs q) e, Chain-join nodes ys zs q h k)

  pub Chain-last :
      (nodes : List (Option (Node K V))) (c : Cell K V) (ys : List (Cell K V)) (q : ℕ)
      → Chain nodes (c ∷ ys) q
      → get_elem? nodes (last c ys).ptr ≡ some (some (node_of (last c ys) q))
  Chain-last nodes c [] q (e, h) = e
  Chain-last nodes c (d ∷ ys) q (e, h) = Chain-last nodes d ys q h

  pub Chain-set_other :
      (nodes : List (Option (Node K V))) (p : ℕ) (n : Option (Node K V)) (cs : List (Cell K V))
      (q : ℕ)
      → All (λ (c : Cell K V). p ≢ c.ptr) cs
      → Chain nodes cs q
      → Chain (set nodes p n) cs q
  Chain-set_other nodes p n [] q apart h = tt
  Chain-set_other nodes p n (c ∷ cs) q (ne, apart) (e, h) =
      (get_elem?-set_other nodes p c.ptr n ne ∙ e, Chain-set_other nodes p n cs q apart h)

  pub Chain-append :
      (nodes more : List (Option (Node K V))) (cs : List (Cell K V)) (q : ℕ)
      → Chain nodes cs q
      → Chain (nodes ++ more) cs q
  Chain-append nodes more [] q h = tt
  Chain-append nodes more (c ∷ cs) q (e, h) =
      (get_elem?-append_left nodes more c.ptr e, Chain-append nodes more cs q h)

  pub All-last {μ} :
      (P : Cell K V → Type μ) (c : Cell K V) (ys : List (Cell K V)) → All P (c ∷ ys) → P (last c ys)
  All-last P c [] (h, _) = h
  All-last P c (d ∷ ys) (_, h) = All-last P d ys h

  -- A write of the last cell's pointer moves the end of the chain.
  pub Chain-retarget :
      (nodes : List (Option (Node K V))) (c : Cell K V) (ys : List (Cell K V)) (q r : ℕ)
      → Pairwise IsApart (c ∷ ys)
      → Chain nodes (c ∷ ys) q
      → Chain (set nodes (last c ys).ptr (some (node_of (last c ys) r))) (c ∷ ys) r
  Chain-retarget nodes c [] q r apart (e, h) = (get_elem?-set_self nodes c.ptr _ e, tt)
  Chain-retarget nodes c (d ∷ ys) q r (ne, apart) (e, h) = (
    get_elem?-set_other nodes (last d ys).ptr c.ptr _
          (λ same. All-last (λ x. c.ptr ≢ x.ptr) d ys ne (sym same))
        ∙ e,
    Chain-retarget nodes d ys q r apart h,
  )

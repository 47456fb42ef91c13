-- ===== src/SkipList/Valid.antt =====
-- src/dsa/skiplist.hpp: a node that is linked or unlinked leaves a list of the other nodes.
use Prim.Native.Nat.Ordering.{lt}
use vector_db.Prelude.{
  ◌<◌, ◌≡◌, ◌≢◌, refl, sym, ◌∙◌, true, Option, none, some, List, [], ◌∷◌, ◌++◌, All, All-left,
  All-right, All-weaken, All-both, All-omit, All-insert, Pairwise, Pairwise-cross, Pairwise-left,
  Pairwise-insert, Pairwise-omit, Pairwise-before, Pairwise-right, get_elem?-set_self, arith,
  length, length-append, get_elem?, set, get_elem?-set_other, get_elem?-append_left,
  get_elem?-length_append, length-set,
}
use vector_db.Prelude.Order.{Ord}
use vector_db.SkipList.{Node, SkipList}
use vector_db.SkipList.Cells.{
  Cell, node_of, first, last, Chain, IsApart, All-last, Chain-split, Chain-join, Chain-set_other,
  Chain-append, Chain-retarget,
}
use vector_db.SkipList.Find.{
  IsBelow, IsList, head_cell, IsInner, IsBefore, at-node_before, chain_before, at-last,
}
use vector_db.SkipList.Places
use vector_db.SkipList.Changes.{linked, unlinked}

module _ {ℓ κ} {K : Type ℓ} ⦃o : Ord K⦄ {V : Type κ} (least greatest : K) (nothing : V)
    {l : SkipList K V} (ys zs : List (Cell K V))
    (h : IsList least greatest nothing l (ys ++ zs)) where
  abbrev start : Cell K V
  start = head_cell least greatest nothing

  abbrev place : Cell K V
  place = last start ys

  place-apart : All (λ (c : Cell K V). place.ptr ≢ c.ptr) zs
  place-apart =
      All-last (λ c. All (IsApart c) zs) start ys
        (Pairwise-cross IsApart (start ∷ ys) zs (Places.all-IsApart least greatest nothing h))

  place-lt : place.ptr < length l.nodes
  place-lt =
      All-last (λ c. c.ptr < length l.nodes) start ys
        (All-left _ (start ∷ ys) zs (Places.all-lt least greatest nothing h))

  pub place-ne-tail : place.ptr ≢ 1
  place-ne-tail e =
      All-last (λ c. 1 ≢ c.ptr) start ys
        (All-left _ (start ∷ ys) zs (Places.not_tail least greatest nothing h)) (sym e)

  start-IsApart : Pairwise IsApart (start ∷ ys)
  start-IsApart =
      Pairwise-left IsApart (start ∷ ys) zs (Places.all-IsApart least greatest nothing h)

  module _ (k : K) (v : V) (below : All (IsBelow k) ys)
      (after : All (λ (c : Cell K V). o.three_way k c.key ≡ lt) zs)
      (small : o.three_way k greatest ≡ lt) where
    abbrev new_cell : Cell K V
    new_cell = record { ptr = length l.nodes; key = k; value = v; upper = [] }

    abbrev made : List (Option (Node K V))
    made = l.nodes ++ some (node_of new_cell (first zs 1)) ∷ []

    abbrev done : List (Option (Node K V))
    done = set made place.ptr (some (node_of place (length l.nodes)))

    chain_linked : Chain done (start ∷ ys ++ new_cell ∷ zs) 1
    chain_linked =
        Chain-join done (start ∷ ys) (new_cell ∷ zs) 1
          (Chain-retarget made start ys (first zs 1) (length l.nodes) start-IsApart (
            Chain-append l.nodes _ (start ∷ ys) (first zs 1)
              (chain_before least greatest nothing ys zs h)))
          (
            get_elem?-set_other made place.ptr (length l.nodes) _ (omega (arith, place-lt))
                ∙ get_elem?-length_append l.nodes [] (some (node_of new_cell (first zs 1))),
            Chain-set_other made place.ptr _ zs 1 place-apart
                (Chain-append l.nodes _ zs 1 (Chain-split l.nodes (start ∷ ys) zs 1 h.chain).1),
          )

    all_lt : All (λ (c : Cell K V). c.ptr < length l.nodes) (ys ++ zs)
    all_lt = (Places.all-lt least greatest nothing h).1

    IsBefore-new : All (λ c. IsBefore least greatest nothing c new_cell) ys
    IsBefore-new =
        All-both (λ c. c.ptr < length l.nodes) (IsBelow k) _ ys
          (λ c p b. ((λ e. absurd (omega arith)), Places.three_way-of_key_lt c.key k b))
          (All-left _ ys zs all_lt) below

    new-IsBefore : All (IsBefore least greatest nothing new_cell) zs
    new-IsBefore =
        All-both (λ c. c.ptr < length l.nodes) (λ c. o.three_way k c.key ≡ lt) _ zs
          (λ c p b. ((λ e. absurd (omega arith)), b)) (All-right _ ys zs all_lt) after

    pub linked-IsList :
        IsList least greatest nothing (linked l place (first zs 1) k v) (ys ++ new_cell ∷ zs)
    linked-IsList = record {
      level = h.level;
      chain = chain_linked;
      tail_at =
          get_elem?-set_other made place.ptr 1 _ place-ne-tail
          ∙ get_elem?-append_left l.nodes _ 1 h.tail_at;
      inner =
          All-insert (IsInner least greatest nothing) ys zs new_cell h.inner
            (Places.two-le least greatest nothing h, refl, small);
      ordered =
          Pairwise-insert (IsBefore least greatest nothing) ys zs new_cell h.ordered IsBefore-new
            new-IsBefore;
      room = omega (
        arith,
        h.room,
        length-append ys zs,
        length-append ys (new_cell ∷ zs),
        length-append l.nodes (some (node_of new_cell (first zs 1)) ∷ []),
        length-set made place.ptr (some (node_of place (length l.nodes))),
      );
    }

module _ {ℓ κ} {K : Type ℓ} ⦃o : Ord K⦄ {V : Type κ} (least greatest : K) (nothing : V)
    {l : SkipList K V} (ys zs : List (Cell K V)) (d : Cell K V)
    (h : IsList least greatest nothing l (ys ++ d ∷ zs)) where
  -- The list whose node of `d` is marked.
  abbrev pub with_mark : SkipList K V
  with_mark = record l {
    nodes = set l.nodes d.ptr (some (record (node_of d (first zs 1)) { marked = true }));
  }

  abbrev left : Cell K V
  left = last (head_cell least greatest nothing) ys

  d-IsInner : IsInner least greatest nothing d
  d-IsInner = (All-right (IsInner least greatest nothing) ys (d ∷ zs) h.inner).0

  d-after : All (λ (c : Cell K V). c.ptr ≢ d.ptr) (head_cell least greatest nothing ∷ ys)
  d-after =
      Pairwise-before IsApart (head_cell least greatest nothing ∷ ys) zs d
        (Places.all-IsApart least greatest nothing h)

  d-before : All (λ (c : Cell K V). d.ptr ≢ c.ptr) zs
  d-before =
      (Pairwise-right IsApart (head_cell least greatest nothing ∷ ys) (d ∷ zs)
        (Places.all-IsApart least greatest nothing h)).0

  left-ne : left.ptr ≢ d.ptr
  left-ne = (place-apart least greatest nothing ys (d ∷ zs) h).0

  -- The marked victim, and the node before it.
  pub at_marked :
      get_elem? with_mark.nodes d.ptr
      ≡ some (some (record (node_of d (first zs 1)) { marked = true }))
  at_marked =
      get_elem?-set_self l.nodes d.ptr _ (at-node_before least greatest nothing ys (d ∷ zs) h)

  pub at_left : get_elem? with_mark.nodes left.ptr ≡ some (some (node_of left d.ptr))
  at_left =
      get_elem?-set_other l.nodes d.ptr left.ptr _ (λ e. left-ne (sym e))
      ∙ at-last least greatest nothing ys (d ∷ zs) h

  d-apart : All (λ (c : Cell K V). d.ptr ≢ c.ptr) (head_cell least greatest nothing ∷ ys)
  d-apart =
      All-weaken (λ (c : Cell K V). c.ptr ≢ d.ptr) (λ c. d.ptr ≢ c.ptr)
        (head_cell least greatest nothing ∷ ys) (λ c ne e. ne (sym e)) d-after

  abbrev relinked : List (Option (Node K V))
  relinked = set with_mark.nodes left.ptr (some (node_of left (first zs 1)))

  chain_left : Chain (set relinked d.ptr none) (head_cell least greatest nothing ∷ ys) (first zs 1)
  chain_left =
      Chain-set_other relinked d.ptr none (head_cell least greatest nothing ∷ ys) (first zs 1)
        d-apart
        (Chain-retarget with_mark.nodes (head_cell least greatest nothing) ys d.ptr (first zs 1)
          (start-IsApart least greatest nothing ys (d ∷ zs) h)
          (Chain-set_other l.nodes d.ptr _ (head_cell least greatest nothing ∷ ys) d.ptr d-apart
            (chain_before least greatest nothing ys (d ∷ zs) h)))

  chain_right : Chain (set relinked d.ptr none) zs 1
  chain_right = Chain-set_other relinked d.ptr none zs 1 d-before (
      Chain-set_other with_mark.nodes left.ptr _ zs 1
        (place-apart least greatest nothing ys (d ∷ zs) h).1
        (Chain-set_other l.nodes d.ptr _ zs 1 d-before
          (Chain-split l.nodes (head_cell least greatest nothing ∷ ys) (d ∷ zs) 1 h.chain).1.1))

  pub unlinked-IsList :
      IsList least greatest nothing (unlinked with_mark left d.ptr (first zs 1)) (ys ++ zs)
  unlinked-IsList = record {
    level = h.level;
    chain = Chain-join _ (head_cell least greatest nothing ∷ ys) zs 1 chain_left chain_right;
    tail_at =
        get_elem?-set_other relinked d.ptr 1 none (omega (arith, d-IsInner.0))
        ∙ get_elem?-set_other with_mark.nodes left.ptr 1 _
            (place-ne-tail least greatest nothing ys (d ∷ zs) h)
        ∙ get_elem?-set_other l.nodes d.ptr 1 _ (omega (arith, d-IsInner.0))
        ∙ h.tail_at;
    inner = All-omit (IsInner least greatest nothing) ys zs d h.inner;
    ordered = Pairwise-omit (IsBefore least greatest nothing) ys zs d h.ordered;
    room = omega (
      arith,
      h.room,
      length-append ys zs,
      length-append ys (d ∷ zs),
      length-set relinked d.ptr none,
      length-set with_mark.nodes left.ptr (some (node_of left (first zs 1))),
      length-set l.nodes d.ptr (some (record (node_of d (first zs 1)) { marked = true })),
    );
  }

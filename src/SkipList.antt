-- ===== src/SkipList.antt =====
-- src/dsa/skiplist.hpp: `SkipList`, as one thread runs it. A pointer to a node is the number of its
-- creation, or `none` where it is null; a node that has been deleted is `none` in the list of the nodes. What
-- `dist(gen) < PROBABILITY` gives is an argument of `add`, for each number of levels at which it is asked.
pub mod Cells
pub mod Find
pub mod Places
pub mod Changes
pub mod Valid
pub mod Members
pub mod Specification
pub mod Simulation
pub mod Calls
mod Tests
use Prim.Native.Nat.Ordering.{lt, eq, gt}
use vector_db.Prelude.{
  ℕ, zero, suc, ◌+◌, Bool, true, false, ◌&&◌, not, Option, none, some, List, [], ◌∷◌, ◌++◌, ltb,
  ◌==◌, if◌then◌else◌, length, get_elem?, set, take, replicate,
}
use vector_db.Prelude.Order.{Ord}
use vector_db.Prelude.Outcome.{
  Outcome, ret, fault, relock, out_of_bounds, dangling, out_of_fuel, ◌>>=◌,
}

abbrev pub max_level : ℕ
max_level = 16

abbrev pub Pointer : Type 0
Pointer = Option ℕ

pub record Node {ℓ κ} (K : Type ℓ) (V : Type κ) : Type (ℓ ⊔ κ) where
  pub key : K
  pub value : V
  pub next : List Pointer
  pub marked : Bool

pub record SkipList {ℓ κ} (K : Type ℓ) (V : Type κ) : Type (ℓ ⊔ κ) where
  pub nodes : List (Option (Node K V))
  pub current_level : ℕ

-- The pointers to the sentinels, which the constructor makes first.
abbrev pub head : ℕ
head = 0

abbrev pub tail : ℕ
tail = 1

-- The loop of `randomLevel`, with the levels that `lvl` can still grow by.
unfoldable pub random_levels : (ℕ → Bool) → ℕ → ℕ → ℕ
random_levels flips zero lvl = lvl
random_levels flips (suc left) lvl =
    let more = random_levels flips left (lvl + 1) in if flips lvl then more else lvl

unfoldable pub random_level : (ℕ → Bool) → ℕ
random_level flips = random_levels flips 15 1

abbrev pub is_pointer : Pointer → Pointer → Bool
is_pointer none none = true
is_pointer none (some q) = false
is_pointer (some p) none = false
is_pointer (some p) (some q) = p == q

abbrev pub contains_pointer : ℕ → List ℕ → Bool
contains_pointer p [] = false
contains_pointer p (q ∷ qs) = if p == q then true else contains_pointer p qs

-- An element of a vector of pointers.
abbrev pub at : List Pointer → ℕ → Outcome Pointer
at [] i = fault out_of_bounds
at (p ∷ ps) zero = ret p
at (p ∷ ps) (suc i) = at ps i

abbrev pub no_pointers : List Pointer
no_pointers = replicate max_level none

module _ {ℓ κ} {K : Type ℓ} {V : Type κ} where
  abbrev pub alive : Option (Option (Node K V)) → Outcome (Node K V)
  alive none = fault dangling
  alive (some none) = fault dangling
  alive (some (some n)) = ret n

  abbrev pub follow : SkipList K V → Pointer → Outcome (Node K V)
  follow l none = fault dangling
  follow l (some p) = alive (get_elem? l.nodes p)

  abbrev pub store : SkipList K V → Pointer → Option (Node K V) → SkipList K V
  store l none n = l
  store l (some p) n = record l { nodes = set l.nodes p n }

  -- `predLocks[level] = std::unique_lock(preds[level]->node_lock)` for the pointers, from level 0 on, with
  -- those whose mutex is locked already.
  abbrev pub lock_all : SkipList K V → List ℕ → List Pointer → Outcome (Unit {0})
  lock_all l locked [] = ret tt
  lock_all l locked (none ∷ ps) = fault dangling
  lock_all l locked (some p ∷ ps) =
      let rest = lock_all l (p ∷ locked) ps in
      follow l (some p) >>= λ _. if contains_pointer p locked then fault relock else rest

  -- Whether `preds[level]->next[level]` is the expected pointer, for the levels from `level` on.
  abbrev pub are_linked : SkipList K V → ℕ → List Pointer → List Pointer → Outcome Bool
  are_linked l level [] expected = ret true
  are_linked l level (p ∷ ps) [] = fault out_of_bounds
  are_linked l level (p ∷ ps) (e ∷ es) =
      let rest = are_linked l (level + 1) ps es in
      follow l p >>= λ n. at n.next level >>= λ next. if is_pointer next e then rest else ret false

  -- `preds[level]->next[level].store(q)`
  abbrev pub set_next : SkipList K V → ℕ → Pointer → Pointer → Outcome (SkipList K V)
  set_next l level p q =
      follow l p >>= λ n. ret (store l p (some (record n { next = set n.next level q })))

  -- `preds[level]->next[level].store(newNode)`, for the levels from `level` on.
  abbrev pub link_levels : SkipList K V → ℕ → ℕ → List Pointer → Outcome (SkipList K V)
  link_levels l new level [] = ret l
  link_levels l new level (p ∷ ps) =
      set_next l level p (some new) >>= λ m. link_levels m new (level + 1) ps

  -- The loop of `remove` that takes the victim out, from the highest level down.
  abbrev pub unlink_levels : SkipList K V → Pointer → ℕ → List Pointer → Outcome (SkipList K V)
  unlink_levels l victim zero preds = ret l
  unlink_levels l victim (suc level) preds = follow l victim >>= λ v. at v.next level >>= λ q.
      at preds level >>= λ p. set_next l level p q >>= λ m. unlink_levels m victim level preds

-- `<` and `==` of the keys.
module _ {ℓ} {K : Type ℓ} ⦃o : Ord K⦄ where
  unfoldable pub key_lt : K → K → Bool
  key_lt x y = elim (o.three_way x y) [ lt ↦ true | eq ↦ false | gt ↦ false ]

  unfoldable pub key_eq : K → K → Bool
  key_eq x y = elim (o.three_way x y) [ lt ↦ false | eq ↦ true | gt ↦ false ]

module _ {ℓ κ} {K : Type ℓ} ⦃o : Ord K⦄ {V : Type κ} where
  -- The loop on one level in `find`: the last node before the key, and the node after it.
  unfoldable pub search_level :
      SkipList K V → K → ℕ → ℕ → Pointer → Pointer → Outcome (Pointer × Pointer)
  search_level l key level zero pred curr = fault out_of_fuel
  search_level l key level (suc fuel) pred curr = follow l curr >>= λ n. elim n.marked [
    | true ↦ at n.next level >>= λ next. search_level l key level fuel pred next
    | false ↦ elim (key_lt n.key key) [
      | true ↦ at n.next level >>= λ next. search_level l key level fuel curr next
      | false ↦ ret (pred, curr)
    ]
  ]

  -- The levels below `levels`, from the highest down.
  unfoldable pub find_levels :
      SkipList K V
      → K
      → ℕ
      → Pointer
      → List Pointer
      → List Pointer
      → Outcome (List Pointer × List Pointer)
  find_levels l key zero pred preds succs = ret (preds, succs)
  find_levels l key (suc level) pred preds succs = follow l pred >>= λ n.
      at n.next level >>= λ curr. search_level l key level (suc (length l.nodes)) pred curr >>= λ r.
      find_levels l key level r.0 (set preds level r.0) (set succs level r.1)

  unfoldable pub find :
      SkipList K V → K → List Pointer → List Pointer → Outcome (List Pointer × List Pointer)
  find l key preds succs = find_levels l key l.current_level (some head) preds succs

  -- The loop on one level in `contains`.
  unfoldable pub walk : SkipList K V → K → ℕ → ℕ → Pointer → Outcome Pointer
  walk l key level zero curr = fault out_of_fuel
  walk l key level (suc fuel) curr = follow l curr >>= λ n. at n.next level >>= λ next. elim next [
    | none ↦ ret curr
    | some p ↦ follow l (some p) >>= λ m. elim (key_lt m.key key) [
      | true ↦ walk l key level fuel (some p)
      | false ↦ ret curr
    ]
  ]

  unfoldable pub walk_levels : SkipList K V → K → ℕ → Pointer → Outcome Pointer
  walk_levels l key zero curr = ret curr
  walk_levels l key (suc level) curr =
      walk l key level (suc (length l.nodes)) curr >>= λ p. walk_levels l key level p

  -- `next && next->key == key && !next->marked`
  abbrev pub is_present : SkipList K V → K → Pointer → Outcome Bool
  is_present l key none = ret false
  is_present l key (some p) = follow l (some p) >>= λ n. ret (key_eq n.key key && not n.marked)

  unfoldable pub contains : SkipList K V → K → Outcome Bool
  contains l key = walk_levels l key l.current_level (some head) >>= λ curr.
      follow l curr >>= λ n. at n.next 0 >>= λ next. is_present l key next

  -- The node that `add` allocates, after the loop that stores its successors.
  abbrev pub new_node : ℕ → K → V → List Pointer → Node K V
  new_node top_level key value succs = record {
    key = key;
    value = value;
    next = take top_level succs;
    marked = false;
  }

  -- `while (topLevel > curLevel && !currentLevel.compare_exchange_weak(curLevel, topLevel)) {}`
  abbrev pub raise_level : SkipList K V → ℕ → SkipList K V
  raise_level l top_level =
      if ltb l.current_level top_level then record l { current_level = top_level } else l

  -- A round of `add` from the new node on: `false` where it does not validate, and deletes the node.
  unfoldable pub link_new :
      ℕ → K → V → List Pointer → List Pointer → SkipList K V → Outcome (Bool × SkipList K V)
  link_new top_level key value preds succs l =
      let new = length l.nodes in
      let made = record l { nodes = l.nodes ++ some (new_node top_level key value succs) ∷ [] } in
      lock_all made [] (take top_level preds) >>= λ _.
      are_linked made 0 (take top_level preds) succs >>= λ valid. elim valid [
        | false ↦ ret (false, store made (some new) none)
        | true ↦ link_levels made new 0 (take top_level preds) >>= λ linked.
            ret (true, raise_level linked top_level)
      ]

  -- The loop of `add`.
  unfoldable pub add_loop :
      ℕ → ℕ → K → V → List Pointer → List Pointer → SkipList K V → Outcome (Bool × SkipList K V)
  add_loop zero top_level key value preds succs l = fault out_of_fuel
  add_loop (suc fuel) top_level key value preds succs l = find l key preds succs >>= λ r.
      at r.1 0 >>= λ found. follow l found >>= λ f. elim (key_eq f.key key && not f.marked) [
        | true ↦ ret (false, l)
        | false ↦ link_new top_level key value r.0 r.1 l >>= λ s. elim s.0 [
          | true ↦ ret (true, s.1)
          | false ↦ add_loop fuel top_level key value r.0 r.1 s.1
        ]
      ]

  unfoldable pub add : ℕ → (ℕ → Bool) → K → V → SkipList K V → Outcome (Bool × SkipList K V)
  add fuel flips key value l =
      add_loop fuel (random_level flips) key value no_pointers no_pointers l

  -- `if (!isMarked) { ... }`: `none` where the victim was marked already.
  abbrev pub mark : Bool → SkipList K V → Pointer → Node K V → Option (SkipList K V)
  mark true l victim v = some l
  mark false l victim v =
      if v.marked then none else some (store l victim (some (record v { marked = true })))

  -- A round of `remove` from the locks on: `false` where it does not validate.
  unfoldable pub unlink_victim :
      Pointer → ℕ → List Pointer → SkipList K V → Outcome (Bool × SkipList K V)
  unlink_victim victim levels preds l = lock_all l [] (take levels preds) >>= λ _.
      are_linked l 0 (take levels preds) (replicate levels victim) >>= λ valid. elim valid [
        | false ↦ ret (false, l)
        | true ↦ unlink_levels l victim levels preds >>= λ unlinked.
            ret (true, store unlinked victim none)
      ]

  -- The loop of `remove`.
  unfoldable pub remove_loop :
      ℕ → Bool → K → List Pointer → List Pointer → SkipList K V → Outcome (Bool × SkipList K V)
  remove_loop zero is_marked key preds succs l = fault out_of_fuel
  remove_loop (suc fuel) is_marked key preds succs l = find l key preds succs >>= λ r.
      at r.1 0 >>= λ found. follow l found >>= λ v. elim (key_eq v.key key) [
        | false ↦ ret (false, l)
        | true ↦ elim (mark is_marked l found v) [
          | none ↦ ret (false, l)
          | some m ↦ unlink_victim found (length v.next) r.0 m >>= λ s. elim s.0 [
            | true ↦ ret (true, s.1)
            | false ↦ remove_loop fuel true key r.0 r.1 s.1
          ]
        ]
      ]

  unfoldable pub remove : ℕ → K → SkipList K V → Outcome (Bool × SkipList K V)
  remove fuel key l = remove_loop fuel false key no_pointers no_pointers l

module _ {ℓ κ} {K : Type ℓ} {V : Type κ} where
  -- The constructor, with `std::numeric_limits<Key>::min()` and `max()`, and `Value{}`.
  abbrev pub new : K → K → V → SkipList K V
  new least greatest value = record {
    nodes =
        some (record {
          key = least;
          value = value;
          next = replicate max_level (some tail);
          marked = false;
        })
        ∷ some (record {
          key = greatest;
          value = value;
          next = replicate max_level none;
          marked = false;
        })
        ∷ [];
    current_level = 1;
  }

  -- The loop of the destructor.
  unfoldable pub delete_from : ℕ → SkipList K V → Pointer → Outcome (SkipList K V)
  delete_from zero l p = fault out_of_fuel
  delete_from (suc fuel) l none = ret l
  delete_from (suc fuel) l (some p) =
      let rest = follow l (some p) >>= λ n.
      at n.next 0 >>= λ next. delete_from fuel (store l (some p) none) next in
      if p == tail then ret l else rest

  -- The destructor, up to the end of the sentinels.
  unfoldable pub destroy : SkipList K V → Outcome (SkipList K V)
  destroy l = follow l (some head) >>= λ n.
      at n.next 0 >>= λ first. delete_from (suc (length l.nodes)) l first

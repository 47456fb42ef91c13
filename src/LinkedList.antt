-- ===== src/LinkedList.antt =====
-- src/dsa/list.hpp: `ListNode` and `DoublyLinkedList`. A node is at an address, a number, and the nodes are a
-- function of their addresses. `list_mutex_` is a `std::shared_mutex`: a call says whether the calling thread
-- holds it already.
pub mod Writes
pub mod Leads
pub mod Ring
pub mod Linked
pub mod Cuts
pub mod Calls
mod Tests
use vector_db.Prelude.{
  ℕ, zero, suc, ◌≡◌, Bool, true, false, not, List, [], ◌∷◌, ◌==◌, if◌then◌else◌,
}
use vector_db.Prelude.Outcome.{Outcome, ret, fault, out_of_fuel, acquire, ◌>>=◌}

pub record ListNode {ℓ} (T : Type ℓ) : Type ℓ where
  pub value : T
  pub prev : ℕ
  pub next : ℕ

module _ {ℓ} {T : Type ℓ} where
  abbrev pub write : (ℕ → ListNode T) → ℕ → ListNode T → ℕ → ListNode T
  write nodes p n q = if q == p then n else nodes q

  abbrev pub set_prev : (ℕ → ListNode T) → ℕ → ℕ → ℕ → ListNode T
  set_prev nodes p q = write nodes p (record (nodes p) { prev = q })

  abbrev pub set_next : (ℕ → ListNode T) → ℕ → ℕ → ℕ → ListNode T
  set_next nodes p q = write nodes p (record (nodes p) { next = q })

  abbrev pub link_self : (ℕ → ListNode T) → ℕ → ℕ → ListNode T
  link_self nodes p = set_next (set_prev nodes p p) p p

  -- `ListNode(value)`
  abbrev pub new_node : T → ℕ → ListNode T
  new_node value p = record { value = value; prev = p; next = p }

  abbrev pub is_linked : (ℕ → ListNode T) → ℕ → Bool
  is_linked nodes p = not ((nodes p).next == p)

  unfoldable pub unlink : (ℕ → ListNode T) → ℕ → ℕ → ListNode T
  unlink nodes p =
      let first = set_next nodes (nodes p).prev (nodes p).next in
      let second = set_prev first (first p).next (first p).prev in link_self second p

  unfoldable pub insert_before : (ℕ → ListNode T) → ℕ → ℕ → ℕ → ListNode T
  insert_before nodes p node =
      let first = set_prev nodes node (nodes p).prev in
      let second = set_next first node p in
      let third = set_next second (second p).prev node in set_prev third p node

  unfoldable pub insert_after : (ℕ → ListNode T) → ℕ → ℕ → ℕ → ListNode T
  insert_after nodes p node =
      let first = set_prev nodes node p in
      let second = set_next first node (first p).next in
      let third = set_prev second (second p).next node in set_next third p node

  -- An iterator is the address of a node.
  abbrev pub dereference : (ℕ → ListNode T) → ℕ → T
  dereference nodes it = (nodes it).value

  abbrev pub increment : (ℕ → ListNode T) → ℕ → ℕ
  increment nodes it = (nodes it).next

  abbrev pub decrement : (ℕ → ListNode T) → ℕ → ℕ
  decrement nodes it = (nodes it).prev

  -- The iterator that is returned, and what the iterator becomes.
  abbrev pub post_increment : (ℕ → ListNode T) → ℕ → ℕ × ℕ
  post_increment nodes it = (it, increment nodes it)

  abbrev pub post_decrement : (ℕ → ListNode T) → ℕ → ℕ × ℕ
  post_decrement nodes it = (it, decrement nodes it)

  abbrev pub begin : Bool → (ℕ → ListNode T) → ℕ → Outcome ℕ
  begin held nodes head = acquire held (ret ((nodes head).next))

  abbrev pub end : Bool → (ℕ → ListNode T) → ℕ → Outcome ℕ
  end held nodes head = acquire held (ret head)

  abbrev pub empty : Bool → (ℕ → ListNode T) → ℕ → Outcome Bool
  empty held nodes head = acquire held (ret (not (is_linked nodes head)))

  abbrev pub push_front : Bool → (ℕ → ListNode T) → ℕ → ℕ → Outcome (ℕ → ListNode T)
  push_front held nodes head node = acquire held (ret (insert_after nodes head node))

  abbrev pub push_back : Bool → (ℕ → ListNode T) → ℕ → ℕ → Outcome (ℕ → ListNode T)
  push_back held nodes head node = acquire held (ret (insert_before nodes head node))

abbrev pub not_equal : ℕ → ℕ → Bool
not_equal it other = not (it == other)

-- A loop of a client from `it` to `last`, with the nodes that it visits.
unfoldable pub visit : (ℕ → ℕ) → ℕ → ℕ → ℕ → Outcome (List ℕ)
visit step zero last it = fault out_of_fuel
visit step (suc fuel) last it = elim (not_equal it last) [
  | false ↦ ret []
  | true ↦ visit step fuel last (step it) >>= λ rest. ret (it ∷ rest)
]

module _ {ℓ} {T : Type ℓ} (nodes : ℕ → ListNode T) (head fuel : ℕ) where
  -- A client's loop from `begin()` to `end()`, and the one from `end()` back.
  abbrev pub walk : Outcome (List ℕ)
  walk = begin false nodes head >>= λ it.
      end false nodes head >>= λ last. visit (increment nodes) fuel last it

  abbrev pub walk_back : Outcome (List ℕ)
  walk_back =
      end false nodes head >>= λ last. visit (decrement nodes) fuel last (decrement nodes last)

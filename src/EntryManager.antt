-- ===== src/EntryManager.antt =====
-- entry_manager.hpp: `EntryManager`. An entry is its number in the list of all entries that were created,
-- and its `heap_idx` is the cell of that number, which the heap's position references write. An entry stays
-- in the list when its last owner is gone. `now` is what `get_monotonic_usec` returns in the call.
pub mod Keys
pub mod Expiry
mod Tests
use vector_db.Prelude.{
  ℕ, zero, suc, ◌+◌, ◌-◌, ◌*◌, ◌/◌, ◌%◌, ◌^◌, ℤ, pos, negsuc, Bool, true, false, ◌&&◌, not, Option,
  none, some, List, [], ◌∷◌, ◌++◌, ltb, leb, ◌==◌, if◌then◌else◌, length, get_or, set,
}
use vector_db.Prelude.Outcome.{Outcome, ret, ◌>>=◌}
use vector_db.Bytes.{Bytes}
use vector_db.Hash.{string_key}
use vector_db.HashMap
use vector_db.HashMap.{HMap}
use vector_db.Heap
use vector_db.Heap.{BinaryHeap, HeapItem}

-- `static_cast<size_t>(-1)`
abbrev pub npos : ℕ
npos = 2 ^ 64 - 1

pub record Entry {κ} (V : Type κ) : Type κ where
  pub key : Bytes
  pub value : V

pub record EntryManager {κ} (V : Type κ) : Type κ where
  pub db : HMap Bytes ℕ
  pub heap : BinaryHeap
  pub entries : List (Entry V)

-- `(expire_at - now) / 1000`, of two `uint64_t`, and -1 unless it is positive.
abbrev pub remaining_time : ℕ → ℕ → ℤ
remaining_time expire_at now =
    let remaining = (expire_at + (2 ^ 64 - now % 2 ^ 64)) % 2 ^ 64 / 1000 in
    if ltb 0 remaining then pos remaining else negsuc 0

-- `ttl_ms`, unless `ttl_ms <= 0`
abbrev pub positive : ℤ → Option ℕ
positive (pos zero) = none
positive (pos (suc n)) = some (suc n)
positive (negsuc n) = none

module _ {κ} {V : Type κ} where
  abbrev pub new_manager : EntryManager V
  new_manager = record { db = HashMap.new; heap = record { items = []; cells = [] }; entries = [] }

  abbrev pub heap_idx : EntryManager V → ℕ → ℕ
  heap_idx m entry = get_or m.heap.cells entry npos

  abbrev pub key_of : List (Entry V) → ℕ → Bytes
  key_of [] entry = []
  key_of (e ∷ es) zero = e.key
  key_of (e ∷ es) (suc entry) = key_of es entry

  -- `entry.heap_idx = position`
  abbrev pub set_heap_idx : EntryManager V → ℕ → ℕ → EntryManager V
  set_heap_idx m entry position = record m {
    heap = record (m.heap) { cells = set m.heap.cells entry position };
  }

  unfoldable pub find_entry : EntryManager V → Bytes → Outcome (Option ℕ × EntryManager V)
  find_entry m key = HashMap.find m.db key >>= λ r. ret (r.0, record m { db = r.1 })

  unfoldable pub create_entry : EntryManager V → Bytes → V → Outcome (ℕ × EntryManager V)
  create_entry m key value = do
    let entry = length m.entries
    db ← HashMap.insert m.db key entry
    ret (
      entry,
      record {
        db = db;
        heap = record (m.heap) { cells = m.heap.cells ++ npos ∷ [] };
        entries = m.entries ++ record { key = key; value = value } ∷ [];
      },
    )

  unfoldable pub remove_from_heap : EntryManager V → ℕ → Outcome (Bool × EntryManager V)
  remove_from_heap m entry = Heap.size false m.heap >>= λ size.
      if leb size (heap_idx m entry)
      then ret (false, m)
      else Heap.pop false m.heap >>= λ r.
          ret (true, set_heap_idx (record m { heap = r.1 }) entry npos)

  -- `db_.remove(key); return true;`
  abbrev pub remove_key : EntryManager V → Bytes → Outcome (Bool × EntryManager V)
  remove_key m key = HashMap.remove m.db key >>= λ r. ret (true, record m { db = r.1 })

  unfoldable pub delete_entry : EntryManager V → Bytes → Outcome (Bool × EntryManager V)
  unfolding find_entry remove_from_heap
  delete_entry m key = find_entry m key >>= λ r. elim r.0 [
    | none ↦ ret (false, r.1)
    | some entry ↦
        if heap_idx r.1 entry == npos
        then remove_key r.1 key
        else remove_from_heap r.1 entry >>= λ s. remove_key s.1 key
  ]

  unfoldable pub clear_all : EntryManager V → Outcome (Bool × EntryManager V)
  clear_all m = do
    let db = HashMap.clear m.db
    heap ← Heap.clear false m.heap
    size ← Heap.size false heap
    ret (HashMap.size db == 0 && size == 0, record m { db = db; heap = heap })

  unfoldable pub add_to_heap : EntryManager V → ℕ → ℕ → Outcome (Bool × EntryManager V)
  add_to_heap m entry expire_at = if not (heap_idx m entry == npos) then ret (false, m) else (do
    pushed ← Heap.push false m.heap (record { value = expire_at; position_ref = some entry })
    size ← Heap.size false pushed
    let placed = set_heap_idx (record m { heap = pushed }) entry (size - 1)
    heap ← Heap.update false placed.heap (heap_idx placed entry)
    ret (true, record m { heap = heap }))

  unfoldable pub update_heap : EntryManager V → ℕ → ℕ → Outcome (Bool × EntryManager V)
  update_heap m entry new_expire_at = Heap.size false m.heap >>= λ size.
      if leb size (heap_idx m entry) then ret (false, m) else (do
        changed ← Heap.set_value false m.heap (heap_idx m entry) new_expire_at
        heap ← Heap.update false changed (get_or changed.cells entry npos)
        ret (true, record m { heap = heap }))

  unfoldable pub set_entry_ttl : EntryManager V → ℕ → ℤ → ℕ → Outcome (Bool × EntryManager V)
  set_entry_ttl m entry ttl_ms now = elim (positive ttl_ms) [
    | none ↦ delete_entry m (key_of m.entries entry)
    | some ttl ↦
        let expire_at = (now + ttl * 1000) % 2 ^ 64 in
        (if heap_idx m entry == npos
          then add_to_heap m entry expire_at
          else update_heap m entry expire_at)
        >>= λ r. ret (true, r.1)
  ]

  unfoldable pub get_expiry_time : EntryManager V → ℕ → ℕ → Outcome ℤ
  get_expiry_time m entry now =
      if heap_idx m entry == npos
      then ret (negsuc 0)
      else Heap.size false m.heap >>= λ size.
          if leb size (heap_idx m entry)
          then ret (negsuc 0)
          else Heap.at false m.heap (heap_idx m entry) >>= λ x. ret (remaining_time x.value now)

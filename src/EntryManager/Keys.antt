-- ===== src/EntryManager/Keys.antt =====
-- entry_manager.hpp: what `create_entry`, `find_entry` and `delete_entry` do to the keys.
use vector_db.Prelude.{
  ℕ, ◌≤◌, ◌<◌, ◌≡◌, ◌≢◌, refl, ap, ◌∙◌, true, false, Option, none, some, List, [], ◌∷◌, ◌++◌, arith,
  ◌==◌, ==_iff, length, get_or, get_elem?, lt→leb, length-append, Bool-cases, inl, inr, ℤ,
}
use vector_db.Prelude.Outcome.{ret, fault, relock, ◌>>=◌}
use vector_db.Bytes.{Bytes}
use vector_db.Hash.{string_key}
use vector_db.HashTable.Chain.{top, pop}
use vector_db.HashMap.{HMap}
use vector_db.HashMap.Valid.{IsValid, values, insert-Pushed, find-top, remove-Popped, removed}
use vector_db.Heap
use vector_db.EntryManager.{
  EntryManager, npos, heap_idx, key_of, positive, find_entry, create_entry, delete_entry,
  remove_from_heap, set_entry_ttl,
}

pub last_of {ℓ} : {A : Type ℓ} (xs : List A) (x d : A) → get_or (xs ++ x ∷ []) (length xs) d ≡ x
last_of [] x d = refl
last_of (y ∷ xs) x d = last_of xs x d

last_elem {ℓ} : {A : Type ℓ} (xs : List A) (x : A) → get_elem? (xs ++ x ∷ []) (length xs) ≡ some x
last_elem [] x = refl
last_elem (y ∷ xs) x = last_elem xs x

module _ {κ} {V : Type κ} where
  -- The entry that a key is bound to.
  abbrev pub bound : EntryManager V → Bytes → Option ℕ
  bound m key = top (values m.db key)

  pub find_entry-bound :
      (m : EntryManager V) (key : Bytes) → IsValid m.db → find_entry m key ≡ ret (bound m key, m)
  unfolding find_entry
  find_entry-bound m key valid = rw (find-top m.db key valid) refl

  -- What `create_entry` leaves, around a new map.
  abbrev pub with_entry : EntryManager V → HMap Bytes ℕ → Bytes → V → EntryManager V
  with_entry m db key value = record {
    db = db;
    heap = record (m.heap) { cells = m.heap.cells ++ npos ∷ [] };
    entries = m.entries ++ record { key = key; value = value } ∷ [];
  }

  pub create_entry-with_entry :
      (m : EntryManager V) (key : Bytes) (value : V)
      → IsValid m.db
      → m.db.primary_table.size < 32
      → (db : HMap Bytes ℕ) × (create_entry m key value
          ≡ ret (length m.entries, with_entry m db key value))
        × IsValid db
        × (bound (with_entry m db key value) key ≡ some (length m.entries))
  unfolding create_entry
  create_entry-with_entry m key value valid room =
      let (db, inserted, p) = insert-Pushed m.db key (length m.entries) valid room in
      let self : string_key.beq key key ≡ true = (string_key.beq_iff key key).1 refl in
      let stacked : values db key ≡ length m.entries ∷ values m.db key =
        p.pushed key ∙ rw self refl in
      (db, rw inserted refl, p.valid, ap top stacked)

  -- `create_entry` on a valid map of fewer than 32 values returns a new entry of the key and the value,
  -- which `find_entry` then finds at the key; the map stays valid, and every other key keeps its entry.
  pub create_entry-find :
      (m : EntryManager V) (key : Bytes) (value : V)
      → IsValid m.db
      → m.db.primary_table.size < 32
      → (m' : EntryManager V) × (create_entry m key value ≡ ret (length m.entries, m'))
        × (find_entry m' key ≡ ret (some (length m.entries), m'))
        × (get_elem? m'.entries (length m.entries) ≡ some (record { key = key; value = value }))
        × IsValid m'.db
        × ((other : Bytes) → key ≢ other → bound m' other ≡ bound m other)
  unfolding create_entry
  create_entry-find m key value valid room =
      let (db, inserted, p) = insert-Pushed m.db key (length m.entries) valid room in
      let m' : EntryManager V = record {
        db = db;
        heap = record (m.heap) { cells = m.heap.cells ++ npos ∷ [] };
        entries = m.entries ++ record { key = key; value = value } ∷ [];
      } in
      let self : string_key.beq key key ≡ true = (string_key.beq_iff key key).1 refl in
      let stacked : values db key ≡ length m.entries ∷ values m.db key =
        p.pushed key ∙ rw self refl in
      (
        m',
        rw inserted refl,
        find_entry-bound m' key p.valid ∙ ap (λ z. ret (z, m')) (ap top stacked),
        last_elem m.entries _,
        p.valid,
        λ other apart. elim (Bool-cases (string_key.beq key other)) [
          | inl same ↦ absurd (apart ((string_key.beq_iff key other).0 same))
          | inr differ ↦
              let kept : values db other ≡ values m.db other = p.pushed other ∙ rw differ refl in
              ap top kept
        ],
      )

  pub delete_entry-tracked :
      (m : EntryManager V) (key : Bytes) (entry : ℕ)
      → IsValid m.db
      → bound m key ≡ some entry
      → heap_idx m entry < length m.heap.items
      → length m.heap.items ≤ npos
      → delete_entry m key ≡ fault relock
  unfolding delete_entry remove_from_heap Heap.size Heap.pop
  delete_entry-tracked m key entry valid found inside bounded =
      let tracked : (heap_idx m entry == npos) ≡ false = ground arith in
      rw
        (
          find_entry-bound m key valid,
          found,
          tracked,
          lt→leb (length m.heap.items) (heap_idx m entry) inside,
        )
        refl

  -- On a valid map, `delete_entry` of a key whose entry has a time to live, so that its `heap_idx` is in
  -- the heap, does not return, nor does `set_entry_ttl` on it with a time that is not positive:
  -- `remove_from_heap` calls `pop`, which locks the heap's mutex twice.
  pub delete_entry-relock :
      (m : EntryManager V) (entry now : ℕ) (ttl_ms : ℤ)
      → IsValid m.db
      → bound m (key_of m.entries entry) ≡ some entry
      → heap_idx m entry < length m.heap.items
      → length m.heap.items ≤ npos
      → positive ttl_ms ≡ none
      → (delete_entry m (key_of m.entries entry) ≡ fault relock)
        × (set_entry_ttl m entry ttl_ms now ≡ fault relock)
  unfolding set_entry_ttl
  delete_entry-relock m entry now ttl_ms valid found inside bounded gone =
      let deleted =
        delete_entry-tracked m (key_of m.entries entry) entry valid found inside bounded in
      (deleted, rw (set_entry_ttl, gone) deleted)

  -- An entry without a time to live: `delete_entry` pops it from its key.
  delete_entry-untracked :
      (m : EntryManager V) (key : Bytes) (entry : ℕ)
      → IsValid m.db
      → bound m key ≡ some entry
      → heap_idx m entry ≡ npos
      → (m' : EntryManager V) × (delete_entry m key ≡ ret (true, m'))
        × IsValid m'.db
        × (bound m' key ≡ top (pop (values m.db key)))
  unfolding delete_entry
  delete_entry-untracked m key entry valid found untracked =
      let (gone, p) = remove-Popped m.db key valid in
      let self : string_key.beq key key ≡ true = (string_key.beq_iff key key).1 refl in
      let none_there : (heap_idx m entry == npos) ≡ true = (==_iff _ _).1 untracked in
      (
        record m { db = removed m.db key },
        rw (find_entry-bound m key valid, found, none_there, gone) refl,
        p.valid,
        ap top (p.popped key ∙ rw self refl),
      )

  -- Where each entry has its cell, in a valid map of fewer than 31 values, `create_entry` twice at one
  -- key and then `delete_entry` make `find_entry` return the first entry: it was not replaced.
  pub create_entry-delete :
      (m : EntryManager V) (key : Bytes) (value later : V)
      → IsValid m.db
      → m.db.primary_table.size < 31
      → length m.heap.cells ≡ length m.entries
      → (create_entry m key value >>= λ a. create_entry a.1 key later >>= λ b.
          delete_entry b.1 key >>= λ c. find_entry c.1 key >>= λ d. ret d.0)
        ≡ ret (some (length m.entries))
  unfolding create_entry
  create_entry-delete m key value later valid room celled =
      let (db, inserted, p) = insert-Pushed m.db key (length m.entries) valid (omega arith) in
      let first = m.entries ++ record { key = key; value = value } ∷ [] in
      let (db', inserted', p') =
        insert-Pushed db key (length first) p.valid (omega (arith, p.sized)) in
      let self : string_key.beq key key ≡ true = (string_key.beq_iff key key).1 refl in
      let old : values db key ≡ length m.entries ∷ values m.db key = p.pushed key ∙ rw self refl in
      let stacked : values db' key ≡ length first ∷ values db key = p'.pushed key ∙ rw self refl in
      let m₂ : EntryManager V = record {
        db = db';
        heap = record (m.heap) { cells = (m.heap.cells ++ npos ∷ []) ++ npos ∷ [] };
        entries = first ++ record { key = key; value = later } ∷ [];
      } in
      let place : length first ≡ length (m.heap.cells ++ npos ∷ []) = omega (
        arith,
        celled,
        length-append m.entries (record { key = key; value = value } ∷ []),
        length-append m.heap.cells (npos ∷ []),
      ) in
      let free : heap_idx m₂ (length first) ≡ npos =
        ap (λ z. get_or ((m.heap.cells ++ npos ∷ []) ++ npos ∷ []) z npos) place
        ∙ last_of (m.heap.cells ++ npos ∷ []) npos npos in
      let (m₃, deleted, still, left) =
        delete_entry-untracked m₂ key (length first) p'.valid (ap top stacked) free in
      rw (inserted, inserted', deleted, find_entry-bound m₃ key still)
        (ap ret (left ∙ ap (λ z. top (pop z)) stacked ∙ ap top old))

-- ===== src/EntryManager/Expiry.antt =====
-- entry_manager.hpp: what `get_expiry_time` reads of the heap of expiry times.
use vector_db.Prelude.{
  ℕ, ◌+◌, ◌-◌, ◌/◌, ◌%◌, ◌^◌, ◌≤◌, ◌<◌, ◌≡◌, refl, ap, true, false, some, List, [], ◌∷◌, arith, ltb,
  ◌==◌, if◌then◌else◌, length, get_or, set, get_or-set, length-set, lt→leb, pos, negsuc, inl, inr,
  Bool-cases, ltb→lt, ltb-false→le, lt→ltb,
}
use vector_db.Prelude.Outcome.{Outcome, ret, ◌>>=◌}
use vector_db.Bytes.{Bytes}
use vector_db.HashMap.{HMap}
use vector_db.Heap
use vector_db.Heap.{HeapItem, BinaryHeap, item}
use vector_db.EntryManager.{
  EntryManager, Entry, npos, heap_idx, remaining_time, get_expiry_time, add_to_heap,
}

remaining-lt :
    (expire_at now : ℕ)
    → expire_at < 2 ^ 64
    → now < 2 ^ 63
    → remaining_time expire_at now ≡ (
        if ltb expire_at now
        then pos ((2 ^ 64 - (now - expire_at)) / 1000)
        else if ltb (expire_at - now) 1000
        then negsuc 0
        else pos ((expire_at - now) / 1000))
remaining-lt expire_at now h k = elim (Bool-cases (ltb expire_at now)) [
  | inl late ↦
      let left : (expire_at + (2 ^ 64 - now % 2 ^ 64)) % 2 ^ 64 / 1000
          ≡ (2 ^ 64 - (now - expire_at)) / 1000 =
        omega (arith, ltb→lt expire_at now late) in
      let some_left : ltb 0 ((2 ^ 64 - (now - expire_at)) / 1000) ≡ true =
        lt→ltb 0 _ (omega arith) in
      rw (left, some_left, late) refl
  | inr early ↦
      let left : (expire_at + (2 ^ 64 - now % 2 ^ 64)) % 2 ^ 64 / 1000 ≡ (expire_at - now) / 1000 =
        omega (arith, ltb-false→le expire_at now early) in
      elim (Bool-cases (ltb (expire_at - now) 1000)) [
        | inl last ↦
            let none_left : (expire_at - now) / 1000 ≡ 0 =
              omega (arith, ltb→lt (expire_at - now) 1000 last) in
            rw (left, none_left, early, last) refl
        | inr more ↦
            let some_left : ltb 0 ((expire_at - now) / 1000) ≡ true =
              lt→ltb 0 _ (omega (arith, ltb-false→le (expire_at - now) 1000 more)) in
            rw (left, some_left, early, more) refl
      ]
]

abbrev pub at_entry : ℕ → ℕ → HeapItem
at_entry v entry = record { value = v; position_ref = some entry }

abbrev pair : ℕ → ℕ → ℕ → ℕ → List ℕ → BinaryHeap
pair e entry v other cells = record {
  items = at_entry e entry ∷ at_entry v other ∷ [];
  cells = cells;
}

module _ (e v entry other : ℕ) (cells : List ℕ) (earlier : e < v) where
  -- The earlier item takes the root.
  push-rise :
      Heap.push false (record { items = at_entry v other ∷ []; cells = cells }) (at_entry e entry)
      ≡ ret (pair e entry v other (set (set cells other 1) entry 0))
  unfolding Heap.push Heap.sift_up Heap.sift_up_loop Heap.place
  push-rise = rw (Heap.sift_up_loop, lt→ltb e v earlier) refl

  -- At the position 1, `update` moves nothing, and writes the cell of the item there.
  update-stay :
      Heap.update false (pair e entry v other cells) 1
      ≡ ret (pair e entry v other (set cells other 1))
  unfolding Heap.update Heap.sift_down Heap.sift_down_loop Heap.min_pos Heap.place
  update-stay = let later : ltb v e ≡ false = ground arith in rw later refl

module _ {κ} {V : Type κ} where
  -- For an entry whose `heap_idx` is in the heap, `get_expiry_time` at a time below 2^63 returns the whole
  -- milliseconds to the expiry time at that position, or -1 if there are none; after the expiry time the
  -- difference wraps, and it returns a number near 2^64 / 1000 instead of -1.
  pub get_expiry_time-wraps :
      (m : EntryManager V) (entry now : ℕ)
      → heap_idx m entry < length m.heap.items
      → length m.heap.items ≤ npos
      → (item m.heap (heap_idx m entry)).value < 2 ^ 64
      → now < 2 ^ 63
      → get_expiry_time m entry now
        ≡ ret (
            let expire_at = (item m.heap (heap_idx m entry)).value in
            if ltb expire_at now
            then pos ((2 ^ 64 - (now - expire_at)) / 1000)
            else if ltb (expire_at - now) 1000
            then negsuc 0
            else pos ((expire_at - now) / 1000))
  unfolding get_expiry_time Heap.size Heap.at
  get_expiry_time-wraps m entry now inside bounded small past =
      let tracked : (heap_idx m entry == npos) ≡ false = ground arith in
      rw (tracked, lt→leb (length m.heap.items) (heap_idx m entry) inside)
        (ap ret (remaining-lt (item m.heap (heap_idx m entry)).value now small past))

  -- A manager whose heap has one item, of the entry `other`.
  abbrev pub single : HMap Bytes ℕ → List (Entry V) → List ℕ → ℕ → ℕ → EntryManager V
  single db entries cells other v = record {
    db = db;
    heap = record { items = record { value = v; position_ref = some other } ∷ []; cells = cells };
    entries = entries;
  }

  -- Where the heap has one item, of an entry `other`, `add_to_heap` of an entry that has no time to live
  -- yet, with an earlier expiry time, succeeds and leaves its `heap_idx` at the item of `other`:
  -- `get_expiry_time` of the entry then answers for the time of `other`.
  pub add_to_heap-lost :
      (db : HMap Bytes ℕ) (entries : List (Entry V)) (cells : List ℕ) (entry other expire_at v : ℕ)
      → (entry == other) ≡ false
      → entry < length cells
      → other < length cells
      → get_or cells entry npos ≡ npos
      → expire_at < v
      → (m : EntryManager V) × (add_to_heap (single db entries cells other v) entry expire_at
          ≡ ret (true, m))
        × ((now : ℕ) → get_expiry_time m entry now ≡ ret (remaining_time v now))
  unfolding add_to_heap get_expiry_time Heap.size Heap.at
  add_to_heap-lost db entries cells entry other expire_at v apart inside there free earlier =
      let raised = set (set cells other 1) entry 0 in
      let written = set raised entry 1 in
      let first =
        get_or-set raised entry entry 1 npos
          (omega (arith, length-set cells other 1, length-set (set cells other 1) entry 0)) in
      let at_one : get_or written entry npos ≡ 1 = ground arith in
      let pushed : Heap.push false (single db entries cells other v).heap
            (record { value = expire_at; position_ref = some entry })
          ≡ ret (pair expire_at entry v other raised) =
        push-rise expire_at v entry other cells earlier in
      let second = get_or-set written other entry 1 npos (
        omega (
          arith,
          length-set cells other 1,
          length-set (set cells other 1) entry 0,
          length-set raised entry 1,
        )) in
      let end : get_or (set written other 1) entry npos ≡ 1 = ground arith in
      let stayed =
        ap
          (λ (o : Outcome BinaryHeap).
            o >>= λ h. ret (true, record (single db entries cells other v) { heap = h }))
          (update-stay expire_at v entry other written earlier) in
      (
        record {
          db = db;
          heap = record {
            items =
                record { value = expire_at; position_ref = some entry }
                ∷ record { value = v; position_ref = some other }
                ∷ [];
            cells = set written other 1;
          };
          entries = entries;
        },
        rw (free, pushed) (rw at_one stayed),
        λ now. rw end refl,
      )

  -- The first entry with a time to live takes the root of the heap.
  pub add_to_heap-empty :
      (db : HMap Bytes ℕ) (entries : List (Entry V)) (cells : List ℕ) (entry expire_at : ℕ)
      → entry < length cells
      → get_or cells entry npos ≡ npos
      → (m : EntryManager V) × (add_to_heap
            (record { db = db; heap = record { items = []; cells = cells }; entries = entries })
            entry
            expire_at
          ≡ ret (true, m))
        × (m.db ≡ db)
        × (m.heap.items ≡ at_entry expire_at entry ∷ [])
        × (heap_idx m entry ≡ 0)
  unfolding add_to_heap Heap.push Heap.size Heap.update Heap.sift_up Heap.sift_up_loop
      Heap.sift_down Heap.sift_down_loop Heap.min_pos Heap.place
  add_to_heap-empty db entries cells entry expire_at inside free =
      let once = set cells entry 0 in
      let twice = set once entry 0 in
      let longer = length-set cells entry 0 in
      let placed = get_or-set once entry entry 0 npos (omega (arith, longer)) in
      let again =
        get_or-set twice entry entry 0 npos (omega (arith, longer, length-set once entry 0)) in
      let at_root : get_or twice entry npos ≡ 0 = ground arith in
      let end : get_or (set twice entry 0) entry npos ≡ 0 = ground arith in
      (
        record {
          db = db;
          heap = record { items = at_entry expire_at entry ∷ []; cells = set twice entry 0 };
          entries = entries;
        },
        rw (free, at_root) refl,
        refl,
        refl,
        end,
      )

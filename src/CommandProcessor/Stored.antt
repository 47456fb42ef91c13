-- ===== src/CommandProcessor/Stored.antt =====
-- command_processor.hpp: a store whose entries are texts without a time to live.
use mathlib.Core.Path.{subst}
use vector_db.Prelude.{
  ℕ, zero, suc, negsuc, ◌+◌, ◌<◌, ◌≡◌, refl, ap, ◌∙◌, ◌⊎◌, inl, inr, true, false, none, some, List,
  [], ◌∷◌, ◌++◌, arith, All, All-append, length, get_or, get_elem?, get_elem?-append_left,
  get_elem?-length_append, ◌==◌, ==_iff, Bool-cases,
}
use vector_db.Prelude.Outcome.{ret, fault, relock}
use vector_db.Bytes.{Bytes}
use vector_db.Hash.{string_key}
use vector_db.HashTable.Chain.{top, pop}
use vector_db.HashTable.Remove.{without}
use vector_db.HashMap
use vector_db.HashMap.{HMap}
use vector_db.HashMap.Calls.{push_at}
use vector_db.HashMap.Valid.{
  IsValid, values, new-IsValid, insert-relock, insert-Pushed, remove-Popped, removed,
}
use vector_db.Heap
use vector_db.EntryManager.{
  EntryManager, Entry, npos, heap_idx, create_entry, delete_entry, clear_all, get_expiry_time,
}
use vector_db.EntryManager.Keys.{bound, find_entry-bound, with_entry}
use vector_db.CommandProcessor.{Value, string}
use vector_db.CommandProcessor.Script.{Texts, popped}

get_or-free : (cells : List ℕ) (i : ℕ) → All (λ c. c ≡ npos) cells → get_or cells i npos ≡ npos
get_or-free [] i h = refl
get_or-free (c ∷ cells) zero (h, rest) = h
get_or-free (c ∷ cells) (suc i) (h, rest) = get_or-free cells i rest

module _ {κ} {D : Type κ} where
  -- The entries of a key, in the order of its texts.
  pub data Reads (entries : List (Entry (Value D))) (k : Bytes) : List ℕ → List Bytes → Type κ where
    no_texts : Reads entries k [] []
    newest :
        (e : ℕ) (v : Bytes) (es : List ℕ) (vs : List Bytes)
        → get_elem? entries e ≡ some (record { key = k; value = string v })
        → Reads entries k es vs
        → Reads entries k (e ∷ es) (v ∷ vs)

  pub record IsStored (m : EntryManager (Value D)) (s : Texts) : Type κ where
    pub valid : IsValid m.db
    pub sized : m.db.primary_table.size ≡ s.0
    pub still : m.heap.items ≡ []
    pub free : All (λ c. c ≡ npos) m.heap.cells
    pub held : (k : Bytes) → Reads m.entries k (values m.db k) (s.1 k)

  Reads-append :
      (entries : List (Entry (Value D))) (k : Bytes) (more : List (Entry (Value D))) (es : List ℕ)
      (vs : List Bytes)
      → Reads entries k es vs
      → Reads (entries ++ more) k es vs
  Reads-append entries k more es vs no_texts = no_texts
  Reads-append entries k more es vs (newest e v es' vs' h rest) =
      newest e v es' vs' (get_elem?-append_left entries more e h)
        (Reads-append entries k more es' vs' rest)

  Reads-pop :
      (entries : List (Entry (Value D))) (k : Bytes) (es : List ℕ) (vs : List Bytes)
      → Reads entries k es vs
      → Reads entries k (pop es) (pop vs)
  Reads-pop entries k es vs no_texts = no_texts
  Reads-pop entries k es vs (newest e v es' vs' h rest) = rest

  Reads-without :
      (entries : List (Entry (Value D))) (k : Bytes) (n : ℕ) (es : List ℕ) (vs : List Bytes)
      → Reads entries k es vs
      → without (top es) n ≡ without (top vs) n
  Reads-without entries k n es vs no_texts = refl
  Reads-without entries k n es vs (newest e v es' vs' h rest) = refl

  -- A key has no text and no entry, or its newest entry holds its newest text.
  pub Reads-cases :
      (entries : List (Entry (Value D))) (k : Bytes) (es : List ℕ) (vs : List Bytes)
      → Reads entries k es vs
      → ((top es ≡ none) × (top vs ≡ none))
        ⊎ ((e : ℕ) × (v : Bytes) × (top es ≡ some e)
            × (top vs ≡ some v)
            × (get_elem? entries e ≡ some (record { key = k; value = string v })))
  Reads-cases entries k es vs no_texts = inl (refl, refl)
  Reads-cases entries k es vs (newest e v es' vs' h rest) = inr (e, v, refl, refl, h)

  module _ (m : EntryManager (Value D)) (s : Texts) (h : IsStored m s) where
    pub untimed : (entry : ℕ) → heap_idx m entry ≡ npos
    untimed entry = get_or-free m.heap.cells entry h.free

    pub get_expiry_time-none : (entry now : ℕ) → get_expiry_time m entry now ≡ ret (negsuc 0)
    unfolding get_expiry_time
    get_expiry_time-none entry now =
        let none_there : (heap_idx m entry == npos) ≡ true = (==_iff _ _).1 (untimed entry) in
        rw none_there

    pub create_entry-full : (k : Bytes) (v : Value D) → s.0 ≡ 32 → create_entry m k v ≡ fault relock
    unfolding create_entry
    create_entry-full k v full =
        rw (insert-relock m.db k (length m.entries) h.valid (h.sized ∙ full))

    pub create_entry-IsStored :
        (k v : Bytes)
        → s.0 < 32
        → (m' : EntryManager (Value D)) × (create_entry m k (string v) ≡ ret (length m.entries, m'))
          × IsStored m' (s.0 + 1, push_at s.1 k v)
    unfolding create_entry
    create_entry-IsStored k v room =
        let (db, inserted, p) =
          insert-Pushed m.db k (length m.entries) h.valid (omega (arith, h.sized)) in
        let entry : Entry (Value D) = record { key = k; value = string v } in
        (
          with_entry m db k (string v),
          rw inserted,
          record {
            valid = p.valid;
            sized = p.sized ∙ ap (λ (n : ℕ). n + 1) h.sized;
            still = h.still;
            free = All-append (λ c. c ≡ npos) m.heap.cells (npos ∷ []) h.free (refl, tt);
            held = λ j.
                let old =
                  Reads-append m.entries j (entry ∷ []) (values m.db j) (s.1 j) (h.held j) in
                elim (Bool-cases (string_key.beq k j)) [
                  | inl same ↦
                      let there : k ≡ j = (string_key.beq_iff k j).0 same in
                      let last : get_elem? (m.entries ++ entry ∷ []) (length m.entries)
                          ≡ some (record { key = j; value = string v }) =
                        subst
                          (λ z.
                            get_elem? (m.entries ++ entry ∷ []) (length m.entries)
                            ≡ some (record { key = z; value = string v }))
                          there (get_elem?-length_append m.entries [] entry) in
                      rw (p.pushed j, same)
                        (newest (length m.entries) v (values m.db j) (s.1 j) last old)
                  | inr other ↦ rw (p.pushed j, other) old
                ];
          },
        )

    pub delete_entry-absent : (k : Bytes) → bound m k ≡ none → delete_entry m k ≡ ret (false, m)
    unfolding delete_entry
    delete_entry-absent k absent = rw (find_entry-bound m k h.valid, absent)

    pub delete_entry-IsStored :
        (k : Bytes) (e : ℕ)
        → bound m k ≡ some e
        → (m' : EntryManager (Value D)) × (delete_entry m k ≡ ret (true, m'))
          × IsStored m' (popped k s)
    unfolding delete_entry
    delete_entry-IsStored k e there =
        let (gone, p) = remove-Popped m.db k h.valid in
        let free : (heap_idx m e == npos) ≡ true = (==_iff _ _).1 (untimed e) in
        (
          record m { db = removed m.db k },
          rw (find_entry-bound m k h.valid, there, free, gone),
          record {
            valid = p.valid;
            sized =
                p.sized
                ∙ ap (without (top (values m.db k))) h.sized
                ∙ Reads-without m.entries k s.0 (values m.db k) (s.1 k) (h.held k);
            still = h.still;
            free = h.free;
            held = λ j. elim (Bool-cases (string_key.beq k j)) [
              | inl same ↦
                  rw (p.popped j, same) (Reads-pop m.entries j (values m.db j) (s.1 j) (h.held j))
              | inr other ↦ rw (p.popped j, other) (h.held j)
            ];
          },
        )

    pub clear_all-IsStored :
        (m' : EntryManager (Value D)) × (clear_all m ≡ ret (true, m')) × IsStored m' (0, λ _. [])
    unfolding clear_all Heap.clear Heap.size HashMap.size HashMap.clear
    clear_all-IsStored = (
      record m { db = HashMap.new; heap = record (m.heap) { items = [] } },
      refl,
      record {
        valid = new-IsValid;
        sized = refl;
        still = refl;
        free = h.free;
        held = λ k. no_texts;
      },
    )

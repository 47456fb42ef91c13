-- ===== src/CommandProcessor/Keys.antt =====
-- command_processor.hpp: commands one after the other on one store.
use vector_db.Prelude.{
  ℕ, suc, ◌+◌, ◌*◌, ◌%◌, ◌^◌, ◌<◌, ◌≡◌, refl, sym, ap, ◌∙◌, ◌⊎◌, inl, inr, true, false, none, some,
  List, [], ◌∷◌, arith, length, length-append, get_or, get_elem?, pos,
}
use vector_db.Prelude.Outcome.{ret, fault, relock}
use vector_db.Bytes.{Bytes, ascii}
use vector_db.Hash.{string_key}
use vector_db.HashMap.{HMap}
use vector_db.HashMap.Valid.{IsValid}
use vector_db.ResponseSerializer.{serialize_string, serialize_integer}
use vector_db.EntryManager.{EntryManager, Entry, npos, set_entry_ttl, add_to_heap}
use vector_db.EntryManager.Keys.{
  last_of, with_entry, create_entry-with_entry, bound, find_entry-bound, create_entry-find,
  delete_entry-tracked,
}
use vector_db.EntryManager.Expiry.{add_to_heap-empty}
use vector_db.SortedSet
use vector_db.SortedSet.{ZSet, new_zset}
use vector_db.CommandProcessor.{
  Numbers, Value, string, zset, value_of, add_member, parse_double, parse_int, process_command,
}

module _ {κ} {D : Type κ} (lib : Numbers D) (now : ℕ) where
  pub value_of-get_elem? :
      (m : EntryManager (Value D)) (entry : ℕ) (e : Entry (Value D))
      → get_elem? m.entries entry ≡ some e
      → value_of m.entries entry ≡ ret e.value
  unfolding value_of
  value_of-get_elem? m entry e h = rw (h, value_of) refl

  -- On a valid map of fewer than 32 values, `SET key value` replies `OK`, and `GET key` then replies the
  -- value.
  pub process_command-set-get :
      (m : EntryManager (Value D)) (key value : Bytes)
      → IsValid m.db
      → m.db.primary_table.size < 32
      → (m' : EntryManager (Value D)) × (process_command lib now
            (ascii "SET" ∷ key ∷ value ∷ [])
            []
            m
          ≡ ret (serialize_string [] (ascii "OK"), m'))
        × (process_command lib now (ascii "GET" ∷ key ∷ []) [] m'
            ≡ ret (serialize_string [] value, m'))
  unfolding process_command
  process_command-set-get m key value valid room =
      let (m', created, found, entry, kept, others) =
        create_entry-find m key (string value) valid room in
      (m', rw created refl, rw (found, value_of-get_elem? m' (length m.entries) _ entry) refl)

  adding :
      (z : ZSet D) (name : Bytes) (score : D)
      → SortedSet.add_internal false z name score ≡ fault relock
  unfolding SortedSet.add_internal SortedSet.lookup
  adding z name score = refl

  pub process_command-zadd :
      (m : EntryManager (Value D)) (key text member : Bytes) (score : D)
      → IsValid m.db
      → m.db.primary_table.size < 32
      → parse_double lib text ≡ some score
      → (bound m key ≡ none)
        ⊎ ((entry : ℕ) × (z : ZSet D) × (bound m key ≡ some entry)
            × (get_elem? m.entries entry ≡ some (record { key = key; value = zset z })))
      → process_command lib now (ascii "ZADD" ∷ key ∷ text ∷ member ∷ []) [] m ≡ fault relock
  unfolding process_command add_member
  process_command-zadd m key text member score valid room number (inl absent) =
      let (m', created, found, entry, kept, others) =
        create_entry-find m key (zset new_zset) valid room in
      rw (number, find_entry-bound m key valid, absent, created, adding new_zset member score) refl
  process_command-zadd m key text member score valid room number (inr (entry, z, there, held)) =
      rw
        (
          number,
          find_entry-bound m key valid,
          there,
          value_of-get_elem? m entry _ held,
          adding z member score,
        )
        refl

  set_entry_ttl-add :
      (m m' : EntryManager (Value D)) (entry n : ℕ)
      → get_or m.heap.cells entry npos ≡ npos
      → add_to_heap m entry ((now + suc n * 1000) % 2 ^ 64) ≡ ret (true, m')
      → set_entry_ttl m entry (pos (suc n)) now ≡ ret (true, m')
  unfolding set_entry_ttl
  set_entry_ttl-add m m' entry n free added = rw (free, added) refl

  -- On a valid map of fewer than 32 values, where each entry has its cell and no entry has a time to live,
  -- `SET key value` replies `OK`, `PEXPIRE key ttl` with a positive time then replies 1, and `DEL key` then
  -- does not return.
  pub process_command-pexpire-del :
      (db : HMap Bytes ℕ) (entries : List (Entry (Value D))) (cells : List ℕ)
      (key value text : Bytes) (n : ℕ)
      → IsValid db
      → db.primary_table.size < 32
      → length cells ≡ length entries
      → parse_int lib text ≡ some (pos (suc n))
      → (m₁ : EntryManager (Value D)) × (m₂ : EntryManager (Value D)) × (process_command lib now
            (ascii "SET" ∷ key ∷ value ∷ [])
            []
            (record { db = db; heap = record { items = []; cells = cells }; entries = entries })
          ≡ ret (serialize_string [] (ascii "OK"), m₁))
        × (process_command lib now (ascii "PEXPIRE" ∷ key ∷ text ∷ []) [] m₁
            ≡ ret (serialize_integer [] (pos 1), m₂))
        × (process_command lib now (ascii "DEL" ∷ key ∷ []) [] m₂ ≡ fault relock)
  unfolding process_command
  process_command-pexpire-del db entries cells key value text n valid room celled number =
      let m : EntryManager (Value D) = record {
        db = db;
        heap = record { items = []; cells = cells };
        entries = entries;
      } in
      let (db', created, kept, there) = create_entry-with_entry m key (string value) valid room in
      let m₁ = with_entry m db' key (string value) in
      let entry = length entries in
      let free : get_or m₁.heap.cells entry npos ≡ npos =
        ap (λ z. get_or m₁.heap.cells z npos) (sym celled) ∙ last_of cells npos npos in
      let (m₂, added, same, items, root) =
        add_to_heap-empty db' m₁.entries m₁.heap.cells entry ((now + suc n * 1000) % 2 ^ 64)
          (omega (arith, length-append cells (npos ∷ []), celled)) free in
      let timed = set_entry_ttl-add m₁ m₂ entry n free added in
      let deleted =
        delete_entry-tracked m₂ key entry (rw same kept) (rw same there)
          (rw (items, root) (omega arith)) (rw items (omega arith)) in
      (
        m₁,
        m₂,
        rw created refl,
        rw (number, find_entry-bound m₁ key kept, there, timed) refl,
        rw deleted refl,
      )

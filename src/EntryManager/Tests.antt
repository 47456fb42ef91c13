-- ===== src/EntryManager/Tests.antt =====
-- Runs of entry_manager.hpp on small inputs.
use vector_db.Prelude.{
  ℕ, ◌-◌, ◌/◌, ◌^◌, ◌≡◌, ◌≢◌, refl, true, none, some, [], ◌∷◌, arith, get_elem?, pos, negsuc,
}
use vector_db.Prelude.Outcome.{ret, fault, relock, ◌>>=◌}
use vector_db.Bytes.{Bytes}
use vector_db.Hash.{string_key}
use vector_db.HashTable
use vector_db.HashTable.Valid.{fresh, fresh-IsValid, link-Inserted}
use vector_db.HashMap.{HMap, new}
use vector_db.HashMap.Valid.{IsValid, new-IsValid}
use vector_db.EntryManager.{
  EntryManager, npos, remaining_time, find_entry, create_entry, delete_entry, set_entry_ttl,
  get_expiry_time, add_to_heap,
}
use vector_db.EntryManager.Keys.{bound, create_entry-find, create_entry-delete, delete_entry-relock}
use vector_db.EntryManager.Expiry.{single, get_expiry_time-wraps, add_to_heap-lost}

abbrev a : Bytes
a = b'a' ∷ []

abbrev no_entries : EntryManager ℕ
no_entries = record { db = new; heap = record { items = []; cells = [] }; entries = [] }

-- A map that binds `a` to the entry 0.
abbrev bound_map : HMap Bytes ℕ
bound_map = record {
  primary_table = HashTable.link fresh a 0;
  temporary_table = none;
  resizing_pos = 0;
}

bound_map-IsValid : IsValid bound_map
unfolding HashTable.link
bound_map-IsValid = record {
  table = (link-Inserted fresh a 0 fresh-IsValid).valid;
  still = refl;
  four = λ _. refl;
  room = omega arith;
}

-- The entry 0 expires at 5,000,000 microseconds, and the entry 1 has no time to live.
abbrev timed : EntryManager ℕ
timed =
    single bound_map (record { key = a; value = 7 } ∷ record { key = []; value = 8 } ∷ [])
      (0 ∷ npos ∷ []) 0 5000000

bound-timed : bound timed a ≡ some 0
unfolding HashTable.link string_key
bound-timed = refl

create_entry-find_example :
    (m' : EntryManager ℕ) × (create_entry no_entries a 7 ≡ ret (0, m'))
    × (find_entry m' a ≡ ret (some 0, m'))
    × (get_elem? m'.entries 0 ≡ some (record { key = a; value = 7 }))
    × IsValid m'.db
    × ((other : Bytes) → a ≢ other → bound m' other ≡ bound no_entries other)
create_entry-find_example = create_entry-find no_entries a 7 new-IsValid (omega arith)

create_entry-delete_example :
    (create_entry no_entries a 7 >>= λ x.
    create_entry x.1 a 8 >>= λ y. delete_entry y.1 a >>= λ z. find_entry z.1 a >>= λ w. ret w.0)
    ≡ ret (some 0)
create_entry-delete_example = create_entry-delete no_entries a 7 8 new-IsValid (omega arith) refl

delete_entry-relock_example :
    (delete_entry timed a ≡ fault relock) × (set_entry_ttl timed 0 (negsuc 0) 1000 ≡ fault relock)
delete_entry-relock_example =
    delete_entry-relock timed 0 1000 (negsuc 0) bound_map-IsValid bound-timed (omega arith)
      (omega arith) refl

-- Two seconds after the expiry time.
get_expiry_time-wraps_example :
    get_expiry_time timed 0 7000000 ≡ ret (pos ((2 ^ 64 - 2000000) / 1000))
get_expiry_time-wraps_example =
    get_expiry_time-wraps timed 0 7000000 (omega arith) (omega arith) (omega arith) (omega arith)

add_to_heap-lost_example :
    (m : EntryManager ℕ) × (add_to_heap timed 1 3000000 ≡ ret (true, m))
    × ((now : ℕ) → get_expiry_time m 1 now ≡ ret (remaining_time 5000000 now))
add_to_heap-lost_example =
    add_to_heap-lost bound_map (record { key = a; value = 7 } ∷ record { key = []; value = 8 } ∷ [])
      (0 ∷ npos ∷ []) 1 0 3000000 5000000 refl (omega arith) (omega arith) refl (omega arith)

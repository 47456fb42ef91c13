-- ===== src/CommandProcessor.antt =====
-- command_processor.hpp: `CommandProcessor`. A handler appends its reply to the response buffer and returns
-- the buffer and the entry manager. `std::stod`, `std::stoll` and `std::isnan` are parameters; `now` is what
-- the clock shows during the command.
pub mod Keys
pub mod Replies
pub mod Dispatch
pub mod Script
pub mod Stored
pub mod Simulation
pub mod Commands
pub mod Session
mod Tests
use vector_db.Prelude.{
  ℕ, zero, suc, ◌+◌, ℤ, pos, negsuc, Bool, true, false, ◌&&◌, not, Option, none, some, List, [],
  ◌∷◌, map, leb, ◌==◌, if◌then◌else◌, length, get_or, get_elem?,
}
use vector_db.Prelude.Outcome.{Outcome, ret, fault, out_of_bounds, ◌>>=◌}
use vector_db.Bytes.{Bytes, ascii}
use vector_db.Hash.{bytes_eq}
use vector_db.ResponseSerializer.{
  serialize_nil, serialize_error, serialize_string, serialize_integer,
}
use vector_db.EntryManager
use vector_db.EntryManager.{
  EntryManager, Entry, find_entry, create_entry, delete_entry, clear_all, set_entry_ttl,
  get_expiry_time,
}
use vector_db.SortedSet
use vector_db.SortedSet.{ZSet, new_zset}

abbrev pub err_arg : ℤ
err_arg = negsuc 0

abbrev pub err_unknown : ℤ
err_unknown = negsuc 1

abbrev pub err_type : ℤ
err_type = negsuc 2

-- What the handlers use of the C++ library: the number that a text begins with and the length of its
-- text, or nothing where the function throws.
pub record Numbers {κ} (D : Type κ) : Type κ where
  pub stod : Bytes → Option (D × ℕ)
  pub isnan : D → Bool
  pub stoll : Bytes → Option (ℤ × ℕ)

-- The types of the entries that the commands create.
pub data Value {κ} (D : Type κ) : Type κ where
  string : Bytes → Value D
  zset : ZSet D → Value D

-- `tolower`
unfoldable pub to_lower : ℕ → ℕ
to_lower c = if leb b'A' c && leb c b'Z' then c + 32 else c

-- `deleted ? 1 : 0`
abbrev pub flag : Bool → ℤ
flag true = pos 1
flag false = pos 0

abbrev pub is_negative : ℤ → Bool
is_negative (pos n) = false
is_negative (negsuc n) = true

unfoldable pub parse_int {κ} : {D : Type κ} → Numbers D → Bytes → Option ℤ
parse_int lib str = elim (lib.stoll str) [
  | none ↦ none
  | some (value, end) ↦ if end == length str then some value else none
]

unfoldable pub parse_double {κ} : {D : Type κ} → Numbers D → Bytes → Option D
parse_double lib str = elim (lib.stod str) [
  | none ↦ none
  | some (value, end) ↦ if end == length str && not (lib.isnan value) then some value else none
]

-- `args[i]`
abbrev pub arg : List Bytes → ℕ → Bytes
arg args i = get_or args i []

abbrev pub Handler {κ} : Type κ → Type κ
Handler D = List Bytes → Bytes → EntryManager (Value D) → Outcome (Bytes × EntryManager (Value D))

-- `command_handlers.find`
abbrev pub find_handler {κ} : {H : Type κ} → Bytes → List (Bytes × H) → Option H
find_handler key [] = none
find_handler key ((name, handler) ∷ rest) =
    if bytes_eq name key then some handler else find_handler key rest

module _ {κ} {D : Type κ} where
  -- The value of an entry that the map leads to.
  unfoldable pub value_of : List (Entry (Value D)) → ℕ → Outcome (Value D)
  value_of entries entry = elim (get_elem? entries entry) [
    | none ↦ fault out_of_bounds
    | some e ↦ ret e.value
  ]

  -- A method of the entry's set changes it in place.
  abbrev pub set_value : List (Entry (Value D)) → ℕ → Value D → List (Entry (Value D))
  set_value [] entry v = []
  set_value (e ∷ es) zero v = record e { value = v } ∷ es
  set_value (e ∷ es) (suc entry) v = e ∷ set_value es entry v

  unfoldable pub handle_get : Handler D
  unfolding value_of
  handle_get args response m =
      if not (length args == 2)
      then ret (serialize_error response err_arg (ascii "GET requires one key\n"), m)
      else find_entry m (arg args 1) >>= λ r. elim r.0 [
        | none ↦ ret (serialize_nil response, r.1)
        | some entry ↦ value_of r.1.entries entry >>= λ v. elim v [
          | string s ↦ ret (serialize_string response s, r.1)
          | zset _ ↦ ret (serialize_error response err_type (ascii "Key holds wrong type\n"), r.1)
        ]
      ]

  unfoldable pub handle_set : Handler D
  handle_set args response m =
      if not (length args == 3)
      then ret (serialize_error response err_arg (ascii "SET requires key and value\n"), m)
      else create_entry m (arg args 1) (string (arg args 2)) >>= λ r.
          ret (serialize_string response (ascii "OK"), r.1)

  unfoldable pub handle_del : Handler D
  handle_del args response m =
      if not (length args == 2)
      then ret (serialize_error response err_arg (ascii "DEL requires key\n"), m)
      else delete_entry m (arg args 1) >>= λ r. ret (serialize_integer response (flag r.0), r.1)

  unfoldable pub handle_exists : Handler D
  handle_exists args response m =
      if not (length args == 2)
      then ret (serialize_error response err_arg (ascii "EXISTS requires key\n"), m)
      else find_entry m (arg args 1) >>= λ r. elim r.0 [
        | none ↦ ret (serialize_integer response (pos 0), r.1)
        | some _ ↦ ret (serialize_integer response (pos 1), r.1)
      ]

  unfoldable pub handle_flushall : Handler D
  handle_flushall args response m =
      clear_all m >>= λ r. ret (serialize_integer response (flag r.0), r.1)

  -- `add_internal` on the set of an entry, and the reply.
  unfoldable pub add_member :
      EntryManager (Value D)
      → ℕ
      → ZSet D
      → Bytes
      → D
      → Bytes
      → Outcome (Bytes × EntryManager (Value D))
  add_member m entry z member score response = SortedSet.add_internal false z member score >>= λ r.
      ret (
        serialize_integer response (flag r.0),
        record m { entries = set_value m.entries entry (zset r.1) },
      )

  unfoldable pub handle_zadd : Numbers D → Handler D
  unfolding value_of add_member parse_double
  handle_zadd lib args response m =
      if not (length args == 4)
      then ret
          (serialize_error response err_arg (ascii "ZADD requires key, score, and member\n"), m)
      else elim (parse_double lib (arg args 2)) [
        | none ↦ ret (serialize_error response err_arg (ascii "Invalid score value\n"), m)
        | some score ↦ find_entry m (arg args 1) >>= λ r. elim r.0 [
          | some entry ↦ value_of r.1.entries entry >>= λ v. elim v [
            | string _ ↦
                ret (serialize_error response err_type (ascii "Key holds wrong type\n"), r.1)
            | zset z ↦ add_member r.1 entry z (arg args 3) score response
          ]
          | none ↦ create_entry r.1 (arg args 1) (zset new_zset) >>= λ c.
              add_member c.1 c.0 new_zset (arg args 3) score response
        ]
      ]

  unfoldable pub handle_zrem : Handler D
  unfolding value_of
  handle_zrem args response m =
      if not (length args == 3)
      then ret (serialize_error response err_arg (ascii "ZREM requires key and member\n"), m)
      else find_entry m (arg args 1) >>= λ r. elim r.0 [
        | none ↦ ret (serialize_integer response (pos 0), r.1)
        | some entry ↦ value_of r.1.entries entry >>= λ v. elim v [
          | string _ ↦ ret (serialize_error response err_type (ascii "Key holds wrong type\n"), r.1)
          | zset z ↦ SortedSet.remove_internal false z (arg args 2) >>= λ s. ret (
            serialize_integer response (flag s.0),
            record (r.1) { entries = set_value r.1.entries entry (zset s.1) },
          )
        ]
      ]

  unfoldable pub handle_pexpire : Numbers D → ℕ → Handler D
  unfolding parse_int
  handle_pexpire lib now args response m =
      let invalid : Outcome (Bytes × EntryManager (Value D)) =
        ret (serialize_error response err_arg (ascii "Invalid TTL value\n"), m) in
      if not (length args == 3)
      then ret (serialize_error response err_arg (ascii "PEXPIRE requires key and TTL\n"), m)
      else elim (parse_int lib (arg args 2)) [
        | none ↦ invalid
        | some ttl_ms ↦
            if is_negative ttl_ms
            then invalid
            else find_entry m (arg args 1) >>= λ r. elim r.0 [
              | none ↦ ret (serialize_integer response (pos 0), r.1)
              | some entry ↦ set_entry_ttl r.1 entry ttl_ms now >>= λ s.
                  ret (serialize_integer response (flag s.0), s.1)
            ]
      ]

  unfoldable pub handle_pttl : ℕ → Handler D
  handle_pttl now args response m =
      if not (length args == 2)
      then ret (serialize_error response err_arg (ascii "PTTL requires key\n"), m)
      else find_entry m (arg args 1) >>= λ r. elim r.0 [
        | none ↦ ret (serialize_integer response (negsuc 1), r.1)
        | some entry ↦
            get_expiry_time r.1 entry now >>= λ ttl. ret (serialize_integer response ttl, r.1)
      ]

  -- `command_handlers`
  abbrev pub command_handlers : Numbers D → ℕ → List (Bytes × Handler D)
  command_handlers lib now =
      (ascii "get", handle_get)
      ∷ (ascii "set", handle_set)
      ∷ (ascii "del", handle_del)
      ∷ (ascii "exists", handle_exists)
      ∷ (ascii "zadd", handle_zadd lib)
      ∷ (ascii "zrem", handle_zrem)
      ∷ (ascii "flushall", handle_flushall)
      ∷ (ascii "pexpire", handle_pexpire lib now)
      ∷ (ascii "pttl", handle_pttl now)
      ∷ []

  -- The branches on `command_handlers.find`.
  abbrev pub call_handler : Option (Handler D) → Handler D
  call_handler none args response m =
      ret (serialize_error response err_unknown (ascii "unknown command\n"), m)
  call_handler (some handler) args response m = handler args response m

  unfoldable pub process_command : Numbers D → ℕ → Handler D
  unfolding to_lower handle_get handle_set handle_del handle_exists handle_flushall handle_zadd
      handle_zrem handle_pexpire handle_pttl
  process_command lib now [] response m =
      ret (serialize_error response err_arg (ascii "empty command\n"), m)
  process_command lib now (command ∷ rest) response m =
      call_handler (find_handler (map to_lower command) (command_handlers lib now)) (command ∷ rest)
        response m

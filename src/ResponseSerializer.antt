-- ===== src/ResponseSerializer.antt =====
-- response_serializer.hpp: `ResponseSerializer`, and the tags of common.hpp. A buffer is the list of its
-- bytes. A read past the end of the buffer is the fault `out_of_bounds`. The debugging output is left out.
pub mod RoundTrip
pub mod Decimal
mod Tests
use vector_db.Prelude.{
  ℕ, zero, suc, ◌+◌, ◌/◌, ◌%◌, ◌^◌, ℤ, pos, negsuc, Bool, true, false, not, [], ◌∷◌, ◌++◌, ltb,
  ◌==◌, if◌then◌else◌, length, take, drop,
}
use vector_db.Prelude.Outcome.{Outcome, ret, fault, out_of_bounds}
use vector_db.Bytes.{Bytes, store_u32, store_i32, load_u32, load_i64}

pub data SerializationType : Type 0 where
  nil error string integer double : SerializationType

-- `static_cast<uint8_t>`
abbrev pub tag : SerializationType → ℕ
tag nil = 0
tag error = 1
tag string = 2
tag integer = 3
tag double = 4

-- The decimal digits in ASCII. A number has fewer digits than its value, so the value is fuel enough.
unfoldable pub digits : ℕ → ℕ → Bytes
digits zero n = (48 + n % 10) ∷ []
digits (suc fuel) n = elim (ltb n 10) [
  | true ↦ (48 + n) ∷ []
  | false ↦ digits fuel (n / 10) ++ (48 + n % 10) ∷ []
]

-- `std::to_string`
abbrev pub to_string : ℤ → Bytes
to_string (pos n) = digits n n
to_string (negsuc n) = 45 ∷ digits (suc n) (suc n)

abbrev pub serialize_nil : Bytes → Bytes
serialize_nil buffer = buffer ++ tag nil ∷ []

unfoldable pub serialize_error : Bytes → ℤ → Bytes → Bytes
serialize_error buffer code msg =
    (((buffer ++ tag error ∷ []) ++ store_i32 code) ++ store_u32 (length msg % 2 ^ 32)) ++ msg

unfoldable pub serialize_string : Bytes → Bytes → Bytes
serialize_string buffer str =
    ((buffer ++ tag string ∷ []) ++ store_u32 (length str % 2 ^ 32)) ++ str

unfoldable pub serialize_integer : Bytes → ℤ → Bytes
unfolding digits
serialize_integer buffer value = (buffer ++ tag integer ∷ []) ++ to_string value ++ 13 ∷ 10 ∷ []

-- `append_data` of a `double` appends its object representation.
unfoldable pub serialize_double {ℓ} : {D : Type ℓ} → (D → Bytes) → Bytes → D → Bytes
serialize_double representation buffer value = (buffer ++ tag double ∷ []) ++ representation value

-- An argument of the template `serialize`, by its type: `character` is `char`, `signed char` or `unsigned
-- char`, and `text` is `std::string` or `std::string_view`. A number is its value in the type that it is
-- cast to.
pub data Datum {ℓ} (D : Type ℓ) : Type ℓ where
  integral : ℤ → Datum D
  character : ℕ → Datum D
  floating : D → Datum D
  text : Bytes → Datum D
  other_type : Datum D

abbrev pub get_serialization_type {ℓ} : {D : Type ℓ} → Datum D → SerializationType
get_serialization_type (integral _) = integer
get_serialization_type (floating _) = double
get_serialization_type (text _) = string
get_serialization_type (character _) = nil
get_serialization_type other_type = nil

-- Each branch is compiled for the types that take it only.
abbrev pub serialize {ℓ} : {D : Type ℓ} → (D → Bytes) → Bytes → Datum D → Bytes
serialize representation buffer (integral value) = serialize_integer buffer value
serialize representation buffer (floating value) = serialize_double representation buffer value
serialize representation buffer (text str) = serialize_string buffer str
serialize representation buffer (character _) = serialize_nil buffer
serialize representation buffer other_type = serialize_nil buffer

-- `buffer.empty() || buffer[0] != static_cast<uint8_t>(type)`
abbrev pub is_not : SerializationType → Bytes → Bool
is_not type [] = true
is_not type (b ∷ buffer) = not (b == tag type)

-- The `size` bytes after the word at `at`, which holds the size.
abbrev pub sized : ℕ → Bytes → Outcome Bytes
sized at buffer =
    let size = load_u32 (drop at buffer) in
    if ltb (length buffer) (at + 4)
    then fault out_of_bounds
    else if ltb (length buffer) (at + 4 + size)
    then fault out_of_bounds
    else ret (take size (drop (at + 4) buffer))

unfoldable pub deserialize_string : Bytes → Outcome Bytes
deserialize_string buffer = if is_not string buffer then ret [] else sized 1 buffer

abbrev pub deserialize_nil : Bytes → Bool
deserialize_nil buffer = not (is_not nil buffer)

unfoldable pub deserialize_integer : Bytes → Outcome ℤ
deserialize_integer buffer =
    if is_not integer buffer
    then ret (negsuc 0)
    else if ltb (length buffer) 9
    then fault out_of_bounds
    else ret (load_i64 (drop 1 buffer))

-- `"No error"`
abbrev pub no_error : Bytes
no_error = 78 ∷ 111 ∷ 32 ∷ 101 ∷ 114 ∷ 114 ∷ 111 ∷ 114 ∷ []

unfoldable pub deserialize_error : Bytes → Outcome Bytes
deserialize_error buffer = if is_not error buffer then ret no_error else sized 5 buffer

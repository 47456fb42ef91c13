-- ===== src/ResponseSerializer/RoundTrip.antt =====
-- response_serializer.hpp: what `deserialize_string` and `deserialize_error` read back.
use vector_db.Prelude.{
  ℕ, ◌+◌, ◌%◌, ◌^◌, ◌<◌, ◌≡◌, refl, ap, ◌∙◌, [], ◌++◌, arith, false, ltb, length, length-append,
  drop, ℤ, pos, negsuc, take-length_append,
}
use vector_db.Prelude.Outcome.{ret}
use vector_db.Bytes.{Bytes, load_u32, store_u32, load_u32-store}
use vector_db.ResponseSerializer.{
  sized, serialize_string, serialize_error, deserialize_string, deserialize_error,
}

-- The bytes of `s` after its size, from the byte at `at`.
sized-store :
    (at : ℕ) (buffer s rest : Bytes)
    → drop at buffer ≡ store_u32 (length s % 2 ^ 32) ++ s ++ rest
    → drop (at + 4) buffer ≡ s ++ rest
    → length buffer ≡ at + 4 + length (s ++ rest)
    → length s < 2 ^ 32
    → sized at buffer ≡ ret s
sized-store at buffer s rest word text size small =
    let more = length-append s rest in
    let read : load_u32 (drop at buffer) ≡ length s =
      ap load_u32 word
      ∙ load_u32-store (length s % 2 ^ 32) (s ++ rest) (omega arith)
      ∙ omega arith in
    let headed : ltb (length buffer) (at + 4) ≡ false = ground arith in
    let whole : ltb (length buffer) (at + 4 + length s) ≡ false = ground arith in
    rw (headed, read, whole, text, take-length_append s rest) refl

-- A string shorter than 2^32 bytes reads back from its serialized form, whatever follows it.
deserialize_string-serialize :
    (s rest : Bytes)
    → length s < 2 ^ 32
    → deserialize_string (serialize_string [] s ++ rest) ≡ ret s
unfolding deserialize_string serialize_string
deserialize_string-serialize s rest small =
    sized-store 1 (serialize_string [] s ++ rest) s rest refl refl (omega arith) small

-- A message shorter than 2^32 bytes reads back from the serialized error, whatever the code is and
-- whatever follows it.
deserialize_error-serialize :
    (code : ℤ) (msg rest : Bytes)
    → length msg < 2 ^ 32
    → deserialize_error (serialize_error [] code msg ++ rest) ≡ ret msg
unfolding deserialize_error serialize_error
deserialize_error-serialize (pos n) msg rest small =
    sized-store 5 (serialize_error [] (pos n) msg ++ rest) msg rest refl refl (omega arith) small
deserialize_error-serialize (negsuc n) msg rest small =
    sized-store 5 (serialize_error [] (negsuc n) msg ++ rest) msg rest refl refl (omega arith) small

-- A string and an error message, each shorter than 2^32 bytes, read back from their serialized forms,
-- whatever the code of the error is and whatever follows them.
pub deserialize-serialize_texts :
    (s msg rest : Bytes) (code : ℤ)
    → length s < 2 ^ 32
    → length msg < 2 ^ 32
    → (deserialize_string (serialize_string [] s ++ rest) ≡ ret s)
      × (deserialize_error (serialize_error [] code msg ++ rest) ≡ ret msg)
deserialize-serialize_texts s msg rest code small short =
    (deserialize_string-serialize s rest small, deserialize_error-serialize code msg rest short)

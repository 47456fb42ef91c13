-- ===== src/ResponseSerializer/Tests.antt =====
-- Runs of response_serializer.hpp on small inputs.
use vector_db.Prelude.{◌≡◌, refl, arith, [], ◌∷◌, ◌++◌, drop, negsuc}
use vector_db.Prelude.Outcome.{ret, fault, out_of_bounds}
use vector_db.Bytes.{Bytes}
use vector_db.ResponseSerializer.{
  serialize_string, serialize_error, serialize_integer, deserialize_string, deserialize_error,
  deserialize_integer,
}
use vector_db.ResponseSerializer.RoundTrip.{deserialize-serialize_texts}
use vector_db.ResponseSerializer.Decimal.{
  read_integer, serialize_integer-decimal, deserialize_integer-serialize,
}

-- `OK`
abbrev okay : Bytes
okay = 79 ∷ 75 ∷ []

serialize_okay : serialize_string [] okay ≡ 2 ∷ 2 ∷ 0 ∷ 0 ∷ 0 ∷ 79 ∷ 75 ∷ []
unfolding serialize_string
serialize_okay = refl

-- The code -2 in two's complement.
serialize_failed :
    serialize_error [] (negsuc 1) okay ≡ 1 ∷ 254 ∷ 255 ∷ 255 ∷ 255 ∷ 2 ∷ 0 ∷ 0 ∷ 0 ∷ 79 ∷ 75 ∷ []
unfolding serialize_error
serialize_failed = refl

serialize_minus_two : serialize_integer [] (negsuc 1) ≡ 3 ∷ 45 ∷ 50 ∷ 13 ∷ 10 ∷ []
unfolding serialize_integer
serialize_minus_two = refl

deserialize-serialize_texts_example :
    (deserialize_string (serialize_string [] okay ++ 7 ∷ []) ≡ ret okay)
    × (deserialize_error (serialize_error [] (negsuc 1) okay ++ 7 ∷ []) ≡ ret okay)
deserialize-serialize_texts_example =
    deserialize-serialize_texts okay okay (7 ∷ []) (negsuc 1) (omega arith) (omega arith)

serialize_integer-decimal_example :
    read_integer (drop 1 (serialize_integer [] (negsuc 1204))) ≡ (negsuc 1204, 13 ∷ 10 ∷ [])
serialize_integer-decimal_example = serialize_integer-decimal (negsuc 1204)

deserialize_integer-serialize_example :
    deserialize_integer (serialize_integer [] (negsuc 1204)) ≡ fault out_of_bounds
deserialize_integer-serialize_example = deserialize_integer-serialize (negsuc 1204) (omega arith)

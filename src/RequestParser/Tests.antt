-- ===== src/RequestParser/Tests.antt =====
-- Runs of request_parser.hpp's `parse` on small inputs.
use vector_db.Prelude.{◌≡◌, ◌≢◌, ◌<◌, ◌^◌, ◌⊎◌, refl, arith, List, [], ◌∷◌, ◌++◌, length, take}
use vector_db.Prelude.Outcome.{ret}
use vector_db.Bytes.{Bytes, IsBytes}
use vector_db.RequestParser.{Errc, ok, unexpected, message_size, bad_message, parse}
use vector_db.RequestParser.Encoding.{encode, encode_strings}
use vector_db.RequestParser.RoundTrip.{parse-encode, parse-take}
use vector_db.RequestParser.Sound.{parse-decides}

-- `GET` and the key `k`.
abbrev get_k : List Bytes
get_k = (71 ∷ 69 ∷ 84 ∷ []) ∷ (107 ∷ []) ∷ []

-- The request of `get_k`, byte by byte, and a byte of the next one.
abbrev request : Bytes
request = 0 ∷ 0 ∷ 0 ∷ 12 ∷ 0 ∷ 0 ∷ 0 ∷ 3 ∷ 71 ∷ 69 ∷ 84 ∷ 0 ∷ 0 ∷ 0 ∷ 1 ∷ 107 ∷ 9 ∷ []

request-IsBytes : IsBytes request
request-IsBytes = ground arith

parse-request : parse request ≡ ret (ok get_k)
unfolding parse
parse-request = refl

-- The second length reaches past the payload.
parse_beyond :
    parse (0 ∷ 0 ∷ 0 ∷ 6 ∷ 0 ∷ 0 ∷ 0 ∷ 3 ∷ 71 ∷ 69 ∷ 84 ∷ []) ≡ ret (unexpected bad_message)
unfolding parse
parse_beyond = refl

parse-encode_example : parse (encode get_k ++ 9 ∷ []) ≡ ret (ok get_k)
parse-encode_example = parse-encode get_k (9 ∷ []) (omega arith)

parse-take_example : parse (take 11 (encode get_k)) ≡ ret (unexpected message_size)
parse-take_example = parse-take get_k 11 (omega arith) (omega arith)

parse-decides_example :
    ((ss : List Bytes) × (rest : Bytes) × (encode ss ++ rest ≡ request)
      × (length (encode_strings ss) < 2 ^ 32)
      × (parse request ≡ ret (ok ss)))
    ⊎ ((e : Errc) × (parse request ≡ ret (unexpected e))
        × ((ss : List Bytes) (rest : Bytes)
            → length (encode_strings ss) < 2 ^ 32
            → encode ss ++ rest ≢ request))
parse-decides_example = parse-decides request request-IsBytes

-- ===== src/RequestParser/Encoding.antt =====
-- The request format that the comment of request_parser.hpp's `parse` describes, as a function.
use vector_db.Prelude.{List, [], ◌∷◌, ◌++◌, length}
use vector_db.Bytes.{Bytes, big_endian}

-- Each string after its length.
abbrev pub encode_strings : List Bytes → Bytes
encode_strings [] = []
encode_strings (s ∷ ss) = big_endian (length s) ++ s ++ encode_strings ss

-- The payload after its length.
abbrev pub encode : List Bytes → Bytes
encode ss = big_endian (length (encode_strings ss)) ++ encode_strings ss

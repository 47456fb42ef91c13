-- ===== src/RequestParser.antt =====
-- request_parser.hpp: `RequestParser::parse`. A `std::span` is the list of its bytes, a `std::string` too,
-- and a pointer into the span is the list of the bytes from it to the end.
pub mod Encoding
pub mod RoundTrip
pub mod Sound
mod Tests
use vector_db.Prelude.{
  ℕ, zero, suc, ◌+◌, ◌%◌, ◌^◌, List, [], ◌∷◌, ◌++◌, Bool, true, false, ltb, if◌then◌else◌, length,
  take, drop,
}
use vector_db.Prelude.Outcome.{Outcome, ret, fault, out_of_fuel}
use vector_db.Bytes.{Bytes, load_u32, bswap32}

-- The values of `std::errc` that the program uses.
pub data Errc : Type 0 where
  message_size bad_message io_error connection_reset : Errc

-- `Result<T>`, an `std::expected`.
pub data Result {ℓ} (A : Type ℓ) : Type ℓ where
  ok : A → Result A
  unexpected : Errc → Result A

-- `memcpy` of a `uint32_t`, and `__builtin_bswap32`.
abbrev pub read_length : Bytes → ℕ
read_length bs = bswap32 (load_u32 bs)

-- The loop `while (pos < end)`, with the bytes from `pos` to `end`.
unfoldable pub parse_strings : ℕ → Bytes → List Bytes → Outcome (Result (List Bytes))
parse_strings zero bs cmd = fault out_of_fuel
parse_strings (suc fuel) [] cmd = ret (ok cmd)
parse_strings (suc fuel) (b ∷ bs) cmd =
    let str_len = read_length (b ∷ bs) in
    let rest = drop 4 (b ∷ bs) in
    elim (ltb (length (b ∷ bs)) 4) [
      | true ↦ ret (unexpected bad_message)
      | false ↦ elim (ltb (length rest % 2 ^ 32) str_len) [
        | true ↦ ret (unexpected bad_message)
        | false ↦ parse_strings fuel (drop str_len rest) (cmd ++ take str_len rest ∷ [])
      ]
    ]

unfoldable pub parse : Bytes → Outcome (Result (List Bytes))
unfolding parse_strings
parse data_ =
    let len = read_length data_ in
    if ltb (length data_) 4
    then ret (unexpected message_size)
    else if ltb (length data_) (4 + len)
    then ret (unexpected message_size)
    else parse_strings (suc len) (take len (drop 4 data_)) []

-- ===== src/RequestParser/RoundTrip.antt =====
-- request_parser.hpp's `parse` on an encoded request, whole or cut short.
use vector_db.Prelude.{
  ℕ, zero, suc, ◌+◌, ◌%◌, ◌^◌, ◌<◌, ◌≤◌, ◌≡◌, refl, sym, ap, ◌∙◌, List, [], ◌∷◌, ◌++◌, arith, true,
  false, ltb, length, length-append, length-take, take, take-length_append, drop-length_append,
  append_assoc, append-nil,
}
use vector_db.Prelude.Outcome.{ret}
use vector_db.Bytes.{Bytes, big_endian, bswap32-load}
use vector_db.RequestParser.{ok, unexpected, message_size, read_length, parse_strings, parse}
use vector_db.RequestParser.Encoding.{encode_strings, encode}

-- A word of the payload is compared with the `uint32_t` of what is left.
fits : (n m : ℕ) → n ≤ m → m < 2 ^ 32 → ltb (m % 2 ^ 32) n ≡ false
fits n m h small = ground arith

-- One round of the loop, from a string with its length in front.
round :
    (fuel : ℕ) (s rest : Bytes) (cmd : List Bytes)
    → length (s ++ rest) < 2 ^ 32
    → parse_strings (suc fuel) (big_endian (length s) ++ s ++ rest) cmd
      ≡ parse_strings fuel rest (cmd ++ s ∷ [])
unfolding parse_strings
round fuel s rest cmd small =
    let more = length-append s rest in
    let read : read_length (big_endian (length s) ++ s ++ rest) ≡ length s =
      bswap32-load (length s) (s ++ rest) (omega arith) in
    let whole : ltb (length (big_endian (length s) ++ s ++ rest)) 4 ≡ false = ground arith in
    rw
      (
        parse_strings,
        whole,
        read,
        fits (length s) (length (s ++ rest)) (omega arith) small,
        read,
        take-length_append s rest,
        drop-length_append s rest,
      )
      refl

pub parse_strings-encode :
    (ss : List Bytes) (fuel : ℕ) (cmd : List Bytes)
    → length (encode_strings ss) < fuel
    → length (encode_strings ss) < 2 ^ 32
    → parse_strings fuel (encode_strings ss) cmd ≡ ret (ok (cmd ++ ss))
unfolding parse_strings
parse_strings-encode ss zero cmd enough small = absurd (omega arith)
parse_strings-encode [] (suc fuel) cmd enough small = ap (λ x. ret (ok x)) (sym (append-nil cmd))
parse_strings-encode (s ∷ ss) (suc fuel) cmd enough small =
    let more = length-append s (encode_strings ss) in
    round fuel s (encode_strings ss) cmd (omega arith)
    ∙ parse_strings-encode ss fuel (cmd ++ s ∷ []) (omega arith) (omega arith)
    ∙ ap (λ x. ret (ok x)) (append_assoc cmd (s ∷ []) ss)

-- The encoding of strings whose payload is shorter than 2^32 bytes parses to the strings, whatever
-- follows it.
pub parse-encode :
    (ss : List Bytes) (rest : Bytes)
    → length (encode_strings ss) < 2 ^ 32
    → parse (encode ss ++ rest) ≡ ret (ok ss)
unfolding parse
parse-encode ss rest small =
    let body = encode_strings ss in
    let more = length-append body rest in
    let read : read_length (big_endian (length body) ++ body ++ rest) ≡ length body =
      bswap32-load (length body) (body ++ rest) small in
    let long : ltb (length (big_endian (length body) ++ body ++ rest)) 4 ≡ false = ground arith in
    let whole : ltb (length (big_endian (length body) ++ body ++ rest)) (4 + length body) ≡ false =
      ground arith in
    rw (long, read, whole, take-length_append body rest)
      (parse_strings-encode ss (suc (length body)) [] (omega arith) small)

-- An encoding of strings whose payload is shorter than 2^32 bytes, cut short anywhere, is
-- `message_size`.
pub parse-take :
    (ss : List Bytes) (n : ℕ)
    → length (encode_strings ss) < 2 ^ 32
    → n < length (encode ss)
    → parse (take n (encode ss)) ≡ ret (unexpected message_size)
unfolding parse
parse-take ss zero small cut = refl
parse-take ss (suc zero) small cut = refl
parse-take ss (suc (suc zero)) small cut = refl
parse-take ss (suc (suc (suc zero))) small cut = refl
parse-take ss (suc (suc (suc (suc n)))) small cut =
    let body = encode_strings ss in
    let some_left = length-take n body in
    let read : read_length (big_endian (length body) ++ take n body) ≡ length body =
      bswap32-load (length body) (take n body) small in
    let long : ltb (length (big_endian (length body) ++ take n body)) 4 ≡ false = ground arith in
    let less : ltb (length (big_endian (length body) ++ take n body)) (4 + length body) ≡ true =
      ground arith in
    rw (long, read, less) refl

-- ===== src/RequestParser/Sound.antt =====
-- request_parser.hpp's `parse` on any bytes: what it accepts is an encoded request.
use vector_db.Prelude.{
  ℕ, zero, suc, ◌+◌, ◌%◌, ◌^◌, ◌<◌, ◌≤◌, ◌≡◌, ◌≢◌, refl, sym, ap, ◌∙◌, ◌⊎◌, inl, inr, List, [], ◌∷◌,
  ◌++◌, arith, ltb, ltb-false→le, Bool-cases, length, length-drop, length-take, take, drop,
  take-drop_append, All-take, All-drop, append_assoc, append-nil,
}
use vector_db.Prelude.Outcome.{Outcome, ret}
use vector_db.Bytes.{Bytes, IsBytes, big_endian, big_endian-bswap32, bswap32-lt}
use vector_db.RequestParser.{
  Errc, message_size, bad_message, Result, ok, unexpected, read_length, parse_strings, parse,
}
use vector_db.RequestParser.Encoding.{encode_strings, encode}
use vector_db.RequestParser.RoundTrip.{parse-encode}

-- A payload is the strings that are parsed from it.
abbrev Decodes : ℕ → Bytes → List Bytes → Type 0
Decodes fuel bs cmd =
    ((ss : List Bytes) × (encode_strings ss ≡ bs)
      × (parse_strings fuel bs cmd ≡ ret (ok (cmd ++ ss))))
    ⊎ (parse_strings fuel bs cmd ≡ ret (unexpected bad_message))

-- The bytes are a length, as many bytes as it says, and what follows.
split_at_length :
    (bs : Bytes)
    → IsBytes bs
    → 4 ≤ length bs
    → read_length bs ≤ length (drop 4 bs)
    → big_endian (length (take (read_length bs) (drop 4 bs)))
        ++ take (read_length bs) (drop 4 bs)
        ++ drop (read_length bs) (drop 4 bs)
      ≡ bs
split_at_length bs bytes four inside =
    let n = read_length bs in
    let taken : length (take n (drop 4 bs)) ≡ n = omega (arith, length-take n (drop 4 bs)) in
    rw (taken, take-drop_append n (drop 4 bs)) (big_endian-bswap32 bs bytes four)

parse_strings-Decodes :
    (fuel : ℕ) (bs : Bytes) (cmd : List Bytes)
    → IsBytes bs
    → length bs < fuel
    → length bs < 2 ^ 32
    → Decodes fuel bs cmd
unfolding parse_strings
parse_strings-Decodes zero bs cmd bytes enough small = absurd (omega arith)
parse_strings-Decodes (suc fuel) [] cmd bytes enough small =
    inl ([], refl, ap (λ x. ret (ok x)) (sym (append-nil cmd)))
parse_strings-Decodes (suc fuel) (b ∷ bs) cmd bytes enough small =
    let rest = drop 4 (b ∷ bs) in
    let n = read_length (b ∷ bs) in
    let left = length-drop 4 (b ∷ bs) in
    let later = length-drop n rest in
    elim (Bool-cases (ltb (length (b ∷ bs)) 4)) [
      | inl short ↦ inr (rw (parse_strings, short) refl)
      | inr long ↦ elim (Bool-cases (ltb (length rest % 2 ^ 32) n)) [
        | inl beyond ↦ inr (rw (parse_strings, long, beyond) refl)
        | inr inside ↦
            elim (parse_strings-Decodes fuel (drop n rest) (cmd ++ take n rest ∷ [])
              (All-drop _ n rest (All-drop _ 4 (b ∷ bs) bytes)) (omega arith) (omega arith)) [
                | inl (ss, whole, ran) ↦ inl (
                  take n rest ∷ ss,
                  ap (λ z. big_endian (length (take n rest)) ++ take n rest ++ z) whole
                      ∙ split_at_length (b ∷ bs) bytes (ltb-false→le _ _ long) (ground arith),
                  rw (parse_strings, long, inside) ran
                      ∙ ap (λ x. ret (ok x)) (append_assoc cmd (take n rest ∷ []) ss),
                )
                | inr failed ↦ inr (rw (parse_strings, long, inside) failed)
              ]
      ]
    ]

refused :
    (bytes : Bytes) (e : Errc)
    → parse bytes ≡ ret (unexpected e)
    → (ss : List Bytes) (rest : Bytes) → length (encode_strings ss) < 2 ^ 32
    → encode ss ++ rest ≢ bytes
refused bytes e failed ss rest small same =
    let both : ◌≡◌ {A = Outcome (Result (List Bytes))} (ret (ok ss)) (ret (unexpected e)) =
      sym (parse-encode ss rest small) ∙ ap parse same ∙ failed in
    absurd (cc both)

-- On any bytes, `parse` returns: the strings, where the bytes begin with an encoding of strings with a
-- payload shorter than 2^32 bytes, and an error where they begin with none.
pub parse-decides :
    (bytes : Bytes)
    → IsBytes bytes
    → ((ss : List Bytes) × (rest : Bytes) × (encode ss ++ rest ≡ bytes)
        × (length (encode_strings ss) < 2 ^ 32)
        × (parse bytes ≡ ret (ok ss)))
      ⊎ ((e : Errc) × (parse bytes ≡ ret (unexpected e))
          × ((ss : List Bytes) (rest : Bytes)
              → length (encode_strings ss) < 2 ^ 32
              → encode ss ++ rest ≢ bytes))
unfolding parse
parse-decides bytes wide =
    let len = read_length bytes in
    let payload = drop 4 bytes in
    let left = length-drop 4 bytes in
    let taken = length-take len payload in
    elim (Bool-cases (ltb (length bytes) 4)) [
      | inl short ↦
          let failed : parse bytes ≡ ret (unexpected message_size) = rw short refl in
          inr (message_size, failed, refused bytes message_size failed)
      | inr long ↦ elim (Bool-cases (ltb (length bytes) (4 + len))) [
        | inl cut ↦
            let failed : parse bytes ≡ ret (unexpected message_size) = rw (long, cut) refl in
            inr (message_size, failed, refused bytes message_size failed)
        | inr whole ↦
            elim (parse_strings-Decodes (suc len) (take len payload) []
              (All-take _ len payload (All-drop _ 4 bytes wide)) (omega arith)
              (omega (arith, bswap32-lt bytes))) [
                | inl (ss, read, ran) ↦ inl (
                  ss,
                  drop len payload,
                  ap (λ z. (big_endian (length z) ++ z) ++ drop len payload) read
                      ∙ split_at_length bytes wide (ltb-false→le _ _ long) (ground arith),
                  omega (arith, ap length read, taken, bswap32-lt bytes),
                  rw (long, whole) ran,
                )
                | inr wrong ↦
                    let failed : parse bytes ≡ ret (unexpected bad_message) =
                      rw (long, whole) wrong in
                    inr (bad_message, failed, refused bytes bad_message failed)
              ]
      ]
    ]

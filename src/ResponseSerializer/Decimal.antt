-- ===== src/ResponseSerializer/Decimal.antt =====
-- response_serializer.hpp: the text that `serialize_integer` writes, and what `deserialize_integer` makes
-- of it.
use vector_db.Prelude.{
  ℕ, zero, suc, ◌+◌, ◌-◌, ◌*◌, ◌/◌, ◌%◌, ◌<◌, ◌≤◌, ◌≡◌, refl, sym, ap, ◌∙◌, inl, inr, [], ◌∷◌, ◌++◌,
  arith, true, false, ltb, ltb→lt, lt→ltb, ltb-false→le, Bool-cases, if◌then◌else◌, ◌&&◌, leb,
  length, length-append, ℤ, pos, negsuc, drop, append_assoc, ◌==◌,
}
use vector_db.Prelude.Outcome.{fault, out_of_bounds}
use vector_db.Bytes.{Bytes}
use vector_db.ResponseSerializer.{digits, serialize_integer, deserialize_integer}

-- A reader of the text: the digits up to the first byte that is none, after the value `acc`.
abbrev pub read_digits : ℕ → Bytes → ℕ × Bytes
read_digits acc [] = (acc, [])
read_digits acc (b ∷ bs) =
    let later = read_digits (acc * 10 + (b - 48)) bs in
    elim (leb 48 b && leb b 57) [ true ↦ later | false ↦ (acc, b ∷ bs) ]

-- A sign and digits, and what follows them.
abbrev pub read_integer : Bytes → ℤ × Bytes
read_integer [] = (pos 0, [])
read_integer (b ∷ bs) =
    if b == 45
    then (negsuc ((read_digits 0 bs).0 - 1), (read_digits 0 bs).1)
    else (pos (read_digits 0 (b ∷ bs)).0, (read_digits 0 (b ∷ bs)).1)

read_digit :
    (acc d : ℕ) (rest : Bytes)
    → d < 10
    → read_digits acc ((48 + d) ∷ rest) ≡ read_digits (acc * 10 + d) rest
read_digit acc d rest h =
    let low : leb 48 (48 + d) ≡ true = ground arith in
    let high : leb (48 + d) 57 ≡ true = ground arith in
    let same : 48 + d - 48 ≡ d = omega arith in rw (read_digits, low, high, same) refl

digits_one : (fuel n : ℕ) → n < 10 → digits (suc fuel) n ≡ (48 + n) ∷ []
unfolding digits
digits_one fuel n h = rw (digits, lt→ltb n 10 h) refl

digits_more :
    (fuel n : ℕ)
    → ltb n 10 ≡ false
    → digits (suc fuel) n ≡ digits fuel (n / 10) ++ (48 + n % 10) ∷ []
unfolding digits
digits_more fuel n h = rw (digits, h) refl

read_digits-digits :
    (fuel n : ℕ) (rest : Bytes)
    → n ≤ fuel
    → read_digits 0 (digits fuel n ++ rest) ≡ read_digits n rest
unfolding digits
read_digits-digits zero n rest h =
    read_digit 0 (n % 10) rest (omega arith) ∙ ap (λ z. read_digits z rest) (omega arith)
read_digits-digits (suc fuel) n rest h = elim (Bool-cases (ltb n 10)) [
  | inl small ↦
      ap (λ z. read_digits 0 (z ++ rest)) (digits_one fuel n (ltb→lt n 10 small))
      ∙ read_digit 0 n rest (ltb→lt n 10 small)
      ∙ ap (λ z. read_digits z rest) (omega arith)
  | inr large ↦
      let ten = ltb-false→le n 10 large in
      ap (λ z. read_digits 0 (z ++ rest)) (digits_more fuel n large)
      ∙ ap (read_digits 0) (append_assoc (digits fuel (n / 10)) ((48 + n % 10) ∷ []) rest)
      ∙ read_digits-digits fuel (n / 10) ((48 + n % 10) ∷ rest) (omega arith)
      ∙ read_digit (n / 10) (n % 10) rest (omega arith)
      ∙ ap (λ z. read_digits z rest) (omega arith)
]

-- The first byte is a digit, so no sign.
digits-head : (fuel n : ℕ) → (b : ℕ) × (bs : Bytes) × (digits fuel n ≡ b ∷ bs) × (48 ≤ b)
unfolding digits
digits-head zero n = (48 + n % 10, [], refl, omega arith)
digits-head (suc fuel) n = elim (Bool-cases (ltb n 10)) [
  | inl small ↦ (48 + n, [], digits_one fuel n (ltb→lt n 10 small), omega arith)
  | inr large ↦
      let (b, bs, shape, digit) = digits-head fuel (n / 10) in
      (
        b,
        bs ++ (48 + n % 10) ∷ [],
        digits_more fuel n large ∙ ap (λ z. z ++ (48 + n % 10) ∷ []) shape,
        digit,
      )
]

abbrev line_end : Bytes
line_end = 13 ∷ 10 ∷ []

-- After the tag, `serialize_integer` writes a text that reads as the value in decimal, up to the line end.
pub serialize_integer-decimal :
    (value : ℤ) → read_integer (drop 1 (serialize_integer [] value)) ≡ (value, 13 ∷ 10 ∷ [])
unfolding serialize_integer
serialize_integer-decimal (pos n) =
    let (b, bs, shape, digit) = digits-head n n in
    let first : read_digits 0 ((b ∷ bs) ++ line_end) ≡ (n, line_end) =
      ap (λ z. read_digits 0 (z ++ line_end)) (sym shape)
      ∙ read_digits-digits n n line_end (omega arith) in
    let unsigned : (b == 45) ≡ false = ground arith in
    ap (λ z. read_integer (z ++ line_end)) shape
    ∙ rw (read_integer, unsigned) (ap (λ (r : ℕ × Bytes). (pos r.0, r.1)) first)
serialize_integer-decimal (negsuc n) =
    ap (λ (r : ℕ × Bytes). (negsuc (r.0 - 1), r.1))
      (read_digits-digits (suc n) (suc n) line_end (omega arith))
    ∙ ap (λ z. (negsuc z, line_end)) (omega arith)

abbrev pow10 : ℕ → ℕ
pow10 zero = 1
pow10 (suc k) = 10 * pow10 k

length-digits : (fuel n k : ℕ) → n ≤ fuel → n < pow10 (suc k) → length (digits fuel n) ≤ suc k
unfolding digits
length-digits zero n k h small = omega arith
length-digits (suc fuel) n zero h small = omega (arith, ap length (digits_one fuel n small))
length-digits (suc fuel) n (suc k) h small = elim (Bool-cases (ltb n 10)) [
  | inl few ↦ omega (arith, ap length (digits_one fuel n (ltb→lt n 10 few)))
  | inr large ↦
      let shorter =
        length-digits fuel (n / 10) k (omega (arith, ltb-false→le n 10 large)) (omega arith) in
      omega (
        arith,
        ap length (digits_more fuel n large),
        length-append (digits fuel (n / 10)) ((48 + n % 10) ∷ []),
      )
]

-- The decimal text has at most five bytes, its sign counted.
abbrev pub IsShort : ℤ → Type 0
IsShort (pos n) = n < 100000
IsShort (negsuc n) = n + 1 < 10000

-- A number whose decimal text has at most five bytes, its sign counted, is not read back from its
-- serialized form: `deserialize_integer` reads eight bytes after the tag, beyond the end of the buffer.
pub deserialize_integer-serialize :
    (value : ℤ)
    → IsShort value
    → deserialize_integer (serialize_integer [] value) ≡ fault out_of_bounds
unfolding serialize_integer deserialize_integer
deserialize_integer-serialize (pos n) few =
    let short = length-digits n n 4 (omega arith) (omega arith) in
    let total = length-append (digits n n) line_end in
    let outside : ltb (suc (length (digits n n ++ line_end))) 9 ≡ true = ground arith in
    rw outside refl
deserialize_integer-serialize (negsuc n) few =
    let short = length-digits (suc n) (suc n) 3 (omega arith) (omega arith) in
    let total = length-append (digits (suc n) (suc n)) line_end in
    let outside : ltb (suc (suc (length (digits (suc n) (suc n) ++ line_end)))) 9 ≡ true =
      ground arith in
    rw outside refl

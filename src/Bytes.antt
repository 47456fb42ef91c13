-- ===== src/Bytes.antt =====
-- Bytes and machine words: the little-endian layout in which the code's `memcpy` sees a `uint32_t` (the
-- byte order of the machines that the program is built for), and `__builtin_bswap32`.
use Prim.Native.Char.{code}
use Prim.Native.String.{String}
use vector_db.Prelude.{
  ℤ, pos, negsuc, ltb, if◌then◌else◌, ◌-◌, ℕ, ◌+◌, ◌*◌, ◌/◌, ◌%◌, ◌^◌, ◌<◌, ◌≤◌, ◌≡◌, refl, ◌∙◌,
  List, [], ◌∷◌, ◌++◌, arith, All, get_or, length, drop,
}

abbrev pub Bytes : Type 0
Bytes = List ℕ

abbrev pub IsBytes : Bytes → Type 0
IsBytes bs = All (λ b. b < 256) bs

-- The bytes of a text literal in ASCII.
abbrev pub ascii : String → Bytes
ascii String.[] = []
ascii (String.◌∷◌ c s) = code c ∷ ascii s

abbrev pub little : ℕ → ℕ → ℕ → ℕ → ℕ
little a b c d = a + 256 * b + 65536 * c + 16777216 * d

-- `memcpy(&x, bs, sizeof(uint32_t))`
abbrev pub load_u32 : Bytes → ℕ
load_u32 bs = little (get_or bs 0 0) (get_or bs 1 0) (get_or bs 2 0) (get_or bs 3 0)

abbrev pub bswap32 : ℕ → ℕ
bswap32 x = little (x / 16777216 % 256) (x / 65536 % 256) (x / 256 % 256) (x % 256)

-- The object representation of a `uint32_t`, and of an `int32_t` in two's complement.
abbrev pub store_u32 : ℕ → Bytes
store_u32 x = (x % 256) ∷ (x / 256 % 256) ∷ (x / 65536 % 256) ∷ (x / 16777216 % 256) ∷ []

abbrev pub store_i32 : ℤ → Bytes
store_i32 (pos n) = store_u32 n
store_i32 (negsuc n) = store_u32 (2 ^ 32 - 1 - n % 2 ^ 32)

-- `memcpy(&x, bs, sizeof(int64_t))`
abbrev pub load_i64 : Bytes → ℤ
load_i64 bs =
    let word = load_u32 bs + 2 ^ 32 * load_u32 (drop 4 bs) in
    if ltb word (2 ^ 63) then pos word else negsuc (2 ^ 64 - 1 - word)

-- The four bytes of a `uint32_t` in network order.
abbrev pub big_endian : ℕ → Bytes
big_endian x = (x / 16777216 % 256) ∷ (x / 65536 % 256) ∷ (x / 256 % 256) ∷ (x % 256) ∷ []

little-digits :
    (x : ℕ)
    → x < 2 ^ 32
    → little (x % 256) (x / 256 % 256) (x / 65536 % 256) (x / 16777216 % 256) ≡ x
little-digits x h = omega arith

module _ (a b c d : ℕ) (ha : a < 256) (hb : b < 256) (hc : c < 256) (hd : d < 256) where
  little_byte0 : little a b c d % 256 ≡ a
  little_byte0 = omega arith

  little_byte1 : little a b c d / 256 % 256 ≡ b
  little_byte1 = omega arith

  little_byte2 : little a b c d / 65536 % 256 ≡ c
  little_byte2 = omega arith

  little_byte3 : little a b c d / 16777216 % 256 ≡ d
  little_byte3 = omega arith

  bswap32-little : bswap32 (little a b c d) ≡ little d c b a
  bswap32-little = omega (arith, little_byte0, little_byte1, little_byte2, little_byte3)

pub load_u32-store : (x : ℕ) (rest : Bytes) → x < 2 ^ 32 → load_u32 (store_u32 x ++ rest) ≡ x
load_u32-store x rest h = little-digits x h

pub bswap32-load :
    (x : ℕ) (rest : Bytes) → x < 2 ^ 32 → bswap32 (load_u32 (big_endian x ++ rest)) ≡ x
bswap32-load x rest h =
    bswap32-little (x / 16777216 % 256) (x / 65536 % 256) (x / 256 % 256) (x % 256) (omega arith)
      (omega arith) (omega arith) (omega arith)
    ∙ little-digits x h

-- Four bytes in front are the word that is read from them.
pub big_endian-bswap32 :
    (bs : Bytes) → IsBytes bs → 4 ≤ length bs → big_endian (bswap32 (load_u32 bs)) ++ drop 4 bs ≡ bs
big_endian-bswap32 (a ∷ b ∷ c ∷ d ∷ rest) (ha, (hb, (hc, (hd, h)))) four =
    rw
      (
        bswap32-little a b c d ha hb hc hd,
        little_byte0 d c b a hd hc hb ha,
        little_byte1 d c b a hd hc hb ha,
        little_byte2 d c b a hd hc hb ha,
        little_byte3 d c b a hd hc hb ha,
      )
      refl
big_endian-bswap32 [] h four = absurd (omega arith)
big_endian-bswap32 (a ∷ []) h four = absurd (omega arith)
big_endian-bswap32 (a ∷ b ∷ []) h four = absurd (omega arith)
big_endian-bswap32 (a ∷ b ∷ c ∷ []) h four = absurd (omega arith)

pub bswap32-lt : (bs : Bytes) → bswap32 (load_u32 bs) < 2 ^ 32
bswap32-lt bs = omega arith

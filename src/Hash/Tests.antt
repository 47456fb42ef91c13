-- ===== src/Hash/Tests.antt =====
-- Published FNV-1a values, and the hashing of short and long keys.
use vector_db.Prelude.{ℕ, ◌^◌, ◌<◌, ◌≡◌, refl, List, [], ◌∷◌}
use vector_db.Hash.{hash_key}
use vector_db.Hash.Fnv.{fnv_1a, hash_key-foldl}

abbrev foobar : List ℕ
foobar = b'f' ∷ b'o' ∷ b'o' ∷ b'b' ∷ b'a' ∷ b'r' ∷ []

hash-foobar : hash_key foobar ≡ 0x85944171f73967e8
unfolding hash_key
hash-foobar = refl

hash-a : hash_key (b'a' ∷ []) ≡ 0xaf63dc4c8601ec8c
unfolding hash_key
hash-a = refl

hash_key-foldl_example : (hash_key foobar ≡ fnv_1a foobar) × (hash_key foobar < 2 ^ 64)
hash_key-foldl_example = hash_key-foldl foobar

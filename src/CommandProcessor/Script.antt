-- ===== src/CommandProcessor/Script.antt =====
-- command_processor.hpp: sequences of commands, and the same commands on stacks of texts.
use vector_db.Prelude.{
  ℕ, ◌+◌, ℤ, pos, negsuc, ◌≡◌, Option, none, some, List, [], ◌∷◌, ◌==◌, if◌then◌else◌,
}
use vector_db.Prelude.Outcome.{Outcome, ret, fault, relock, ◌>>=◌}
use vector_db.Bytes.{Bytes, ascii}
use vector_db.Hash.{string_key}
use vector_db.HashTable.Chain.{top}
use vector_db.HashTable.Remove.{without}
use vector_db.HashMap.Calls.{push_at, pop_at}
use vector_db.ResponseSerializer.{
  serialize_nil, serialize_error, serialize_string, serialize_integer,
}
use vector_db.EntryManager.{EntryManager, positive}
use vector_db.CommandProcessor.{
  Numbers, Value, parse_int, parse_double, is_negative, err_arg, err_type, process_command,
}

-- The commands, each with as many arguments as it takes.
pub data Command : Type 0 where
  set_command : Bytes → Bytes → Command
  get_command del_command exists_command pttl_command : Bytes → Command
  flushall_command : Command
  zadd_command : Bytes → Bytes → Bytes → Command
  zrem_command pexpire_command : Bytes → Bytes → Command

unfoldable pub words : Command → List Bytes
words (set_command k v) = ascii "SET" ∷ k ∷ v ∷ []
words (get_command k) = ascii "GET" ∷ k ∷ []
words (del_command k) = ascii "DEL" ∷ k ∷ []
words (exists_command k) = ascii "EXISTS" ∷ k ∷ []
words (pttl_command k) = ascii "PTTL" ∷ k ∷ []
words flushall_command = ascii "FLUSHALL" ∷ []
words (zadd_command k t member) = ascii "ZADD" ∷ k ∷ t ∷ member ∷ []
words (zrem_command k member) = ascii "ZREM" ∷ k ∷ member ∷ []
words (pexpire_command k t) = ascii "PEXPIRE" ∷ k ∷ t ∷ []

-- The number of the entries in the map, and the texts of each key, the newest first.
abbrev pub Texts : Type 0
Texts = ℕ × (Bytes → List Bytes)

-- A reply, and the texts after it.
abbrev pub wrong_type : Bytes
wrong_type = serialize_error [] err_type (ascii "Key holds wrong type\n")

abbrev pub text_or_nil : Option Bytes → Bytes
text_or_nil none = serialize_nil []
text_or_nil (some v) = serialize_string [] v

-- `absent` where the key has no text, and `present` otherwise.
abbrev pub by_key {ℓ} : {A : Type ℓ} → Option Bytes → A → A → A
by_key none absent present = absent
by_key (some v) absent present = present

abbrev pub popped : Bytes → Texts → Texts
popped k (n, f) = (without (top (f k)) n, pop_at f k)

-- A command on the texts. A `SET` of the 33rd entry, and a `ZADD` at a key that is absent, do not return.
-- A key with a text never holds a sorted set.
unfoldable pub text_command {κ} :
    {D : Type κ} → Numbers D → Command → Texts → Outcome (Bytes × Texts)
text_command lib (set_command k v) (n, f) =
    if n == 32 then fault relock else ret (serialize_string [] (ascii "OK"), (n + 1, push_at f k v))
text_command lib (get_command k) (n, f) = ret (text_or_nil (top (f k)), (n, f))
text_command lib (del_command k) (n, f) =
    by_key (top (f k)) (ret (serialize_integer [] (pos 0), (n, f)))
      (ret (serialize_integer [] (pos 1), popped k (n, f)))
text_command lib (exists_command k) (n, f) =
    ret (serialize_integer [] (by_key (top (f k)) (pos 0) (pos 1)), (n, f))
text_command lib (pttl_command k) (n, f) =
    ret (serialize_integer [] (by_key (top (f k)) (negsuc 1) (negsuc 0)), (n, f))
text_command lib flushall_command (n, f) = ret (serialize_integer [] (pos 1), (0, λ _. []))
text_command lib (zadd_command k t member) (n, f) = elim (parse_double lib t) [
  | none ↦ ret (serialize_error [] err_arg (ascii "Invalid score value\n"), (n, f))
  | some score ↦ by_key (top (f k)) (fault relock) (ret (wrong_type, (n, f)))
]
text_command lib (zrem_command k member) (n, f) =
    ret (by_key (top (f k)) (serialize_integer [] (pos 0)) wrong_type, (n, f))
text_command lib (pexpire_command k t) (n, f) =
    let invalid : Outcome (Bytes × Texts) =
      ret (serialize_error [] err_arg (ascii "Invalid TTL value\n"), (n, f)) in
    elim (parse_int lib t) [
      | none ↦ invalid
      | some ttl_ms ↦
          if is_negative ttl_ms
          then invalid
          else by_key (top (f k)) (ret (serialize_integer [] (pos 0), (n, f)))
              (ret (serialize_integer [] (pos 1), popped k (n, f)))
    ]

-- A command that gives no key a time to live.
abbrev pub Untimed {κ} : {D : Type κ} → Numbers D → Command → Type 0
Untimed lib (pexpire_command k t) =
    (ttl_ms : ℤ) → parse_int lib t ≡ some ttl_ms → positive ttl_ms ≡ none
Untimed lib _ = Unit

module _ {κ} {D : Type κ} (lib : Numbers D) where
  -- The replies of commands on one store, each with what the clock shows during it.
  unfoldable pub run : List (ℕ × Command) → EntryManager (Value D) → Outcome (List Bytes)
  run [] m = ret []
  run ((now, c) ∷ cs) m =
      process_command lib now (words c) [] m >>= λ r. run cs r.1 >>= λ replies. ret (r.0 ∷ replies)

  unfoldable pub run_texts : List (ℕ × Command) → Texts → Outcome (List Bytes)
  run_texts [] s = ret []
  run_texts ((now, c) ∷ cs) s =
      text_command lib c s >>= λ r. run_texts cs r.1 >>= λ replies. ret (r.0 ∷ replies)

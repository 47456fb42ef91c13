-- ===== src/CommandProcessor/Dispatch.antt =====
-- command_processor.hpp: which handler `process_command` calls, and what the handlers do with the wrong
-- number of arguments.
use vector_db.Prelude.{
  ℕ, suc, ◌+◌, ◌≡◌, ◌≢◌, refl, false, Option, none, some, List, [], ◌∷◌, map, arith, ◌==◌, length,
  All, Bool-cases, inl, inr,
}
use vector_db.Prelude.Outcome.{ret}
use vector_db.Bytes.{Bytes, ascii}
use vector_db.Hash.{bytes_eq}
use vector_db.ResponseSerializer.{serialize_error}
use vector_db.EntryManager.{EntryManager}
use vector_db.CommandProcessor.{
  Numbers, Value, Handler, to_lower, err_arg, command_handlers, find_handler, call_handler,
  process_command,
}

-- What holds where no handler is found, and at every handler of the table, holds of the search.
pub find_handler-elim {κ μ} :
    {H : Type κ} (P : Option H → Type μ) (key : Bytes) (table : List (Bytes × H))
    → P none
    → All (λ (e : Bytes × H). P (some e.1)) table
    → P (find_handler key table)
find_handler-elim P key [] missing all = missing
find_handler-elim P key ((name, handler) ∷ rest) missing (p, all) =
    elim (Bool-cases (bytes_eq name key)) [
      | inl e ↦ rw (e, find_handler) p
      | inr e ↦ rw (e, find_handler) (find_handler-elim P key rest missing all)
    ]

to_lower_idem : (c : ℕ) → to_lower (to_lower c) ≡ to_lower c
unfolding to_lower
to_lower_idem c = ground arith

map-to_lower_idem : (s : Bytes) → map to_lower (map to_lower s) ≡ map to_lower s
map-to_lower_idem [] = refl
map-to_lower_idem (c ∷ s) = cc (to_lower_idem c, map-to_lower_idem s)

-- The nine commands, with the number of their arguments where the handler tests it.
pub data Command : Type 0 where
  get set del exists zadd zrem flushall pexpire pttl : Command

abbrev pub name : Command → Bytes
name get = ascii "get"
name set = ascii "set"
name del = ascii "del"
name exists = ascii "exists"
name zadd = ascii "zadd"
name zrem = ascii "zrem"
name flushall = ascii "flushall"
name pexpire = ascii "pexpire"
name pttl = ascii "pttl"

abbrev pub Takes : Command → ℕ → Type 0
Takes get n = n ≡ 1
Takes set n = n ≡ 2
Takes del n = n ≡ 1
Takes exists n = n ≡ 1
Takes zadd n = n ≡ 3
Takes zrem n = n ≡ 2
Takes flushall n = Unit
Takes pexpire n = n ≡ 2
Takes pttl n = n ≡ 1

other : (n k : ℕ) → n ≢ k → (suc n == k + 1) ≡ false
other n k h = ground arith

module _ {κ} {D : Type κ} (lib : Numbers D) (now : ℕ) (rest : List Bytes) (response : Bytes)
    (m : EntryManager (Value D)) where
  -- `process_command` does not distinguish upper and lower case in the name of the command.
  pub process_command-to_lower :
      (command : Bytes)
      → process_command lib now (command ∷ rest) response m
        ≡ process_command lib now (map to_lower command ∷ rest) response m
  unfolding process_command
  process_command-to_lower command = rw (map-to_lower_idem command) (
      find_handler-elim
        (λ (found : Option (Handler D)).
          call_handler found (command ∷ rest) response m
          ≡ call_handler found (map to_lower command ∷ rest) response m)
        (map to_lower command) (command_handlers lib now) refl
        (refl, (refl, (refl, (refl, (refl, (refl, (refl, (refl, (refl, tt))))))))))

  -- Any other number of arguments is an error of the code -1, and changes nothing.
  pub process_command-Takes :
      (c : Command) (command : Bytes)
      → map to_lower command ≡ name c
      → ¬ Takes c (length rest)
      → (msg : Bytes) × (process_command lib now (command ∷ rest) response m
          ≡ ret (serialize_error response err_arg msg, m))
  unfolding process_command
  process_command-Takes get command spelled wrong =
      (ascii "GET requires one key\n", rw (spelled, other (length rest) 1 wrong) refl)
  process_command-Takes set command spelled wrong =
      (ascii "SET requires key and value\n", rw (spelled, other (length rest) 2 wrong) refl)
  process_command-Takes del command spelled wrong =
      (ascii "DEL requires key\n", rw (spelled, other (length rest) 1 wrong) refl)
  process_command-Takes exists command spelled wrong =
      (ascii "EXISTS requires key\n", rw (spelled, other (length rest) 1 wrong) refl)
  process_command-Takes zadd command spelled wrong = (
    ascii "ZADD requires key, score, and member\n",
    rw (spelled, other (length rest) 3 wrong) refl,
  )
  process_command-Takes zrem command spelled wrong =
      (ascii "ZREM requires key and member\n", rw (spelled, other (length rest) 2 wrong) refl)
  process_command-Takes pexpire command spelled wrong =
      (ascii "PEXPIRE requires key and TTL\n", rw (spelled, other (length rest) 2 wrong) refl)
  process_command-Takes pttl command spelled wrong =
      (ascii "PTTL requires key\n", rw (spelled, other (length rest) 1 wrong) refl)
  process_command-Takes flushall command spelled wrong = absurd (wrong tt)

-- ===== src/CommandProcessor/Tests.antt =====
-- Runs of command_processor.hpp on small inputs.
use vector_db.Prelude.{
  ℕ, List, some_inj, sym, ◌∙◌, ◌≡◌, refl, false, none, some, [], ◌∷◌, ◌+◌, ◌*◌, ◌-◌, arith, map,
  length, pos,
}
use vector_db.Prelude.Outcome.{ret, fault, relock}
use vector_db.Bytes.{Bytes, ascii}
use vector_db.Hash.{string_key}
use vector_db.HashMap.{new}
use vector_db.HashMap.Valid.{new-IsValid}
use vector_db.ResponseSerializer.{serialize_string, serialize_error, serialize_integer}
use vector_db.EntryManager.{EntryManager, new_manager, positive}
use vector_db.CommandProcessor.{
  Numbers, Value, to_lower, parse_int, err_arg, err_unknown, process_command,
}
use vector_db.CommandProcessor.Keys.{process_command-pexpire-del}
use vector_db.CommandProcessor.Script.{
  Command, set_command, get_command, del_command, exists_command, pexpire_command, flushall_command,
  Untimed, run, run_texts, text_command,
}
use vector_db.CommandProcessor.Session.{run-run_texts}
use vector_db.CommandProcessor.Replies.{Replies, process_command-Replies}
use vector_db.CommandProcessor.Dispatch.{zadd, process_command-to_lower, process_command-Takes}

-- Decimal digits, up to the end of the text.
abbrev decimal : ℕ → Bytes → ℕ
decimal n [] = n
decimal n (c ∷ cs) = decimal (n * 10 + (c - 48)) cs

abbrev digits_only : Numbers ℕ
digits_only = record {
  stod = λ s. some (decimal 0 s, length s);
  isnan = λ _. false;
  stoll = λ s. some (pos (decimal 0 s), length s);
}

abbrev store : EntryManager (Value ℕ)
store = new_manager

unknown :
    process_command digits_only 0 (ascii "Gett" ∷ []) [] store
    ≡ ret (serialize_error [] err_unknown (ascii "unknown command\n"), store)
unfolding process_command
unknown = refl

process_command-to_lower_example :
    process_command digits_only 0 (ascii "Get" ∷ ascii "k" ∷ []) [] store
    ≡ process_command digits_only 0 (map to_lower (ascii "Get") ∷ ascii "k" ∷ []) [] store
process_command-to_lower_example =
    process_command-to_lower digits_only 0 (ascii "k" ∷ []) [] store (ascii "Get")

zadd_spelled : map to_lower (ascii "ZAdd") ≡ ascii "zadd"
unfolding to_lower
zadd_spelled = refl

process_command-Takes_example :
    (msg : Bytes) × (process_command digits_only 0 (ascii "ZAdd" ∷ ascii "k" ∷ []) [] store
      ≡ ret (serialize_error [] err_arg msg, store))
process_command-Takes_example =
    process_command-Takes digits_only 0 (ascii "k" ∷ []) [] store zadd (ascii "ZAdd") zadd_spelled
      (λ h. omega arith)

process_command-Replies_example :
    Replies [] (process_command digits_only 0 (ascii "set" ∷ ascii "k" ∷ ascii "v" ∷ []) [] store)
process_command-Replies_example =
    process_command-Replies digits_only 0 (ascii "set" ∷ ascii "k" ∷ ascii "v" ∷ []) [] store

ninety : parse_int digits_only (ascii "90") ≡ some (pos 90)
unfolding parse_int
ninety = refl

process_command-pexpire-del_example :
    (m₁ : EntryManager (Value ℕ)) × (m₂ : EntryManager (Value ℕ)) × (process_command digits_only 0
        (ascii "SET" ∷ ascii "k" ∷ ascii "v" ∷ [])
        []
        store
      ≡ ret (serialize_string [] (ascii "OK"), m₁))
    × (process_command digits_only 0 (ascii "PEXPIRE" ∷ ascii "k" ∷ ascii "90" ∷ []) [] m₁
        ≡ ret (serialize_integer [] (pos 1), m₂))
    × (process_command digits_only 0 (ascii "DEL" ∷ ascii "k" ∷ []) [] m₂ ≡ fault relock)
process_command-pexpire-del_example =
    process_command-pexpire-del digits_only 0 new [] [] (ascii "k") (ascii "v") (ascii "90") 89
      new-IsValid (omega arith) refl ninety

zero_time : parse_int digits_only (ascii "0") ≡ some (pos 0)
unfolding parse_int
zero_time = refl

at_once : Untimed digits_only (pexpire_command (ascii "k") (ascii "0"))
at_once ttl_ms h = ap_positive (some_inj.0 (sym zero_time ∙ h))
  where
    ap_positive : pos 0 ≡ ttl_ms → positive ttl_ms ≡ none
    ap_positive e = rw (← e) refl

abbrev script : List (ℕ × Command)
script =
    (0, set_command (ascii "k") (ascii "v"))
    ∷ (0, set_command (ascii "k") (ascii "w"))
    ∷ (1, get_command (ascii "k"))
    ∷ (2, pexpire_command (ascii "k") (ascii "0"))
    ∷ (2, get_command (ascii "k"))
    ∷ (2, del_command (ascii "k"))
    ∷ (2, exists_command (ascii "k"))
    ∷ (3, flushall_command)
    ∷ []

-- The second text is dropped first.
script_replies :
    run_texts digits_only script (0, λ _. [])
    ≡ ret (
        serialize_string [] (ascii "OK")
        ∷ serialize_string [] (ascii "OK")
        ∷ serialize_string [] (ascii "w")
        ∷ serialize_integer [] (pos 1)
        ∷ serialize_string [] (ascii "v")
        ∷ serialize_integer [] (pos 1)
        ∷ serialize_integer [] (pos 0)
        ∷ serialize_integer [] (pos 1)
        ∷ [])
unfolding run_texts text_command parse_int string_key
script_replies = refl

run-run_texts_example :
    run digits_only script new_manager ≡ run_texts digits_only script (0, λ _. [])
run-run_texts_example =
    run-run_texts digits_only script (tt, (tt, (tt, (at_once, (tt, (tt, (tt, (tt, tt))))))))

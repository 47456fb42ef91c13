-- ===== src/CommandProcessor/Commands.antt =====
-- command_processor.hpp: `ZADD`, `ZREM` and `PEXPIRE` on a store that holds texts, and every command.
use vector_db.Prelude.{
  ℕ, zero, suc, ◌<◌, ◌≡◌, inl, inr, none, some, List, [], ◌∷◌, arith, get_elem?, ◌==◌, ==_iff,
  Bool-cases, Option-cases,
}
use vector_db.Prelude.Outcome.{ret, fault, relock}
use vector_db.Bytes.{Bytes, ascii}
use vector_db.Hash.{string_key}
use vector_db.HashMap.Valid.{values}
use vector_db.ResponseSerializer.{serialize_error}
use vector_db.EntryManager.{EntryManager, Entry, key_of, set_entry_ttl}
use vector_db.EntryManager.Keys.{bound, find_entry-bound}
use vector_db.SortedSet.{new_zset}
use vector_db.CommandProcessor.{
  Numbers, Value, string, zset, is_negative, parse_int, parse_double, err_arg, process_command,
}
use vector_db.CommandProcessor.Keys.{value_of-get_elem?, process_command-zadd}
use vector_db.CommandProcessor.Script.{
  Command, set_command, get_command, del_command, exists_command, pttl_command, flushall_command,
  zadd_command, zrem_command, pexpire_command, words, Texts, text_command, wrong_type, Untimed,
}
use vector_db.CommandProcessor.Stored.{
  IsStored, Reads-cases, create_entry-full, delete_entry-IsStored,
}
use vector_db.CommandProcessor.Simulation.{
  Simulates, both, faults, below, set-Simulates, get-Simulates, del-Simulates, exists-Simulates,
  pttl-Simulates, flushall-Simulates,
}

module _ {κ} {D : Type κ} where
  key_of-get_elem? :
      (entries : List (Entry (Value D))) (e : ℕ) (entry : Entry (Value D))
      → get_elem? entries e ≡ some entry
      → key_of entries e ≡ entry.key
  key_of-get_elem? [] e entry h = ground arith
  key_of-get_elem? (x ∷ xs) zero entry h = ground arith
  key_of-get_elem? (x ∷ xs) (suc e) entry h = key_of-get_elem? xs e entry h

  module _ (lib : Numbers D) (now : ℕ) (m : EntryManager (Value D)) (s : Texts)
      (h : IsStored m s) where
    zadd_full :
        (k t member : Bytes) (score : D)
        → parse_double lib t ≡ some score
        → bound m k ≡ none
        → s.0 ≡ 32
        → process_command lib now (words (zadd_command k t member)) [] m ≡ fault relock
    unfolding process_command words
    zadd_full k t member score number absent full = rw (
      number,
      find_entry-bound m k h.valid,
      absent,
      create_entry-full m s h k (zset new_zset) full,
    )

    zadd_room :
        (k t member : Bytes) (score : D)
        → parse_double lib t ≡ some score
        → bound m k ≡ none
        → s.0 < 32
        → process_command lib now (words (zadd_command k t member)) [] m ≡ fault relock
    unfolding words
    zadd_room k t member score number absent room =
        process_command-zadd lib now m k t member score h.valid (omega (arith, h.sized)) number
          (inl absent)

    zadd_text :
        (k t member v : Bytes) (e : ℕ) (score : D)
        → parse_double lib t ≡ some score
        → bound m k ≡ some e
        → get_elem? m.entries e ≡ some (record { key = k; value = string v })
        → process_command lib now (words (zadd_command k t member)) [] m ≡ ret (wrong_type, m)
    unfolding process_command words
    zadd_text k t member v e score number there entry =
        rw (number, find_entry-bound m k h.valid, there, value_of-get_elem? lib now m e _ entry)

    zadd_invalid :
        (k t member : Bytes)
        → parse_double lib t ≡ none
        → process_command lib now (words (zadd_command k t member)) [] m
          ≡ ret (serialize_error [] err_arg (ascii "Invalid score value\n"), m)
    unfolding process_command words
    zadd_invalid k t member bad = rw bad

    zadd-Simulates :
        (k t member : Bytes)
        → Simulates
            (process_command lib now (words (zadd_command k t member)) [] m)
            (text_command lib (zadd_command k t member) s)
    unfolding text_command
    zadd-Simulates k t member = elim (Option-cases (parse_double lib t)) [
      | inl bad ↦ rw (zadd_invalid k t member bad, bad, text_command) (both _ m s h)
      | inr (score, number) ↦ elim (Reads-cases m.entries k (values m.db k) (s.1 k) (h.held k)) [
        | inl (none_there, no_text) ↦ elim (Bool-cases (s.0 == 32)) [
          | inl full ↦
              rw
                (
                  zadd_full k t member score number none_there ((==_iff _ _).0 full),
                  number,
                  text_command,
                  no_text,
                )
                (faults relock)
          | inr room ↦
              rw
                (
                  zadd_room k t member score number none_there (below lib now m s h room),
                  number,
                  text_command,
                  no_text,
                )
                (faults relock)
        ]
        | inr (e, v, there, text, entry) ↦
            rw (zadd_text k t member v e score number there entry, number, text_command, text)
              (both _ m s h)
      ]
    ]

    zrem-Simulates :
        (k member : Bytes)
        → Simulates
            (process_command lib now (words (zrem_command k member)) [] m)
            (text_command lib (zrem_command k member) s)
    unfolding process_command words text_command
    zrem-Simulates k member = elim (Reads-cases m.entries k (values m.db k) (s.1 k) (h.held k)) [
      | inl (none_there, no_text) ↦
          rw (find_entry-bound m k h.valid, none_there, no_text) (both _ m s h)
      | inr (e, v, there, text, entry) ↦
          rw (find_entry-bound m k h.valid, there, text, value_of-get_elem? lib now m e _ entry)
            (both _ m s h)
    ]

    expire-Simulates :
        (k t : Bytes)
        → Untimed lib (pexpire_command k t)
        → Simulates
            (process_command lib now (words (pexpire_command k t)) [] m)
            (text_command lib (pexpire_command k t) s)
    unfolding process_command words text_command set_entry_ttl
    expire-Simulates k t untimed = elim (Option-cases (parse_int lib t)) [
      | inl bad ↦ rw (bad, text_command) (both _ m s h)
      | inr (ttl_ms, number) ↦ elim (Bool-cases (is_negative ttl_ms)) [
        | inl negative ↦ rw (number, text_command, negative) (both _ m s h)
        | inr fine ↦ elim (Reads-cases m.entries k (values m.db k) (s.1 k) (h.held k)) [
          | inl (none_there, no_text) ↦
              rw (number, text_command, fine, find_entry-bound m k h.valid, none_there, no_text)
                (both _ m s h)
          | inr (e, v, there, text, entry) ↦
              let (m', deleted, stored) = delete_entry-IsStored m s h k e there in
              rw
                (
                  number,
                  text_command,
                  fine,
                  find_entry-bound m k h.valid,
                  there,
                  text,
                  set_entry_ttl,
                  untimed ttl_ms number,
                  key_of-get_elem? m.entries e _ entry,
                  deleted,
                )
                (both _ m' _ (rw text at stored))
        ]
      ]
    ]

    pub command-Simulates :
        (c : Command)
        → Untimed lib c
        → Simulates (process_command lib now (words c) [] m) (text_command lib c s)
    command-Simulates (set_command k v) u = set-Simulates lib now m s h k v
    command-Simulates (get_command k) u = get-Simulates lib now m s h k
    command-Simulates (del_command k) u = del-Simulates lib now m s h k
    command-Simulates (exists_command k) u = exists-Simulates lib now m s h k
    command-Simulates (pttl_command k) u = pttl-Simulates lib now m s h k
    command-Simulates flushall_command u = flushall-Simulates lib now m s h
    command-Simulates (zadd_command k t member) u = zadd-Simulates k t member
    command-Simulates (zrem_command k member) u = zrem-Simulates k member
    command-Simulates (pexpire_command k t) u = expire-Simulates k t u

-- ===== src/CommandProcessor/Simulation.antt =====
-- command_processor.hpp: each command on a store that holds texts.
use vector_db.Prelude.{ℕ, ◌<◌, ◌≡◌, inl, inr, false, [], arith, ◌==◌, ==_iff, Bool-cases}
use vector_db.Prelude.Outcome.{Outcome, Fault, ret, fault, relock}
use vector_db.Bytes.{Bytes}
use vector_db.Hash.{string_key}
use vector_db.HashMap.Valid.{values}
use vector_db.EntryManager.{EntryManager}
use vector_db.EntryManager.Keys.{find_entry-bound}
use vector_db.CommandProcessor.{Numbers, Value, string, process_command}
use vector_db.CommandProcessor.Keys.{value_of-get_elem?}
use vector_db.CommandProcessor.Script.{
  set_command, get_command, del_command, exists_command, pttl_command, flushall_command, words,
  Texts, text_command,
}
use vector_db.CommandProcessor.Stored.{
  IsStored, Reads-cases, create_entry-full, create_entry-IsStored, delete_entry-IsStored,
  clear_all-IsStored, get_expiry_time-none, delete_entry-absent,
}

module _ {κ} {D : Type κ} where
  -- Both return the same reply, and the store holds the texts, or both end in the same fault.
  pub data Simulates
      : Outcome (Bytes × EntryManager (Value D)) → Outcome (Bytes × Texts) → Type κ where
    both :
        (b : Bytes) (m : EntryManager (Value D)) (s : Texts)
        → IsStored m s
        → Simulates (ret (b, m)) (ret (b, s))
    faults : (e : Fault) → Simulates (fault e) (fault e)

  module _ (lib : Numbers D) (now : ℕ) (m : EntryManager (Value D)) (s : Texts)
      (h : IsStored m s) where
    pub below : (s.0 == 32) ≡ false → s.0 < 32
    below apart = ground (arith, h.sized, h.valid.room)

    pub set-Simulates :
        (k v : Bytes)
        → Simulates
            (process_command lib now (words (set_command k v)) [] m)
            (text_command lib (set_command k v) s)
    unfolding process_command words text_command
    set-Simulates k v = elim (Bool-cases (s.0 == 32)) [
      | inl full ↦
          rw (full, create_entry-full m s h k (string v) ((==_iff _ _).0 full)) (faults relock)
      | inr room ↦
          let (m', created, stored) = create_entry-IsStored m s h k v (below room) in
          rw (room, created) (both _ m' _ stored)
    ]

    pub get-Simulates :
        (k : Bytes)
        → Simulates
            (process_command lib now (words (get_command k)) [] m)
            (text_command lib (get_command k) s)
    unfolding process_command words text_command
    get-Simulates k = elim (Reads-cases m.entries k (values m.db k) (s.1 k) (h.held k)) [
      | inl (none_there, no_text) ↦
          rw (find_entry-bound m k h.valid, none_there, no_text) (both _ m s h)
      | inr (e, v, there, text, entry) ↦
          rw (find_entry-bound m k h.valid, there, text, value_of-get_elem? lib now m e _ entry)
            (both _ m s h)
    ]

    pub del-Simulates :
        (k : Bytes)
        → Simulates
            (process_command lib now (words (del_command k)) [] m)
            (text_command lib (del_command k) s)
    unfolding process_command words text_command
    del-Simulates k = elim (Reads-cases m.entries k (values m.db k) (s.1 k) (h.held k)) [
      | inl (none_there, no_text) ↦
          rw (delete_entry-absent m s h k none_there, no_text) (both _ m s h)
      | inr (e, v, there, text, entry) ↦
          let (m', deleted, stored) = delete_entry-IsStored m s h k e there in
          rw (deleted, text) (both _ m' _ (rw text at stored))
    ]

    pub exists-Simulates :
        (k : Bytes)
        → Simulates
            (process_command lib now (words (exists_command k)) [] m)
            (text_command lib (exists_command k) s)
    unfolding process_command words text_command
    exists-Simulates k = elim (Reads-cases m.entries k (values m.db k) (s.1 k) (h.held k)) [
      | inl (none_there, no_text) ↦
          rw (find_entry-bound m k h.valid, none_there, no_text) (both _ m s h)
      | inr (e, v, there, text, entry) ↦
          rw (find_entry-bound m k h.valid, there, text) (both _ m s h)
    ]

    pub pttl-Simulates :
        (k : Bytes)
        → Simulates
            (process_command lib now (words (pttl_command k)) [] m)
            (text_command lib (pttl_command k) s)
    unfolding process_command words text_command
    pttl-Simulates k = elim (Reads-cases m.entries k (values m.db k) (s.1 k) (h.held k)) [
      | inl (none_there, no_text) ↦
          rw (find_entry-bound m k h.valid, none_there, no_text) (both _ m s h)
      | inr (e, v, there, text, entry) ↦
          rw (find_entry-bound m k h.valid, there, text, get_expiry_time-none m s h e now)
            (both _ m s h)
    ]

    pub flushall-Simulates :
        Simulates
          (process_command lib now (words flushall_command) [] m)
          (text_command lib flushall_command s)
    unfolding process_command words text_command
    flushall-Simulates =
        let (m', cleared, stored) = clear_all-IsStored m s h in rw cleared (both _ m' _ stored)

-- ===== src/CommandProcessor/Session.antt =====
-- command_processor.hpp: what a client reads of the replies to its commands.
use vector_db.Prelude.{ℕ, ◌≡◌, refl, List, [], ◌∷◌, All}
use vector_db.Prelude.Outcome.{Outcome, ret, ◌>>=◌}
use vector_db.Bytes.{Bytes}
use vector_db.Hash.{string_key}
use vector_db.HashMap.Valid.{new-IsValid}
use vector_db.EntryManager.{EntryManager, new_manager}
use vector_db.CommandProcessor.{Numbers, Value, process_command}
use vector_db.CommandProcessor.Script.{Command, Texts, Untimed, words, text_command, run, run_texts}
use vector_db.CommandProcessor.Stored.{IsStored, no_texts}
use vector_db.CommandProcessor.Simulation.{Simulates, both, faults}
use vector_db.CommandProcessor.Commands.{command-Simulates}

module _ {κ} {D : Type κ} where
  new_manager-IsStored : IsStored {D = D} new_manager (0, λ _. [])
  new_manager-IsStored = record {
    valid = new-IsValid;
    sized = refl;
    still = refl;
    free = tt;
    held = λ k. no_texts;
  }

  module _ (lib : Numbers D) where
    run-after :
        (cs : List (ℕ × Command)) (r : Outcome (Bytes × EntryManager (Value D)))
        (q : Outcome (Bytes × Texts))
        → Simulates r q
        → ((m : EntryManager (Value D)) (s : Texts)
            → IsStored m s
            → run lib cs m ≡ run_texts lib cs s)
        → (r >>= λ p. run lib cs p.1 >>= λ bs. ret (p.0 ∷ bs))
          ≡ (q >>= λ p. run_texts lib cs p.1 >>= λ bs. ret (p.0 ∷ bs))
    run-after cs r q (both b m s h) rest = rw (rest m s h)
    run-after cs r q (faults e) rest = refl

    run-IsStored :
        (cs : List (ℕ × Command)) (m : EntryManager (Value D)) (s : Texts)
        → All (λ c. Untimed lib c.1) cs
        → IsStored m s
        → run lib cs m ≡ run_texts lib cs s
    unfolding run run_texts
    run-IsStored [] m s u h = refl
    run-IsStored ((now, c) ∷ cs) m s (u, us) h =
        run-after cs (process_command lib now (words c) [] m) (text_command lib c s)
          (command-Simulates lib now m s h c u) (λ m' s' h'. run-IsStored cs m' s' us h')

    -- On a new store, whatever the clock shows, any sequence of commands with as many arguments as each takes,
    -- of which no `PEXPIRE` has a positive time, gets the replies of the same commands on one stack of texts for
    -- each key: `SET` pushes, `GET` replies the newest, `DEL` drops the newest, as does `PEXPIRE` with the time
    -- zero, `FLUSHALL` drops all, `PTTL` replies that there is no time to live, and `ZREM` finds no set. A `SET`
    -- when 32 texts are held, and a `ZADD` with a valid score at a key without a text, do not return, and every
    -- other command does.
    pub run-run_texts :
        (cs : List (ℕ × Command))
        → All (λ c. Untimed lib c.1) cs
        → run lib cs new_manager ≡ run_texts lib cs (0, λ _. [])
    run-run_texts cs us = run-IsStored cs new_manager (0, λ _. []) us new_manager-IsStored

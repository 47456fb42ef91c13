-- ===== src/Server/Tests.antt =====
-- Runs of server.hpp with one client.
use vector_db.Prelude.{ℕ, ◌≡◌, refl, true, false, none, List, [], ◌∷◌, arith, ◌==◌, if◌then◌else◌}
use vector_db.Prelude.Outcome.{ret, fault, dangling, ◌>>=◌}
use vector_db.Bytes.{ascii}
use vector_db.ResponseSerializer.{serialize_error}
use vector_db.HashMap
use vector_db.EntryManager.{EntryManager}
use vector_db.CommandProcessor.{Numbers, Value, process_command}
use vector_db.Connection.{received, wrote, process_io}
use vector_db.Connection
use vector_db.Server.{
  Server, Round, PollFd, Accept, accepted, pollin, new, run, accept_all, process_active_connections,
  process_timers,
}
use vector_db.Server.Open.{Ensures}
use vector_db.Server.Idle.{WaitsForever, run-WaitsForever}
use vector_db.Server.Quiet.{IsKept}
use vector_db.Server.Clients.{
  Client, io_of, ready, held_by, view, serve, process_active_connections-serve,
}

-- No text is a number.
abbrev no_numbers : Numbers ℕ
no_numbers = record { stod = λ _. none; isnan = λ _. false; stoll = λ _. none }

abbrev store : EntryManager (Value ℕ)
store = record { db = HashMap.new; heap = record { items = []; cells = [] }; entries = [] }

abbrev ping : Client ℕ
ping = record { first = (ascii "ping", ascii "\n"); rest = []; takes = 9; thrown = store }

-- A client connects, and then types a command.
abbrev rounds : List (Round ℕ)
rounds =
    record {
      stopped_before = false;
      stopped_after = false;
      now = 0;
      activity = true;
      revents = λ fd. if fd == 3 then 1 else 0;
      accepts = accepted 4 true true ∷ Accept.failed ∷ [];
      io = io_of (λ _. ping);
    }
    ∷ record {
      stopped_before = false;
      stopped_after = false;
      now = 9000;
      activity = true;
      revents = λ fd. if fd == 4 then 1 else 0;
      accepts = [];
      io = io_of (λ _. ping);
    }
    ∷ []

abbrev listening : Server ℕ
listening = new 3 store

-- An error, the code -2 and the length of its text are what nine bytes hold.
one_reply :
    (run no_numbers (λ cs. cs) rounds listening >>= λ r. ret r.1)
    ≡ ret ((4, 1 ∷ 0xfe ∷ 0xff ∷ 0xff ∷ 0xff ∷ 16 ∷ 0 ∷ 0 ∷ 0 ∷ []) ∷ [])
unfolding run accept_all process_active_connections process_io process_command serialize_error
one_reply = refl

abbrev connected : Server ℕ
connected = record listening { connections = (4, Connection.new store 0) ∷ [] }

-- If a connection were in the idle list, it would stay there when it is removed.
removed_idle : process_timers 2 6000 (record connected { idle_list = 4 ∷ [] }) ≡ fault dangling
unfolding process_timers
removed_idle = refl

-- A round an hour later, in which nothing happens to the client.
abbrev later : List (Round ℕ)
later =
    record {
      stopped_before = false;
      stopped_after = false;
      now = 3600000;
      activity = true;
      revents = λ fd. if fd == 3 then 1 else 0;
      accepts = accepted 5 true true ∷ Accept.failed ∷ [];
      io = io_of (λ _. ping);
    }
    ∷ []

run-WaitsForever_example :
    Ensures
      (λ p.
        WaitsForever no_numbers (λ cs. cs) 0 20000 p
        × Ensures (λ q. IsKept 4 p.0 q.0) (run no_numbers (λ cs. cs) later p.0))
      (run no_numbers (λ cs. cs) rounds listening)
run-WaitsForever_example =
    run-WaitsForever no_numbers (λ cs. cs) (λ P cs h. h) rounds later 3 4 0 20000 store (refl, tt)

abbrev polls : List PollFd
polls = record { fd = 4; events = pollin; revents = 1 } ∷ []

process_active_connections-serve_example :
    view (process_active_connections no_numbers 9000 (io_of (λ _. ping)) polls connected)
    ≡ serve no_numbers 9000 (λ _. ping) (ready polls connected.connections) (held_by connected)
process_active_connections-serve_example =
    process_active_connections-serve no_numbers 9000 (λ _. ping)
      (λ _. (
        (
          omega arith,
          (
            (refl, omega arith),
            ((refl, omega arith), ((refl, omega arith), ((refl, omega arith), tt))),
          ),
          omega arith,
          (refl, tt),
        ),
        tt,
      ))
      polls connected (tt, tt)

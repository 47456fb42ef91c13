-- ===== src/Server.antt =====
-- server.hpp: `Server`. `connections_` is a list of the
-- connections with their descriptors, and the order in which the map is iterated is an argument. What the
-- system calls return in a round of `run` is a value of the environment. A connection in the idle list is the
-- descriptor of it, and the entry manager that all connections refer to is a field of the server.
pub mod Open
pub mod Others
pub mod Rounds
pub mod Quiet
pub mod Idle
pub mod Clients
mod Tests
use vector_db.Prelude.{
  ℕ, zero, suc, ◌+◌, ◌-◌, ◌%◌, ◌*◌, Bool, true, false, ◌||◌, not, Option, none, some, ℤ, pos,
  negsuc, List, [], ◌∷◌, ◌++◌, map, min, ltb, ◌==◌, if◌then◌else◌,
}
use vector_db.Prelude.Outcome.{Outcome, ret, fault, out_of_range, dangling, out_of_fuel, ◌>>=◌}
use vector_db.Bytes.{Bytes}
use vector_db.RequestParser.{Result, ok, unexpected}
use vector_db.EntryManager.{EntryManager}
use vector_db.CommandProcessor.{Numbers, Value}
use vector_db.Connection.{Connection, ConnectionState, Read, Write, process_io}
use vector_db.Connection
use vector_db.Startup.{set_nonblocking}

-- Times of `steady_clock`, in milliseconds.
abbrev pub idle_timeout : ℕ
idle_timeout = 5000

abbrev pub hours_24 : ℕ
hours_24 = 24 * 60 * 60 * 1000

abbrev pub pollin : ℕ
pollin = 1

abbrev pub pollout : ℕ
pollout = 4

pub record PollFd : Type 0 where
  pub fd : ℕ
  pub events : ℕ
  pub revents : ℕ

-- `duration_cast<milliseconds>(next_timeout - now)`
abbrev pub milliseconds : ℕ → ℕ → ℤ
milliseconds next_timeout now =
    if ltb next_timeout now then negsuc (now - next_timeout - 1) else pos (next_timeout - now)

-- What `accept` returns, with what `fcntl` then returns for the descriptor, or -1.
pub data Accept : Type 0 where
  accepted : ℕ → Bool → Bool → Accept
  failed : Accept

-- What `process_io` meets: the return values of `read` and `write`, and what an exception leaves of the
-- entries.
pub record Io {κ} (D : Type κ) : Type κ where
  pub read : Read
  pub write : Write
  pub thrown : EntryManager (Value D)

-- A round of `run`: whether `stop` has been called before the test of the loop or during `poll`, the return
-- value of `poll` and `revents` of each descriptor, what `accept` returns, and what a connection meets.
pub record Round {κ} (D : Type κ) : Type κ where
  pub stopped_before : Bool
  pub stopped_after : Bool
  pub now : ℕ
  pub activity : Bool
  pub revents : ℕ → ℕ
  pub accepts : List Accept
  pub io : ℕ → Io D

pub record Server {κ} (D : Type κ) : Type κ where
  pub listen_socket : ℕ
  -- Whether the listening socket is open.
  pub is_listening : Bool
  pub entry_manager : EntryManager (Value D)
  pub should_stop : Bool
  pub connections : List (ℕ × Connection D)
  pub idle_list : List ℕ

-- What is sent in a round, with the descriptors.
abbrev pub Output : Type 0
Output = List (ℕ × Bytes)

abbrev pub poll_events : ConnectionState → ℕ
poll_events ConnectionState.request = pollin
poll_events ConnectionState.response = pollout
poll_events ConnectionState.end = pollout

abbrev pub with_revents : (ℕ → ℕ) → PollFd → PollFd
with_revents revents p = record p { revents = revents p.fd }

-- `poll` sets the events that have happened.
abbrev pub polled : (ℕ → ℕ) → List PollFd → List PollFd
polled revents = map (with_revents revents)

module _ {κ} {D : Type κ} where
  abbrev pub find_connection : List (ℕ × Connection D) → ℕ → Option (Connection D)
  find_connection [] fd = none
  find_connection ((g, c) ∷ cs) fd = if g == fd then some c else find_connection cs fd

  -- `connections_.emplace`: an entry of the descriptor stays.
  abbrev pub add_connection : Server D → ℕ → Connection D → Server D
  add_connection s fd c = elim (find_connection s.connections fd) [
    | some _ ↦ s
    | none ↦ record s { connections = s.connections ++ (fd, c) ∷ [] }
  ]

  abbrev pub without : List (ℕ × Connection D) → ℕ → List (ℕ × Connection D)
  without [] fd = []
  without ((g, c) ∷ cs) fd = if g == fd then without cs fd else (g, c) ∷ without cs fd

  -- `connections_.erase`
  abbrev pub remove_connection : Server D → ℕ → Server D
  remove_connection s fd = record s { connections = without s.connections fd }

  -- The connection that a method has changed.
  abbrev pub update_connection :
      List (ℕ × Connection D) → ℕ → Connection D → List (ℕ × Connection D)
  update_connection [] fd d = []
  update_connection ((g, c) ∷ cs) fd d =
      (if g == fd then (g, d) else (g, c)) ∷ update_connection cs fd d

  abbrev pub poll_fd : ℕ × Connection D → PollFd
  poll_fd (fd, c) = record { fd = fd; events = poll_events c.state; revents = 0 }

  abbrev pub prepare_poll_args :
      (List (ℕ × Connection D) → List (ℕ × Connection D)) → Server D → List PollFd
  prepare_poll_args order s =
      record { fd = s.listen_socket; events = pollin; revents = 0 }
      ∷ map poll_fd (order s.connections)

  abbrev pub calculate_next_timeout : Server D → ℕ → Outcome ℤ
  calculate_next_timeout s now = elim s.idle_list [
    | [] ↦ ret (pos hours_24)
    | next ∷ _ ↦ elim (find_connection s.connections next) [
      | none ↦ fault dangling
      | some c ↦ ret (milliseconds (min (now + hours_24) (c.idle_start + idle_timeout)) now)
    ]
  ]

  -- The loop of `process_timers`: nothing takes a connection out of the idle list.
  unfoldable pub process_timers : ℕ → ℕ → Server D → Outcome (Server D)
  process_timers zero now s = fault out_of_fuel
  process_timers (suc fuel) now s = elim s.idle_list [
    | [] ↦ ret s
    | next ∷ _ ↦ elim (find_connection s.connections next) [
      | none ↦ fault dangling
      | some c ↦
          let rest = process_timers fuel now (remove_connection s next) in
          if ltb (now - c.idle_start) idle_timeout then ret s else rest
    ]
  ]

  -- The loop of `accept_new_connections`, with the values that `accept` returns.
  unfoldable pub accept_all : ℕ → List Accept → Server D → Outcome (Server D)
  accept_all now [] s = fault out_of_fuel
  accept_all now (failed ∷ rest) s = ret s
  accept_all now (accepted fd getfl setfl ∷ rest) s = accept_all now rest (
      if set_nonblocking getfl setfl
      then add_connection s fd (Connection.new s.entry_manager now)
      else s)

  abbrev pub accept_new_connections : ℕ → ℕ → List Accept → Server D → Outcome (Server D)
  accept_new_connections listen_revents now accepts s =
      if listen_revents % 2 == 1 then accept_all now accepts s else ret s

  -- What the loop of `process_active_connections` does after `process_io`.
  abbrev pub after_io :
      ℕ
      → EntryManager (Value D)
      → Server D
      → Outcome (Result {0} Unit × Connection D × Bytes)
      → Outcome (Server D × Output)
  after_io fd thrown s (ret (ok _, c, sent)) = ret (
    record s {
      entry_manager = c.entry_manager;
      connections = update_connection s.connections fd c;
    },
    (fd, sent) ∷ [],
  )
  after_io fd thrown s (ret (unexpected e, c, sent)) =
      ret (remove_connection (record s { entry_manager = c.entry_manager }) fd, (fd, sent) ∷ [])
  after_io fd thrown s (fault e) = elim e [
    | out_of_range ↦ ret (remove_connection (record s { entry_manager = thrown }) fd, [])
    | other ↦ fault other
  ]

  -- One round of the loop: a descriptor with no events, or that is not in the map, is passed over.
  abbrev pub process_one : Numbers D → ℕ → Io D → PollFd → Server D → Outcome (Server D × Output)
  process_one lib now io p s =
      if p.revents == 0 then ret (s, []) else elim (find_connection s.connections p.fd) [
        | none ↦ ret (s, [])
        | some c ↦
            after_io p.fd io.thrown s
              (process_io lib now io.read io.write (record c { entry_manager = s.entry_manager }))
      ]

  -- The loop over `poll_args`, from the second entry on.
  unfoldable pub process_active_connections :
      Numbers D → ℕ → (ℕ → Io D) → List PollFd → Server D → Outcome (Server D × Output)
  process_active_connections lib now io [] s = ret (s, [])
  process_active_connections lib now io (p ∷ ps) s = process_one lib now (io p.fd) p s >>= λ r.
      process_active_connections lib now io ps r.0 >>= λ q. ret (q.0, r.1 ++ q.1)

  abbrev pub stop : Server D → Server D
  stop s = record s { should_stop = true; is_listening = false }

  -- The signal handler, on what `global_server` points to; the program ends after it.
  abbrev pub handle_signal : Option (Server D) → Option (Server D)
  handle_signal none = none
  handle_signal (some s) = some (stop s)

  -- What a round does after `poll` has returned.
  abbrev pub handle_activity :
      Numbers D → Round D → List PollFd → Server D → Outcome (Server D × Output)
  handle_activity lib r [] s = ret (s, [])
  handle_activity lib r (listen_poll ∷ polls) s =
      accept_new_connections listen_poll.revents r.now r.accepts s >>= λ t.
      process_active_connections lib r.now r.io polls t

  abbrev pub stop_if : Bool → Server D → Server D
  stop_if b s = if b then stop s else s

  -- A round of `run`; none, where the loop ends.
  abbrev pub run_round :
      Numbers D
      → (List (ℕ × Connection D) → List (ℕ × Connection D))
      → Round D
      → Server D
      → Outcome (Server D × Output)
  run_round lib order r s =
      let started = stop_if r.stopped_before s in
      let poll_args = polled r.revents (prepare_poll_args order started) in
      let waited = stop_if r.stopped_after started in
      if started.should_stop || (waited.should_stop || not r.activity)
      then ret (waited, [])
      else handle_activity lib r poll_args waited

  -- What `run` has done after the rounds: the state, and what has been sent.
  unfoldable pub run :
      Numbers D
      → (List (ℕ × Connection D) → List (ℕ × Connection D))
      → List (Round D)
      → Server D
      → Outcome (Server D × Output)
  run lib order [] s = ret (s, [])
  run lib order (r ∷ rs) s =
      run_round lib order r s >>= λ p. run lib order rs p.0 >>= λ q. ret (q.0, p.1 ++ q.1)

  -- `Server(port, thread_pool_size)` after `initialize`
  abbrev pub new : ℕ → EntryManager (Value D) → Server D
  new fd m = record {
    listen_socket = fd;
    is_listening = true;
    entry_manager = m;
    should_stop = false;
    connections = [];
    idle_list = [];
  }

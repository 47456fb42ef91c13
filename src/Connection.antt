-- ===== src/Connection.antt =====
-- connection.hpp: `Connection`. What a system call gives is a value of the environment: a loop that may call
-- again takes the list of the values to come, and is out of fuel where it waits for more than that. What
-- `write` takes is a result of the call, in the order in which it is taken.
pub mod Typed
pub mod Requests
pub mod Responses
mod Tests
use vector_db.Prelude.{
  ℕ, zero, suc, ◌+◌, ◌%◌, ◌^◌, Bool, true, false, ◌||◌, ◌&&◌, List, [], ◌∷◌, ◌++◌, ltb, leb, ◌==◌,
  if◌then◌else◌, length, take, drop, replicate,
}
use vector_db.Prelude.Outcome.{Outcome, ret, fault, assertion, out_of_fuel, ◌>>=◌}
use vector_db.Bytes.{Bytes, store_u32}
use vector_db.RequestParser.{Result, ok, unexpected, io_error, connection_reset, parse}
use vector_db.EntryManager.{EntryManager}
use vector_db.CommandProcessor.{Numbers, Value, process_command}

pub data ConnectionState : Type 0 where
  request response end : ConnectionState

abbrev pub max_msg_size : ℕ
max_msg_size = 4096

-- The values of `errno` that the code tests for, and any other.
pub data Errno : Type 0 where
  eintr eagain other : Errno

-- What `read` returns: the bytes, none of them where the peer has closed the connection.
pub data Read : Type 0 where
  received : Bytes → Read
  failed : Errno → Read

-- What `write` returns: the number of the bytes that it took.
pub data Write : Type 0 where
  wrote : ℕ → Write
  failed : Errno → Write

pub record Connection {κ} (D : Type κ) : Type κ where
  pub entry_manager : EntryManager (Value D)
  pub state : ConnectionState
  pub idle_start : ℕ
  pub rbuf : Bytes
  pub wbuf : Bytes
  pub wbuf_sent : ℕ

-- `isspace` in the "C" locale
abbrev pub is_space : ℕ → Bool
is_space c = c == 32 || (leb 9 c && leb c 13)

-- `std::string request(buffer)`: the text before the first zero byte.
abbrev pub c_string : Bytes → Bytes
c_string [] = []
c_string (zero ∷ bs) = []
c_string (suc b ∷ bs) = suc b ∷ c_string bs

-- A word that has ended, if there is one.
abbrev pub word_then : Bytes → List Bytes → List Bytes
word_then [] rest = rest
word_then (c ∷ word) rest = (c ∷ word) ∷ rest

-- `while (iss >> word)`, with what is read of the word so far.
unfoldable pub words : Bytes → Bytes → List Bytes
words word [] = word_then word []
words word (c ∷ cs) = elim (is_space c) [
  | true ↦ word_then word (words [] cs)
  | false ↦ words (word ++ c ∷ []) cs
]

-- What the single `write` of a response takes of it.
abbrev pub written : Write → Bytes → Bytes
written (wrote n) bs = take n bs
written (failed _) bs = []

-- `std::copy` of the bytes after the first `n` to the front, or `clear`.
abbrev pub consume : ℕ → Bytes → Bytes
consume consumed rbuf = if ltb consumed (length rbuf) then drop consumed rbuf else []

-- `do ... while (rv < 0 && errno == EINTR)`
abbrev pub read_retry : List Read → Outcome (Read × List Read)
read_retry [] = fault out_of_fuel
read_retry (received bs ∷ reads) = ret (received bs, reads)
read_retry (failed eintr ∷ reads) = read_retry reads
read_retry (failed eagain ∷ reads) = ret (failed eagain, reads)
read_retry (failed other ∷ reads) = ret (failed other, reads)

module _ {κ} {D : Type κ} where
  -- The constructor, on the store that all connections share.
  abbrev pub new : EntryManager (Value D) → ℕ → Connection D
  new m now = record {
    entry_manager = m;
    state = ConnectionState.request;
    idle_start = now;
    rbuf = [];
    wbuf = [];
    wbuf_sent = 0;
  }

  abbrev pub update_idle_time : Connection D → ℕ → Connection D
  update_idle_time c now = record c { idle_start = now }

  unfoldable pub process_io :
      Numbers D → ℕ → Read → Write → Connection D → Outcome (Result {0} Unit × Connection D × Bytes)
  unfolding words
  process_io lib now (received []) w c = ret (unexpected connection_reset, c, [])
  process_io lib now (failed _) w c = ret (unexpected io_error, c, [])
  process_io lib now (received (b ∷ bs)) w c =
      process_command lib now (words [] (c_string (b ∷ bs))) [] c.entry_manager >>= λ r.
      ret (ok tt, record c { entry_manager = r.1 }, written w r.0)

  unfoldable pub try_process_request :
      Numbers D → ℕ → Connection D → Outcome (Result Bool × Connection D)
  try_process_request lib now c = elim (ltb (length c.rbuf) 4) [
    | true ↦ ret (ok false, c)
    | false ↦ parse c.rbuf >>= λ parse_result. elim parse_result [
      | unexpected _ ↦ ret (ok false, record c { state = ConnectionState.end })
      | ok cmd ↦ process_command lib now cmd [] c.entry_manager >>= λ r.
          let rest = consume (4 + length cmd) c.rbuf in
          ret (
            ok (leb 4 (length rest)),
            record c {
              entry_manager = r.1;
              state = ConnectionState.response;
              rbuf = rest;
              wbuf = store_u32 (length (r.0) % 2 ^ 32) ++ r.0;
              wbuf_sent = 0;
            },
          )
    ]
  ]

  -- `while (try_process_request()) {}`. A `std::expected` converts to whether it holds a value: to `true`
  -- for the value `false` too. The clock is read once for a round.
  unfoldable pub process_requests : Numbers D → (ℕ → ℕ) → ℕ → Connection D → Outcome (Connection D)
  unfolding try_process_request
  process_requests lib clock zero c = fault out_of_fuel
  process_requests lib clock (suc fuel) c = try_process_request lib (clock fuel) c >>= λ r.
      elim r.0 [ ok _ ↦ process_requests lib clock fuel r.1 | unexpected _ ↦ ret r.1 ]

  -- `read` writes behind the last element of the vector, and `resize` then gives every new element the
  -- value zero.
  unfoldable pub try_fill_buffer :
      Numbers D
      → (ℕ → ℕ)
      → ℕ
      → List Read
      → Connection D
      → Outcome (Result Bool × Connection D × List Read)
  unfolding process_requests
  try_fill_buffer lib clock fuel reads c = elim (ltb (length c.rbuf) max_msg_size) [
    | true ↦ read_retry reads >>= λ r. elim r.0 [
      | failed eagain ↦ ret (ok false, c, r.1)
      | failed _ ↦ ret (unexpected io_error, c, r.1)
      | received [] ↦ ret (ok false, record c { state = ConnectionState.end }, r.1)
      | received (b ∷ bs) ↦
          process_requests lib clock fuel
            (record c { rbuf = c.rbuf ++ replicate (length (b ∷ bs)) 0 })
          >>= λ d. ret (ok true, d, r.1)
    ]
    | false ↦ fault assertion
  ]

  -- What follows the loop `while (wbuf_sent_ < wbuf_.size())`.
  abbrev pub end_flush :
      List Write → Connection D → Outcome (Result Bool × Connection D × Bytes × List Write)
  end_flush writes c =
      if c.wbuf_sent == length c.wbuf
      then ret (
        ok false,
        record c { state = ConnectionState.request; wbuf = []; wbuf_sent = 0 },
        [],
        writes,
      )
      else ret (ok true, c, [], writes)

  -- The loop with the retry after `EINTR` in it: what each `write` returns decides.
  unfoldable pub try_flush_buffer :
      List Write → Connection D → Outcome (Result Bool × Connection D × Bytes × List Write)
  try_flush_buffer [] c = elim (ltb c.wbuf_sent (length c.wbuf)) [
    | false ↦ end_flush [] c
    | true ↦ fault out_of_fuel
  ]
  try_flush_buffer (failed eintr ∷ writes) c = elim (ltb c.wbuf_sent (length c.wbuf)) [
    | false ↦ end_flush (failed eintr ∷ writes) c
    | true ↦ try_flush_buffer writes c
  ]
  try_flush_buffer (failed eagain ∷ writes) c = elim (ltb c.wbuf_sent (length c.wbuf)) [
    | false ↦ end_flush (failed eagain ∷ writes) c
    | true ↦ ret (ok false, c, [], writes)
  ]
  try_flush_buffer (failed other ∷ writes) c = elim (ltb c.wbuf_sent (length c.wbuf)) [
    | false ↦ end_flush (failed other ∷ writes) c
    | true ↦ ret (unexpected io_error, c, [], writes)
  ]
  try_flush_buffer (wrote n ∷ writes) c = elim (ltb c.wbuf_sent (length c.wbuf)) [
    | false ↦ end_flush (wrote n ∷ writes) c
    | true ↦ try_flush_buffer writes (record c { wbuf_sent = c.wbuf_sent + n }) >>= λ r.
        ret (r.0, r.1, take n (drop c.wbuf_sent c.wbuf) ++ r.2, r.3)
  ]

  -- `while (true)` around `try_fill_buffer`. A round takes a value of `reads`.
  unfoldable pub handle_request :
      Numbers D
      → (ℕ → ℕ)
      → ℕ
      → List Read
      → Connection D
      → Outcome (Result {0} Unit × Connection D × List Read)
  unfolding try_fill_buffer
  handle_request lib clock zero reads c = fault out_of_fuel
  handle_request lib clock (suc fuel) reads c = try_fill_buffer lib clock fuel reads c >>= λ r.
      elim r.0 [
        | unexpected e ↦ ret (unexpected e, r.1, r.2)
        | ok false ↦ ret (ok tt, r.1, r.2)
        | ok true ↦ handle_request lib clock fuel r.2 r.1
      ]

  -- `while (true)` around `try_flush_buffer`
  unfoldable pub handle_response :
      ℕ → List Write → Connection D → Outcome (Result {0} Unit × Connection D × Bytes × List Write)
  unfolding try_flush_buffer
  handle_response zero writes c = fault out_of_fuel
  handle_response (suc fuel) writes c = try_flush_buffer writes c >>= λ r. elim r.0 [
    | unexpected e ↦ ret (unexpected e, r.1, r.2, r.3)
    | ok false ↦ ret (ok tt, r.1, r.2, r.3)
    | ok true ↦ handle_response fuel r.3 r.1 >>= λ d. ret (d.0, d.1, r.2 ++ d.2, d.3)
  ]

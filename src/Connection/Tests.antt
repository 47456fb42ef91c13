-- ===== src/Connection/Tests.antt =====
-- Runs of connection.hpp on small inputs.
use vector_db.Prelude.{
  ℕ, ◌%◌, ◌^◌, ◌≡◌, refl, false, none, List, [], ◌∷◌, ◌++◌, arith, leb, length, drop, take,
}
use vector_db.Prelude.Outcome.{Fault, ret, fault, out_of_fuel}
use vector_db.Bytes.{Bytes, ascii, store_u32}
use vector_db.RequestParser.{ok}
use vector_db.RequestParser.Encoding.{encode}
use vector_db.ResponseSerializer.{serialize_error}
use vector_db.HashMap
use vector_db.EntryManager.{EntryManager}
use vector_db.CommandProcessor.{Numbers, Value, err_unknown, process_command}
use vector_db.Connection.{
  Connection, ConnectionState, Write, received, wrote, failed, eintr, eagain, new,
  try_process_request, process_requests, try_fill_buffer, handle_response, process_io,
}
use vector_db.Connection.Requests.{
  process_requests-fault, try_fill_buffer-new, try_process_request-encode,
}
use vector_db.Connection.Responses.{Sends, unsent, handle_response-Sends, handle_response-Takes}
use vector_db.Connection.Typed.{typed, process_io-typed}

-- No text is a number.
abbrev no_numbers : Numbers ℕ
no_numbers = record { stod = λ _. none; isnan = λ _. false; stoll = λ _. none }

abbrev store : EntryManager (Value ℕ)
store = record { db = HashMap.new; heap = record { items = []; cells = [] }; entries = [] }

abbrev opened : Connection ℕ
opened = new store 0

-- Two bytes of six are sent.
abbrev replying : Connection ℕ
replying = record opened {
  state = ConnectionState.response;
  wbuf = 1 ∷ 2 ∷ 3 ∷ 4 ∷ 5 ∷ 6 ∷ [];
  wbuf_sent = 2;
}

abbrev unknown_command : Bytes
unknown_command = serialize_error [] err_unknown (ascii "unknown command\n")

unknown : process_command no_numbers 0 (ascii "ping" ∷ []) [] store ≡ ret (unknown_command, store)
unfolding process_command
unknown = refl

flush_in_parts :
    handle_response 1 (wrote 1 ∷ failed eintr ∷ wrote 2 ∷ failed eagain ∷ []) replying
    ≡ ret (ok tt, record replying { wbuf_sent = 5 }, 3 ∷ 4 ∷ 5 ∷ [], [])
unfolding handle_response
flush_in_parts = refl

process_requests-fault_example :
    (e : Fault) × (process_requests no_numbers (λ _. 0) 3 replying ≡ fault e)
process_requests-fault_example = process_requests-fault no_numbers (λ _. 0) 3 replying

try_fill_buffer-new_example :
    try_fill_buffer no_numbers (λ _. 0) 9 (received (0 ∷ 0 ∷ 0 ∷ 4 ∷ []) ∷ []) opened
    ≡ fault out_of_fuel
try_fill_buffer-new_example =
    try_fill_buffer-new no_numbers (λ _. 0) 9 0 0 (0 ∷ 0 ∷ 4 ∷ []) [] store

-- A request of one string of four bytes is twelve bytes, of which five are taken.
try_process_request-encode_example :
    try_process_request no_numbers 0 (record opened { rbuf = encode (ascii "ping" ∷ []) ++ [] })
    ≡ ret (
      ok (leb 4 (length (drop 5 (encode (ascii "ping" ∷ []) ++ [])))),
      record opened {
        state = ConnectionState.response;
        rbuf = drop 5 (encode (ascii "ping" ∷ []) ++ []);
        wbuf = store_u32 (length unknown_command % 2 ^ 32) ++ unknown_command;
        wbuf_sent = 0;
      },
    )
try_process_request-encode_example =
    try_process_request-encode no_numbers 0 (ascii "ping" ∷ []) [] unknown_command store opened
      (omega arith) unknown

handle_response-Sends_example :
    Sends (unsent replying) (handle_response 1 (wrote 1 ∷ failed eagain ∷ []) replying)
handle_response-Sends_example = handle_response-Sends 1 (wrote 1 ∷ failed eagain ∷ []) replying

handle_response-Takes_example :
    (rest : List Write) × (handle_response 1 (wrote 1 ∷ failed eintr ∷ wrote 3 ∷ []) replying
      ≡ ret (
        ok tt,
        record replying { state = ConnectionState.request; wbuf = []; wbuf_sent = 0 },
        unsent replying,
        rest,
      ))
handle_response-Takes_example =
    handle_response-Takes 0 4 (wrote 1 ∷ failed eintr ∷ wrote 3 ∷ []) replying (omega arith)
      (omega arith, (omega arith, tt))

process_io-typed_example :
    process_io no_numbers 0
      (received (typed ((ascii "ping", ascii "\r\n") ∷ [])))
      (wrote 100)
      opened
    ≡ ret (ok tt, opened, take 100 unknown_command)
process_io-typed_example =
    process_io-typed no_numbers 0 100 (ascii "ping", ascii "\r\n") [] opened unknown_command store
      (
        (
          omega arith,
          (
            ((refl, omega arith)),
            ((refl, omega arith), ((refl, omega arith), ((refl, omega arith), tt))),
          ),
          omega arith,
          (refl, (refl, tt)),
        ),
        tt,
      )
      unknown

-- ===== src/Connection/Requests.antt =====
-- connection.hpp, the reading side: `try_fill_buffer`, `try_process_request` and the loop around it.
use vector_db.Prelude.{
  ℕ, zero, suc, ◌+◌, ◌%◌, ◌^◌, ◌<◌, ◌≡◌, refl, Bool, true, false, List, [], ◌∷◌, ◌++◌, arith, ltb,
  leb, length, length-append, drop_all, drop, replicate, ltb-false→le, Bool-cases, inl, inr,
}
use vector_db.Prelude.Outcome.{Fault, Outcome, ret, fault, out_of_fuel, ◌>>=◌}
use vector_db.Bytes.{Bytes, store_u32, ascii}
use vector_db.RequestParser.{Result, ok, unexpected, Errc, parse}
use vector_db.RequestParser.Encoding.{encode, encode_strings}
use vector_db.RequestParser.RoundTrip.{parse-encode}
use vector_db.ResponseSerializer.{serialize_error}
use vector_db.EntryManager.{EntryManager}
use vector_db.CommandProcessor.{Numbers, Value, err_arg, process_command}
use vector_db.Connection.{
  Connection, ConnectionState, Read, received, new, consume, try_process_request, process_requests,
  try_fill_buffer,
}

-- A call of `try_process_request` faults or returns a `std::expected` that holds a value.
data HasValue {κ} {D : Type κ} : Outcome (Result Bool × Connection D) → Type κ where
  faults : (e : Fault) → HasValue (fault e)
  value : (b : Bool) (c : Connection D) → HasValue (ret (ok b, c))

abbrev pub zeros : ℕ → Bytes
zeros n = replicate n 0

-- `consume` is `drop`: what it clears is used up.
consume-drop : (n : ℕ) (bs : Bytes) → consume n bs ≡ drop n bs
consume-drop n bs = elim (Bool-cases (ltb n (length bs))) [
  | inl e ↦ rw e refl
  | inr e ↦ rw (e, drop_all n bs (ltb-false→le n (length bs) e)) refl
]

module _ {κ} {D : Type κ} where
  HasValue-bind {μ} :
      {A : Type μ} (o : Outcome A) (f : A → Outcome (Result Bool × Connection D))
      → ((a : A) → HasValue (f a))
      → HasValue (o >>= f)
  HasValue-bind (ret a) f h = h a
  HasValue-bind (fault e) f h = faults e

  HasValue-Result {μ} :
      {A : Type μ} (r : Result A) (f : A → Outcome (Result Bool × Connection D))
      (g : Errc → Outcome (Result Bool × Connection D))
      → ((a : A) → HasValue (f a))
      → ((e : Errc) → HasValue (g e))
      → HasValue (elim r [ unexpected e ↦ g e | ok a ↦ f a ])
  HasValue-Result (ok a) f g hf hg = hf a
  HasValue-Result (unexpected e) f g hf hg = hg e

  HasValue-Bool :
      (b : Bool) (x y : Outcome (Result Bool × Connection D))
      → HasValue x
      → HasValue y
      → HasValue (elim b [ true ↦ x | false ↦ y ])
  HasValue-Bool true x y hx hy = hx
  HasValue-Bool false x y hx hy = hy

  module _ (lib : Numbers D) where
    try_process_request-HasValue :
        (now : ℕ) (c : Connection D) → HasValue (try_process_request lib now c)
    unfolding try_process_request
    try_process_request-HasValue now c = HasValue-Bool _ _ _ (value false c) (
        HasValue-bind (parse c.rbuf) _ λ parsed.
          HasValue-Result parsed _ _
            (λ cmd. HasValue-bind (process_command lib now cmd [] c.entry_manager) _ λ r. value _ _)
            (λ e. value false _))

    again :
        (o : Outcome (Result Bool × Connection D)) (f : Connection D → Outcome (Connection D))
        → HasValue o
        → ((c : Connection D) → (e : Fault) × (f c ≡ fault e))
        → (e : Fault) × ((o >>= λ r. elim r.0 [ ok _ ↦ f r.1 | unexpected _ ↦ ret r.1 ]) ≡ fault e)
    again o f (faults e) h = (e, refl)
    again o f (value b c) h = h c

    -- The loop `while (try_process_request()) {}` never returns to its caller, whatever the connection and
    -- the number of rounds.
    pub process_requests-fault :
        (clock : ℕ → ℕ) (fuel : ℕ) (c : Connection D)
        → (e : Fault) × (process_requests lib clock fuel c ≡ fault e)
    unfolding process_requests
    process_requests-fault clock zero c = (out_of_fuel, refl)
    process_requests-fault clock (suc fuel) c =
        again (try_process_request lib (clock fuel) c) _
          (try_process_request-HasValue (clock fuel) c) (process_requests-fault clock fuel)

    -- A request that is whole, before any other bytes `more`: one call of the processor, whose response is
    -- in the write buffer after its length, in the state `response`. What is taken from the read buffer is
    -- four bytes and one byte for each string of the request.
    pub try_process_request-encode :
        (now : ℕ) (args : List Bytes) (more reply : Bytes) (m : EntryManager (Value D))
        (c : Connection D)
        → length (encode_strings args) < 2 ^ 32
        → process_command lib now args [] c.entry_manager ≡ ret (reply, m)
        → try_process_request lib now (record c { rbuf = encode args ++ more })
          ≡ ret (
            ok (leb 4 (length (drop (4 + length args) (encode args ++ more)))),
            record c {
              entry_manager = m;
              state = ConnectionState.response;
              rbuf = drop (4 + length args) (encode args ++ more);
              wbuf = store_u32 (length reply % 2 ^ 32) ++ reply;
              wbuf_sent = 0;
            },
          )
    unfolding try_process_request
    try_process_request-encode now args more reply m c small reply_is =
        let size = length-append (encode args) more in
        let long : ltb (length (encode args ++ more)) 4 ≡ false = ground arith in
        rw
          (
            long,
            try_process_request,
            parse-encode args more small,
            reply_is,
            consume-drop (4 + length args) (encode args ++ more),
          )
          refl

    -- A round takes four zeros away, as long as there are four.
    zeros_round :
        (now n : ℕ) (c : Connection D)
        → (b : Bool) × (k : ℕ) × (d : Connection D) × (try_process_request lib now
              (record c { rbuf = zeros n })
            ≡ ret (ok b, record d { rbuf = zeros k }))
    unfolding try_process_request process_command
    zeros_round now zero c = (false, 0, c, refl)
    zeros_round now (suc zero) c = (false, 1, c, refl)
    zeros_round now (suc (suc zero)) c = (false, 2, c, refl)
    zeros_round now (suc (suc (suc zero))) c = (false, 3, c, refl)
    zeros_round now (suc (suc (suc (suc n)))) c =
        let reply = serialize_error [] err_arg (ascii "empty command\n") in
        (
          leb 4 (length (zeros n)),
          n,
          record c {
            state = ConnectionState.response;
            wbuf = store_u32 (length reply % 2 ^ 32) ++ reply;
            wbuf_sent = 0;
          },
          try_process_request-encode now [] (zeros n) reply c.entry_manager c (omega arith) refl,
        )

    process_requests-zeros :
        (clock : ℕ → ℕ) (fuel n : ℕ) (c : Connection D)
        → process_requests lib clock fuel (record c { rbuf = zeros n }) ≡ fault out_of_fuel
    unfolding process_requests
    process_requests-zeros clock zero n c = refl
    process_requests-zeros clock (suc fuel) n c =
        let (b, k, d, e) = zeros_round (clock fuel) n c in
        rw (e, process_requests) (process_requests-zeros clock fuel k d)

    -- On a new connection, the first `read` that gets data is the last thing that `try_fill_buffer` does
    -- before it loops: whatever the data, its fuel never is enough.
    pub try_fill_buffer-new :
        (clock : ℕ → ℕ) (fuel now b : ℕ) (bs : Bytes) (reads : List Read)
        (m : EntryManager (Value D))
        → try_fill_buffer lib clock fuel (received (b ∷ bs) ∷ reads) (new m now) ≡ fault out_of_fuel
    unfolding try_fill_buffer
    try_fill_buffer-new clock fuel now b bs reads m =
        rw (process_requests-zeros clock fuel (suc (length bs)) (new m now)) refl

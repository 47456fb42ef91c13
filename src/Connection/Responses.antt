-- ===== src/Connection/Responses.antt =====
-- connection.hpp, the writing side: `try_flush_buffer` and the loop around it.
use vector_db.Prelude.{
  ℕ, zero, suc, ◌+◌, ◌-◌, ◌≤◌, ◌≡◌, refl, sym, ◌∙◌, ap, Bool, true, false, List, [], ◌∷◌, ◌++◌,
  arith, ltb, ◌==◌, ltb-false→le, length, drop_all, drop_add, take, drop, append_assoc,
  take-drop_append, Bool-cases, inl, inr,
}
use vector_db.Prelude.Outcome.{Fault, Outcome, ret, fault, ◌>>=◌}
use vector_db.Bytes.{Bytes}
use vector_db.RequestParser.{Result, ok, unexpected}
use vector_db.Connection.{
  Connection, ConnectionState, Write, wrote, failed, eintr, eagain, other, end_flush,
  try_flush_buffer, handle_response,
}

-- What is still to be sent.
abbrev pub unsent {κ} : {D : Type κ} → Connection D → Bytes
unsent c = drop c.wbuf_sent c.wbuf

-- What a call that returns has sent, with what is then unsent, is what was unsent before it.
pub data Sends {κ} {D : Type κ} {A : Type 0} (bytes : Bytes)
    : Outcome (A × Connection D × Bytes × List Write) → Type κ where
  faults : (e : Fault) → Sends bytes (fault e)
  sends :
      (a : A) (c : Connection D) (output : Bytes) (writes : List Write)
      → output ++ unsent c ≡ bytes
      → Sends bytes (ret (a, c, output, writes))

-- What `write` returns takes `k` bytes in the end: never more than are left, and no call fails but by an
-- interruption.
abbrev pub Takes : ℕ → List Write → Type 0
Takes zero writes = Unit
Takes (suc k) [] = ⊥
Takes (suc k) (failed eintr ∷ writes) = Takes (suc k) writes
Takes (suc k) (failed eagain ∷ writes) = ⊥
Takes (suc k) (failed other ∷ writes) = ⊥
Takes (suc k) (wrote n ∷ writes) = (n ≤ suc k) × Takes (suc k - n) writes

module _ {κ} {D : Type κ} where
  Sends-end :
      (writes : List Write) (c : Connection D)
      → ltb c.wbuf_sent (length c.wbuf) ≡ false
      → Sends (unsent c) (end_flush writes c)
  Sends-end writes c e = elim (Bool-cases (c.wbuf_sent == length c.wbuf)) [
    | inl all ↦ rw all (sends _ _ _ _ (sym (drop_all c.wbuf_sent c.wbuf (ltb-false→le _ _ e))))
    | inr more ↦ rw more (sends _ _ _ _ refl)
  ]

  -- A `write` of `n` bytes, and then a call that sends what is left.
  Sends-wrote :
      {A : Type 0} (n : ℕ) (c : Connection D) (o : Outcome (A × Connection D × Bytes × List Write))
      → Sends (drop (c.wbuf_sent + n) c.wbuf) o
      → Sends (unsent c) (o >>= λ r. ret (r.0, r.1, take n (unsent c) ++ r.2, r.3))
  Sends-wrote n c o (faults e) = faults e
  Sends-wrote n c o (sends a d output writes h) = sends a d _ writes (
      append_assoc (take n (unsent c)) output (unsent d)
      ∙ ap (λ bs. take n (unsent c) ++ bs) (h ∙ drop_add c.wbuf_sent n c.wbuf)
      ∙ take-drop_append n (unsent c))

  -- One step of the loop: it goes on, or there is nothing left.
  Sends-step :
      (writes : List Write) (c : Connection D)
      (o : Outcome (Result Bool × Connection D × Bytes × List Write))
      → Sends (unsent c) o
      → Sends
          (unsent c)
          (elim (ltb c.wbuf_sent (length c.wbuf)) [ false ↦ end_flush writes c | true ↦ o ])
  Sends-step writes c o h = elim (Bool-cases (ltb c.wbuf_sent (length c.wbuf))) [
    | inl e ↦ rw e h
    | inr e ↦ rw e (Sends-end writes c e)
  ]

  try_flush_buffer-Sends :
      (writes : List Write) (c : Connection D) → Sends (unsent c) (try_flush_buffer writes c)
  unfolding try_flush_buffer
  try_flush_buffer-Sends [] c = Sends-step [] c _ (faults _)
  try_flush_buffer-Sends (failed eintr ∷ writes) c =
      Sends-step _ c _ (try_flush_buffer-Sends writes c)
  try_flush_buffer-Sends (failed eagain ∷ writes) c = Sends-step _ c _ (sends _ _ _ _ refl)
  try_flush_buffer-Sends (failed other ∷ writes) c = Sends-step _ c _ (sends _ _ _ _ refl)
  try_flush_buffer-Sends (wrote n ∷ writes) c =
      Sends-step _ c _ (
        Sends-wrote n c _
          (try_flush_buffer-Sends writes (record c { wbuf_sent = c.wbuf_sent + n })))

  Sends-more :
      {A : Type 0} (output bytes : Bytes) (c : Connection D)
      (o : Outcome (A × Connection D × Bytes × List Write))
      → output ++ unsent c ≡ bytes
      → Sends (unsent c) o
      → Sends bytes (o >>= λ r. ret (r.0, r.1, output ++ r.2, r.3))
  Sends-more output bytes c o h (faults e) = faults e
  Sends-more output bytes c o h (sends a d more writes g) =
      sends a d _ writes (append_assoc output more (unsent d) ∙ ap (λ bs. output ++ bs) g ∙ h)

  flush_end :
      (writes : List Write) (c : Connection D)
      (o : Outcome (Result Bool × Connection D × Bytes × List Write))
      → c.wbuf_sent + 0 ≡ length c.wbuf
      → (rest : List Write) × (elim (ltb c.wbuf_sent (length c.wbuf)) [
        | false ↦ end_flush writes c
        | true ↦ o
      ]
          ≡ ret (
            ok false,
            record c { state = ConnectionState.request; wbuf = []; wbuf_sent = 0 },
            unsent c,
            rest,
          ))
  flush_end writes c o left =
      let at_end : ltb c.wbuf_sent (length c.wbuf) ≡ false = ground arith in
      let all : (c.wbuf_sent == length c.wbuf) ≡ true = ground arith in
      (writes, rw (at_end, all, drop_all c.wbuf_sent c.wbuf (omega arith)) refl)

  try_flush_buffer-Takes :
      (k : ℕ) (writes : List Write) (c : Connection D)
      → c.wbuf_sent + k ≡ length c.wbuf
      → Takes k writes
      → (rest : List Write) × (try_flush_buffer writes c
          ≡ ret (
            ok false,
            record c { state = ConnectionState.request; wbuf = []; wbuf_sent = 0 },
            unsent c,
            rest,
          ))
  unfolding try_flush_buffer
  try_flush_buffer-Takes zero [] c left takes = flush_end _ c _ left
  try_flush_buffer-Takes zero (failed eintr ∷ writes) c left takes = flush_end _ c _ left
  try_flush_buffer-Takes zero (failed eagain ∷ writes) c left takes = flush_end _ c _ left
  try_flush_buffer-Takes zero (failed other ∷ writes) c left takes = flush_end _ c _ left
  try_flush_buffer-Takes zero (wrote n ∷ writes) c left takes = flush_end _ c _ left
  try_flush_buffer-Takes (suc k) [] c left takes = absurd takes
  try_flush_buffer-Takes (suc k) (failed eintr ∷ writes) c left takes =
      let (rest, e) = try_flush_buffer-Takes (suc k) writes c left takes in
      let more : ltb c.wbuf_sent (length c.wbuf) ≡ true = ground arith in
      (rest, rw (more, try_flush_buffer) e)
  try_flush_buffer-Takes (suc k) (failed eagain ∷ writes) c left takes = absurd takes
  try_flush_buffer-Takes (suc k) (failed other ∷ writes) c left takes = absurd takes
  try_flush_buffer-Takes (suc k) (wrote n ∷ writes) c left (fits, takes) =
      let d = record c { wbuf_sent = c.wbuf_sent + n } in
      let (rest, e) = try_flush_buffer-Takes (suc k - n) writes d (omega arith) takes in
      let more : ltb c.wbuf_sent (length c.wbuf) ≡ true = ground arith in
      (
        rest,
        rw (more, try_flush_buffer, e, drop_add c.wbuf_sent n c.wbuf, take-drop_append n (unsent c))
            refl,
      )

  Sends-round :
      (fuel : ℕ) (bytes : Bytes) (o : Outcome (Result Bool × Connection D × Bytes × List Write))
      → Sends bytes o
      → ((writes : List Write) (c : Connection D)
          → Sends (unsent c) (handle_response fuel writes c))
      → Sends bytes (
          o >>= λ r. elim r.0 [
            | unexpected e ↦ ret (unexpected e, r.1, r.2, r.3)
            | ok false ↦ ret (ok tt, r.1, r.2, r.3)
            | ok true ↦ handle_response fuel r.3 r.1 >>= λ d. ret (d.0, d.1, r.2 ++ d.2, d.3)
          ])
  Sends-round fuel bytes o (faults e) h = faults e
  Sends-round fuel bytes o (sends (unexpected e) c output writes h) rest = sends _ c output writes h
  Sends-round fuel bytes o (sends (ok false) c output writes h) rest = sends _ c output writes h
  Sends-round fuel bytes o (sends (ok true) c output writes h) rest =
      Sends-more output bytes c _ h (rest writes c)

  -- Whatever `write` returns, `handle_response` sends the bytes of the response in their order, none twice
  -- and none left out: what it has sent and what is unsent at its end are what was unsent before it.
  pub handle_response-Sends :
      (fuel : ℕ) (writes : List Write) (c : Connection D)
      → Sends (unsent c) (handle_response fuel writes c)
  unfolding handle_response
  handle_response-Sends zero writes c = faults _
  handle_response-Sends (suc fuel) writes c =
      Sends-round fuel (unsent c) (try_flush_buffer writes c) (try_flush_buffer-Sends writes c)
        (handle_response-Sends fuel)

  -- Where the writes take all that is unsent, `handle_response` returns after one round: the response has
  -- been sent, the write buffer is empty, and the connection waits for a request.
  pub handle_response-Takes :
      (fuel k : ℕ) (writes : List Write) (c : Connection D)
      → c.wbuf_sent + k ≡ length c.wbuf
      → Takes k writes
      → (rest : List Write) × (handle_response (suc fuel) writes c
          ≡ ret (
            ok tt,
            record c { state = ConnectionState.request; wbuf = []; wbuf_sent = 0 },
            unsent c,
            rest,
          ))
  unfolding handle_response
  handle_response-Takes fuel k writes c left takes =
      let (rest, e) = try_flush_buffer-Takes k writes c left takes in
      (rest, rw (e, handle_response) refl)

-- ===== src/Server/Clients.antt =====
-- server.hpp: a round in which clients have typed their commands.
use vector_db.Prelude.{
  ℕ, ◌≡◌, ◌≢◌, refl, ap, ◌∙◌, Bool-cases, Option-cases, inl, inr, none, some, List, [], ◌∷◌, ◌++◌,
  arith, map, take, All, Pairwise, ◌==◌, if◌then◌else◌,
}
use vector_db.Prelude.Outcome.{
  Fault, relock, out_of_range, assertion, out_of_bounds, dangling, overflow, out_of_fuel, Outcome,
  ret, fault, ◌>>=◌,
}
use vector_db.Bytes.{Bytes}
use vector_db.RequestParser.{ok}
use vector_db.EntryManager.{EntryManager}
use vector_db.CommandProcessor.{Numbers, Value, process_command}
use vector_db.Connection.{Connection, received, wrote, process_io}
use vector_db.Connection.Typed.{typed, IsTyped, process_io-command}
use vector_db.Server.{
  Server, Io, PollFd, Output, find_connection, without, update_connection, after_io,
  process_active_connections,
}
use vector_db.Server.Others.{SameOthers, update_connection-SameOthers, without-SameOthers}

-- What a client has typed, word by word, how much of the reply one `write` takes, and what an exception
-- leaves of the entries.
pub record Client {κ} (D : Type κ) : Type κ where
  pub first : Bytes × Bytes
  pub rest : List (Bytes × Bytes)
  pub takes : ℕ
  pub thrown : EntryManager (Value D)

-- The entries, and the descriptors of the connections that are open.
abbrev pub Held {κ} : Type κ → Type κ
Held D = EntryManager (Value D) × List ℕ

abbrev pub close : List ℕ → ℕ → List ℕ
close [] fd = []
close (g ∷ fds) fd = if g == fd then close fds fd else g ∷ close fds fd

module _ {κ} {D : Type κ} where
  abbrev pub io_of : (ℕ → Client D) → ℕ → Io D
  io_of clients fd = record {
    read = received (typed ((clients fd).first ∷ (clients fd).rest));
    write = wrote ((clients fd).takes);
    thrown = (clients fd).thrown;
  }

  -- The descriptors of the connections that have events, in the order of `poll`.
  abbrev pub ready : List PollFd → List (ℕ × Connection D) → List ℕ
  ready [] cs = []
  ready (p ∷ ps) cs =
      if p.revents == 0
      then ready ps cs
      else elim (find_connection cs p.fd) [ none ↦ ready ps cs | some c ↦ p.fd ∷ ready ps cs ]

  abbrev pub descriptors : List (ℕ × Connection D) → List ℕ
  descriptors = map (λ p. p.0)

  -- A reply, or an exception, after which the connection is closed.
  abbrev pub served :
      ℕ → Client D → List ℕ → Outcome (Bytes × EntryManager (Value D)) → Outcome (Held D × Output)
  served fd client open_fds (ret (reply, m)) =
      ret ((m, open_fds), (fd, take client.takes reply) ∷ [])
  served fd client open_fds (fault e) = elim e [
    | out_of_range ↦ ret ((client.thrown, close open_fds fd), [])
    | other ↦ fault other
  ]

  -- The commands of the clients, one after the other on the same entries.
  abbrev pub serve : Numbers D → ℕ → (ℕ → Client D) → List ℕ → Held D → Outcome (Held D × Output)
  serve lib now clients [] held = ret (held, [])
  serve lib now clients (fd ∷ fds) held =
      let client = clients fd in
      let line = map (λ b. b.0) (client.first ∷ client.rest) in
      served fd client held.1 (process_command lib now line [] held.0) >>= λ r.
      serve lib now clients fds r.0 >>= λ q. ret (q.0, r.1 ++ q.1)

  abbrev pub held_by : Server D → Held D
  held_by s = (s.entry_manager, descriptors s.connections)

  -- The entries, the open connections and what is sent.
  abbrev pub view : Outcome (Server D × Output) → Outcome (Held D × Output)
  view (ret (s, sent)) = ret (held_by s, sent)
  view (fault e) = fault e

  descriptors-update_connection :
      (cs : List (ℕ × Connection D)) (fd : ℕ) (c : Connection D)
      → descriptors (update_connection cs fd c) ≡ descriptors cs
  descriptors-update_connection [] fd c = refl
  descriptors-update_connection ((g, d) ∷ cs) fd c = elim (Bool-cases (g == fd)) [
    | inl e ↦ rw e (ap (λ gs. g ∷ gs) (descriptors-update_connection cs fd c))
    | inr e ↦ rw e (ap (λ gs. g ∷ gs) (descriptors-update_connection cs fd c))
  ]

  descriptors-without :
      (cs : List (ℕ × Connection D)) (fd : ℕ)
      → descriptors (without cs fd) ≡ close (descriptors cs) fd
  descriptors-without [] fd = refl
  descriptors-without ((g, d) ∷ cs) fd = elim (Bool-cases (g == fd)) [
    | inl e ↦ rw e (descriptors-without cs fd)
    | inr e ↦ rw e (ap (λ gs. g ∷ gs) (descriptors-without cs fd))
  ]

  ready-SameOthers :
      (fd : ℕ) (ps : List PollFd) (cs ds : List (ℕ × Connection D))
      → SameOthers fd cs ds
      → All (λ (p : PollFd). fd ≢ p.fd) ps
      → ready ps ds ≡ ready ps cs
  ready-SameOthers fd [] cs ds same h = refl
  ready-SameOthers fd (p ∷ ps) cs ds same (ne, h) =
      ground (arith, same p.fd ne, ready-SameOthers fd ps cs ds same h)

  data Agrees (fd : ℕ) (s : Server D)
      : Outcome (Server D × Output) → Outcome (Held D × Output) → Type κ where
    both :
        (t : Server D) (open_fds : List ℕ) (sent : Output)
        → SameOthers fd s.connections t.connections
        → descriptors t.connections ≡ open_fds
        → Agrees fd s (ret (t, sent)) (ret ((t.entry_manager, open_fds), sent))
    faults : (e : Fault) → Agrees fd s (fault e) (fault e)

  after_io-Agrees :
      (fd : ℕ) (client : Client D) (s : Server D) (c : Connection D)
      (o : Outcome (Bytes × EntryManager (Value D)))
      → Agrees fd s
          (after_io fd client.thrown s
            (o >>= λ r. ret (ok tt, record c { entry_manager = r.1 }, take client.takes r.0)))
          (served fd client (descriptors s.connections) o)
  after_io-Agrees fd client s c (ret (reply, m)) =
      both _ _ _ (update_connection-SameOthers s.connections fd (record c { entry_manager = m }))
        (descriptors-update_connection s.connections fd (record c { entry_manager = m }))
  after_io-Agrees fd client s c (fault out_of_range) =
      both _ _ [] (without-SameOthers s.connections fd) (descriptors-without s.connections fd)
  after_io-Agrees fd client s c (fault relock) = faults relock
  after_io-Agrees fd client s c (fault assertion) = faults assertion
  after_io-Agrees fd client s c (fault out_of_bounds) = faults out_of_bounds
  after_io-Agrees fd client s c (fault dangling) = faults dangling
  after_io-Agrees fd client s c (fault overflow) = faults overflow
  after_io-Agrees fd client s c (fault out_of_fuel) = faults out_of_fuel

  view-bind :
      (o : Outcome (Server D × Output)) (sent : Output)
      → view (o >>= λ q. ret (q.0, sent ++ q.1)) ≡ (view o >>= λ q. ret (q.0, sent ++ q.1))
  view-bind (ret r) sent = refl
  view-bind (fault e) sent = refl

  view-pass : (o : Outcome (Server D × Output)) → view (o >>= λ q. ret (q.0, q.1)) ≡ view o
  view-pass (ret r) = refl
  view-pass (fault e) = refl

  module _ (lib : Numbers D) (now : ℕ) (clients : ℕ → Client D)
      (lines : (fd : ℕ) → IsTyped ((clients fd).first ∷ (clients fd).rest)) where
    process_io-Agrees :
        (p : PollFd) (s : Server D) (c : Connection D)
        → Agrees p.fd s
            (after_io p.fd (clients p.fd).thrown s (
              process_io lib now
                (io_of clients p.fd).read
                (io_of clients p.fd).write
                (record c { entry_manager = s.entry_manager })))
            (served p.fd (clients p.fd) (descriptors s.connections) (
              process_command lib now
                (map (λ b. b.0) ((clients p.fd).first ∷ (clients p.fd).rest))
                []
                s.entry_manager))
    process_io-Agrees p s c =
        rw
          (process_io-command lib now (wrote (clients p.fd).takes) (clients p.fd).first
            (clients p.fd).rest (record c { entry_manager = s.entry_manager }) (lines p.fd))
          (after_io-Agrees p.fd (clients p.fd) s c _)

    after-Agrees :
        (fd : ℕ) (ps : List PollFd) (s : Server D) (o : Outcome (Server D × Output))
        (r : Outcome (Held D × Output))
        → Agrees fd s o r
        → All (λ (p : PollFd). fd ≢ p.fd) ps
        → ((t : Server D)
            → view (process_active_connections lib now (io_of clients) ps t)
              ≡ serve lib now clients (ready ps t.connections) (held_by t))
        → view (
            o >>= λ a. process_active_connections lib now (io_of clients) ps a.0 >>= λ q.
            ret (q.0, a.1 ++ q.1))
          ≡ (r >>= λ a.
              serve lib now clients (ready ps s.connections) a.0 >>= λ q. ret (q.0, a.1 ++ q.1))
    after-Agrees fd ps s o r (both t open_fds sent same left) others rest =
        view-bind (process_active_connections lib now (io_of clients) ps t) sent
        ∙ ap (λ v. v >>= λ q. ret (q.0, sent ++ q.1))
            (rest t
              ∙ ap (λ fds. serve lib now clients fds (held_by t))
                  (ready-SameOthers fd ps s.connections t.connections same others)
              ∙ ap (λ fds. serve lib now clients (ready ps s.connections) (t.entry_manager, fds))
                  left)
    after-Agrees fd ps s o r (faults e) others rest = refl

    -- Where every client whose connection has events has typed a line of words, a round runs their commands
    -- in the order of `poll`, one after the other on the same entries, and sends each client what one `write`
    -- takes of its reply. After it the connections of the clients whose commands ended in an exception are
    -- closed and all others are open; any other fault ends the round.
    pub process_active_connections-serve :
        (ps : List PollFd) (s : Server D)
        → Pairwise (λ (p q : PollFd). p.fd ≢ q.fd) ps
        → view (process_active_connections lib now (io_of clients) ps s)
          ≡ serve lib now clients (ready ps s.connections) (held_by s)
    unfolding process_active_connections
    process_active_connections-serve [] s apart = refl
    process_active_connections-serve (p ∷ ps) s (others, apart) =
        elim (Bool-cases (p.revents == 0)) [
          | inl e ↦ rw e (view-pass _ ∙ process_active_connections-serve ps s apart)
          | inr e ↦ elim (Option-cases (find_connection s.connections p.fd)) [
            | inl absent ↦
                rw (e, absent) (view-pass _ ∙ process_active_connections-serve ps s apart)
            | inr (c, there) ↦
                rw (e, there)
                  (after-Agrees p.fd ps s _ _ (process_io-Agrees p s c) others
                    (λ t. process_active_connections-serve ps t apart))
          ]
        ]

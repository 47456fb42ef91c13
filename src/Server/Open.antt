-- ===== src/Server/Open.antt =====
-- server.hpp: every connection waits for a request, before and after `process_active_connections`.
use vector_db.Prelude.{
  ℕ, ◌≡◌, Bool-cases, Option-cases, inl, inr, some, List, [], ◌∷◌, arith, All, ◌==◌,
}
use vector_db.Prelude.Outcome.{
  Fault, relock, out_of_range, assertion, out_of_bounds, dangling, overflow, out_of_fuel, Outcome,
  ret, fault, ◌>>=◌,
}
use vector_db.Bytes.{Bytes}
use vector_db.RequestParser.{Result, ok, unexpected}
use vector_db.EntryManager.{EntryManager}
use vector_db.CommandProcessor.{Numbers, Value, process_command}
use vector_db.Connection.{
  Connection, ConnectionState, Read, received, Write, failed, words, c_string, written, process_io,
}
use vector_db.Server.{
  Server, Io, PollFd, Output, find_connection, without, update_connection, after_io, process_one,
  process_active_connections,
}

-- A call faults, or returns a value with `P`.
abbrev pub Ensures {ℓ κ} : {A : Type ℓ} → (A → Type κ) → Outcome A → Type κ
Ensures P (ret a) = P a
Ensures P (fault e) = Unit

pub Ensures-bind {ℓ κ μ ν} :
    {A : Type ℓ} {B : Type κ} (P : A → Type μ) (Q : B → Type ν) (o : Outcome A) (f : A → Outcome B)
    → Ensures P o
    → ((a : A) → P a → Ensures Q (f a))
    → Ensures Q (o >>= f)
Ensures-bind P Q (ret a) f h k = k a h
Ensures-bind P Q (fault e) f h k = tt

pub Ensures-weaken {ℓ κ μ} :
    {A : Type ℓ} (P : A → Type κ) (Q : A → Type μ) (o : Outcome A)
    → ((a : A) → P a → Q a)
    → Ensures P o
    → Ensures Q o
Ensures-weaken P Q (ret a) f h = f a h
Ensures-weaken P Q (fault e) f h = tt

pub Ensures-always {ℓ κ} :
    {A : Type ℓ} (P : A → Type κ) (o : Outcome A) → ((a : A) → P a) → Ensures P o
Ensures-always P (ret a) h = h a
Ensures-always P (fault e) h = tt

module _ {κ} {D : Type κ} where
  -- A connection that waits for a request, with nothing in its buffers.
  abbrev pub IsFresh : ℕ × Connection D → Type 0
  IsFresh (fd, c) = (c.state ≡ ConnectionState.request) × (c.rbuf ≡ []) × (c.wbuf ≡ [])

  pub record IsOpen (s : Server D) : Type κ where
    pub idle : s.idle_list ≡ []
    pub fresh : All IsFresh s.connections

  -- `process_io` changes nothing but the entries.
  data Keeps (c : Connection D) : Outcome (Result {0} Unit × Connection D × Bytes) → Type κ where
    keeps :
        (r : Result {0} Unit) (m : EntryManager (Value D)) (sent : Bytes)
        → Keeps c (ret (r, record c { entry_manager = m }, sent))
    faults : (e : Fault) → Keeps c (fault e)

  Keeps-reply :
      (c : Connection D) (w : Write) (o : Outcome (Bytes × EntryManager (Value D)))
      → Keeps c (o >>= λ r. ret (ok tt, record c { entry_manager = r.1 }, written w r.0))
  Keeps-reply c w (ret (reply, m)) = keeps (ok tt) m (written w reply)
  Keeps-reply c w (fault e) = faults e

  process_io-Keeps :
      (lib : Numbers D) (now : ℕ) (r : Read) (w : Write) (c : Connection D)
      → Keeps c (process_io lib now r w c)
  unfolding process_io
  process_io-Keeps lib now (received []) w c = keeps _ c.entry_manager []
  process_io-Keeps lib now (received (b ∷ bs)) w c =
      Keeps-reply c w (process_command lib now (words [] (c_string (b ∷ bs))) [] c.entry_manager)
  process_io-Keeps lib now (failed e) w c = keeps _ c.entry_manager []

  fresh-find_connection :
      (cs : List (ℕ × Connection D)) (fd : ℕ) {c : Connection D}
      → All IsFresh cs
      → find_connection cs fd ≡ some c
      → IsFresh (fd, c)
  fresh-find_connection [] fd {c} h e = absurd (cc e)
  fresh-find_connection ((g, d) ∷ cs) fd {c} h e =
      ground (arith, fresh-find_connection cs fd {c = c} h.1)

  fresh-without :
      (cs : List (ℕ × Connection D)) (fd : ℕ) → All IsFresh cs → All IsFresh (without cs fd)
  fresh-without [] fd h = tt
  fresh-without ((g, d) ∷ cs) fd (hd, h) = elim (Bool-cases (g == fd)) [
    | inl e ↦ rw e (fresh-without cs fd h)
    | inr e ↦ rw e (hd, fresh-without cs fd h)
  ]

  fresh-update_connection :
      (cs : List (ℕ × Connection D)) (fd : ℕ) (c : Connection D)
      → IsFresh (fd, c)
      → All IsFresh cs
      → All IsFresh (update_connection cs fd c)
  fresh-update_connection [] fd c hc h = tt
  fresh-update_connection ((g, d) ∷ cs) fd c hc (hd, h) = elim (Bool-cases (g == fd)) [
    | inl e ↦ rw e (hc, fresh-update_connection cs fd c hc h)
    | inr e ↦ rw e (hd, fresh-update_connection cs fd c hc h)
  ]

  -- What a call returns beside the output.
  abbrev pub Serves : Server D × Output → Type κ
  Serves r = IsOpen r.0

  after_io-IsOpen :
      (fd : ℕ) (thrown : EntryManager (Value D)) (s : Server D) (c : Connection D)
      (o : Outcome (Result {0} Unit × Connection D × Bytes))
      → IsFresh (fd, c)
      → Keeps c o
      → IsOpen s
      → Ensures Serves (after_io fd thrown s o)
  after_io-IsOpen fd thrown s c o hc (keeps (ok u) m sent) h = record {
    idle = h.idle;
    fresh = fresh-update_connection s.connections fd _ hc h.fresh;
  }
  after_io-IsOpen fd thrown s c o hc (keeps (unexpected e) m sent) h = record {
    idle = h.idle;
    fresh = fresh-without s.connections fd h.fresh;
  }
  after_io-IsOpen fd thrown s c o hc (faults out_of_range) h = record {
    idle = h.idle;
    fresh = fresh-without s.connections fd h.fresh;
  }
  after_io-IsOpen fd thrown s c o hc (faults relock) h = tt
  after_io-IsOpen fd thrown s c o hc (faults assertion) h = tt
  after_io-IsOpen fd thrown s c o hc (faults out_of_bounds) h = tt
  after_io-IsOpen fd thrown s c o hc (faults dangling) h = tt
  after_io-IsOpen fd thrown s c o hc (faults overflow) h = tt
  after_io-IsOpen fd thrown s c o hc (faults out_of_fuel) h = tt

  process_one-IsOpen :
      (lib : Numbers D) (now : ℕ) (io : Io D) (p : PollFd) (s : Server D)
      → IsOpen s
      → Ensures Serves (process_one lib now io p s)
  process_one-IsOpen lib now io p s h = elim (Bool-cases (p.revents == 0)) [
    | inl e ↦ rw e h
    | inr e ↦ elim (Option-cases (find_connection s.connections p.fd)) [
      | inl absent ↦ rw (e, absent) h
      | inr (c, there) ↦
          rw (e, there)
            (after_io-IsOpen p.fd io.thrown s (record c { entry_manager = s.entry_manager }) _
              (fresh-find_connection s.connections p.fd h.fresh there)
              (process_io-Keeps lib now io.read io.write _) h)
    ]
  ]

  pub process_active_connections-IsOpen :
      (lib : Numbers D) (now : ℕ) (io : ℕ → Io D) (ps : List PollFd) (s : Server D)
      → IsOpen s
      → Ensures Serves (process_active_connections lib now io ps s)
  unfolding process_active_connections
  process_active_connections-IsOpen lib now io [] s h = h
  process_active_connections-IsOpen lib now io (p ∷ ps) s h =
      Ensures-bind Serves Serves (process_one lib now (io p.fd) p s) _
        (process_one-IsOpen lib now (io p.fd) p s h)
        (λ r open_.
          Ensures-bind Serves Serves (process_active_connections lib now io ps r.0) _
            (process_active_connections-IsOpen lib now io ps r.0 open_) (λ q still. still))

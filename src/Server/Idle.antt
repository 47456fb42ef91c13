-- ===== src/Server/Idle.antt =====
-- server.hpp: what holds of the connections and of the idle list between the rounds of `run`.
use vector_db.Prelude.{
  ℕ, suc, ◌≡◌, refl, ap, Option-cases, inl, inr, pos, List, [], ◌∷◌, map, All, All-weaken,
  All-append,
}
use vector_db.Prelude.Outcome.{ret}
use vector_db.EntryManager.{EntryManager}
use vector_db.CommandProcessor.{Numbers, Value}
use vector_db.Connection.{Connection, ConnectionState}
use vector_db.Connection
use vector_db.Server.{
  Server, Round, Output, pollin, hours_24, find_connection, add_connection, poll_events, poll_fd,
  prepare_poll_args, calculate_next_timeout, process_timers, polled, run, new,
}
use vector_db.Server.Open.{
  Ensures, Ensures-weaken, IsFresh, IsOpen, Serves, process_active_connections-IsOpen,
}
use vector_db.Server.Rounds.{run-Ensures}
use vector_db.Server.Quiet.{IsKept, run-IsKept}

All-always {ℓ κ} : {A : Type ℓ} (P : A → Type κ) (xs : List A) → ((a : A) → P a) → All P xs
All-always P [] h = tt
All-always P (x ∷ xs) h = (h x, All-always P xs h)

All-map {ℓ κ μ} :
    {A : Type ℓ} {B : Type κ} (f : A → B) (P : B → Type μ) (xs : List A)
    → All (λ x. P (f x)) xs
    → All P (map f xs)
All-map f P [] h = tt
All-map f P (x ∷ xs) (hx, h) = (hx, All-map f P xs h)

module _ {κ} {D : Type κ} where
  add_connection-IsOpen :
      (s : Server D) (fd now : ℕ)
      → IsOpen s
      → IsOpen (add_connection s fd (Connection.new s.entry_manager now))
  add_connection-IsOpen s fd now h = elim (Option-cases (find_connection s.connections fd)) [
    | inl e ↦
        rw (e, add_connection)
          (record {
            idle = h.idle;
            fresh = All-append IsFresh s.connections _ h.fresh ((refl, refl, refl), tt);
          })
    | inr (c, e) ↦ rw (e, add_connection) h
  ]

  module _ (lib : Numbers D) (order : List (ℕ × Connection D) → List (ℕ × Connection D)) where
    run-IsOpen :
        (rs : List (Round D)) (s : Server D) → IsOpen s → Ensures Serves (run lib order rs s)
    run-IsOpen rs s h =
        run-Ensures lib order IsOpen (λ r. Unit {0}) add_connection-IsOpen
          (λ t o. record { idle = o.idle; fresh = o.fresh })
          (λ r ps t q o. process_active_connections-IsOpen lib r.now r.io (polled r.revents ps) t o)
          rs s (All-always _ rs (λ r. tt)) h

    -- What `poll` is asked for next, and what the two functions on the idle list do.
    abbrev pub WaitsForever : ℕ → ℕ → Server D × Output → Type κ
    WaitsForever fuel now (s, sent) =
        All (λ p. p.events ≡ pollin) (prepare_poll_args order s)
        × (calculate_next_timeout s now ≡ ret (pos hours_24))
        × (process_timers (suc fuel) now s ≡ ret s)

    module _
        (visits : (P : ℕ × Connection D → Type 0) (cs : List (ℕ × Connection D))
          → All P cs
          → All P (order cs)) where
      IsOpen-WaitsForever :
          (fuel now : ℕ) (r : Server D × Output) → Serves r → WaitsForever fuel now r
      unfolding process_timers
      IsOpen-WaitsForever fuel now (s, sent) h = (
        (
          refl,
          All-map poll_fd (λ p. p.events ≡ pollin) (order s.connections)
              (visits (λ p. poll_events (p.1).state ≡ pollin) s.connections
                (All-weaken IsFresh (λ p. poll_events (p.1).state ≡ pollin) s.connections
                  (λ p f. ap poll_events f.0) h.fresh)),
        ),
        rw h.idle,
        simp (h.idle, process_timers),
      )

      -- However its clients and the system calls behave, a server asks `poll` for nothing but input after
      -- any rounds that return: nothing is in the idle list, the next timeout is always a day away, and
      -- `process_timers` does nothing. It never closes a connection for being idle: a connection that is in
      -- the map after the rounds is there, unchanged, after any further rounds that return in which its
      -- descriptor has no events, whatever the clock shows.
      pub run-WaitsForever :
          (rs quiet : List (Round D)) (fd client fuel now : ℕ) (m : EntryManager (Value D))
          → All (λ r. r.revents client ≡ 0) quiet
          → Ensures
              (λ p.
                WaitsForever fuel now p
                × Ensures (λ q. IsKept client p.0 q.0) (run lib order quiet p.0))
              (run lib order rs (new fd m))
      run-WaitsForever rs quiet fd client fuel now m silent =
          Ensures-weaken Serves _ (run lib order rs (new fd m))
            (λ p h.
              (IsOpen-WaitsForever fuel now p h, run-IsKept lib order quiet client p.0 silent))
            (run-IsOpen rs (new fd m) (record { idle = refl; fresh = tt }))

-- ===== src/Server/Quiet.antt =====
-- server.hpp: a connection whose descriptor has no events in a round stays in the map.
use vector_db.Prelude.{
  ℕ, ◌≡◌, ◌≢◌, sym, ap, ◌∙◌, Bool-cases, Option-cases, inl, inr, ◌⊎◌, none, some, List, [], ◌∷◌,
  ◌++◌, arith, All, ◌==◌,
}
use vector_db.Prelude.Outcome.{
  relock, out_of_range, assertion, out_of_bounds, dangling, overflow, out_of_fuel, Outcome, ret,
  fault,
}
use vector_db.Bytes.{Bytes}
use vector_db.RequestParser.{Result, ok, unexpected}
use vector_db.EntryManager.{EntryManager}
use vector_db.CommandProcessor.{Numbers, Value}
use vector_db.Connection.{Connection, process_io}
use vector_db.Connection
use vector_db.Server.{
  Server, Round, Io, PollFd, Output, find_connection, add_connection, polled, after_io, process_one,
  process_active_connections, run,
}
use vector_db.Server.Open.{Ensures, Ensures-bind, Ensures-weaken, Ensures-always}
use vector_db.Server.Others.{update_connection-SameOthers, without-SameOthers}
use vector_db.Server.Rounds.{run-Ensures}

module _ {κ} {D : Type κ} where
  -- If the first server has the connection, the second has it too, unchanged.
  abbrev pub IsKept : ℕ → Server D → Server D → Type κ
  IsKept fd s t =
      (find_connection s.connections fd ≡ none)
      ⊎ (find_connection t.connections fd ≡ find_connection s.connections fd)

  find_connection-append :
      (cs : List (ℕ × Connection D)) (x : ℕ × Connection D) (fd : ℕ) {c : Connection D}
      → find_connection cs fd ≡ some c
      → find_connection (cs ++ x ∷ []) fd ≡ some c
  find_connection-append [] x fd {c} h = absurd (cc h)
  find_connection-append ((g, d) ∷ cs) x fd {c} h =
      ground (arith, find_connection-append cs x fd {c = c})

  module _ (fd : ℕ) (c : Connection D) where
    abbrev Has : Server D → Type κ
    Has s = find_connection s.connections fd ≡ some c

    abbrev HasAfter : Server D × Output → Type κ
    HasAfter q = Has q.0

    add_connection-Has :
        (s : Server D) (g now : ℕ)
        → Has s
        → Has (add_connection s g (Connection.new s.entry_manager now))
    add_connection-Has s g now h = elim (Option-cases (find_connection s.connections g)) [
      | inl e ↦ rw (e, add_connection) (find_connection-append s.connections _ fd h)
      | inr (d, e) ↦ rw (e, add_connection) h
    ]

    after_io-Has :
        (g : ℕ) (thrown : EntryManager (Value D)) (s : Server D)
        (o : Outcome (Result {0} Unit × Connection D × Bytes))
        → g ≢ fd
        → Has s
        → Ensures HasAfter (after_io g thrown s o)
    after_io-Has g thrown s (ret (ok u, d, sent)) ne h =
        update_connection-SameOthers s.connections g d fd ne ∙ h
    after_io-Has g thrown s (ret (unexpected e, d, sent)) ne h =
        without-SameOthers s.connections g fd ne ∙ h
    after_io-Has g thrown s (fault out_of_range) ne h = without-SameOthers s.connections g fd ne ∙ h
    after_io-Has g thrown s (fault relock) ne h = tt
    after_io-Has g thrown s (fault assertion) ne h = tt
    after_io-Has g thrown s (fault out_of_bounds) ne h = tt
    after_io-Has g thrown s (fault dangling) ne h = tt
    after_io-Has g thrown s (fault overflow) ne h = tt
    after_io-Has g thrown s (fault out_of_fuel) ne h = tt

    module _ (lib : Numbers D) (now : ℕ) (revents : ℕ → ℕ) (silent : revents fd ≡ 0) where
      process_one-Has :
          (io : Io D) (p : PollFd) (s : Server D)
          → Has s
          → Ensures HasAfter (process_one lib now io (record p { revents = revents p.fd }) s)
      process_one-Has io p s h = elim (Bool-cases (revents p.fd == 0)) [
        | inl e ↦ rw e h
        | inr e ↦ elim (Option-cases (find_connection s.connections p.fd)) [
          | inl absent ↦ rw (e, absent) h
          | inr (d, there) ↦
              rw (e, there)
                (after_io-Has p.fd io.thrown s _ (λ same. absurd (cc (e, ap revents same, silent)))
                  h)
        ]
      ]

      process_active_connections-Has :
          (io : ℕ → Io D) (ps : List PollFd) (s : Server D)
          → Has s
          → Ensures HasAfter (process_active_connections lib now io (polled revents ps) s)
      unfolding process_active_connections
      process_active_connections-Has io [] s h = h
      process_active_connections-Has io (p ∷ ps) s h =
          Ensures-bind HasAfter HasAfter _ _ (process_one-Has (io p.fd) p s h) (λ r has.
            Ensures-bind HasAfter HasAfter
              (process_active_connections lib now io (polled revents ps) r.0) _
              (process_active_connections-Has io ps r.0 has) (λ q still. still))

  -- What has no events stays, however long the rounds take.
  pub run-IsKept :
      (lib : Numbers D) (order : List (ℕ × Connection D) → List (ℕ × Connection D))
      (rs : List (Round D)) (fd : ℕ) (s : Server D)
      → All (λ r. r.revents fd ≡ 0) rs
      → Ensures (λ (q : Server D × Output). IsKept fd s q.0) (run lib order rs s)
  run-IsKept lib order rs fd s silent = elim (Option-cases (find_connection s.connections fd)) [
    | inl e ↦ Ensures-always _ (run lib order rs s) (λ q. inl e)
    | inr (c, e) ↦
        Ensures-weaken (HasAfter fd c) _ (run lib order rs s) (λ q has. inr (has ∙ sym e))
          (run-Ensures lib order (Has fd c) (λ r. r.revents fd ≡ 0) (add_connection-Has fd c)
            (λ t h. h)
            (λ r ps t quiet h.
              process_active_connections-Has fd c lib r.now r.revents quiet r.io ps t h)
            rs s silent e)
  ]

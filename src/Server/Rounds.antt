-- ===== src/Server/Rounds.antt =====
-- server.hpp: what `add_connection`, `process_active_connections` and `stop` keep, the rounds of `run` keep.
use vector_db.Prelude.{
  ℕ, ◌%◌, Bool, true, false, ◌||◌, not, Bool-cases, inl, inr, List, [], ◌∷◌, All, ◌==◌,
}
use vector_db.CommandProcessor.{Numbers}
use vector_db.Connection.{Connection}
use vector_db.Connection
use vector_db.Startup.{set_nonblocking}
use vector_db.Server.{
  Server, Round, PollFd, Accept, Output, accepted, add_connection, prepare_poll_args, accept_all,
  accept_new_connections, polled, process_active_connections, handle_activity, stop, stop_if,
  run_round, run,
}
use vector_db.Server.Open.{Ensures, Ensures-bind}

module _ {κ μ ν} {D : Type κ} (lib : Numbers D)
    (order : List (ℕ × Connection D) → List (ℕ × Connection D)) (P : Server D → Type μ)
    (Q : Round D → Type ν)
    (adds : (s : Server D) (fd now : ℕ)
      → P s
      → P (add_connection s fd (Connection.new s.entry_manager now)))
    (stops : (s : Server D) → P s → P (stop s))
    (serves : (r : Round D) (ps : List PollFd) (s : Server D)
      → Q r
      → P s
      → Ensures
          (λ (q : Server D × Output). P q.0)
          (process_active_connections lib r.now r.io (polled r.revents ps) s)) where
  -- What a call returns beside the output.
  abbrev Sent : Server D × Output → Type μ
  Sent q = P q.0

  accept_all-Ensures :
      (now : ℕ) (accepts : List Accept) (s : Server D) → P s → Ensures P (accept_all now accepts s)
  unfolding accept_all
  accept_all-Ensures now [] s h = tt
  accept_all-Ensures now (Accept.failed ∷ rest) s h = h
  accept_all-Ensures now (accepted fd getfl setfl ∷ rest) s h =
      elim (Bool-cases (set_nonblocking getfl setfl)) [
        | inl e ↦ rw (e, accept_all) (accept_all-Ensures now rest _ (adds s fd now h))
        | inr e ↦ rw (e, accept_all) (accept_all-Ensures now rest s h)
      ]

  accept_new_connections-Ensures :
      (revents now : ℕ) (accepts : List Accept) (s : Server D)
      → P s
      → Ensures P (accept_new_connections revents now accepts s)
  accept_new_connections-Ensures revents now accepts s h = elim (Bool-cases (revents % 2 == 1)) [
    | inl e ↦ rw e (accept_all-Ensures now accepts s h)
    | inr e ↦ rw e h
  ]

  handle_activity-Ensures :
      (r : Round D) (ps : List PollFd) (s : Server D)
      → Q r
      → P s
      → Ensures Sent (handle_activity lib r (polled r.revents ps) s)
  handle_activity-Ensures r [] s q h = h
  handle_activity-Ensures r (p ∷ ps) s q h =
      Ensures-bind P Sent (accept_new_connections (r.revents p.fd) r.now r.accepts s) _
        (accept_new_connections-Ensures (r.revents p.fd) r.now r.accepts s h)
        (λ t kept. serves r ps t q kept)

  stop_if-Ensures : (b : Bool) (s : Server D) → P s → P (stop_if b s)
  stop_if-Ensures true s h = stops s h
  stop_if-Ensures false s h = h

  run_round-Ensures :
      (r : Round D) (s : Server D) → Q r → P s → Ensures Sent (run_round lib order r s)
  run_round-Ensures r s q h =
      let started = stop_if r.stopped_before s in
      let waited = stop_if r.stopped_after started in
      let still = stop_if-Ensures r.stopped_after started (stop_if-Ensures r.stopped_before s h) in
      elim (Bool-cases (started.should_stop || (waited.should_stop || not r.activity))) [
        | inl e ↦ rw e still
        | inr e ↦ rw e (handle_activity-Ensures r (prepare_poll_args order started) waited q still)
      ]

  pub run-Ensures :
      (rs : List (Round D)) (s : Server D) → All Q rs → P s → Ensures Sent (run lib order rs s)
  unfolding run
  run-Ensures [] s q h = h
  run-Ensures (r ∷ rs) s (q, qs) h =
      Ensures-bind Sent Sent (run_round lib order r s) _ (run_round-Ensures r s q h) (λ p kept.
        Ensures-bind Sent Sent (run lib order rs p.0) _ (run-Ensures rs p.0 qs kept)
          (λ t still. still))

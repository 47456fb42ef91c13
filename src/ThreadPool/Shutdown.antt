-- ===== src/ThreadPool/Shutdown.antt =====
-- src/dsa/thread_pool.hpp: what `shutdown` and the destructor wait for.
use vector_db.Prelude.{
  ℕ, ◌≡◌, refl, sym, ap, ◌∙◌, Bool, Bool-cases, inl, inr, true, false, some, List, [], ◌∷◌, ◌++◌,
  All, All-append, get_elem?, get_elem?-length_append, set, length, append_assoc, append-nil,
}
use vector_db.ThreadPool.{
  Worker, testing, checked, blocked, running, finished, exited, HasExited, serving, stopping,
  joining, System, Step, take, block, shutdown, notify, join, Reach, here, later, worker, create,
  is_idle, set_stop, notify_all,
}
use vector_db.ThreadPool.Idle.{IsIdle, unused, Step-IsIdle, Reach-IsIdle, init-IsIdle, create-init}
use vector_db.ThreadPool.Woken.{IsAwake, woken-IsAwake, Reach-IsAwake}
use vector_db.ThreadPool.Owners.{owner-at, locks, IsOwned, Reach-IsOwned, init-IsOwned}

set-append {ℓ} :
    {A : Type ℓ} (xs ys : List A) (y z : A) → set (xs ++ y ∷ ys) (length xs) z ≡ xs ++ z ∷ ys
set-append [] ys y z = refl
set-append (x ∷ xs) ys y z = ap (λ zs. x ∷ zs) (set-append xs ys y z)

Reach-trans : {s t u : System} → Reach true false s t → Reach true false t u → Reach true false s u
Reach-trans r here = r
Reach-trans r (later q st) = later (Reach-trans r q) st

-- What is left when the joins have returned, and the state before, in which every thread can end.
record IsOver (t : System) : Type 0 where
  pool : t.pool ≡ unused true
  phase : t.phase ≡ joining
  workers : All HasExited t.workers

record IsEnding (s : System) : Type 0 where
  pool : s.pool ≡ unused true
  phase : s.phase ≡ joining
  free : s.locked ≡ false

-- The threads from the first that has not ended end one after the other.
exit_all :
    (s : System) (done rest : List Worker)
    → IsEnding s
    → s.workers ≡ done ++ rest
    → All HasExited done
    → All IsAwake rest
    → (t : System) × Reach true false s t × IsOver t
exit_all s done [] ending split ended awake = (
  s,
  here,
  record { pool = ending.pool; phase = ending.phase; workers = rw (split, append-nil done) ended },
)
exit_all s done (exited ∷ rest) ending split ended awake =
    exit_all s (done ++ exited ∷ []) rest ending
      (split ∙ sym (append_assoc done (exited ∷ []) rest))
      (All-append HasExited done (exited ∷ []) ended (refl, tt)) awake.1
exit_all s done (checked ∷ rest) ending split ended awake = absurd awake.0
exit_all s done (blocked ∷ rest) ending split ended awake = absurd awake.0
exit_all s done (running task ∷ rest) ending split ended awake = absurd awake.0
exit_all s done (finished ∷ rest) ending split ended awake = absurd awake.0
exit_all s done (testing ∷ rest) ending split ended awake =
    let next = record s { pool = unused true; workers = set s.workers (length done) exited } in
    let at : get_elem? s.workers (length done) ≡ some testing =
      rw (split, get_elem?-length_append done rest testing) refl in
    let step : Step true false s next = take (length done) at ending.free (ap worker ending.pool) in
    let split_next : set s.workers (length done) exited ≡ (done ++ exited ∷ []) ++ rest =
      ap (λ ws. set ws (length done) exited) split
      ∙ set-append done rest testing exited
      ∙ sym (append_assoc done (exited ∷ []) rest) in
    let (t, r, over) =
      exit_all next (done ++ exited ∷ []) rest
        (record { pool = refl; phase = ending.phase; free = ending.free }) split_next
        (All-append HasExited done (exited ∷ []) ended (refl, tt)) awake.1 in
    (t, Reach-trans (later here step) r, over)

-- With the mutex free, `stop` is set, `notify_all` wakes every thread, and the joins return.
shutdown_free :
    (s : System)
    → IsIdle s
    → IsOwned s
    → s.phase ≡ serving
    → s.locked ≡ false
    → (t : System) × Reach true false s t × IsOver t
shutdown_free s idle own at free =
    let stopped = record s { pool = set_stop s.pool; phase = stopping } in
    let told = record (notify_all stopped) { phase = joining } in
    let awake = woken-IsAwake s.pool.stop s.workers idle.workers (own ∙ ap locks free) in
    let (t, r, over) =
      exit_all told [] told.workers
        (record { pool = ap set_stop idle.pool; phase = refl; free = free }) refl tt awake in
    (t, Reach-trans (later (later here (shutdown refl at free)) (notify refl)) r, over)

-- A thread that has the mutex gives it back when it blocks.
shutdown_any :
    (s : System)
    → IsIdle s
    → IsOwned s
    → s.phase ≡ serving
    → (t : System) × Reach true false s t × IsOver t
shutdown_any s idle own at = elim (Bool-cases s.locked) [
  | inr free ↦ shutdown_free s idle own at free
  | inl held ↦
      let (i, owner) = owner-at s.workers (own ∙ ap locks held) in
      let step : Step true false s
          (record s { locked = false; workers = set s.workers i blocked }) =
        block i owner in
      let (t, r, over) =
        shutdown_free _ (Step-IsIdle step idle) (Reach-IsOwned idle own (later here step)) at
          refl in
      (t, Reach-trans (later here step) r, over)
]

-- Where the wait of `enqueue` releases the mutex, as that on a `unique_lock` does, `shutdown` and the
-- destructor can always end: in every state that a pool reaches, with or without spurious wake-ups, in which neither is running, there are steps without spurious wake-ups after which `stop` is set,
-- every thread has ended, every `join` has returned, and the wait in `wait_for_tasks` is over. No wake-up is
-- lost: in every state that it reaches after `notify_all`, before the joins have returned, each thread either
-- has ended or is about to test its predicate.
pub Reach-shutdown :
    (n : ℕ) (spurious : Bool) {s t v : System}
    → create n ≡ some s
    → Reach true spurious s t
    → t.phase ≡ serving
    → Reach true spurious s v
    → v.phase ≡ joining
    → ((u : System) × Reach true false t u
        × (u.phase ≡ serving)
        × (u.pool.stop ≡ true)
        × All HasExited u.workers
        × (is_idle u.pool ≡ true))
      × All IsAwake v.workers
Reach-shutdown n spurious {s} {t} made r at r' at' =
    let start = create-init n made in
    let first : IsIdle s = rw start (init-IsIdle n) in
    let owned : IsOwned s = rw start (init-IsOwned n) in
    let (u, q, over) = shutdown_any t (Reach-IsIdle first r) (Reach-IsOwned first owned r) at in
    (
      (
        record u { phase = serving },
        later q (join over.phase over.workers),
        refl,
        ap (λ p. p.stop) over.pool,
        over.workers,
        ap is_idle over.pool,
      ),
      Reach-IsAwake n (start) r' at',
    )

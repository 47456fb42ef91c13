-- ===== src/ThreadPool/Tests.antt =====
-- Runs of src/dsa/thread_pool.hpp with two threads.
use vector_db.Prelude.{◌≡◌, refl, true, false, [], ◌∷◌, All}
use vector_db.ThreadPool.{
  testing, blocked, exited, enqueued, HasExited, serving, joining, System, call, take, check, block,
  lock_call, lock_woken, shutdown, notify, Reach, here, later, init, is_idle, queue_size,
}
use vector_db.ThreadPool.Idle.{IsHeld, Reach-unused}
use vector_db.ThreadPool.Woken.{IsAwake}
use vector_db.ThreadPool.Shutdown.{Reach-shutdown}

abbrev waiting : System
waiting = record {
  pool = record { tasks = []; active_workers = 0; stop = false };
  locked = false;
  phase = serving;
  workers = blocked ∷ testing ∷ [];
  calls = [];
  executed = [];
}

-- The first thread finds no work, and blocks.
abbrev blocks : Reach true false (init 2) waiting
blocks = later (later here (check 0 refl refl refl)) (block 0 refl)

abbrev told : System
told = record {
  pool = record { tasks = []; active_workers = 0; stop = true };
  locked = false;
  phase = joining;
  workers = testing ∷ exited ∷ [];
  calls = enqueued 7 ∷ [];
  executed = [];
}

-- A call of `enqueue` blocks too; `shutdown` wakes both, the second thread ends, and the call tests again.
abbrev stopped : Reach true false (init 2) told
stopped =
    later
      (later
        (later
          (later (later (later blocks (call 7 refl)) (lock_call 0 refl refl))
            (shutdown refl refl refl))
          (notify refl))
        (take 1 refl refl refl))
      (lock_woken 0 refl refl)

Reach-unused_example :
    (queue_size told.pool ≡ 0) × (told.executed ≡ []) × All (IsHeld told.pool.stop) told.calls
Reach-unused_example = Reach-unused 2 true false refl stopped

Reach-shutdown_example :
    ((u : System) × Reach true false waiting u
      × (u.phase ≡ serving)
      × (u.pool.stop ≡ true)
      × All HasExited u.workers
      × (is_idle u.pool ≡ true))
    × All IsAwake told.workers
Reach-shutdown_example = Reach-shutdown 2 false refl blocks refl stopped refl

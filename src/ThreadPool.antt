-- ===== src/ThreadPool.antt =====
-- src/dsa/thread_pool.hpp: `ThreadPool`, with two repairs without which it does not compile: the wait of
-- `enqueue` is on a `std::lock_guard`, which is read as a `std::unique_lock`, so that the wait releases the
-- mutex; and `tasks_.pop()` on the `std::deque` is read as `pop_front`. What a thread does while it owns the
-- mutex is one step, but that a thread of the pool tests its predicate and blocks in two, since the
-- constructor's cleanup sets `stop` without the mutex. A task is a number; the steps of its own that it takes
-- are not modelled, nor are calls of `wait_for_tasks` by other threads.
pub mod Idle
pub mod Owners
pub mod Woken
pub mod Lost
pub mod Shutdown
mod Tests
use vector_db.Prelude.{
  ℕ, zero, suc, ◌+◌, ◌-◌, ◌≡◌, Bool, true, false, ◌||◌, ◌&&◌, not, Option, none, some, List, [],
  ◌∷◌, ◌++◌, ◌==◌, if◌then◌else◌, get_elem?, length, map, replicate, set, All,
}

pub record Pool : Type 0 where
  pub tasks : List ℕ
  pub active_workers : ℕ
  pub stop : Bool

-- Where a thread of the pool is: before it locks the mutex to test the predicate of its wait; with the mutex,
-- after the predicate was false; blocked on the condition variable, without the mutex; in a task; before it
-- notifies the others that the task is done; after the loop.
pub data Worker : Type 0 where
  testing : Worker
  checked : Worker
  blocked : Worker
  running : ℕ → Worker
  finished : Worker
  exited : Worker

-- Where a call of `enqueue` is: before it locks the mutex; blocked on the condition variable; woken, before it
-- locks the mutex again; before `notify_one`; after its return, or after the exception.
pub data Call : Type 0 where
  calling : ℕ → Call
  blocked_call : ℕ → Call
  woken_call : ℕ → Call
  enqueued : ℕ → Call
  returned : ℕ → Call
  refused : ℕ → Call

-- Where the thread is that makes the pool and ends it: before it sets `stop`, before `notify_all`, or at the
-- joins.
pub data Phase : Type 0 where
  serving : Phase
  stopping : Phase
  joining : Phase

abbrev pub is_empty : List ℕ → Bool
is_empty [] = true
is_empty (t ∷ ts) = false

-- The predicate of the waits in `worker` and in `enqueue`.
abbrev pub has_work : Pool → Bool
has_work p = not (is_empty p.tasks) || p.stop

-- From the test of `stop` to the end of the critical section of `worker`. At an empty deque `front` and
-- `pop_front` are not defined: no thread comes there (`none`).
abbrev pub take_task : Pool → List ℕ → Option (Pool × Worker)
take_task p [] = if p.stop then some (p, exited) else none
take_task p (task ∷ rest) =
    some (record p { tasks = rest; active_workers = p.active_workers + 1 }, running task)

-- `worker`, once the predicate of its wait is true.
abbrev pub worker : Pool → Option (Pool × Worker)
worker p = if has_work p then take_task p p.tasks else none

-- `worker`, after `task()`.
abbrev pub task_done : Pool → Pool
task_done p = record p { active_workers = p.active_workers - 1 }

-- The wait of `enqueue`, when it tests the predicate.
abbrev pub wait_enqueue : Pool → ℕ → Call
wait_enqueue p task = if has_work p then enqueued task else blocked_call task

-- `enqueue`, from the lock to the test of the predicate.
abbrev pub enqueue : Pool → ℕ → Call
enqueue p task = if p.stop then refused task else wait_enqueue p task

-- The predicate of `wait_for_tasks`.
abbrev pub is_idle : Pool → Bool
is_idle p = is_empty p.tasks && p.active_workers == 0

-- What `shutdown` and the destructor do under the mutex.
abbrev pub set_stop : Pool → Pool
set_stop p = record p { stop = true }

abbrev pub queue_size : Pool → ℕ
queue_size p = length p.tasks

-- `notify_all`
abbrev pub woken : Worker → Worker
woken blocked = testing
woken w = w

abbrev pub woken_enqueue : Call → Call
woken_enqueue (blocked_call task) = woken_call task
woken_enqueue c = c

abbrev pub HasExited : Worker → Type 0
HasExited w = w ≡ exited

-- The pool, whether its mutex is locked between two steps, its threads, the calls of `enqueue` in the order of
-- their beginning, and the tasks that have been executed.
pub record System : Type 0 where
  pub pool : Pool
  pub locked : Bool
  pub phase : Phase
  pub workers : List Worker
  pub calls : List Call
  pub executed : List ℕ

-- What the constructor makes, where every thread starts.
abbrev pub init : ℕ → System
init num_threads = record {
  pool = record { tasks = []; active_workers = 0; stop = false };
  locked = false;
  phase = serving;
  workers = replicate num_threads testing;
  calls = [];
  executed = [];
}

-- The constructor's test.
abbrev pub create : ℕ → Option System
create zero = none
create (suc n) = some (init (suc n))

abbrev pub notify_all : System → System
notify_all s = record s { workers = map woken s.workers; calls = map woken_enqueue s.calls }

-- A step of a pool. `built` is false while the constructor has not returned; `spurious` says whether a wait may
-- end without a notification.
pub data Step (built spurious : Bool) (s : System) : System → Type 0 where
  take :
      (i : ℕ) {p : Pool} {w : Worker}
      → get_elem? s.workers i ≡ some testing
      → s.locked ≡ false
      → worker s.pool ≡ some (p, w)
      → Step built spurious s (record s { pool = p; workers = set s.workers i w })
  check :
      (i : ℕ)
      → get_elem? s.workers i ≡ some testing
      → s.locked ≡ false
      → has_work s.pool ≡ false
      → Step built spurious s (record s { locked = true; workers = set s.workers i checked })
  block :
      (i : ℕ)
      → get_elem? s.workers i ≡ some checked
      → Step built spurious s (record s { locked = false; workers = set s.workers i blocked })
  execute :
      (i : ℕ) {task : ℕ}
      → get_elem? s.workers i ≡ some (running task)
      → Step built spurious s (record s {
        pool = task_done s.pool;
        workers = set s.workers i finished;
        executed = s.executed ++ task ∷ [];
      })
  finish :
      (i : ℕ)
      → get_elem? s.workers i ≡ some finished
      → Step built spurious s (notify_all (record s { workers = set s.workers i testing }))
  call :
      (task : ℕ)
      → built ≡ true
      → Step built spurious s (record s { calls = s.calls ++ calling task ∷ [] })
  lock_call :
      (i : ℕ) {task : ℕ}
      → get_elem? s.calls i ≡ some (calling task)
      → s.locked ≡ false
      → Step built spurious s (record s { calls = set s.calls i (enqueue s.pool task) })
  lock_woken :
      (i : ℕ) {task : ℕ}
      → get_elem? s.calls i ≡ some (woken_call task)
      → s.locked ≡ false
      → Step built spurious s (record s { calls = set s.calls i (wait_enqueue s.pool task) })
  -- `notify_one`, when it wakes a thread, when it wakes a call, and when none is blocked.
  notify_worker :
      (i j : ℕ) {task : ℕ}
      → get_elem? s.calls i ≡ some (enqueued task)
      → get_elem? s.workers j ≡ some blocked
      → Step built spurious s
          (record s { workers = set s.workers j testing; calls = set s.calls i (returned task) })
  notify_call :
      (i j : ℕ) {task other : ℕ}
      → get_elem? s.calls i ≡ some (enqueued task)
      → get_elem? s.calls j ≡ some (blocked_call other)
      → Step built spurious s
          (record s { calls = set (set s.calls i (returned task)) j (woken_call other) })
  notify_none :
      (i : ℕ) {task : ℕ}
      → get_elem? s.calls i ≡ some (enqueued task)
      → map woken s.workers ≡ s.workers
      → map woken_enqueue s.calls ≡ s.calls
      → Step built spurious s (record s { calls = set s.calls i (returned task) })
  -- `shutdown` and the destructor lock the mutex to set `stop`; the constructor's cleanup does not.
  shutdown :
      built ≡ true
      → s.phase ≡ serving
      → s.locked ≡ false
      → Step built spurious s (record s { pool = set_stop s.pool; phase = stopping })
  cleanup :
      built ≡ false
      → s.phase ≡ serving
      → Step built spurious s (record s { pool = set_stop s.pool; phase = stopping })
  notify : s.phase ≡ stopping → Step built spurious s (record (notify_all s) { phase = joining })
  join :
      s.phase ≡ joining
      → All HasExited s.workers
      → Step built spurious s (record s { phase = serving })
  wake_worker :
      (i : ℕ)
      → spurious ≡ true
      → get_elem? s.workers i ≡ some blocked
      → Step built spurious s (record s { workers = set s.workers i testing })
  wake_call :
      (i : ℕ) {task : ℕ}
      → spurious ≡ true
      → get_elem? s.calls i ≡ some (blocked_call task)
      → Step built spurious s (record s { calls = set s.calls i (woken_call task) })

pub data Reach (built spurious : Bool) (s : System) : System → Type 0 where
  here : Reach built spurious s s
  later :
      {t u : System} → Reach built spurious s t → Step built spurious t u → Reach built spurious s u

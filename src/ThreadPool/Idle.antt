-- ===== src/ThreadPool/Idle.antt =====
-- src/dsa/thread_pool.hpp: what holds in every state that the threads and the calls of a pool can reach.
use mathlib.Core.Path.{subst}
use vector_db.Prelude.{
  ℕ, zero, suc, ◌≡◌, refl, sym, ap, some_inj, ◌∙◌, Bool, true, false, some, List, [], ◌∷◌, map, All,
  All-append, set, All-set, All-get_elem?, All-replicate, All-weaken,
}
use vector_db.ThreadPool.{
  Pool, Worker, testing, checked, blocked, running, finished, exited, Call, calling, blocked_call,
  woken_call, enqueued, returned, refused, System, Phase, Step, take, check, block, execute, finish,
  call, lock_call, lock_woken, notify_worker, notify_call, notify_none, shutdown, cleanup, notify,
  join, wake_worker, wake_call, Reach, here, later, worker, enqueue, wait_enqueue, set_stop, init,
  create, queue_size, woken, woken_enqueue,
}

-- A thread that has no task: it has ended only after `stop`.
abbrev pub IsParked : Bool → Worker → Type 0
IsParked stop testing = Unit
IsParked stop checked = Unit
IsParked stop blocked = Unit
IsParked stop (running task) = ⊥
IsParked stop finished = ⊥
IsParked stop exited = stop ≡ true

-- A call that waits, or has ended after `stop`.
abbrev pub IsHeld : Bool → Call → Type 0
IsHeld stop (calling task) = Unit
IsHeld stop (blocked_call task) = Unit
IsHeld stop (woken_call task) = Unit
IsHeld stop (enqueued task) = stop ≡ true
IsHeld stop (returned task) = stop ≡ true
IsHeld stop (refused task) = stop ≡ true

-- A pool that has no task and executes none.
abbrev pub unused : Bool → Pool
unused stop = record { tasks = []; active_workers = 0; stop = stop }

pub record IsIdle (s : System) : Type 0 where
  pub pool : s.pool ≡ unused s.pool.stop
  pub executed : s.executed ≡ []
  pub workers : All (IsParked s.pool.stop) s.workers
  pub calls : All (IsHeld s.pool.stop) s.calls

Worker-stopped : (stop : Bool) (w : Worker) → IsParked stop w → IsParked true w
Worker-stopped stop testing h = tt
Worker-stopped stop checked h = tt
Worker-stopped stop blocked h = tt
Worker-stopped stop (running task) h = h
Worker-stopped stop finished h = h
Worker-stopped stop exited h = refl

Call-stopped : (stop : Bool) (c : Call) → IsHeld stop c → IsHeld true c
Call-stopped stop (calling task) h = tt
Call-stopped stop (blocked_call task) h = tt
Call-stopped stop (woken_call task) h = tt
Call-stopped stop (enqueued task) h = refl
Call-stopped stop (returned task) h = refl
Call-stopped stop (refused task) h = refl

woken-IsParked :
    (stop : Bool) (ws : List Worker) → All (IsParked stop) ws → All (IsParked stop) (map woken ws)
woken-IsParked stop [] h = tt
woken-IsParked stop (testing ∷ ws) h = (tt, woken-IsParked stop ws h.1)
woken-IsParked stop (checked ∷ ws) h = (tt, woken-IsParked stop ws h.1)
woken-IsParked stop (blocked ∷ ws) h = (tt, woken-IsParked stop ws h.1)
woken-IsParked stop (running task ∷ ws) h = absurd h.0
woken-IsParked stop (finished ∷ ws) h = absurd h.0
woken-IsParked stop (exited ∷ ws) h = (h.0, woken-IsParked stop ws h.1)

woken-IsHeld :
    (stop : Bool) (cs : List Call) → All (IsHeld stop) cs → All (IsHeld stop) (map woken_enqueue cs)
woken-IsHeld stop [] h = tt
woken-IsHeld stop (calling task ∷ cs) h = (tt, woken-IsHeld stop cs h.1)
woken-IsHeld stop (blocked_call task ∷ cs) h = (tt, woken-IsHeld stop cs h.1)
woken-IsHeld stop (woken_call task ∷ cs) h = (tt, woken-IsHeld stop cs h.1)
woken-IsHeld stop (enqueued task ∷ cs) h = (h.0, woken-IsHeld stop cs h.1)
woken-IsHeld stop (returned task ∷ cs) h = (h.0, woken-IsHeld stop cs h.1)
woken-IsHeld stop (refused task ∷ cs) h = (h.0, woken-IsHeld stop cs h.1)

-- With an empty deque a call blocks, or ends after `stop`.
wait_enqueue-IsHeld : (stop : Bool) (task : ℕ) → IsHeld stop (wait_enqueue (unused stop) task)
wait_enqueue-IsHeld true task = refl
wait_enqueue-IsHeld false task = tt

enqueue-IsHeld : (stop : Bool) (task : ℕ) → IsHeld stop (enqueue (unused stop) task)
enqueue-IsHeld true task = refl
enqueue-IsHeld false task = tt

-- With an empty deque the predicate is true for a thread only when it is to end.
pub worker-unused :
    (stop : Bool) {p : Pool} {w : Worker}
    → worker (unused stop) ≡ some (p, w)
    → (stop ≡ true) × (p ≡ unused stop) × (w ≡ exited)
worker-unused true e =
    (refl, sym (ap (λ r. r.0) (some_inj.0 e)), sym (ap (λ r. r.1) (some_inj.0 e)))
worker-unused false e = absurd (cc e)

-- A step of a thread, and a step of a call, that leave the pool.
set_worker-IsIdle :
    (s : System) (locked : Bool) (i : ℕ) (w : Worker)
    → IsIdle s
    → IsParked s.pool.stop w
    → IsIdle (record s { locked = locked; workers = set s.workers i w })
set_worker-IsIdle s locked i w idle h = record {
  pool = idle.pool;
  executed = idle.executed;
  workers = All-set (IsParked s.pool.stop) s.workers i w idle.workers h;
  calls = idle.calls;
}

set_call-IsIdle :
    (s : System) (i : ℕ) (c : Call)
    → IsIdle s
    → IsHeld s.pool.stop c
    → IsIdle (record s { calls = set s.calls i c })
set_call-IsIdle s i c idle h = record {
  pool = idle.pool;
  executed = idle.executed;
  workers = idle.workers;
  calls = All-set (IsHeld s.pool.stop) s.calls i c idle.calls h;
}

set_stop-IsIdle :
    (s : System) (phase : Phase)
    → IsIdle s
    → IsIdle (record s { pool = set_stop s.pool; phase = phase })
set_stop-IsIdle s phase idle = record {
  pool = ap set_stop idle.pool;
  executed = idle.executed;
  workers = All-weaken _ _ s.workers (Worker-stopped s.pool.stop) idle.workers;
  calls = All-weaken _ _ s.calls (Call-stopped s.pool.stop) idle.calls;
}

-- Every other step is one that an unused pool never takes, or one of the three.
pub Step-IsIdle :
    {built spurious : Bool} {s t : System} → Step built spurious s t → IsIdle s → IsIdle t
Step-IsIdle {s = s} (take i {p} {w} at free taken) idle =
    let (stopped, same, ended) = worker-unused s.pool.stop (sym (ap worker idle.pool) ∙ taken) in
    let kept : p.stop ≡ s.pool.stop = ap (λ q. q.stop) same in
    let parked : IsParked s.pool.stop w = rw ended stopped in
    record {
      pool = same ∙ ap unused (sym kept);
      executed = idle.executed;
      workers = rw kept (All-set (IsParked s.pool.stop) s.workers i w idle.workers parked);
      calls = rw kept idle.calls;
    }
Step-IsIdle {s = s} (check i at free none_) idle = set_worker-IsIdle s true i checked idle tt
Step-IsIdle {s = s} (block i at) idle = set_worker-IsIdle s false i blocked idle tt
Step-IsIdle {s = s} (execute i at) idle =
    absurd (All-get_elem? (IsParked s.pool.stop) s.workers i idle.workers at)
Step-IsIdle {s = s} (finish i at) idle =
    absurd (All-get_elem? (IsParked s.pool.stop) s.workers i idle.workers at)
Step-IsIdle {s = s} (call task built) idle = record {
  pool = idle.pool;
  executed = idle.executed;
  workers = idle.workers;
  calls = All-append (IsHeld s.pool.stop) s.calls _ idle.calls (tt, tt);
}
Step-IsIdle {s = s} (lock_call i {task} at free) idle =
    set_call-IsIdle s i (enqueue s.pool task) idle (
      subst (λ p. IsHeld s.pool.stop (enqueue p task)) (sym idle.pool)
        (enqueue-IsHeld s.pool.stop task))
Step-IsIdle {s = s} (lock_woken i {task} at free) idle =
    set_call-IsIdle s i (wait_enqueue s.pool task) idle (
      subst (λ p. IsHeld s.pool.stop (wait_enqueue p task)) (sym idle.pool)
        (wait_enqueue-IsHeld s.pool.stop task))
Step-IsIdle {s = s} (notify_worker i j {task} at waits) idle =
    set_worker-IsIdle (record s { calls = set s.calls i (returned task) }) s.locked j testing
      (set_call-IsIdle s i (returned task) idle
        (All-get_elem? (IsHeld s.pool.stop) s.calls i idle.calls at))
      tt
Step-IsIdle {s = s} (notify_call i j {task} {other} at waits) idle =
    set_call-IsIdle (record s { calls = set s.calls i (returned task) }) j (woken_call other)
      (set_call-IsIdle s i (returned task) idle
        (All-get_elem? (IsHeld s.pool.stop) s.calls i idle.calls at))
      tt
Step-IsIdle {s = s} (notify_none i {task} at no_worker no_call) idle =
    set_call-IsIdle s i (returned task) idle
      (All-get_elem? (IsHeld s.pool.stop) s.calls i idle.calls at)
Step-IsIdle {s = s} (shutdown built at free) idle = set_stop-IsIdle s _ idle
Step-IsIdle {s = s} (cleanup built at) idle = set_stop-IsIdle s _ idle
Step-IsIdle {s = s} (notify at) idle = record {
  pool = idle.pool;
  executed = idle.executed;
  workers = woken-IsParked s.pool.stop s.workers idle.workers;
  calls = woken-IsHeld s.pool.stop s.calls idle.calls;
}
Step-IsIdle {s = s} (join at ended) idle = record {
  pool = idle.pool;
  executed = idle.executed;
  workers = idle.workers;
  calls = idle.calls;
}
Step-IsIdle {s = s} (wake_worker i spurious waits) idle =
    set_worker-IsIdle s s.locked i testing idle tt
Step-IsIdle {s = s} (wake_call i {task} spurious waits) idle =
    set_call-IsIdle s i (woken_call task) idle tt

pub Reach-IsIdle :
    {built spurious : Bool} {s t : System} → IsIdle s → Reach built spurious s t → IsIdle t
Reach-IsIdle idle here = idle
Reach-IsIdle idle (later r st) = Step-IsIdle st (Reach-IsIdle idle r)

pub init-IsIdle : (n : ℕ) → IsIdle (init n)
init-IsIdle n = record {
  pool = refl;
  executed = refl;
  workers = All-replicate (IsParked false) n testing tt;
  calls = tt;
}

pub create-init : (n : ℕ) {s : System} → create n ≡ some s → s ≡ init n
create-init zero e = absurd (cc e)
create-init (suc n) e = sym (some_inj.0 e)

-- Where the wait of `enqueue` releases the mutex, as that on a `unique_lock` does: however the threads and the
-- calls of a pool are interleaved, with or without spurious wake-ups, no task is ever in its queue and none is
-- executed, and every call of `enqueue` waits until `stop` is set.
pub Reach-unused :
    (n : ℕ) (built spurious : Bool) {s t : System}
    → create n ≡ some s
    → Reach built spurious s t
    → (queue_size t.pool ≡ 0) × (t.executed ≡ []) × All (IsHeld t.pool.stop) t.calls
Reach-unused n built spurious made r =
    let idle = Reach-IsIdle (subst IsIdle (sym (create-init n made)) (init-IsIdle n)) r in
    (ap queue_size idle.pool, idle.executed, idle.calls)

-- ===== src/ThreadPool/Woken.antt =====
-- src/dsa/thread_pool.hpp: no wake-up is lost where `stop` is set under the mutex.
use vector_db.Prelude.{
  ℕ, ◌≡◌, refl, sym, ap, ◌∙◌, ◌⊎◌, inl, inr, Bool, true, false, List, [], ◌∷◌, All, All-set,
  All-get_elem?, get_elem?, some, arith, map, set,
}
use vector_db.ThreadPool.{
  Worker, testing, checked, blocked, running, finished, exited, Phase, serving, stopping, joining,
  System, Step, take, check, block, execute, finish, call, lock_call, lock_woken, notify_worker,
  notify_call, notify_none, shutdown, cleanup, notify, join, wake_worker, wake_call, Reach, here,
  later, worker, has_work, init, woken,
}
use vector_db.ThreadPool.Idle.{IsIdle, IsParked, worker-unused, Reach-IsIdle, init-IsIdle}
use vector_db.ThreadPool.Owners.{
  owns, owners, owners-set, owners-woken, locks, IsOwned, Reach-IsOwned, init-IsOwned,
}

-- A thread that is not blocked, nor about to block.
abbrev pub IsAwake : Worker → Type 0
IsAwake testing = Unit
IsAwake checked = ⊥
IsAwake blocked = ⊥
IsAwake (running task) = ⊥
IsAwake finished = ⊥
IsAwake exited = Unit

pub woken-IsAwake :
    (stop : Bool) (ws : List Worker)
    → All (IsParked stop) ws
    → owners ws ≡ 0
    → All IsAwake (map woken ws)
woken-IsAwake stop [] h none_ = tt
woken-IsAwake stop (testing ∷ ws) h none_ = (tt, woken-IsAwake stop ws h.1 (omega arith))
woken-IsAwake stop (checked ∷ ws) h none_ = absurd (omega arith)
woken-IsAwake stop (blocked ∷ ws) h none_ = (tt, woken-IsAwake stop ws h.1 (omega arith))
woken-IsAwake stop (running task ∷ ws) h none_ = absurd h.0
woken-IsAwake stop (finished ∷ ws) h none_ = absurd h.0
woken-IsAwake stop (exited ∷ ws) h none_ = (tt, woken-IsAwake stop ws h.1 (omega arith))

-- The phases, `stop` and the threads of a pool whose constructor has returned.
record IsTold (phase : Phase) (stop : Bool) (workers : List Worker) : Type 0 where
  stopped : (phase ≡ serving) ⊎ (stop ≡ true)
  free : stop ≡ true → owners workers ≡ 0
  awake : phase ≡ joining → All IsAwake workers

-- A thread that tests its predicate next, or has ended.
set-IsTold :
    {phase : Phase} {stop : Bool} (ws : List Worker) (i : ℕ) (w : Worker) {v : Worker}
    → IsTold phase stop ws
    → get_elem? ws i ≡ some v
    → owns v ≡ 0
    → owns w ≡ 0
    → IsAwake w
    → IsTold phase stop (set ws i w)
set-IsTold ws i w told at old new h = record {
  stopped = told.stopped;
  free = λ e. omega (arith, owners-set ws i w at, told.free e, old, new);
  awake = λ j. All-set IsAwake ws i w (told.awake j) h;
}

joining-stopped :
    {phase : Phase} {stop : Bool}
    → (phase ≡ serving) ⊎ (stop ≡ true)
    → phase ≡ joining
    → stop ≡ true
joining-stopped (inl e) j = absurd (cc (e, j))
joining-stopped (inr e) j = e

stopping-stopped :
    {phase : Phase} {stop : Bool}
    → (phase ≡ serving) ⊎ (stop ≡ true)
    → phase ≡ stopping
    → stop ≡ true
stopping-stopped (inl e) j = absurd (cc (e, j))
stopping-stopped (inr e) j = e

abbrev AllTold : System → Type 0
AllTold s = IsTold s.phase s.pool.stop s.workers

Step-IsTold :
    {spurious : Bool} {s t : System}
    → Step true spurious s t
    → IsIdle s
    → IsOwned s
    → AllTold s
    → AllTold t
Step-IsTold {s = s} (take i {p} {w} at free taken) idle own told =
    let (stopped, same, ended) = worker-unused s.pool.stop (sym (ap worker idle.pool) ∙ taken) in
    rw (same, ended) (set-IsTold s.workers i exited told at refl refl tt)
Step-IsTold {s = s} (check i at free none_) idle own told =
    let unset : s.pool.stop ≡ false = sym (ap has_work idle.pool) ∙ none_ in
    record {
      stopped = told.stopped;
      free = λ e. absurd (cc (unset, e));
      awake = λ j. absurd (cc (unset, joining-stopped told.stopped j));
    }
Step-IsTold {s = s} (block i at) idle own told = record {
  stopped = told.stopped;
  free = λ e. omega (arith, owners-set s.workers i blocked at, told.free e);
  awake = λ j. absurd (All-get_elem? IsAwake s.workers i (told.awake j) at);
}
Step-IsTold {s = s} (execute i at) idle own told =
    absurd (All-get_elem? (IsParked s.pool.stop) s.workers i idle.workers at)
Step-IsTold {s = s} (finish i at) idle own told =
    absurd (All-get_elem? (IsParked s.pool.stop) s.workers i idle.workers at)
Step-IsTold (call task built) idle own told = told
Step-IsTold (lock_call i at free) idle own told = told
Step-IsTold (lock_woken i at free) idle own told = told
Step-IsTold {s = s} (notify_worker i j at waits) idle own told =
    set-IsTold s.workers j testing told waits refl refl tt
Step-IsTold (notify_call i j at waits) idle own told = told
Step-IsTold (notify_none i at no_worker no_call) idle own told = told
Step-IsTold (shutdown built at free) idle own told = record {
  stopped = inr refl;
  free = λ e. own ∙ ap locks free;
  awake = λ j. absurd (cc j);
}
Step-IsTold (cleanup built at) idle own told = absurd (cc built)
Step-IsTold {s = s} (notify at) idle own told =
    let stop = stopping-stopped told.stopped at in
    record {
      stopped = inr stop;
      free = λ e. owners-woken s.workers ∙ told.free e;
      awake = λ j. woken-IsAwake s.pool.stop s.workers idle.workers (told.free stop);
    }
Step-IsTold (join at ended) idle own told = record {
  stopped = inl refl;
  free = told.free;
  awake = λ j. absurd (cc j);
}
Step-IsTold {s = s} (wake_worker i spurious waits) idle own told =
    set-IsTold s.workers i testing told waits refl refl tt
Step-IsTold (wake_call i spurious waits) idle own told = told

Reach-IsTold :
    {spurious : Bool} {s t : System}
    → IsIdle s
    → IsOwned s
    → AllTold s
    → Reach true spurious s t
    → AllTold t
Reach-IsTold idle own told here = told
Reach-IsTold idle own told (later r st) =
    Step-IsTold st (Reach-IsIdle idle r) (Reach-IsOwned idle own r) (Reach-IsTold idle own told r)

-- After `notify_all`, until the joins return, no thread is blocked or about to block.
pub Reach-IsAwake :
    (n : ℕ) {spurious : Bool} {s t : System}
    → s ≡ init n
    → Reach true spurious s t
    → t.phase ≡ joining
    → All IsAwake t.workers
Reach-IsAwake n {s = s} e r at =
    let first : AllTold (init n) = record {
      stopped = inl refl;
      free = λ h. init-IsOwned n;
      awake = λ j. absurd (cc j);
    } in
    (Reach-IsTold (rw e (init-IsIdle n)) (rw e (init-IsOwned n)) (rw e first) r).awake at

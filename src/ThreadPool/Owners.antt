-- ===== src/ThreadPool/Owners.antt =====
-- src/dsa/thread_pool.hpp: the mutex is locked between two steps where one thread of the pool has it.
use vector_db.Prelude.{
  ℕ, zero, suc, ◌+◌, ◌≡◌, refl, sym, ap, ◌∙◌, some_inj, Bool, Bool-cases, inl, inr, true, false,
  some, List, [], ◌∷◌, arith, get_elem?, map, set, replicate,
}
use vector_db.ThreadPool.{
  Pool, Worker, testing, checked, blocked, running, finished, exited, System, Step, take, check,
  block, execute, finish, call, lock_call, lock_woken, notify_worker, notify_call, notify_none,
  shutdown, cleanup, notify, join, wake_worker, wake_call, Reach, here, later, worker, init, woken,
}
use vector_db.ThreadPool.Idle.{IsIdle, worker-unused, Reach-IsIdle}

abbrev pub owns : Worker → ℕ
owns checked = 1
owns w = 0

abbrev pub owners : List Worker → ℕ
owners [] = 0
owners (w ∷ ws) = owns w + owners ws

abbrev pub locks : Bool → ℕ
locks true = 1
locks false = 0

abbrev pub IsOwned : System → Type 0
IsOwned s = owners s.workers ≡ locks s.locked

pub owners-set :
    (ws : List Worker) (i : ℕ) (w : Worker) {v : Worker}
    → get_elem? ws i ≡ some v
    → owners (set ws i w) + owns v ≡ owners ws + owns w
owners-set [] i w {v} h = absurd (cc h)
owners-set (x ∷ ws) zero w {v} h =
    let same : owns x ≡ owns v = ap owns (some_inj.0 h) in omega (arith, same)
owners-set (x ∷ ws) (suc i) w {v} h = omega (arith, owners-set ws i w h)

pub owners-woken : (ws : List Worker) → owners (map woken ws) ≡ owners ws
owners-woken [] = refl
owners-woken (testing ∷ ws) = omega (arith, owners-woken ws)
owners-woken (checked ∷ ws) = omega (arith, owners-woken ws)
owners-woken (blocked ∷ ws) = omega (arith, owners-woken ws)
owners-woken (running task ∷ ws) = omega (arith, owners-woken ws)
owners-woken (finished ∷ ws) = omega (arith, owners-woken ws)
owners-woken (exited ∷ ws) = omega (arith, owners-woken ws)

owners-replicate : (n : ℕ) → owners (replicate n testing) ≡ 0
owners-replicate zero = refl
owners-replicate (suc n) = omega (arith, owners-replicate n)

-- The thread that has the mutex.
pub owner-at : (ws : List Worker) → owners ws ≡ 1 → (i : ℕ) × (get_elem? ws i ≡ some checked)
owner-at [] h = absurd (omega arith)
owner-at (checked ∷ ws) h = (0, refl)
owner-at (testing ∷ ws) h = let (i, e) = owner-at ws (omega arith) in (suc i, e)
owner-at (blocked ∷ ws) h = let (i, e) = owner-at ws (omega arith) in (suc i, e)
owner-at (running task ∷ ws) h = let (i, e) = owner-at ws (omega arith) in (suc i, e)
owner-at (finished ∷ ws) h = let (i, e) = owner-at ws (omega arith) in (suc i, e)
owner-at (exited ∷ ws) h = let (i, e) = owner-at ws (omega arith) in (suc i, e)

owns-take :
    (s : System) {p : Pool} {w : Worker} → IsIdle s → worker s.pool ≡ some (p, w) → owns w ≡ 0
owns-take s idle taken =
    let (stopped, same, ended) = worker-unused s.pool.stop (sym (ap worker idle.pool) ∙ taken) in
    ap owns ended

Step-IsOwned :
    {built spurious : Bool} {s t : System}
    → Step built spurious s t
    → IsIdle s
    → IsOwned s
    → IsOwned t
Step-IsOwned {s = s} (take i {p} {w} at free taken) idle own =
    omega (arith, owners-set s.workers i w at, owns-take s idle taken, own)
Step-IsOwned {s = s} (check i at free none_) idle own =
    omega (arith, owners-set s.workers i checked at, own, ap locks free)
Step-IsOwned {s = s} (block i at) idle own = elim (Bool-cases s.locked) [
  | inl e ↦ omega (arith, owners-set s.workers i blocked at, own, ap locks e)
  | inr e ↦ omega (arith, owners-set s.workers i blocked at, own, ap locks e)
]
Step-IsOwned {s = s} (execute i at) idle own =
    omega (arith, owners-set s.workers i finished at, own)
Step-IsOwned {s = s} (finish i at) idle own =
    omega (arith, owners-woken (set s.workers i testing), owners-set s.workers i testing at, own)
Step-IsOwned (call task built) idle own = own
Step-IsOwned (lock_call i at free) idle own = own
Step-IsOwned (lock_woken i at free) idle own = own
Step-IsOwned {s = s} (notify_worker i j at waits) idle own =
    omega (arith, owners-set s.workers j testing waits, own)
Step-IsOwned (notify_call i j at waits) idle own = own
Step-IsOwned (notify_none i at no_worker no_call) idle own = own
Step-IsOwned (shutdown built at free) idle own = own
Step-IsOwned (cleanup built at) idle own = own
Step-IsOwned {s = s} (notify at) idle own = omega (arith, owners-woken s.workers, own)
Step-IsOwned (join at ended) idle own = own
Step-IsOwned {s = s} (wake_worker i spurious waits) idle own =
    omega (arith, owners-set s.workers i testing waits, own)
Step-IsOwned (wake_call i spurious waits) idle own = own

pub Reach-IsOwned :
    {built spurious : Bool} {s t : System}
    → IsIdle s
    → IsOwned s
    → Reach built spurious s t
    → IsOwned t
Reach-IsOwned idle own here = own
Reach-IsOwned idle own (later r st) =
    Step-IsOwned st (Reach-IsIdle idle r) (Reach-IsOwned idle own r)

pub init-IsOwned : (n : ℕ) → IsOwned (init n)
init-IsOwned n = owners-replicate n

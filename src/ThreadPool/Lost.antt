-- ===== src/ThreadPool/Lost.antt =====
-- src/dsa/thread_pool.hpp: the cleanup of the constructor sets `stop` without the mutex, and a thread that
-- tested its predicate before blocks after `notify_all`.
use mathlib.Core.Path.{subst}
use vector_db.Prelude.{
  ℕ, zero, suc, ◌≡◌, refl, sym, ap, ◌∙◌, true, false, some, some_inj, ◌≢◌, List, [], ◌∷◌, map,
  replicate, All-get_elem?, get_elem?, set,
}
use vector_db.ThreadPool.{
  Worker, testing, checked, blocked, HasExited, joining, Call, System, Step, take, check, block,
  execute, finish, call, lock_call, lock_woken, notify_worker, notify_call, notify_none, shutdown,
  cleanup, notify, join, wake_worker, wake_call, Reach, here, later, init, woken,
}
use vector_db.ThreadPool.Idle.{IsIdle, IsParked, unused, Reach-IsIdle, init-IsIdle}

-- The first thread is blocked, and the constructor waits at its `join`.
abbrev pub lost : ℕ → System
lost m = record {
  pool = unused true;
  locked = false;
  phase = joining;
  workers = blocked ∷ replicate m testing;
  calls = [];
  executed = [];
}

woken-replicate : (m : ℕ) → map woken (replicate m testing) ≡ replicate m testing
woken-replicate zero = refl
woken-replicate (suc m) = ap (λ ws. testing ∷ ws) (woken-replicate m)

-- The first thread finds no work; `stop` is set and all are notified; then it blocks.
init-lost : (m : ℕ) → Reach false false (init (suc m)) (lost m)
init-lost m =
    subst (λ ws. Reach false false (init (suc m)) (record (lost m) { workers = blocked ∷ ws }))
      (woken-replicate m)
      (later (later (later (later here (check 0 refl refl refl)) (cleanup refl refl)) (notify refl))
        (block 0 refl))

-- Nobody is left to wake it.
record IsStuck (s : System) : Type 0 where
  waits : get_elem? s.workers 0 ≡ some blocked
  phase : s.phase ≡ joining
  calls : s.calls ≡ []

set_other :
    (ws : List Worker) (i : ℕ) (w : Worker) {v : Worker}
    → get_elem? ws 0 ≡ some blocked
    → get_elem? ws i ≡ some v
    → v ≢ blocked
    → get_elem? (set ws i w) 0 ≡ some blocked
set_other [] i w h at ne = absurd (cc h)
set_other (x ∷ ws) zero w h at ne = absurd (ne (some_inj.0 (sym at ∙ h)))
set_other (x ∷ ws) (suc i) w h at ne = h

no_call : {s : System} {c : Call} (i : ℕ) → IsStuck s → get_elem? s.calls i ≡ some c → ⊥
no_call {s} {c} i stuck at = absurd (cc (sym (ap (λ cs. get_elem? cs i) stuck.calls) ∙ at))

Step-IsStuck : {s t : System} → Step false false s t → IsIdle s → IsStuck s → IsStuck t
Step-IsStuck {s = s} (take i {p} {w} at free taken) idle stuck = record {
  waits = set_other s.workers i w stuck.waits at (λ e. absurd (cc e));
  phase = stuck.phase;
  calls = stuck.calls;
}
Step-IsStuck {s = s} (check i at free none_) idle stuck = record {
  waits = set_other s.workers i checked stuck.waits at (λ e. absurd (cc e));
  phase = stuck.phase;
  calls = stuck.calls;
}
Step-IsStuck {s = s} (block i at) idle stuck = record {
  waits = set_other s.workers i blocked stuck.waits at (λ e. absurd (cc e));
  phase = stuck.phase;
  calls = stuck.calls;
}
Step-IsStuck {s = s} (execute i at) idle stuck =
    absurd (All-get_elem? (IsParked s.pool.stop) s.workers i idle.workers at)
Step-IsStuck {s = s} (finish i at) idle stuck =
    absurd (All-get_elem? (IsParked s.pool.stop) s.workers i idle.workers at)
Step-IsStuck (call task built) idle stuck = absurd (cc built)
Step-IsStuck (lock_call i at free) idle stuck = absurd (no_call i stuck at)
Step-IsStuck (lock_woken i at free) idle stuck = absurd (no_call i stuck at)
Step-IsStuck (notify_worker i j at waits) idle stuck = absurd (no_call i stuck at)
Step-IsStuck (notify_call i j at waits) idle stuck = absurd (no_call i stuck at)
Step-IsStuck (notify_none i at no_worker no_other) idle stuck = absurd (no_call i stuck at)
Step-IsStuck (shutdown built at free) idle stuck = absurd (cc built)
Step-IsStuck (cleanup built at) idle stuck = absurd (cc (sym at ∙ stuck.phase))
Step-IsStuck (notify at) idle stuck = absurd (cc (sym at ∙ stuck.phase))
Step-IsStuck {s = s} (join at ended) idle stuck =
    absurd (cc (All-get_elem? HasExited s.workers 0 ended stuck.waits))
Step-IsStuck (wake_worker i spurious waits) idle stuck = absurd (cc spurious)
Step-IsStuck (wake_call i spurious waits) idle stuck = absurd (cc spurious)

Reach-IsStuck : {s t : System} → IsIdle s → IsStuck s → Reach false false s t → IsStuck t
Reach-IsStuck idle stuck here = stuck
Reach-IsStuck idle stuck (later r st) =
    Step-IsStuck st (Reach-IsIdle idle r) (Reach-IsStuck idle stuck r)

-- The cleanup of a constructor that could not start every thread can lose a wake-up: with any positive number
-- of started threads, there are steps to a state in which `notify_all` is over and a thread is blocked, and it
-- stays blocked, and the constructor at its `join`, whatever steps without spurious wake-ups follow.
pub Reach-lost :
    (m : ℕ) {t : System}
    → Reach false false (lost m) t
    → Reach false false (init (suc m)) (lost m)
      × (t.phase ≡ joining)
      × (get_elem? t.workers 0 ≡ some blocked)
Reach-lost m r =
    let idle = Reach-IsIdle (init-IsIdle (suc m)) (init-lost m) in
    let stuck = Reach-IsStuck idle (record { waits = refl; phase = refl; calls = refl }) r in
    (init-lost m, stuck.phase, stuck.waits)

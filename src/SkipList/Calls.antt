-- ===== src/SkipList/Calls.antt =====
-- src/dsa/skiplist.hpp: sequences of calls by one thread.
use vector_db.Prelude.{ℕ, suc, ◌≡◌, refl, Bool, false, List, [], ◌∷◌, arith}
use vector_db.Prelude.Order.{Ord}
use vector_db.Prelude.Outcome.{Outcome, ret, ◌>>=◌}
use vector_db.SkipList.{SkipList, key_lt, key_eq, new}
use vector_db.SkipList.Cells.{Cell}
use vector_db.SkipList.Find.{IsList}
use vector_db.SkipList.Specification.{
  Call, call, run, set_call, set_run, Agrees, Simulates, both, faults,
}
use vector_db.SkipList.Simulation.{call-Simulates}

module _ {ℓ κ} {K : Type ℓ} ⦃o : Ord K⦄ {V : Type κ} (least greatest : K) (nothing : V) where
  new-IsList : IsList least greatest nothing (new least greatest nothing) []
  new-IsList = record {
    level = refl;
    chain = (refl, tt);
    tail_at = refl;
    inner = tt;
    ordered = tt;
    room = omega arith;
  }

  module _ (max : (k : K) → key_lt greatest k ≡ false) where
    run-after :
        (fuel : ℕ) (cs : List (Call K V)) (r : Outcome (Bool × SkipList K V))
        (s : Outcome (Bool × (K → Bool)))
        → Simulates least greatest nothing r s
        → ((l : SkipList K V) (xs : List (Cell K V)) (members : K → Bool)
            → IsList least greatest nothing l xs
            → Agrees greatest xs members
            → run (suc fuel) cs l ≡ set_run greatest cs members)
        → (r >>= λ p. run (suc fuel) cs p.1 >>= λ bs. ret (p.0 ∷ bs))
          ≡ (s >>= λ p. set_run greatest cs p.1 >>= λ bs. ret (p.0 ∷ bs))
    run-after fuel cs r s (both b l xs members h agrees) rest = rw (rest l xs members h agrees)
    run-after fuel cs r s (faults e) rest = refl

    run-IsList :
        (fuel : ℕ) (cs : List (Call K V)) (l : SkipList K V) (xs : List (Cell K V))
        (members : K → Bool)
        → IsList least greatest nothing l xs
        → Agrees greatest xs members
        → run (suc fuel) cs l ≡ set_run greatest cs members
    unfolding run set_run
    run-IsList fuel [] l xs members h agrees = refl
    run-IsList fuel (c ∷ cs) l xs members h agrees =
        run-after fuel cs (call (suc fuel) c l) (set_call greatest c members)
          (call-Simulates least greatest nothing max fuel c xs members h agrees)
          (run-IsList fuel cs)

    -- On a new list, any sequence of calls of `add`, `remove` and `contains` by one thread gives what the
    -- calls give on a set of keys, where the fuel allows a round: each returns in its first round whether
    -- the key was new or there, but a null pointer is followed where `randomLevel` gives a new key more than
    -- one level, and where the greatest key is removed, which the list holds from the start.
    pub run-set_run :
        (fuel : ℕ) (cs : List (Call K V))
        → run (suc fuel) cs (new least greatest nothing)
          ≡ set_run greatest cs (λ k. key_eq greatest k)
    run-set_run fuel cs =
        run-IsList fuel cs (new least greatest nothing) [] (λ k. key_eq greatest k) new-IsList
          (λ k. ground arith)

-- ===== src/HashMap/Calls.antt =====
-- What a client of src/dsa/hashtable.hpp's `HMap` observes over any sequence of calls, against stacks of
-- values with no table behind them.
use mathlib.Core.Path.{ap₂, fun_ext}
use vector_db.Prelude.{
  ℕ, ◌+◌, ◌≡◌, refl, ap, ◌∙◌, Option, List, [], ◌∷◌, arith, ◌==◌, if◌then◌else◌, Bool-cases, inl,
  inr, ==_iff,
}
use vector_db.Prelude.Outcome.{Outcome, ret, fault, relock, ◌>>=◌}
use vector_db.Hash.{Key}
use vector_db.HashTable.Chain.{top, pop}
use vector_db.HashTable.Remove.{without}
use vector_db.HashMap.{HMap, new, insert, find, remove, clear}
use vector_db.HashMap.Valid.{
  IsValid, values, new-IsValid, insert-relock, insert-Pushed, find-top, remove-Popped, removed,
  clear-new,
}

pub data Call {ℓ κ} (K : Type ℓ) (V : Type κ) : Type (ℓ ⊔ κ) where
  insert_call : K → V → Call K V
  find_call remove_call : K → Call K V
  clear_call : Call K V

module _ {ℓ κ} {K : Type ℓ} {V : Type κ} ⦃key : Key K⦄ where
  -- The results of the calls of `find` and `remove`, in order.
  unfoldable pub run : List (Call K V) → HMap K V → Outcome (List (Option V))
  run [] m = ret []
  run (insert_call k v ∷ cs) m = insert m k v >>= run cs
  run (find_call k ∷ cs) m = find m k >>= λ r. run cs r.1 >>= λ rs. ret (r.0 ∷ rs)
  run (remove_call k ∷ cs) m = remove m k >>= λ r. run cs r.1 >>= λ rs. ret (r.0 ∷ rs)
  run (clear_call ∷ cs) m = run cs (clear m)

  abbrev pub push_at : (K → List V) → K → V → K → List V
  push_at f k v j = if key.beq k j then v ∷ f j else f j

  abbrev pub pop_at : (K → List V) → K → K → List V
  pop_at f k j = if key.beq k j then pop (f j) else f j

  -- The same calls on `n` values in stacks: an insertion into 32 values is the fault `relock`.
  unfoldable pub replay : List (Call K V) → ℕ → (K → List V) → Outcome (List (Option V))
  replay [] n f = ret []
  replay (insert_call k v ∷ cs) n f =
      let rest = replay cs (n + 1) (push_at f k v) in if n == 32 then fault relock else rest
  replay (find_call k ∷ cs) n f = replay cs n f >>= λ rs. ret (top (f k) ∷ rs)
  replay (remove_call k ∷ cs) n f =
      replay cs (without (top (f k)) n) (pop_at f k) >>= λ rs. ret (top (f k) ∷ rs)
  replay (clear_call ∷ cs) n f = replay cs 0 (λ _. [])

  calls_refine_stacks_from :
      (cs : List (Call K V)) (m : HMap K V)
      → IsValid m
      → run cs m ≡ replay cs m.primary_table.size (values m)
  unfolding run replay
  calls_refine_stacks_from [] m v = refl
  calls_refine_stacks_from (insert_call k x ∷ cs) m v =
      elim (Bool-cases (m.primary_table.size == 32)) [
        | inl e ↦ rw (e, insert-relock m k x v ((==_iff _ _).0 e))
        | inr e ↦
            let (m', returned, p) = insert-Pushed m k x v (ground (arith, v.room)) in
            rw (e, returned)
              (calls_refine_stacks_from cs m' p.valid ∙ ap₂ (replay cs) p.sized (fun_ext p.pushed))
      ]
  calls_refine_stacks_from (find_call k ∷ cs) m v =
      rw (find-top m k v)
        (ap (λ o. o >>= λ rs. ret (top (values m k) ∷ rs)) (calls_refine_stacks_from cs m v))
  calls_refine_stacks_from (remove_call k ∷ cs) m v =
      let (returned, p) = remove-Popped m k v in
      rw returned (
        ap (λ o. o >>= λ rs. ret (top (values m k) ∷ rs))
          (calls_refine_stacks_from cs (removed m k) p.valid
            ∙ ap₂ (replay cs) p.sized (fun_ext p.popped)))
  calls_refine_stacks_from (clear_call ∷ cs) m v =
      rw (clear-new m) (calls_refine_stacks_from cs new new-IsValid)

  -- Any sequence of calls on a new map gives what the same calls give on one stack of values for
  -- each key: `insert` pushes, `find` reads the top, `remove` returns and pops it, `clear` drops all;
  -- an `insert` when the map holds 32 values does not return, since the thread locks `map_mutex_`
  -- twice, and every other call returns.
  pub calls_refine_stacks : (cs : List (Call K V)) → run cs new ≡ replay cs 0 (λ _. [])
  calls_refine_stacks cs = calls_refine_stacks_from cs new new-IsValid

-- ===== src/SortedSet/Calls.antt =====
-- src/dsa/zset.hpp: any sequence of calls on a new set.
use vector_db.Prelude.{ℕ, ◌≡◌, refl, Bool, true, false, none, List, [], ◌∷◌, if◌then◌else◌}
use vector_db.Prelude.Outcome.{Outcome, ret, fault, relock, ◌>>=◌}
use vector_db.Bytes.{Bytes}
use vector_db.Hash.{string_key}
use vector_db.HashMap
use vector_db.HashMap.{new}
use vector_db.HashMap.Valid.{new-IsValid, find-top}
use vector_db.Avl
use vector_db.SortedSet.{ZSet, new_zset, lookup, add_internal, pop_internal, remove_internal, query}

pub data Call {κ} (D : Type κ) : Type κ where
  add_call : Bytes → D → Call D
  lookup_call pop_call remove_call query_call : Bytes → Call D

find-new : (name : Bytes) → HashMap.find {V = ℕ} new name ≡ ret (none, new)
find-new name = find-top new name new-IsValid

module _ {κ} {D : Type κ} where
  unfoldable pub run : List (Call D) → ZSet D → Outcome (ZSet D)
  run [] z = ret z
  run (add_call name score ∷ cs) z = add_internal false z name score >>= λ r. run cs r.1
  run (lookup_call name ∷ cs) z = lookup false z name >>= λ r. run cs r.1
  run (pop_call name ∷ cs) z = pop_internal false z name >>= λ r. run cs r.1
  run (remove_call name ∷ cs) z = remove_internal false z name >>= λ r. run cs r.1
  run (query_call name ∷ cs) z = query false z name >>= λ r. run cs r.1

  -- Whether `add_internal` is among the calls.
  abbrev pub adds : List (Call D) → Bool
  adds [] = false
  adds (add_call name score ∷ cs) = true
  adds (lookup_call name ∷ cs) = adds cs
  adds (pop_call name ∷ cs) = adds cs
  adds (remove_call name ∷ cs) = adds cs
  adds (query_call name ∷ cs) = adds cs

  -- Any sequence of calls on a new set, each by a thread that does not hold the mutex, leaves the set
  -- empty, unless there is an `add_internal` among them, which does not return: it locks `zset_mutex_`
  -- and then calls `lookup`, which locks it again.
  pub run-new :
      (cs : List (Call D)) → run cs new_zset ≡ (if adds cs then fault relock else ret new_zset)
  unfolding run add_internal lookup pop_internal remove_internal query Avl.exists
  run-new [] = refl
  run-new (add_call name score ∷ cs) = refl
  run-new (lookup_call name ∷ cs) = rw (find-new name) (run-new cs)
  run-new (pop_call name ∷ cs) = rw (find-new name) (run-new cs)
  run-new (remove_call name ∷ cs) = rw (find-new name) (run-new cs)
  run-new (query_call name ∷ cs) = run-new cs

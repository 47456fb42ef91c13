-- ===== src/SkipList/Specification.antt =====
-- src/dsa/skiplist.hpp: the calls of one thread, and the same calls on a set of keys.
use vector_db.Prelude.{
  ℕ, zero, suc, ◌+◌, ◌≤◌, ◌≡◌, refl, Bool, true, false, ◌||◌, inl, inr, ◌⊎◌, List, [], ◌∷◌, arith,
  ◌==◌, if◌then◌else◌,
}
use vector_db.Prelude.Order.{Ord}
use vector_db.Prelude.Outcome.{Fault, Outcome, ret, fault, dangling, ◌>>=◌}
use vector_db.SkipList.{SkipList, key_eq, random_levels, random_level, contains, add, remove}
use vector_db.SkipList.Cells.{Cell}
use vector_db.SkipList.Find.{IsList}
use vector_db.SkipList.Members.{has}

-- The calls, `add` with what `dist(gen)` gives.
pub data Call {ℓ κ} (K : Type ℓ) (V : Type κ) : Type (ℓ ⊔ κ) where
  add_key : (ℕ → Bool) → K → V → Call K V
  remove_key : K → Call K V
  contains_key : K → Call K V

random_levels-ge : (flips : ℕ → Bool) (left lvl : ℕ) → lvl ≤ random_levels flips left lvl
unfolding random_levels
random_levels-ge flips zero lvl = omega arith
random_levels-ge flips (suc left) lvl = ground (arith, random_levels-ge flips left (lvl + 1))

-- One level, or more than one.
pub random_level-cases :
    (flips : ℕ → Bool)
    → ((random_level flips == 1) ≡ true) × (random_level flips ≡ 1)
      ⊎ ((t : ℕ) × ((random_level flips == 1) ≡ false) × (random_level flips ≡ suc (suc t)))
unfolding random_level
random_level-cases flips = of_level (random_level flips) (random_levels-ge flips 15 1)
  where
    of_level :
        (n : ℕ)
        → 1 ≤ n
        → ((n == 1) ≡ true) × (n ≡ 1) ⊎ ((t : ℕ) × ((n == 1) ≡ false) × (n ≡ suc (suc t)))
    of_level zero h = elim h [ ]
    of_level (suc zero) h = inl (refl, refl)
    of_level (suc (suc t)) h = inr (t, ground arith, refl)

module _ {ℓ} {K : Type ℓ} ⦃o : Ord K⦄ where
  abbrev pub update : (K → Bool) → K → Bool → K → Bool
  update members key b k = if key_eq key k then b else members k

module _ {ℓ κ} {K : Type ℓ} ⦃o : Ord K⦄ {V : Type κ} where
  unfoldable pub call : ℕ → Call K V → SkipList K V → Outcome (Bool × SkipList K V)
  call fuel (add_key flips key value) l = add fuel flips key value l
  call fuel (remove_key key) l = remove fuel key l
  call fuel (contains_key key) l = contains l key >>= λ b. ret (b, l)

  -- The results of the calls, one after the other.
  unfoldable pub run : ℕ → List (Call K V) → SkipList K V → Outcome (List Bool)
  run fuel [] l = ret []
  run fuel (c ∷ cs) l = call fuel c l >>= λ r. run fuel cs r.1 >>= λ bs. ret (r.0 ∷ bs)

  -- The calls on a set of keys. The key of the sentinel is in it, and cannot be removed; a new key cannot be
  -- added above the lowest level.
  abbrev pub set_call : K → Call K V → (K → Bool) → Outcome (Bool × (K → Bool))
  set_call greatest (add_key flips key value) members =
      if members key
      then ret (false, members)
      else if random_level flips == 1
      then ret (true, update members key true)
      else fault dangling
  set_call greatest (remove_key key) members =
      if key_eq greatest key
      then fault dangling
      else if members key
      then ret (true, update members key false)
      else ret (false, members)
  set_call greatest (contains_key key) members = ret (members key, members)

  unfoldable pub set_run : K → List (Call K V) → (K → Bool) → Outcome (List Bool)
  set_run greatest [] members = ret []
  set_run greatest (c ∷ cs) members =
      set_call greatest c members >>= λ r. set_run greatest cs r.1 >>= λ bs. ret (r.0 ∷ bs)

  -- The cells and the sentinel have the keys of the set.
  abbrev pub Agrees : K → List (Cell K V) → (K → Bool) → Type ℓ
  Agrees greatest xs members = (k : K) → members k ≡ (key_eq greatest k || has k xs)

  -- A call has the result of the call on the set, and leaves a list with the keys of the set.
  pub data Simulates (least greatest : K) (nothing : V)
      : Outcome (Bool × SkipList K V) → Outcome (Bool × (K → Bool)) → Type (ℓ ⊔ κ) where
    both :
        (b : Bool) (l : SkipList K V) (xs : List (Cell K V)) (members : K → Bool)
        → IsList least greatest nothing l xs
        → Agrees greatest xs members
        → Simulates least greatest nothing (ret (b, l)) (ret (b, members))
    faults : (e : Fault) → Simulates least greatest nothing (fault e) (fault e)

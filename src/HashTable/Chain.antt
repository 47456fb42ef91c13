-- ===== src/HashTable/Chain.antt =====
-- A bucket of src/dsa/hashtable.hpp read as one stack of values for each key.
use vector_db.Prelude.{
  ◌+◌, ◌≡◌, refl, Option, none, some, List, [], ◌∷◌, arith, if◌then◌else◌, length, All,
}
use vector_db.Hash.{Key}
use vector_db.HashTable.{HNode, Chain, find_in, unlink}

module _ {κ} {V : Type κ} where
  abbrev pub top : List V → Option V
  top [] = none
  top (v ∷ vs) = some v

  abbrev pub pop : List V → List V
  pop [] = []
  pop (v ∷ vs) = vs

module _ {ℓ κ} {K : Type ℓ} {V : Type κ} ⦃key : Key K⦄ where
  -- The values of a key, the newest first.
  abbrev pub matching : K → Chain K V → List V
  matching k [] = []
  matching k (n ∷ c) = if key.beq n.key k then n.value ∷ matching k c else matching k c

  pub find_in-top : (c : Chain K V) (k : K) → find_in c k ≡ top (matching k c)
  unfolding find_in
  find_in-top [] k = refl
  find_in-top (n ∷ c) k = ground (arith, find_in-top c k)

  pub matching-unlink :
      (c : Chain K V) (k j : K)
      → matching j (unlink c k) ≡ (if key.beq k j then pop (matching j c) else matching j c)
  unfolding unlink
  matching-unlink [] k j = ground arith
  matching-unlink (n ∷ c) k j =
      ground
        (arith, matching-unlink c k j, key.beq_iff n.key k, key.beq_iff n.key j, key.beq_iff k j)

  pub length-unlink :
      (c : Chain K V) (k : K) (v : V) → find_in c k ≡ some v → length (unlink c k) + 1 ≡ length c
  unfolding find_in unlink
  length-unlink [] k v h = cc
  length-unlink (n ∷ c) k v h = ground (arith, length-unlink c k v)

  pub All-unlink {μ} :
      (P : HNode K V → Type μ) (c : Chain K V) (k : K) → All P c → All P (unlink c k)
  unfolding unlink
  All-unlink P [] k a = tt
  All-unlink P (n ∷ c) k a = ground (arith, All-unlink P c k a.1)

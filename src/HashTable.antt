-- ===== src/HashTable.antt =====
-- src/dsa/hashtable.hpp, `HNode` and `HTable`: chained buckets, the newest node first. Each bucket's
-- mutex is taken by one call at a time and no call takes it twice, so it leaves no trace for one
-- thread. `size_` counts nodes in memory and cannot reach `2 ^ 64`.
pub mod Chain
pub mod Valid
pub mod Remove
use Prim.Native.Nat.{bit_and}
use vector_db.Prelude.{
  ℕ, zero, suc, ◌+◌, ◌-◌, ◌*◌, max, Bool, true, false, ◌&&◌, not, Option, none, some, List, [], ◌∷◌,
  ltb, leb, ◌==◌, if◌then◌else◌, drop, get_or, set, replicate,
}
use vector_db.Prelude.Outcome.{Outcome, ret, fault, assertion, ◌>>=◌}
use vector_db.Hash.{Key}

pub record HNode {ℓ κ} (K : Type ℓ) (V : Type κ) : Type (ℓ ⊔ κ) where
  pub key : K
  pub value : V
  pub hcode : ℕ

-- A bucket: the nodes from its `unique_ptr` along `next_`.
abbrev pub Chain {ℓ κ} : Type ℓ → Type κ → Type (ℓ ⊔ κ)
Chain K V = List (HNode K V)

pub record HTable {ℓ κ} (K : Type ℓ) (V : Type κ) : Type (ℓ ⊔ κ) where
  pub buckets : List (Chain K V)
  pub mask : ℕ
  pub size : ℕ

abbrev pub k_min_cap : ℕ
k_min_cap = 4

-- `std::bit_ceil` and `std::has_single_bit` of the C++ library.
unfoldable pub bit_ceil_from : ℕ → ℕ → ℕ → ℕ
bit_ceil_from zero p n = p
bit_ceil_from (suc fuel) p n = elim (leb n p) [ true ↦ p | false ↦ bit_ceil_from fuel (2 * p) n ]

unfoldable pub bit_ceil : ℕ → ℕ
unfolding bit_ceil_from
bit_ceil n = bit_ceil_from n 1 n

unfoldable pub has_single_bit : ℕ → Bool
has_single_bit n = not (n == 0) && bit_and n (n - 1) == 0

module _ {ℓ κ} {K : Type ℓ} {V : Type κ} where
  -- The table of a default-constructed `HTable`.
  abbrev pub empty_table : HTable K V
  empty_table = record { buckets = []; mask = 0; size = 0 }

  -- Called on a table with no buckets, so `resize` makes every bucket null.
  unfoldable pub initialize : ℕ → Outcome (HTable K V)
  unfolding has_single_bit
  initialize capacity =
      if has_single_bit capacity
      then ret (
          let cap = max capacity k_min_cap in
          record { buckets = replicate cap []; mask = cap - 1; size = 0 })
      else fault assertion

  -- The constructor `HTable(initial_size)`.
  unfoldable pub new_table : ℕ → Outcome (HTable K V)
  unfolding initialize bit_ceil
  new_table initial_size =
      if ltb 0 initial_size then initialize (bit_ceil initial_size) else ret empty_table

  abbrev pub no_buckets : HTable K V → Bool
  no_buckets t = elim t.buckets [ [] ↦ true | _ ∷ _ ↦ false ]

  abbrev pub capacity : HTable K V → ℕ
  capacity t = t.mask + 1

  abbrev pub empty : HTable K V → Bool
  empty t = t.size == 0

  unfoldable pub clear : HTable K V → HTable K V
  clear t = empty_table

  -- What a defaulted move leaves behind: the vectors are empty, and the numbers stay.
  abbrev pub moved_from : HTable K V → HTable K V
  moved_from t = record t { buckets = [] }

  -- The loop `while (pos < buckets_.size() && !buckets_[pos])`, with the buckets from `pos` on: the
  -- position of the first one that is not null, its first node and the rest of its chain.
  unfoldable pub first_node : List (Chain K V) → ℕ → ℕ × Option (HNode K V × Chain K V)
  first_node [] pos = (pos, none)
  first_node ((n ∷ c) ∷ bs) pos = (pos, some (n, c))
  first_node ([] ∷ bs) pos = first_node bs (pos + 1)

module _ {ℓ κ} {K : Type ℓ} {V : Type κ} ⦃key : Key K⦄ where
  -- `hash & mask_`
  abbrev pub position : HTable K V → K → ℕ
  position t k = bit_and (key.hash k) t.mask

  abbrev pub bucket : HTable K V → K → Chain K V
  bucket t k = get_or t.buckets (position t k) []

  unfoldable pub link : HTable K V → K → V → HTable K V
  link t k v =
      let node : HNode K V = record { key = k; value = v; hcode = key.hash k } in
      record t { buckets = set t.buckets (position t k) (node ∷ bucket t k); size = t.size + 1 }

  unfoldable pub insert : HTable K V → K → V → Outcome (HTable K V)
  unfolding initialize link
  insert t k v = do t' ← if no_buckets t then initialize k_min_cap else ret t; ret (link t' k v)

  unfoldable pub find_in : Chain K V → K → Option V
  find_in [] k = none
  find_in (n ∷ c) k = if key.beq n.key k then some n.value else find_in c k

  -- The value of the node that `lookup` returns.
  unfoldable pub lookup : HTable K V → K → Option V
  unfolding find_in
  lookup t k = if no_buckets t then none else find_in (bucket t k) k

  -- The chain without its first node of the key.
  unfoldable pub unlink : Chain K V → K → Chain K V
  unlink [] k = []
  unlink (n ∷ c) k = if key.beq n.key k then c else n ∷ unlink c k

  unfoldable pub remove : HTable K V → K → Option V × HTable K V
  unfolding find_in unlink
  remove t k = if no_buckets t then (none, t) else elim (find_in (bucket t k) k) [
    | none ↦ (none, t)
    | some v ↦ (
      some v,
      record t {
        buckets = set t.buckets (position t k) (unlink (bucket t k) k);
        size = t.size - 1;
      },
    )
  ]

module _ {ℓ κ} {K : Type ℓ} {V : Type κ} where
  -- The node that is taken out, the position that is written back, and the table.
  unfoldable pub steal_first_node : HTable K V → ℕ → Option (HNode K V) × ℕ × HTable K V
  unfolding first_node
  steal_first_node t pos =
      let (at, found) = first_node (drop pos t.buckets) pos in
      elim found [
        | none ↦ (none, at, t)
        | some (n, c) ↦ (some n, at, record t { buckets = set t.buckets at c; size = t.size - 1 })
      ]

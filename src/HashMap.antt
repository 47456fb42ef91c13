-- ===== src/HashMap.antt =====
-- src/dsa/hashtable.hpp, `HMap`: a table, and beside it the old table while its nodes move over.
-- `map_mutex_` is a `std::shared_mutex`; where a call takes it, the model says whether the calling
-- thread holds it already. The load factor is a quotient of doubles; the capacity is a power of two,
-- so `size / capacity >= 8` is `8 * capacity <= size` as long as the size is below `2 ^ 53`.
pub mod Valid
pub mod Calls
mod Tests
use vector_db.Prelude.{
  ℕ, zero, suc, ◌+◌, ◌-◌, ◌*◌, Bool, true, false, ◌&&◌, not, Option, none, some, ltb, leb, ◌==◌,
  if◌then◌else◌,
}
use vector_db.Prelude.Outcome.{Outcome, ret, fault, assertion, out_of_fuel, acquire, ◌>>=◌}
use vector_db.Hash.{Key}
use vector_db.HashTable
use vector_db.HashTable.{HNode, HTable, empty_table, new_table, capacity, steal_first_node}

pub record HMap {ℓ κ} (K : Type ℓ) (V : Type κ) : Type (ℓ ⊔ κ) where
  pub primary_table : HTable K V
  pub temporary_table : Option (HTable K V)
  pub resizing_pos : ℕ

abbrev pub k_max_load_factor : ℕ
k_max_load_factor = 8

abbrev pub k_min_cap : ℕ
k_min_cap = 4

abbrev pub max_work : ℕ
max_work = 15

-- Two rounds for each node, and two more.
abbrev pub resize_fuel : ℕ
resize_fuel = 2 * max_work + 2

abbrev pub or_else {κ} : {V : Type κ} → Option V → Option V → Option V
or_else none b = b
or_else (some a) b = some a

module _ {ℓ κ} {K : Type ℓ} {V : Type κ} where
  abbrev pub new : HMap K V
  new = record { primary_table = empty_table; temporary_table = none; resizing_pos = 0 }

  abbrev pub is_some : Option (HTable K V) → Bool
  is_some none = false
  is_some (some _) = true

  unfoldable pub start_resize : Bool → HMap K V → Outcome (HMap K V)
  unfolding new_table
  start_resize held m = acquire held (
      if is_some m.temporary_table then fault assertion else (do
        primary ← new_table (capacity m.primary_table * 2)
        ret (record {
          primary_table = primary;
          temporary_table = some m.primary_table;
          resizing_pos = 0;
        })))

  -- `if (temporary_table_->empty())` at the end of `help_resize`.
  abbrev pub finish : HTable K V → HTable K V → ℕ → HMap K V
  finish primary temporary pos =
      if HashTable.empty temporary
      then record { primary_table = primary; temporary_table = none; resizing_pos = 0 }
      else record { primary_table = primary; temporary_table = some temporary; resizing_pos = pos }

  unfoldable pub size : HMap K V → ℕ
  size m = m.primary_table.size + elim m.temporary_table [ none ↦ 0 | some t ↦ t.size ]

  unfoldable pub clear : HMap K V → HMap K V
  unfolding HashTable.clear
  clear m = record {
    primary_table = HashTable.clear m.primary_table;
    temporary_table = none;
    resizing_pos = 0;
  }

  abbrev pub empty : HMap K V → Bool
  empty m = size m == 0

  -- A public member, which nothing calls: `help_resize` steals from the table itself.
  abbrev pub steal_node : Bool → HMap K V → ℕ → Outcome (Option (HNode K V) × ℕ × HMap K V)
  steal_node held m pos = acquire held (elim m.temporary_table [
    | none ↦ ret (none, pos, m)
    | some t ↦
        let (stolen, at, t') = steal_first_node t pos in
        ret (stolen, at, record m { temporary_table = some t' })
  ])

  -- `HMap(HMap&& other)`: the new map, and what `other` is left with.
  abbrev pub move_new : HMap K V → HMap K V × HMap K V
  move_new other = (
    other,
    record other {
      primary_table = HashTable.moved_from other.primary_table;
      temporary_table = elim other.temporary_table [
        | none ↦ none
        | some t ↦ some (HashTable.moved_from t)
      ];
    },
  )

  -- The assignment, and whether `other` is the map itself.
  abbrev pub move_assign : Bool → HMap K V → HMap K V → HMap K V × HMap K V
  move_assign true m other = (m, m)
  move_assign false m other = move_new other

module _ {ℓ κ} {K : Type ℓ} {V : Type κ} ⦃key : Key K⦄ where
  -- The loop of `help_resize`, with the work that is left before `max_work`.
  unfoldable pub move_nodes : ℕ → ℕ → HTable K V → HTable K V → ℕ → Outcome (HMap K V)
  unfolding steal_first_node HashTable.insert
  move_nodes zero work primary temporary pos = fault out_of_fuel
  move_nodes (suc fuel) work primary temporary pos =
      let wrap = λ (t : HTable K V) (p : ℕ). if leb (capacity t) p then 0 else p in
      elim (ltb 0 work && not (HashTable.empty temporary)) [
        | false ↦ ret (finish primary temporary pos)
        | true ↦
            let (stolen, at, temporary') = steal_first_node temporary pos in
            elim stolen [
              | some n ↦ HashTable.insert primary n.key n.value >>= λ primary'.
                  move_nodes fuel (work - 1) primary' temporary' (wrap temporary' at)
              | none ↦ move_nodes fuel work primary temporary' (wrap temporary' (at + 1))
            ]
      ]

  unfoldable pub help_resize : Bool → HMap K V → Outcome (HMap K V)
  unfolding move_nodes
  help_resize held m = elim m.temporary_table [
    | none ↦ ret m
    | some temporary ↦
        acquire held (move_nodes resize_fuel max_work m.primary_table temporary m.resizing_pos)
  ]

  -- `primary_table_ = HTable(k_min_cap)` if it is empty.
  unfoldable pub ready_primary : HMap K V → Outcome (HMap K V)
  unfolding new_table
  ready_primary m =
      if HashTable.empty m.primary_table
      then (do primary ← new_table k_min_cap; ret (record m { primary_table = primary }))
      else ret m

  -- `load_factor >= k_max_load_factor`
  abbrev pub overloaded : HMap K V → Bool
  overloaded m = leb (k_max_load_factor * capacity m.primary_table) m.primary_table.size

  -- The mutex is taken at the start and released before `help_resize`.
  unfoldable pub insert : HMap K V → K → V → Outcome (HMap K V)
  insert m k v = do
    m₁ ← acquire false (ready_primary m)
    m₂ ← if overloaded m₁ then start_resize true m₁ else ret m₁
    primary ← HashTable.insert m₂.primary_table k v
    help_resize false (record m₂ { primary_table = primary })

  -- The value that the returned pointer points to; `help_resize` may have moved nodes.
  unfoldable pub find : HMap K V → K → Outcome (Option V × HMap K V)
  find m k = do
    m' ← help_resize false m
    let below : Option V = elim m'.temporary_table [ none ↦ none | some t ↦ HashTable.lookup t k ]
    ret (or_else (HashTable.lookup m'.primary_table k) below, m')

  unfoldable pub remove_temporary : HMap K V → K → Option V × HMap K V
  unfolding HashTable.remove
  remove_temporary m k = elim m.temporary_table [
    | none ↦ (none, m)
    | some t ↦ let (v, t') = HashTable.remove t k in (v, record m { temporary_table = some t' })
  ]

  unfoldable pub remove : HMap K V → K → Outcome (Option V × HMap K V)
  remove m k = do
    m' ← help_resize false m
    let (v, primary) = HashTable.remove m'.primary_table k
    elim v [
      | some a ↦ ret (some a, record m' { primary_table = primary })
      | none ↦ ret (remove_temporary (record m' { primary_table = primary }) k)
    ]

-- ===== src/HashMap/Valid.antt =====
-- The invariant of src/dsa/hashtable.hpp's `HMap`, and what `insert`, `find`, `remove` and `clear` do to
-- the stacks of values that it holds.

use vector_db.Prelude.{
  ℕ, ◌+◌, ◌<◌, ◌≤◌, ◌≡◌, refl, sym, ap, ◌∙◌, ◌≢◌, Bool, true, false, Option, none, some, List, [],
  ◌∷◌, arith, ◌==◌, ==_iff, if◌then◌else◌, length, inl, inr, Bool-cases,
}
use vector_db.Prelude.Outcome.{ret, fault, relock, ◌>>=◌}
use vector_db.Hash.{Key}
use vector_db.HashTable
use vector_db.HashTable.{HTable, no_buckets, empty_table, capacity, position, bucket}
use vector_db.HashTable.Chain.{matching, top, pop}
use vector_db.HashTable.Valid.{
  stack, fresh, new_table-fresh, ready, Inserted, fresh-IsValid, link-Inserted, insert-ret,
  length-le-total, empty_table-IsValid,
}
use vector_db.HashTable.Remove.{lookup-top, remove-Removed, without}
use vector_db.HashMap.{
  HMap, new, start_resize, help_resize, ready_primary, overloaded, insert, find, remove,
  remove_temporary, clear, or_else,
}

length-nil {ℓ} : {A : Type ℓ} (xs : List A) → length xs ≡ 0 → xs ≡ []
length-nil [] h = refl
length-nil (x ∷ xs) h = absurd (omega arith)

or_else-none {κ} : {V : Type κ} (a : Option V) → or_else a none ≡ a
or_else-none none = refl
or_else-none (some a) = refl

module _ {ℓ κ} {K : Type ℓ} {V : Type κ} ⦃key : Key K⦄ where
  -- No resize is under way; a table in use has 4 buckets, and there are 32 nodes at most.
  pub record IsValid (m : HMap K V) : Type (ℓ ⊔ κ) where
    pub table : HashTable.Valid.IsValid m.primary_table
    pub still : m.temporary_table ≡ none
    pub four : no_buckets m.primary_table ≡ false → m.primary_table.mask ≡ 3
    pub room : m.primary_table.size ≤ 32

  -- The values of a key, the newest first.
  abbrev pub values : HMap K V → K → List V
  values m k = stack m.primary_table k

  pub new-IsValid : IsValid new
  new-IsValid = record {
    table = empty_table-IsValid;
    still = refl;
    four = λ e. cc;
    room = omega arith;
  }

  help_resize-still :
      (held : Bool) (m : HMap K V) → m.temporary_table ≡ none → help_resize held m ≡ ret m
  unfolding help_resize
  help_resize-still held m e = ground arith

  -- The primary table after `if (primary_table_.empty())`.
  abbrev readied : HMap K V → HMap K V
  readied m = if HashTable.empty m.primary_table then record m { primary_table = fresh } else m

  ready_primary-readied : (m : HMap K V) → ready_primary m ≡ ret (readied m)
  unfolding ready_primary
  ready_primary-readied m = elim (Bool-cases (HashTable.empty m.primary_table)) [
    | inl e ↦ rw e
    | inr e ↦ rw e
  ]

  stack_nil : (t : HTable K V) (k : K) → HashTable.Valid.IsValid t → t.size ≡ 0 → stack t k ≡ []
  stack_nil t k valid h =
      let none_there : length (bucket t k) ≡ 0 =
        omega (arith, length-le-total t.buckets (position t k), valid.counted) in
      ap (matching k) (length-nil (bucket t k) none_there)

  in_use : (t : HTable K V) → HashTable.Valid.IsValid t → t.size ≢ 0 → no_buckets t ≡ false
  in_use t valid h = ground (arith, valid.counted)

  -- Replacing an empty table by a new one keeps the map.
  record Readied (m : HMap K V) (m' : HMap K V) : Type (ℓ ⊔ κ) where
    valid : IsValid m'
    same : (k : K) → values m' k ≡ values m k
    sized : m'.primary_table.size ≡ m.primary_table.size
    calm : overloaded m' ≡ (m.primary_table.size == 32)

  readied-Readied : (m : HMap K V) → IsValid m → Readied m (readied m)
  readied-Readied m v = elim (Bool-cases (HashTable.empty m.primary_table)) [
    | inl e ↦ rw e (record {
      valid = record {
        table = fresh-IsValid;
        still = v.still;
        four = λ _. refl;
        room = omega arith;
      };
      same = λ k.
          stack_nil fresh k fresh-IsValid refl
          ∙ sym (stack_nil m.primary_table k v.table ((==_iff _ _).0 e));
      sized = sym ((==_iff _ _).0 e);
      calm = ground arith;
    })
    | inr e ↦ rw e (record {
      valid = v;
      same = λ k. refl;
      sized = refl;
      calm = ground (arith, v.four (in_use m.primary_table v.table (λ z. ground arith)), v.room);
    })
  ]

  -- What `insert` promises of its result.
  pub record Pushed (m : HMap K V) (k : K) (v : V) (m' : HMap K V) : Type (ℓ ⊔ κ) where
    pub valid : IsValid m'
    pub pushed : (j : K) → values m' j ≡ (if key.beq k j then v ∷ values m j else values m j)
    pub sized : m'.primary_table.size ≡ m.primary_table.size + 1

  insert-readied :
      (m : HMap K V) (k : K) (v : V)
      → insert m k v ≡ (
          (if overloaded (readied m) then start_resize true (readied m) else ret (readied m))
          >>= λ m₂. HashTable.insert m₂.primary_table k v >>= λ primary.
              help_resize false (record m₂ { primary_table = primary }))
  unfolding insert
  insert-readied m k v = rw (ready_primary-readied m)

  -- With 32 nodes in the table, `insert` calls `start_resize` while it holds the mutex that
  -- `start_resize` locks.
  pub insert-relock :
      (m : HMap K V) (k : K) (v : V)
      → IsValid m
      → m.primary_table.size ≡ 32
      → insert m k v ≡ fault relock
  unfolding start_resize
  insert-relock m k v valid full =
      let r = readied-Readied m valid in
      let heavy : overloaded (readied m) ≡ true = r.calm ∙ (==_iff _ _).1 full in
      rw (insert-readied m k v, heavy)

  pub insert-Pushed :
      (m : HMap K V) (k : K) (v : V)
      → IsValid m
      → m.primary_table.size < 32
      → (m' : HMap K V) × (insert m k v ≡ ret m') × Pushed m k v m'
  insert-Pushed m k v valid room =
      let r = readied-Readied m valid in
      let apart : (m.primary_table.size == 32) ≡ false = ground arith in
      let light : overloaded (readied m) ≡ false = r.calm ∙ apart in
      let u = HashTable.link (ready (readied m).primary_table) k v in
      let i = link-Inserted (readied m).primary_table k v r.valid.table in
      (
        record (readied m) { primary_table = u },
        rw (insert-readied m k v, light, insert-ret (readied m).primary_table k v)
            (help_resize-still false _ r.valid.still),
        record {
          valid = record {
            table = i.valid;
            still = r.valid.still;
            four = λ _. elim (Bool-cases (no_buckets (readied m).primary_table)) [
              | inl e ↦ i.made e
              | inr e ↦ i.kept e ∙ r.valid.four e
            ];
            room = omega (arith, i.sized, r.sized);
          };
          pushed = λ j. rw (i.stacks j, r.same j);
          sized = i.sized ∙ ap (λ (n : ℕ). n + 1) r.sized;
        },
      )

  pub find-top : (m : HMap K V) (k : K) → IsValid m → find m k ≡ ret (top (values m k), m)
  unfolding find
  find-top m k v =
      rw (help_resize-still false m v.still, lookup-top m.primary_table k)
        (simp (v.still, or_else-none))

  -- What `remove` promises of its result.
  pub record Popped (m : HMap K V) (k : K) (m' : HMap K V) : Type (ℓ ⊔ κ) where
    pub valid : IsValid m'
    pub popped : (j : K) → values m' j ≡ (if key.beq k j then pop (values m j) else values m j)
    pub sized : m'.primary_table.size ≡ without (top (values m k)) m.primary_table.size

  -- The map after `remove`.
  abbrev pub removed : HMap K V → K → HMap K V
  removed m k = record m { primary_table = (HashTable.remove m.primary_table k).1 }

  remove-ret :
      (m : HMap K V) (k : K)
      → IsValid m
      → remove m k ≡ ret ((HashTable.remove m.primary_table k).0, removed m k)
  unfolding remove remove_temporary
  remove-ret m k v = rw (help_resize-still false m v.still) (ground (arith, v.still))

  removed-Popped : (m : HMap K V) (k : K) → IsValid m → Popped m k (removed m k)
  removed-Popped m k v =
      let r = remove-Removed m.primary_table k v.table in
      record {
        valid = record {
          table = r.valid;
          still = v.still;
          four = λ e. r.kept.0 ∙ v.four (sym r.kept.1 ∙ e);
          room = omega (arith, r.smaller, v.room);
        };
        popped = r.stacks;
        sized = rw (← r.value) r.counted;
      }

  pub remove-Popped :
      (m : HMap K V) (k : K)
      → IsValid m
      → (remove m k ≡ ret (top (values m k), removed m k)) × Popped m k (removed m k)
  remove-Popped m k v =
      let r = remove-Removed m.primary_table k v.table in
      (rw (remove-ret m k v, r.value), removed-Popped m k v)

  pub clear-new : (m : HMap K V) → clear m ≡ new
  unfolding clear
  clear-new m = refl

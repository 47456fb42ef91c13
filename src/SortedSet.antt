-- ===== src/SortedSet.antt =====
-- src/dsa/zset.hpp: `ZSet`, with the scores of a type that stands for `double`. A node is its number in
-- the list of all nodes that were created; `nodes` are the numbers that `nodes_` keeps alive. A call says
-- whether the calling thread holds `zset_mutex_` already. The output to `std::cerr` is left out. There is no
-- `avl.hpp`, the header that it includes: the tree is that of avl_locking.hpp, whose nodes have a key and a
-- value as fields, while zset.hpp calls `get_key`, `get_value` and `set_value`, which are read as those.
pub mod Calls
mod Tests
use vector_db.Prelude.{
  ℕ, zero, suc, Bool, true, false, Option, none, some, List, [], ◌∷◌, ◌++◌, ◌==◌, if◌then◌else◌,
  length,
}
use vector_db.Prelude.Order.{bytes_ord}
use vector_db.Prelude.Outcome.{Outcome, ret, acquire, ◌>>=◌}
use vector_db.Bytes.{Bytes}
use vector_db.Hash.{string_key}
use vector_db.HashMap
use vector_db.HashMap.{HMap, new}
use vector_db.Avl
use vector_db.Avl.{Tree, leaf}

pub record ZNode {κ} (D : Type κ) : Type κ where
  pub key : Bytes
  pub value : D

pub record ZSet {κ} (D : Type κ) : Type κ where
  pub tree : Tree Bytes D
  pub hash : HMap Bytes ℕ
  pub created : List (ZNode D)
  pub nodes : List ℕ

-- `std::remove_if` and `erase`
abbrev pub erase : List ℕ → ℕ → List ℕ
erase [] node = []
erase (n ∷ ns) node = let rest = erase ns node in if n == node then rest else n ∷ rest

abbrev pub is_empty : Bytes → Bool
is_empty [] = true
is_empty (_ ∷ _) = false

module _ {κ} {D : Type κ} where
  abbrev pub new_zset : ZSet D
  new_zset = record { tree = leaf; hash = new; created = []; nodes = [] }

  abbrev pub key_of : List (ZNode D) → ℕ → Bytes
  key_of [] node = []
  key_of (n ∷ ns) zero = n.key
  key_of (n ∷ ns) (suc node) = key_of ns node

  -- `node->set_value(score)`
  abbrev pub set_value : List (ZNode D) → ℕ → D → List (ZNode D)
  set_value [] node score = []
  set_value (n ∷ ns) zero score = record n { value = score } ∷ ns
  set_value (n ∷ ns) (suc node) score = n ∷ set_value ns node score

  unfoldable pub lookup : Bool → ZSet D → Bytes → Outcome (Option ℕ × ZSet D)
  lookup held z name =
      acquire held (HashMap.find z.hash name >>= λ r. ret (r.0, record z { hash = r.1 }))

  unfoldable pub update_score : Bool → ZSet D → ℕ → D → Outcome (Bool × ZSet D)
  update_score held z node score =
      let key = key_of z.created node in
      acquire held (
        if is_empty key
        then ret (false, z)
        else HashMap.find z.hash key >>= λ r. elim r.0 [
          | none ↦ ret (false, record z { hash = r.1 })
          | some _ ↦ ret (
            true,
            record z {
              tree = Avl.set (Avl.del z.tree key) key score;
              hash = r.1;
              created = set_value z.created node score;
            },
          )
        ])

  -- The part of `add_internal` after its `lookup` has found nothing.
  unfoldable pub add_node : ZSet D → Bytes → D → Outcome (Bool × ZSet D)
  add_node z name score =
      let node = length z.created in
      if is_empty name
      then ret (false, z)
      else HashMap.insert z.hash name node >>= λ hash. ret (
        true,
        record {
          tree = Avl.set z.tree name score;
          hash = hash;
          created = z.created ++ record { key = name; value = score } ∷ [];
          nodes = z.nodes ++ node ∷ [];
        },
      )

  unfoldable pub add_internal : Bool → ZSet D → Bytes → D → Outcome (Bool × ZSet D)
  unfolding lookup update_score add_node
  add_internal held z name score = acquire held (
      lookup true z name >>= λ r. elim r.0 [
        | some node ↦ update_score true r.1 node score >>= λ s. ret (false, s.1)
        | none ↦ add_node r.1 name score
      ])

  -- The node that is taken out, as `pop_internal` returns it.
  unfoldable pub pop_internal : Bool → ZSet D → Bytes → Outcome (Option ℕ × ZSet D)
  pop_internal held z name = acquire held (
      HashMap.find z.hash name >>= λ r. elim r.0 [
        | none ↦ ret (none, record z { hash = r.1 })
        | some node ↦ HashMap.remove r.1 name >>= λ s. ret (
          some node,
          record z {
            tree = Avl.del z.tree (key_of z.created node);
            hash = s.1;
            nodes = erase z.nodes node;
          },
        )
      ])

  unfoldable pub remove_internal : Bool → ZSet D → Bytes → Outcome (Bool × ZSet D)
  remove_internal held z name = acquire held (
      HashMap.find z.hash name >>= λ r. elim r.0 [
        | none ↦ ret (false, record z { hash = r.1 })
        | some node ↦ HashMap.remove r.1 name >>= λ s. ret (
          true,
          record z {
            tree = Avl.del z.tree (key_of z.created node);
            hash = s.1;
            nodes = erase z.nodes node;
          },
        )
      ])

  unfoldable pub query : Bool → ZSet D → Bytes → Outcome (Option ℕ × ZSet D)
  unfolding lookup
  query held z name =
      acquire held (if Avl.exists z.tree name then lookup true z name else ret (none, z))

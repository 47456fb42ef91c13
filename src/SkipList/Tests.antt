-- ===== src/SkipList/Tests.antt =====
-- Runs of src/dsa/skiplist.hpp, on a key type of three values.
use Prim.Native.Nat.{compare, Ordering}
use vector_db.Prelude.{
  ℕ, ◌≡◌, refl, Bool, true, false, Option, none, some, map, List, [], ◌∷◌, arith, ltb,
}
use vector_db.Prelude.Order.{Ord, IsTotal}
use vector_db.Prelude.Outcome.{ret, fault, dangling, ◌>>=◌}
use vector_db.SkipList.{
  Node, SkipList, new, key_lt, key_eq, random_level, random_levels, search_level, find_levels, find,
  walk, walk_levels, contains, link_new, add_loop, add, unlink_victim, remove_loop, remove,
  delete_from, destroy,
}
use vector_db.SkipList.Specification.{Call, add_key, remove_key, contains_key, call, run, set_run}
use vector_db.SkipList.Calls.{run-set_run}

data Grade : Type 0 where
  low middle high : Grade

abbrev rank : Grade → ℕ
rank low = 0
rank middle = 1
rank high = 2

abbrev compare_grades : Grade → Grade → Ordering
compare_grades x y = compare (rank x) (rank y)

compare_grades-IsTotal : IsTotal compare_grades
compare_grades-IsTotal = ground arith

instance abbrev grade_ord : Ord Grade
grade_ord = record { three_way = compare_grades; is_total = compare_grades-IsTotal }

high-greatest : (g : Grade) → key_lt high g ≡ false
unfolding key_lt
high-greatest low = refl
high-greatest middle = refl
high-greatest high = refl

-- The lowest level.
abbrev flat : ℕ → Bool
flat n = false

-- Three levels.
abbrev three_levels : ℕ → Bool
three_levels n = ltb n 3

abbrev empty : SkipList Grade ℕ
empty = new low high 0

abbrev calls : List (Call Grade ℕ)
calls =
    add_key flat middle 7
    ∷ add_key flat low 8
    ∷ add_key flat middle 9
    ∷ contains_key low
    ∷ remove_key middle
    ∷ contains_key middle
    ∷ contains_key high
    ∷ []

run_flat : run 1 calls empty ≡ ret (true ∷ true ∷ false ∷ true ∷ true ∷ false ∷ true ∷ [])
unfolding run call add add_loop remove remove_loop contains walk_levels walk find find_levels
    search_level link_new unlink_victim key_eq key_lt random_level random_levels
run_flat = refl

add_tall : add 1 three_levels middle 7 empty ≡ fault dangling
unfolding add add_loop find find_levels search_level link_new key_eq key_lt random_level
    random_levels
add_tall = refl

abbrev is_some : Option (Node Grade ℕ) → Bool
is_some none = false
is_some (some n) = true

-- The destructor deletes the node, and leaves the sentinels.
destroyed :
    (add 1 flat middle 7 empty >>= λ r. destroy r.1 >>= λ l. ret (map is_some l.nodes))
    ≡ ret (true ∷ true ∷ false ∷ [])
unfolding add add_loop find find_levels search_level link_new destroy delete_from key_eq key_lt
    random_level random_levels
destroyed = refl

run-set_run_example : run 1 calls empty ≡ set_run high calls (λ k. key_eq high k)
run-set_run_example = run-set_run low high 0 high-greatest 0 calls

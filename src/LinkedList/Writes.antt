-- ===== src/LinkedList/Writes.antt =====
-- src/dsa/list.hpp: the pointers after each operation.
use vector_db.Prelude.{ℕ, ◌≡◌, ◌≢◌, arith, ◌==◌, if◌then◌else◌}
use vector_db.LinkedList.{ListNode, unlink, insert_before, insert_after}

module _ {ℓ} {T : Type ℓ} (nodes : ℕ → ListNode T) (p n q : ℕ) where
  pub next-insert_after :
      p ≢ n
      → (nodes p).next ≢ n
      → (insert_after nodes p n q).next
        ≡ (if q == p then n else if q == n then (nodes p).next else (nodes q).next)
  unfolding insert_after
  next-insert_after pn fresh = ground arith

  pub prev-insert_after :
      p ≢ n
      → (nodes p).next ≢ n
      → (insert_after nodes p n q).prev
        ≡ (if q == (nodes p).next then n else if q == n then p else (nodes q).prev)
  unfolding insert_after
  prev-insert_after pn fresh = ground arith

  pub next-insert_before :
      p ≢ n
      → (nodes p).prev ≢ n
      → (insert_before nodes p n q).next
        ≡ (if q == (nodes p).prev then n else if q == n then p else (nodes q).next)
  unfolding insert_before
  next-insert_before pn fresh = ground arith

  pub prev-insert_before :
      p ≢ n
      → (nodes p).prev ≢ n
      → (insert_before nodes p n q).prev
        ≡ (if q == p then n else if q == n then (nodes p).prev else (nodes q).prev)
  unfolding insert_before
  prev-insert_before pn fresh = ground arith

module _ {ℓ} {T : Type ℓ} (nodes : ℕ → ListNode T) (p q : ℕ) where
  pub next-unlink :
      (nodes p).prev ≢ p
      → (unlink nodes p q).next
        ≡ (if q == p then p else if q == (nodes p).prev then (nodes p).next else (nodes q).next)
  unfolding unlink
  next-unlink fresh = ground arith

  pub prev-unlink :
      (nodes p).prev ≢ p
      → (unlink nodes p q).prev
        ≡ (if q == p then p else if q == (nodes p).next then (nodes p).prev else (nodes q).prev)
  unfolding unlink
  prev-unlink fresh = ground arith

-- ===== src/Avl/Balance/Rotations.antt =====
-- `fixLeft` and `fixRight` of src/dsa/avl_locking.hpp: a single or a double rotation restores the
-- balance of a node whose children differ by two.
use vector_db.Prelude.{ℕ, ◌+◌, ◌^◌, ◌≤◌, ◌<◌, ◌≡◌, arith, ltb, Bool-cases, inl, inr}
use vector_db.Avl.{
  Tree, leaf, node, get_depth, get_weight, rotate_left, rotate_right, fix_left, fix_right,
}
use vector_db.Avl.Balance.Depths.{IsBalanced, depth-le-weight, Repaired}

module _ {ℓ κ} {K : Type ℓ} {V : Type κ} where
  -- A single rotation.
  rotate_right-Repaired :
      (d w ld lw : ℕ) (ll : Tree K V) (lk : K) (lv : V) (lr : Tree K V) (k : K) (v : V)
      (r : Tree K V)
      → IsBalanced (node ld lw ll lk lv lr)
      → IsBalanced r
      → 1 + lw + get_weight r < 2 ^ 32
      → ld ≡ get_depth r + 2
      → get_depth lr ≤ get_depth ll
      → Repaired ld
          (get_depth r)
          lw
          (get_weight r)
          (rotate_right (node d w (node ld lw ll lk lv lr) k v r))
  unfolding rotate_right
  rotate_right-Repaired d w ld lw ll lk lv lr k v r bl br fits tall low =
      ground (arith, depth-le-weight ll bl.4, depth-le-weight lr bl.5, depth-le-weight r br)

  -- A double rotation.
  rotate_right-rotate_left-Repaired :
      (d w ld lw md mw : ℕ) (ll : Tree K V) (lk : K) (lv : V) (ml : Tree K V) (mk : K) (mv : V)
      (mr : Tree K V) (k : K) (v : V) (r : Tree K V)
      → IsBalanced (node ld lw ll lk lv (node md mw ml mk mv mr))
      → IsBalanced r
      → 1 + lw + get_weight r < 2 ^ 32
      → ld ≡ get_depth r + 2
      → get_depth ll < md
      → Repaired ld (get_depth r) lw (get_weight r) (
          rotate_right
            (node d w (rotate_left (node ld lw ll lk lv (node md mw ml mk mv mr))) k v r))
  unfolding rotate_right rotate_left
  rotate_right-rotate_left-Repaired d w ld lw md mw ll lk lv ml mk mv mr k v r bl br fits tall low =
      ground (
        arith,
        depth-le-weight ll bl.4,
        depth-le-weight ml bl.5.4,
        depth-le-weight mr bl.5.5,
        depth-le-weight r br,
      )

  pub fix_left-Repaired :
      (d w : ℕ) (l : Tree K V) (k : K) (v : V) (r : Tree K V)
      → IsBalanced l
      → IsBalanced r
      → 1 + get_weight l + get_weight r < 2 ^ 32
      → get_depth l ≡ get_depth r + 2
      → Repaired
          (get_depth l)
          (get_depth r)
          (get_weight l)
          (get_weight r)
          (fix_left (node d w l k v r))
  unfolding fix_left
  fix_left-Repaired d w leaf k v r bl br fits tall = absurd (omega arith)
  fix_left-Repaired d w (node ld lw ll lk lv leaf) k v r bl br fits tall =
      ground (arith, rotate_right-Repaired d w ld lw ll lk lv leaf k v r bl br fits tall)
  fix_left-Repaired d w (node ld lw ll lk lv (node md mw ml mk mv mr)) k v r bl br fits tall =
      elim (Bool-cases (ltb (get_depth ll) md)) [
        | inl e ↦
            rw (e, fix_left)
              (rotate_right-rotate_left-Repaired d w ld lw md mw ll lk lv ml mk mv mr k v r bl br
                fits tall (ground arith))
        | inr e ↦
            rw (e, fix_left)
              (rotate_right-Repaired d w ld lw ll lk lv (node md mw ml mk mv mr) k v r bl br fits
                tall (ground arith))
      ]

  -- The mirror images.
  rotate_left-Repaired :
      (d w rd rw_ : ℕ) (l : Tree K V) (k : K) (v : V) (rl : Tree K V) (rk : K) (rv : V)
      (rr : Tree K V)
      → IsBalanced l
      → IsBalanced (node rd rw_ rl rk rv rr)
      → 1 + get_weight l + rw_ < 2 ^ 32
      → rd ≡ get_depth l + 2
      → get_depth rl ≤ get_depth rr
      → Repaired
          (get_depth l)
          rd
          (get_weight l)
          rw_
          (rotate_left (node d w l k v (node rd rw_ rl rk rv rr)))
  unfolding rotate_left
  rotate_left-Repaired d w rd rw_ l k v rl rk rv rr bl br fits tall low =
      ground (arith, depth-le-weight rl br.4, depth-le-weight rr br.5, depth-le-weight l bl)

  rotate_left-rotate_right-Repaired :
      (d w rd rw_ md mw : ℕ) (l : Tree K V) (k : K) (v : V) (ml : Tree K V) (mk : K) (mv : V)
      (mr : Tree K V) (rk : K) (rv : V) (rr : Tree K V)
      → IsBalanced l
      → IsBalanced (node rd rw_ (node md mw ml mk mv mr) rk rv rr)
      → 1 + get_weight l + rw_ < 2 ^ 32
      → rd ≡ get_depth l + 2
      → get_depth rr < md
      → Repaired (get_depth l) rd (get_weight l) rw_ (
          rotate_left
            (node d w l k v (rotate_right (node rd rw_ (node md mw ml mk mv mr) rk rv rr))))
  unfolding rotate_right rotate_left
  rotate_left-rotate_right-Repaired d w rd rw_ md mw l k v ml mk mv mr rk rv rr bl br fits tall
        low =
      ground (
        arith,
        depth-le-weight rr br.5,
        depth-le-weight ml br.4.4,
        depth-le-weight mr br.4.5,
        depth-le-weight l bl,
      )

  pub fix_right-Repaired :
      (d w : ℕ) (l : Tree K V) (k : K) (v : V) (r : Tree K V)
      → IsBalanced l
      → IsBalanced r
      → 1 + get_weight l + get_weight r < 2 ^ 32
      → get_depth r ≡ get_depth l + 2
      → Repaired
          (get_depth l)
          (get_depth r)
          (get_weight l)
          (get_weight r)
          (fix_right (node d w l k v r))
  unfolding fix_right
  fix_right-Repaired d w l k v leaf bl br fits tall = absurd (omega arith)
  fix_right-Repaired d w l k v (node rd rw_ leaf rk rv rr) bl br fits tall =
      ground (arith, rotate_left-Repaired d w rd rw_ l k v leaf rk rv rr bl br fits tall)
  fix_right-Repaired d w l k v (node rd rw_ (node md mw ml mk mv mr) rk rv rr) bl br fits tall =
      elim (Bool-cases (ltb (get_depth rr) md)) [
        | inl e ↦
            rw (e, fix_right)
              (rotate_left-rotate_right-Repaired d w rd rw_ md mw l k v ml mk mv mr rk rv rr bl br
                fits tall (ground arith))
        | inr e ↦
            rw (e, fix_right)
              (rotate_left-Repaired d w rd rw_ l k v (node md mw ml mk mv mr) rk rv rr bl br fits
                tall (ground arith))
      ]

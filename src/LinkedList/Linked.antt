-- ===== src/LinkedList/Linked.antt =====
-- src/dsa/list.hpp: the nodes hold a list when both pointers do, and each operation keeps that.
use mathlib.Core.Path.{subst}
use mathlib.Core.List.{reverse, reverse-append}
use vector_db.Prelude.{
  ℕ, ◌≡◌, ◌≢◌, sym, ap, ◌∙◌, List, ◌∷◌, ◌++◌, All, All-left, All-right, Pairwise-before, ◌==◌,
  if◌then◌else◌,
}
use vector_db.LinkedList.{ListNode, unlink, insert_before, insert_after}
use vector_db.LinkedList.Leads.{
  Inserts, Omits, last_of, first_of_list, All-last_of, All-first_of_list, Leads-last, Leads-next,
}
use vector_db.LinkedList.Ring.{
  IsRing, insert-IsRing, omit-IsRing, reverse-cut, last_of-reverse, first_of_list-reverse,
  All-reverse,
}
use vector_db.LinkedList.Writes.{
  next-insert_after, prev-insert_after, next-insert_before, prev-insert_before, next-unlink,
  prev-unlink,
}

pub record IsLinked {ℓ} {T : Type ℓ} (nodes : ℕ → ListNode T) (head : ℕ) (xs : List ℕ)
    : Type 0 where
  pub forwards : IsRing (λ q. (nodes q).next) head xs
  pub backwards : IsRing (λ q. (nodes q).prev) head (reverse xs)

module _ {ℓ} {T : Type ℓ} (nodes : ℕ → ListNode T) (head : ℕ) (ys zs : List ℕ) where
  -- The two nodes at a cut of the list lead to each other.
  cut-neighbours :
      IsLinked nodes head (ys ++ zs)
      → ((nodes (last_of head ys)).next ≡ first_of_list zs head)
        × ((nodes (first_of_list zs head)).prev ≡ last_of head ys)
  cut-neighbours r = (
    Leads-last (λ q. (nodes q).next) head ys zs head r.forwards.leads,
    ap (λ q. (nodes q).prev) (sym (last_of-reverse zs head))
        ∙ Leads-last (λ q. (nodes q).prev) head (reverse zs) (reverse ys) head
            (subst (λ l. IsRing (λ q. (nodes q).prev) head l) (reverse-append ys zs)
              r.backwards).leads
        ∙ first_of_list-reverse ys head,
  )

  module _ (n : ℕ) (next_nodes : ℕ → ListNode T) (fresh : All (λ q. n ≢ q) (head ∷ ys ++ zs))
      (r : IsLinked nodes head (ys ++ zs)) where
    insert-IsLinked :
        Inserts (λ q. (nodes q).next) (λ q. (next_nodes q).next) (last_of head ys) n
        → Inserts (λ q. (nodes q).prev) (λ q. (next_nodes q).prev) (first_of_list zs head) n
        → IsLinked next_nodes head (ys ++ n ∷ zs)
    insert-IsLinked hn hp = record {
      forwards =
          insert-IsRing (λ q. (nodes q).next) (λ q. (next_nodes q).next) head n ys zs hn fresh
            r.forwards;
      backwards =
          subst (λ l. IsRing (λ q. (next_nodes q).prev) head l) (sym (reverse-cut ys zs n))
            (insert-IsRing (λ q. (nodes q).prev) (λ q. (next_nodes q).prev) head n (reverse zs)
              (reverse ys)
              (subst (λ p. Inserts (λ q. (nodes q).prev) (λ q. (next_nodes q).prev) p n)
                (sym (last_of-reverse zs head)) hp)
              (subst (λ l. All (λ q. n ≢ q) (head ∷ l)) (reverse-append ys zs)
                (fresh.0, All-reverse (λ q. n ≢ q) (ys ++ zs) fresh.1))
              (subst (λ l. IsRing (λ q. (nodes q).prev) head l) (reverse-append ys zs)
                r.backwards));
    }

  module _ (n : ℕ) (fresh : All (λ q. n ≢ q) (head ∷ ys ++ zs))
      (r : IsLinked nodes head (ys ++ zs)) where
    apart_last : n ≢ last_of head ys
    apart_last = All-last_of (λ q. n ≢ q) head ys (All-left (λ q. n ≢ q) (head ∷ ys) zs fresh)

    apart_first : n ≢ first_of_list zs head
    apart_first =
        All-first_of_list (λ q. n ≢ q) zs head fresh.0 (All-right (λ q. n ≢ q) (head ∷ ys) zs fresh)

    pub insert_after-IsLinked :
        IsLinked (insert_after nodes (last_of head ys) n) head (ys ++ n ∷ zs)
    insert_after-IsLinked =
        let (there, back) = cut-neighbours r in
        let pn : last_of head ys ≢ n = λ e. apart_last (sym e) in
        let far : (nodes (last_of head ys)).next ≢ n = λ e. apart_first (sym e ∙ there) in
        insert-IsLinked n (insert_after nodes (last_of head ys) n) fresh r
          (λ q. next-insert_after nodes (last_of head ys) n q pn far)
          (λ q.
            subst
              (λ s.
                (insert_after nodes (last_of head ys) n q).prev
                ≡ (if q == s then n else if q == n then (nodes s).prev else (nodes q).prev))
              there
              (prev-insert_after nodes (last_of head ys) n q pn far
                ∙ ap
                    (λ v.
                      if q == (nodes (last_of head ys)).next
                      then n
                      else if q == n
                      then v
                      else (nodes q).prev)
                    (sym (ap (λ s. (nodes s).prev) there ∙ back))))

    pub insert_before-IsLinked :
        IsLinked (insert_before nodes (first_of_list zs head) n) head (ys ++ n ∷ zs)
    insert_before-IsLinked =
        let (there, back) = cut-neighbours r in
        let pn : first_of_list zs head ≢ n = λ e. apart_first (sym e) in
        let far : (nodes (first_of_list zs head)).prev ≢ n = λ e. apart_last (sym e ∙ back) in
        insert-IsLinked n (insert_before nodes (first_of_list zs head) n) fresh r
          (λ q.
            subst
              (λ l.
                (insert_before nodes (first_of_list zs head) n q).next
                ≡ (if q == l then n else if q == n then (nodes l).next else (nodes q).next))
              back
              (next-insert_before nodes (first_of_list zs head) n q pn far
                ∙ ap
                    (λ v.
                      if q == (nodes (first_of_list zs head)).prev
                      then n
                      else if q == n
                      then v
                      else (nodes q).next)
                    (sym (ap (λ l. (nodes l).next) back ∙ there))))
          (λ q. prev-insert_before nodes (first_of_list zs head) n q pn far)

  pub unlink-IsLinked :
      (n : ℕ) → IsLinked nodes head (ys ++ n ∷ zs) → IsLinked (unlink nodes n) head (ys ++ zs)
  unlink-IsLinked n r =
      let before =
        All-last_of (λ q. q ≢ n) head ys
          (Pairwise-before ◌≢◌ (head ∷ ys) zs n r.forwards.distinct) in
      let turned : IsRing (λ q. (nodes q).prev) head (reverse zs ++ n ∷ reverse ys) =
        subst (λ l. IsRing (λ q. (nodes q).prev) head l) (reverse-cut ys zs n) r.backwards in
      let there : (nodes n).next ≡ last_of head (reverse zs) =
        Leads-next (λ q. (nodes q).next) head n ys zs head r.forwards.leads
        ∙ sym (last_of-reverse zs head) in
      let back : (nodes n).prev ≡ last_of head ys =
        Leads-next (λ q. (nodes q).prev) head n (reverse zs) (reverse ys) head turned.leads
        ∙ first_of_list-reverse ys head in
      let far : (nodes n).prev ≢ n = λ e. before (sym back ∙ e) in
      record {
        forwards =
            omit-IsRing (λ q. (nodes q).next) (λ q. (unlink nodes n q).next) head n ys zs
              (subst (λ p. Omits (λ q. (nodes q).next) (λ q. (unlink nodes n q).next) p n) back
                (λ q. next-unlink nodes n q far))
              r.forwards;
        backwards =
            subst (λ l. IsRing (λ q. (unlink nodes n q).prev) head l) (sym (reverse-append ys zs))
              (omit-IsRing (λ q. (nodes q).prev) (λ q. (unlink nodes n q).prev) head n (reverse zs)
                (reverse ys)
                (subst (λ p. Omits (λ q. (nodes q).prev) (λ q. (unlink nodes n q).prev) p n) there
                  (λ q. prev-unlink nodes n q far))
                turned);
      }

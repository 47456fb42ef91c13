-- ===== src/Socket.antt =====
-- socket.hpp: `Socket`, the owner of a file descriptor. A socket is at an address, a number; `fd` is `none` where
-- the source has -1.
use mathlib.Core.Path.{subst}
use vector_db.Prelude.{
  ℕ, ◌≡◌, ◌≢◌, ◌⊎◌, inl, inr, refl, sym, ap, ◌∙◌, Bool, true, false, Option, none, some, arith,
  ◌==◌, if◌then◌else◌, Bool-cases, Option-cases,
}

-- The descriptors that the sockets hold, and which descriptors are open.
pub record Sockets : Type 0 where
  pub fd : ℕ → Option ℕ
  pub is_open : ℕ → Bool

abbrev pub set_fd : Sockets → ℕ → Option ℕ → Sockets
set_fd s p v = record s { fd = λ q. if q == p then v else s.fd q }

-- `if (fd_ != -1) { close(fd_); }`
abbrev pub close_fd : Option ℕ → Sockets → Sockets
close_fd none s = s
close_fd (some fd) s = record s { is_open = λ f. if f == fd then false else s.is_open f }

unfoldable pub from_fd : Sockets → ℕ → ℕ → Sockets
from_fd s p fd = set_fd s p (some fd)

-- The memory of a destroyed socket holds no descriptor.
unfoldable pub close_socket : Sockets → ℕ → Sockets
close_socket s p = set_fd (close_fd (s.fd p) s) p none

-- `Socket(Socket&& other)`
unfoldable pub move_new : Sockets → ℕ → ℕ → Sockets
move_new s p other = set_fd (set_fd s other none) p (s.fd other)

abbrev assigned : Sockets → ℕ → ℕ → Sockets
assigned s p other = set_fd (set_fd (close_fd (s.fd p) s) other none) p (s.fd other)

-- The assignment from a socket that is moved.
unfoldable pub move_assign : Sockets → ℕ → ℕ → Sockets
move_assign s p other = if p == other then s else assigned s p other

-- Every descriptor that a socket holds is open, and no other socket holds it.
pub record IsOwned (s : Sockets) : Type 0 where
  pub held : (p f : ℕ) → s.fd p ≡ some f → s.is_open f ≡ true
  pub once : (p q f : ℕ) → s.fd p ≡ some f → s.fd q ≡ some f → p ≡ q

set_fd-moved :
    (s : Sockets) (p other q f : ℕ)
    → (set_fd (set_fd s other none) p (s.fd other)).fd q ≡ some f
    → ((q ≡ p) × (s.fd other ≡ some f)) ⊎ ((q ≢ p) × (q ≢ other) × (s.fd q ≡ some f))
set_fd-moved s p other q f h = elim (Bool-cases (q == p)) [
  | inl here ↦ inl (ground arith, ground arith)
  | inr far ↦ elim (Bool-cases (q == other)) [
    | inl here ↦ ground arith
    | inr off ↦ inr (ground arith, ground arith, ground arith)
  ]
]

module _ (s : Sockets) (owned : IsOwned s) where
  close_fd-fd : (v : Option ℕ) (q : ℕ) → (close_fd v s).fd q ≡ s.fd q
  close_fd-fd none q = refl
  close_fd-fd (some f) q = refl

  -- Closing what one socket holds leaves open what the others hold.
  close_fd-other : (p q f : ℕ) → q ≢ p → s.fd q ≡ some f → (close_fd (s.fd p) s).is_open f ≡ true
  close_fd-other p q f ne h = elim (Option-cases (s.fd p)) [
    | inl e ↦ subst (λ v. (close_fd v s).is_open f ≡ true) (sym e) (owned.held q f h)
    | inr (g, e) ↦
        let open_now = owned.held q f h in
        let same : f ≡ g → q ≡ p = λ fg. owned.once q p f h (e ∙ ap (λ x. some x) (sym fg)) in
        subst (λ v. (close_fd v s).is_open f ≡ true) (sym e) (ground arith)
  ]

  -- What moves keeps its one owner.
  moved-once :
      (p other q r f : ℕ)
      → (q ≡ p) × (s.fd other ≡ some f) ⊎ (q ≢ p) × (q ≢ other) × (s.fd q ≡ some f)
      → (r ≡ p) × (s.fd other ≡ some f) ⊎ (r ≢ p) × (r ≢ other) × (s.fd r ≡ some f)
      → q ≡ r
  moved-once p other q r f (inl (qp, _)) (inl (rp, _)) = qp ∙ sym rp
  moved-once p other q r f (inl (_, e)) (inr (_, off, h)) =
      elim (off (owned.once r other f h e)) [ ]
  moved-once p other q r f (inr (_, off, h)) (inl (_, e)) =
      elim (off (owned.once q other f h e)) [ ]
  moved-once p other q r f (inr (_, _, h)) (inr (_, _, k)) = owned.once q r f h k

  pub move_new-IsOwned : (p other : ℕ) → IsOwned (move_new s p other)
  unfolding move_new
  move_new-IsOwned p other = record {
    held = λ q f h. elim (set_fd-moved s p other q f h) [
      | inl (_, e) ↦ owned.held other f e
      | inr (_, _, e) ↦ owned.held q f e
    ];
    once = λ q r f h k.
        moved-once p other q r f (set_fd-moved s p other q f h) (set_fd-moved s p other r f k);
  }

  pub close_socket-IsOwned : (p : ℕ) → IsOwned (close_socket s p)
  unfolding close_socket
  close_socket-IsOwned p = record {
    held = λ q f h.
        let same = close_fd-fd (s.fd p) q in close_fd-other p q f (ground arith) (ground arith);
    once = λ q r f h k.
        let same = close_fd-fd (s.fd p) q in
        let same' = close_fd-fd (s.fd p) r in owned.once q r f (ground arith) (ground arith);
  }

  pub from_fd-IsOwned :
      (p fd : ℕ) → s.is_open fd ≡ true → ((q : ℕ) → s.fd q ≢ some fd) → IsOwned (from_fd s p fd)
  unfolding from_fd
  from_fd-IsOwned p fd opened fresh = record {
    held = λ q f h. elim (Bool-cases (q == p)) [
      | inl here ↦ ground arith
      | inr far ↦ owned.held q f (ground arith)
    ];
    once = λ q r f h k. elim (Bool-cases (q == p)) [
      | inl here ↦ let fq = fresh r in ground arith
      | inr far ↦ elim (Bool-cases (r == p)) [
        | inl here ↦ let fq = fresh q in ground arith
        | inr off ↦ owned.once q r f (ground arith) (ground arith)
      ]
    ];
  }

  pub move_assign-IsOwned : (p other : ℕ) → IsOwned (move_assign s p other)
  unfolding move_assign
  move_assign-IsOwned p other = elim (Bool-cases (p == other)) [
    | inl self ↦ subst (λ b. IsOwned (if b then s else assigned s p other)) (sym self) owned
    | inr apart ↦
        subst (λ b. IsOwned (if b then s else assigned s p other)) (sym apart)
          (record {
            held = λ q f h. elim (moved q f h) [
              | inl (_, e) ↦ close_fd-other p other f (ground arith) e
              | inr (far, _, e) ↦ close_fd-other p q f far e
            ];
            once = λ q r f h k. moved-once p other q r f (moved q f h) (moved r f k);
          })
  ]
    where
      moved :
          (q f : ℕ)
          → (assigned s p other).fd q ≡ some f
          → (q ≡ p) × (s.fd other ≡ some f) ⊎ (q ≢ p) × (q ≢ other) × (s.fd q ≡ some f)
      moved q f h = set_fd-moved s p other q f (
          ap (λ v. if q == p then s.fd other else if q == other then none else v)
            (sym (close_fd-fd (s.fd p) q))
          ∙ h)

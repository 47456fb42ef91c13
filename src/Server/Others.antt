-- ===== src/Server/Others.antt =====
-- server.hpp: a change of one connection in the map leaves the others.
use vector_db.Prelude.{ℕ, ◌≡◌, ◌≢◌, refl, List, [], ◌∷◌, arith}
use vector_db.Connection.{Connection}
use vector_db.Server.{find_connection, without, update_connection}

module _ {κ} {D : Type κ} where
  -- The other descriptors are in the map as before.
  abbrev pub SameOthers : ℕ → List (ℕ × Connection D) → List (ℕ × Connection D) → Type κ
  SameOthers fd cs ds = (g : ℕ) → fd ≢ g → find_connection ds g ≡ find_connection cs g

  pub update_connection-SameOthers :
      (cs : List (ℕ × Connection D)) (fd : ℕ) (c : Connection D)
      → SameOthers fd cs (update_connection cs fd c)
  update_connection-SameOthers [] fd c g ne = refl
  update_connection-SameOthers ((j, d) ∷ cs) fd c g ne =
      ground (arith, update_connection-SameOthers cs fd c g ne)

  pub without-SameOthers :
      (cs : List (ℕ × Connection D)) (fd : ℕ) → SameOthers fd cs (without cs fd)
  without-SameOthers [] fd g ne = refl
  without-SameOthers ((j, d) ∷ cs) fd g ne = ground (arith, without-SameOthers cs fd g ne)

-- ===== src/Startup.antt =====
-- main.cpp: the arguments and the start of the server; socket.hpp: `set_nonblocking`; server.hpp: `initialize` and `create_listen_socket`, on what the system
-- calls return.
use vector_db.Prelude.{
  ℕ, ◌-◌, ◌%◌, ◌^◌, ◌≡◌, refl, Bool, ◌&&◌, ◌||◌, not, Option, none, some, ℤ, pos, negsuc, ltb,
  if◌then◌else◌, List, get_elem?, ◌==◌,
}

-- `static_cast<uint16_t>` of an `int`, in main.cpp.
abbrev pub to_port : ℤ → ℕ
to_port (pos n) = n % 2 ^ 16
to_port (negsuc n) = 2 ^ 16 - 1 - n % 2 ^ 16

-- The port that `main` takes, from the number that `std::stoi` gives for the first argument, if there is
-- one; `none` where `main` ends.
abbrev pub main_port : Option ℤ → Option ℕ
main_port none = some 1234
main_port (some n) =
    if ltb (to_port n) 1024 || ltb 65535 (to_port n) then none else some (to_port n)

-- The steps of `create_listen_socket` that can fail.
pub data ListenError : Type 0 where
  bad_file_descriptor invalid_argument address_in_use connection_refused not_nonblocking :
      ListenError

-- Whether `socket`, `setsockopt`, `bind`, `listen` and the two calls of `fcntl` succeed.
pub record ListenCalls : Type 0 where
  pub socket : Option ℕ
  pub setsockopt : Bool
  pub bind : Bool
  pub listen : Bool
  pub getfl : Bool
  pub setfl : Bool

-- `set_nonblocking`, by the two calls of `fcntl`.
abbrev pub set_nonblocking : Bool → Bool → Bool
set_nonblocking getfl setfl = getfl && setfl

abbrev pub create_listen_socket : ListenCalls → Option ListenError × Option ℕ
create_listen_socket c = elim c.socket [
  | none ↦ (some bad_file_descriptor, none)
  | some fd ↦
      if not c.setsockopt
      then (some invalid_argument, none)
      else if not c.bind
      then (some address_in_use, none)
      else if not c.listen
      then (some connection_refused, none)
      else if not (set_nonblocking c.getfl c.setfl)
      then (some not_nonblocking, none)
      else (none, some fd)
]

-- `Server::initialize`, with what the listening socket holds after it.
abbrev pub initialize : ListenCalls → Option ℕ → Option ListenError × Option ℕ
initialize c listen_socket =
    let (error, fd) = create_listen_socket c in
    elim error [ some e ↦ (some e, listen_socket) | none ↦ (none, fd) ]

-- `static_cast<size_t>` of an `int`.
abbrev pub to_size : ℤ → ℕ
to_size (pos n) = n
to_size (negsuc n) = 2 ^ 64 - 1 - n

-- The size of the pool that `main` takes; `none` where it ends.
abbrev pub main_pool_size : Option ℤ → Option ℕ
main_pool_size none = some 4
main_pool_size (some n) = if to_size n == 0 then none else some (to_size n)

-- Where `main` ends, or the port, the threads and the descriptor that it runs with.
pub data Main : Type 0 where
  invalid_port invalid_pool_size fatal : Main
  not_initialized : ListenError → Main
  runs : ℕ → ℕ → Option ℕ → Main

-- `main` up to the call of `run`, from the numbers that `std::stoi` gives for the arguments. Whether the
-- pool of a size starts is an argument: where it does not, it throws.
abbrev pub main : List ℤ → (ℕ → Bool) → ListenCalls → Main
main args starts c = elim (main_port (get_elem? args 0)) [
  | none ↦ invalid_port
  | some port ↦ elim (main_pool_size (get_elem? args 1)) [
    | none ↦ invalid_pool_size
    | some size ↦
        if not (starts size)
        then fatal
        else let (error, fd) = initialize c none in
          elim error [ some e ↦ not_initialized e | none ↦ runs port size fd ]
  ]
]

-- A number beyond 65535 is not refused.
large_port : main_port (some (pos 70000)) ≡ some 4464
large_port = refl

-- A negative size of the pool is not refused either.
negative_pool_size : main_pool_size (some (negsuc 0)) ≡ some 18446744073709551615
negative_pool_size = refl

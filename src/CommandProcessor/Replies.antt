-- ===== src/CommandProcessor/Replies.antt =====
-- command_processor.hpp: what a handler appends to the response.
use vector_db.Prelude.{
  ℕ, Bool, true, false, Option, none, some, List, [], ◌∷◌, map, if◌then◌else◌, ℤ,
}
use vector_db.Prelude.Outcome.{Fault, Outcome, ret, fault, ◌>>=◌}
use vector_db.Bytes.{Bytes}
use vector_db.ResponseSerializer.{
  serialize_nil, serialize_error, serialize_string, serialize_integer,
}
use vector_db.EntryManager.{
  EntryManager, create_entry, find_entry, clear_all, delete_entry, set_entry_ttl, get_expiry_time,
}
use vector_db.SortedSet
use vector_db.SortedSet.{ZSet, new_zset}
use vector_db.CommandProcessor.{
  Numbers, Value, string, zset, Handler, to_lower, arg, value_of, add_member, parse_double,
  parse_int, command_handlers, call_handler, process_command, handle_get, handle_set, handle_del,
  handle_exists, handle_flushall, handle_zadd, handle_zrem, handle_pexpire, handle_pttl,
}
use vector_db.CommandProcessor.Dispatch.{find_handler-elim}

-- A call that returns has appended one reply to `response`: nothing, an error, a text or a number.
pub data Replies {κ} {D : Type κ} (response : Bytes)
    : Outcome (Bytes × EntryManager (Value D)) → Type κ where
  faults : (e : Fault) → Replies response (fault e)
  nothing : (m : EntryManager (Value D)) → Replies response (ret (serialize_nil response, m))
  failure :
      (code : ℤ) (msg : Bytes) (m : EntryManager (Value D))
      → Replies response (ret (serialize_error response code msg, m))
  text :
      (s : Bytes) (m : EntryManager (Value D))
      → Replies response (ret (serialize_string response s, m))
  number :
      (n : ℤ) (m : EntryManager (Value D))
      → Replies response (ret (serialize_integer response n, m))

module _ {κ} {D : Type κ} (response : Bytes) where
  Replies-bind {μ} :
      {A : Type μ} (o : Outcome A) (f : A → Outcome (Bytes × EntryManager (Value D)))
      → ((a : A) → Replies response (f a))
      → Replies response (o >>= f)
  Replies-bind (ret a) f h = h a
  Replies-bind (fault e) f h = faults e

  Replies-if :
      (b : Bool) (x y : Outcome (Bytes × EntryManager (Value D)))
      → Replies response x
      → Replies response y
      → Replies response (if b then x else y)
  Replies-if true x y hx hy = hx
  Replies-if false x y hx hy = hy

  Replies-Option {μ} :
      {A : Type μ} (o : Option A) (x : Outcome (Bytes × EntryManager (Value D)))
      (f : A → Outcome (Bytes × EntryManager (Value D)))
      → Replies response x
      → ((a : A) → Replies response (f a))
      → Replies response (elim o [ none ↦ x | some a ↦ f a ])
  Replies-Option none x f hx hf = hx
  Replies-Option (some a) x f hx hf = hf a

  Replies-Value :
      (v : Value D) (f : Bytes → Outcome (Bytes × EntryManager (Value D)))
      (g : ZSet D → Outcome (Bytes × EntryManager (Value D)))
      → ((s : Bytes) → Replies response (f s))
      → ((z : ZSet D) → Replies response (g z))
      → Replies response (elim v [ string s ↦ f s | zset z ↦ g z ])
  Replies-Value (string s) f g hf hg = hf s
  Replies-Value (zset z) f g hf hg = hg z

  module _ (args : List Bytes) (m : EntryManager (Value D)) where
    handle_get-Replies : Replies response (handle_get args response m)
    unfolding handle_get
    handle_get-Replies = Replies-if _ _ _ (failure _ _ m) (
        Replies-bind (find_entry m (arg args 1)) _ λ r. Replies-Option _ _ _ (nothing r.1) λ entry.
          Replies-bind (value_of r.1.entries entry) _
            λ v. Replies-Value v _ _ (λ s. text s r.1) (λ _. failure _ _ r.1))

    handle_set-Replies : Replies response (handle_set args response m)
    unfolding handle_set
    handle_set-Replies =
        Replies-if _ _ _ (failure _ _ m)
          (Replies-bind (create_entry m (arg args 1) (string (arg args 2))) _ λ r. text _ r.1)

    handle_del-Replies : Replies response (handle_del args response m)
    unfolding handle_del
    handle_del-Replies =
        Replies-if _ _ _ (failure _ _ m)
          (Replies-bind (delete_entry m (arg args 1)) _ λ r. number _ r.1)

    handle_exists-Replies : Replies response (handle_exists args response m)
    unfolding handle_exists
    handle_exists-Replies = Replies-if _ _ _ (failure _ _ m) (
        Replies-bind (find_entry m (arg args 1)) _
          λ r. Replies-Option _ _ _ (number _ r.1) λ entry. number _ r.1)

    handle_flushall-Replies : Replies response (handle_flushall args response m)
    unfolding handle_flushall
    handle_flushall-Replies = Replies-bind (clear_all m) _ λ r. number _ r.1

    handle_zrem-Replies : Replies response (handle_zrem args response m)
    unfolding handle_zrem
    handle_zrem-Replies = Replies-if _ _ _ (failure _ _ m) (
        Replies-bind (find_entry m (arg args 1)) _ λ r. Replies-Option _ _ _ (number _ r.1) λ entry.
          Replies-bind (value_of r.1.entries entry) _ λ v.
            Replies-Value v _ _ (λ _. failure _ _ r.1)
              λ z. Replies-bind (SortedSet.remove_internal false z (arg args 2)) _ λ s. number _ _)

    add_member-Replies :
        (k : EntryManager (Value D)) (entry : ℕ) (z : ZSet D) (member : Bytes) (score : D)
        → Replies response (add_member k entry z member score response)
    unfolding add_member
    add_member-Replies k entry z member score =
        Replies-bind (SortedSet.add_internal false z member score) _ λ r. number _ _

    module _ (lib : Numbers D) (now : ℕ) where
      handle_zadd-Replies : Replies response (handle_zadd lib args response m)
      unfolding handle_zadd
      handle_zadd-Replies = Replies-if _ _ _ (failure _ _ m) (
          Replies-Option (parse_double lib (arg args 2)) _ _ (failure _ _ m) λ score.
            Replies-bind (find_entry m (arg args 1)) _ λ r.
              Replies-Option r.0 _ _
                (Replies-bind (create_entry r.1 (arg args 1) (zset new_zset)) _
                  λ c. add_member-Replies c.1 c.0 new_zset (arg args 3) score)
                λ entry. Replies-bind (value_of r.1.entries entry) _ λ v.
                  Replies-Value v _ _ (λ _. failure _ _ r.1)
                    λ z. add_member-Replies r.1 entry z (arg args 3) score)

      handle_pexpire-Replies : Replies response (handle_pexpire lib now args response m)
      unfolding handle_pexpire
      handle_pexpire-Replies = Replies-if _ _ _ (failure _ _ m) (
          Replies-Option (parse_int lib (arg args 2)) _ _ (failure _ _ m) λ ttl_ms.
            Replies-if _ _ _ (failure _ _ m) (
              Replies-bind (find_entry m (arg args 1)) _ λ r.
                Replies-Option r.0 _ _ (number _ r.1)
                  λ entry. Replies-bind (set_entry_ttl r.1 entry ttl_ms now) _ λ s. number _ s.1))

      handle_pttl-Replies : Replies response (handle_pttl now args response m)
      unfolding handle_pttl
      handle_pttl-Replies = Replies-if _ _ _ (failure _ _ m) (
          Replies-bind (find_entry m (arg args 1)) _ λ r.
            Replies-Option r.0 _ _ (number _ r.1)
              λ entry. Replies-bind (get_expiry_time r.1 entry now) _ λ ttl. number ttl r.1)

-- Whatever the arguments and the store, `process_command` either ends in a fault or appends exactly one
-- reply to the response: nothing, an error, a text or a number in their serialized form.
pub process_command-Replies {κ} :
    {D : Type κ} (lib : Numbers D) (now : ℕ) (args : List Bytes) (response : Bytes)
    (m : EntryManager (Value D))
    → Replies response (process_command lib now args response m)
unfolding process_command
process_command-Replies lib now [] response m = failure _ _ m
process_command-Replies {D} lib now (command ∷ rest) response m =
    let args = command ∷ rest in
    find_handler-elim
      (λ (found : Option (Handler D)). Replies response (call_handler found args response m))
      (map to_lower command) (command_handlers lib now) (failure _ _ m)
      (
        handle_get-Replies response args m,
        (
          handle_set-Replies response args m,
          (
            handle_del-Replies response args m,
            (
              handle_exists-Replies response args m,
              (
                handle_zadd-Replies response args m lib now,
                (
                  handle_zrem-Replies response args m,
                  (
                    handle_flushall-Replies response args m,
                    (
                      handle_pexpire-Replies response args m lib now,
                      (handle_pttl-Replies response args m lib now, tt),
                    ),
                  ),
                ),
              ),
            ),
          ),
        ),
      )

-- ===== src/Connection/Typed.antt =====
-- connection.hpp: `process_io` on a line of text.
use vector_db.Prelude.{
  ℕ, zero, suc, ◌<◌, ◌≡◌, refl, sym, ◌∙◌, ap, true, false, List, [], ◌∷◌, ◌++◌, map, arith, length,
  All, take, append_assoc, append-nil,
}
use vector_db.Prelude.Outcome.{ret, ◌>>=◌}
use vector_db.Bytes.{Bytes}
use vector_db.RequestParser.{ok}
use vector_db.EntryManager.{EntryManager}
use vector_db.CommandProcessor.{Numbers, Value, process_command}
use vector_db.Connection.{
  Connection, Write, received, wrote, written, is_space, c_string, words, process_io,
}

abbrev pub IsLetter : ℕ → Type 0
IsLetter c = (is_space c ≡ false) × (0 < c)

abbrev pub IsSpace : ℕ → Type 0
IsSpace c = is_space c ≡ true

-- Words, each with the white space after it.
abbrev pub typed : List (Bytes × Bytes) → Bytes
typed [] = []
typed ((word, space) ∷ rest) = word ++ (space ++ typed rest)

abbrev pub IsTyped : List (Bytes × Bytes) → Type 0
IsTyped =
    All λ (a : Bytes × Bytes).
      (0 < length a.0) × All IsLetter a.0 × (0 < length a.1) × All IsSpace a.1

c_string-letters :
    (word rest : Bytes) → All IsLetter word → c_string (word ++ rest) ≡ word ++ c_string rest
c_string-letters [] rest h = refl
c_string-letters (zero ∷ word) rest ((_, h), all) = absurd (omega arith)
c_string-letters (suc c ∷ word) rest (h, all) =
    ap (λ bs. suc c ∷ bs) (c_string-letters word rest all)

c_string-spaces :
    (space rest : Bytes) → All IsSpace space → c_string (space ++ rest) ≡ space ++ c_string rest
c_string-spaces [] rest h = refl
c_string-spaces (zero ∷ space) rest (h, all) = absurd (ground arith)
c_string-spaces (suc c ∷ space) rest (h, all) =
    ap (λ bs. suc c ∷ bs) (c_string-spaces space rest all)

c_string-typed : (args : List (Bytes × Bytes)) → IsTyped args → c_string (typed args) ≡ typed args
c_string-typed [] h = refl
c_string-typed ((word, space) ∷ rest) ((_, letters, _, spaces), all) =
    c_string-letters word (space ++ typed rest) letters
    ∙ ap (λ bs. word ++ bs)
        (c_string-spaces space (typed rest) spaces
          ∙ ap (λ bs. space ++ bs) (c_string-typed rest all))

words-letters :
    (start word rest : Bytes)
    → All IsLetter word
    → words start (word ++ rest) ≡ words (start ++ word) rest
unfolding words
words-letters start [] rest h = ap (λ w. words w rest) (sym (append-nil start))
words-letters start (c ∷ word) rest ((h, _), all) =
    rw (h, words)
      (words-letters (start ++ c ∷ []) word rest all
        ∙ ap (λ w. words w rest) (append_assoc start (c ∷ []) word))

words-spaces : (space rest : Bytes) → All IsSpace space → words [] (space ++ rest) ≡ words [] rest
unfolding words
words-spaces [] rest h = refl
words-spaces (c ∷ space) rest (h, all) = rw (h, words) (words-spaces space rest all)

words-typed :
    (args : List (Bytes × Bytes)) → IsTyped args → words [] (typed args) ≡ map (λ a. a.0) args
unfolding words
words-typed [] h = refl
words-typed (([], space) ∷ rest) ((h, _, _, _), all) = absurd (omega arith)
words-typed ((c ∷ word, []) ∷ rest) ((_, _, h, _), all) = absurd (omega arith)
words-typed ((c ∷ word, b ∷ space) ∷ rest) ((_, letters, _, (blank, spaces)), all) =
    words-letters [] (c ∷ word) ((b ∷ space) ++ typed rest) letters
    ∙ rw (blank, words)
        (ap (λ ws. (c ∷ word) ∷ ws) (words-spaces space (typed rest) spaces ∙ words-typed rest all))

module _ {κ} {D : Type κ} (lib : Numbers D) where
  pub process_io-command :
      (now : ℕ) (w : Write) (a : Bytes × Bytes) (args : List (Bytes × Bytes)) (c : Connection D)
      → IsTyped (a ∷ args)
      → process_io lib now (received (typed (a ∷ args))) w c ≡ (
          process_command lib now (map (λ b. b.0) (a ∷ args)) [] c.entry_manager >>= λ r.
          ret (ok tt, record c { entry_manager = r.1 }, written w r.0))
  unfolding process_io
  process_io-command now w ([], space) args c ((h, _, _, _), all) = absurd (omega arith)
  process_io-command now w (b ∷ word, space) args c h =
      let line = (b ∷ word, space) ∷ args in rw (c_string-typed line h, words-typed line h) refl

  -- A text of words with white space after each of them is the command of these words: the processor is
  -- called once with them, and `process_io` sends of the reply what one `write` takes.
  pub process_io-typed :
      (now n : ℕ) (a : Bytes × Bytes) (args : List (Bytes × Bytes)) (c : Connection D)
      (reply : Bytes) (m : EntryManager (Value D))
      → IsTyped (a ∷ args)
      → process_command lib now (map (λ a. a.0) (a ∷ args)) [] c.entry_manager ≡ ret (reply, m)
      → process_io lib now (received (typed (a ∷ args))) (wrote n) c
        ≡ ret (ok tt, record c { entry_manager = m }, take n reply)
  process_io-typed now n a args c reply m h e =
      process_io-command now (wrote n) a args c h
      ∙ ap (λ o. o >>= λ r. ret (ok tt, record c { entry_manager = r.1 }, take n r.0)) e

-- ===== src/Rpc/Steps.antt =====
-- Rounds of `ct10rpc_parse_via_automaton`: one on a character whose column and function are known,
-- and those on the letters of a word, which its buffer takes.
use xmltp.Prelude.{
  ℕ, ◌+◌, ◌≤◌, ◌<◌, ◌≡◌, refl, ap, ◌∙◌, false, some, List, [], ◌∷◌, ◌++◌, arith, ltb, length, set,
  get_elem?, All, ℤ, pos, length-set,
}
use mathlib.Core.List.{map}
use xmltp.Bytes.{Bytes}
use xmltp.Rpc.Table.{ascii_value_column_in_auto, automaton_entry}
use xmltp.Rpc.State.{Sybase, Rpc, rpc_syntax_continue}
use xmltp.Rpc.Parse.{parse_via_automaton, process_1_rpc_char, after_char}

-- The character stands in the column.
abbrev pub In : ℕ → ℕ → Type 0
In k c = get_elem? ascii_value_column_in_auto c ≡ some k

pub ltb_not : (a b : ℕ) → b ≤ a → ltb a b ≡ false
ltb_not a b h = ground arith

-- A letter on which the automaton stays in a level and calls a function.
abbrev pub Stays : ℕ → ℕ → ℕ → Type 0
Stays l f c = (k : ℕ) × In k c × (k ≤ 13) × (automaton_entry l k ≡ (pos l, f))

-- The elements of a list, written from an index on.
abbrev pub write : {A : Type 0} → List A → ℕ → List A → List A
write buf i [] = buf
write buf i (c ∷ w) = write (set buf i c) (i + 1) w

module _ (syb : Sybase) where
  -- A round, on a character in a column.
  pub step :
      (l k f c : ℕ) (next : ℤ) (s : Rpc) (rest : Bytes)
      → s.dest_ind ≤ 1024
      → In k c
      → k ≤ 13
      → automaton_entry l k ≡ (next, f)
      → parse_via_automaton syb (c ∷ rest) l s
        ≡ after_char syb
            (λ j t. parse_via_automaton syb rest j t)
            next
            (process_1_rpc_char syb f c s)
  unfolding parse_via_automaton
  step l k f c next s rest small at h e =
      rw (ltb_not 1024 s.dest_ind small, at, ltb_not 13 k h, e) refl

  -- A round that goes on.
  pub round :
      (l l' k f c : ℕ) (s s' : Rpc) (rest : Bytes)
      → s.dest_ind ≤ 1024
      → In k c
      → k ≤ 13
      → automaton_entry l k ≡ (pos l', f)
      → process_1_rpc_char syb f c s ≡ some (rpc_syntax_continue, s')
      → parse_via_automaton syb (c ∷ rest) l s ≡ parse_via_automaton syb rest l' s'
  round l l' k f c s s' rest small at h e p = step l k f c (pos l') s rest small at h e ∙ rw p refl

  module _ (l f : ℕ) (t : ℕ → ℕ) (st : ℕ → Bytes → Rpc)
      (at : (i : ℕ) → (buf : Bytes) → (st i buf).dest_ind ≡ i)
      (one : (c i : ℕ)
        → (buf : Bytes) → i < length buf
        → process_1_rpc_char syb f c (st i buf)
          ≡ some (rpc_syntax_continue, st (i + 1) (set buf i (t c)))) where
    -- The letters on which the level stays, with one function, which writes to one buffer.
    pub run-word :
        (w : Bytes) (i : ℕ) (buf rest : Bytes)
        → i + length w ≤ length buf
        → length buf ≤ 1024
        → All (Stays l f) w
        → parse_via_automaton syb (w ++ rest) l (st i buf)
          ≡ parse_via_automaton syb rest l (st (i + length w) (write buf i (map t w)))
    run-word [] i buf rest fits small h =
        ap (λ j. parse_via_automaton syb rest l (st j buf)) (omega arith)
    run-word (c ∷ w) i buf rest fits small ((k, column, le, e), h) =
        round l l k f c (st i buf) (st (i + 1) (set buf i (t c))) (w ++ rest)
          (omega (arith, at i buf)) column le e (one c i buf (omega arith))
        ∙ run-word w (i + 1) (set buf i (t c)) rest (omega (arith, length-set buf i (t c)))
            (omega (arith, length-set buf i (t c))) h
        ∙ ap
            (λ j. parse_via_automaton syb rest l (st j (write (set buf i (t c)) (i + 1) (map t w))))
            (omega arith)

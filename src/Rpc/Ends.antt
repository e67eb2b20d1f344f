-- ===== src/Rpc/Ends.antt =====
-- The rounds of the automaton of src/ct10api/ct10rpc_parse.c from the end of a value to the comma or
-- the NUL behind it, at which the parameter is made.
use xmltp.Prelude.{
  ℕ, ◌+◌, ◌≤◌, ◌<◌, ◌≡◌, refl, ap, ◌∙◌, Option, ◌∷◌, arith, lt→ltb, length, set, ℤ, pos, neg,
}
use xmltp.Bytes.{Bytes}
use xmltp.Rpc.Table.{automaton_entry}
use xmltp.Rpc.State.{Sybase, Rpc}
use xmltp.Rpc.Parse.{parse_via_automaton, process_1_rpc_char, after_char, get_ready_for_next_parm}
use xmltp.Rpc.Steps.{In, step}
use xmltp.Rpc.Place.{place}

-- What stands behind a parameter.
pub data End : Type 0 where
  at_comma at_nul : End

abbrev pub end_byte : End → ℕ
end_byte at_comma = b','
end_byte at_nul = 0

abbrev pub end_column : End → ℕ
end_column at_comma = 8
end_column at_nul = 9

abbrev pub end_level : End → ℤ
end_level at_comma = pos 3
end_level at_nul = neg 999

end-In : (e : End) → In (end_column e) (end_byte e)
end-In at_comma = refl
end-In at_nul = refl

end_column-le : (e : End) → end_column e ≤ 13
end_column-le at_comma = omega arith
end_column-le at_nul = omega arith

-- The levels in which a parameter may end, with their functions.
abbrev pub Ends : ℕ → ℕ → Type 0
Ends l f = (e : End) → automaton_entry l (end_column e) ≡ (end_level e, f)

at_8-Ends : Ends 8 111
at_8-Ends at_comma = refl
at_8-Ends at_nul = refl

at_10-Ends : Ends 10 110
at_10-Ends at_comma = refl
at_10-Ends at_nul = refl

pub at_11-Ends : Ends 11 115
at_11-Ends at_comma = refl
at_11-Ends at_nul = refl

at_12-Ends : Ends 12 110
at_12-Ends at_comma = refl
at_12-Ends at_nul = refl

module _ (syb : Sybase) where
  -- The parameter is made, and the rest is read.
  abbrev pub closing : End → Bytes → Rpc → Option (ℤ × Rpc)
  closing e rest st =
      after_char syb (λ j t. parse_via_automaton syb rest j t) (end_level e)
        (get_ready_for_next_parm syb (end_byte e) st)

  pub end_round :
      (l f : ℕ) (e : End) (st st' : Rpc) (rest : Bytes)
      → Ends l f
      → st.dest_ind ≤ 1024
      → process_1_rpc_char syb f (end_byte e) st ≡ get_ready_for_next_parm syb (end_byte e) st'
      → parse_via_automaton syb (end_byte e ∷ rest) l st ≡ closing e rest st'
  end_round l f e st st' rest ends small p =
      step syb l (end_column e) f (end_byte e) (end_level e) st rest small (end-In e)
        (end_column-le e) (ends e)
      ∙ ap (after_char syb (λ j t. parse_via_automaton syb rest j t) (end_level e)) p

  pub end-at_10 :
      (e : End) (st : Rpc) (rest : Bytes)
      → st.dest_ind ≤ 1024
      → parse_via_automaton syb (end_byte e ∷ rest) 10 st ≡ closing e rest st
  unfolding process_1_rpc_char
  end-at_10 e st rest small = end_round 10 110 e st st rest at_10-Ends small refl

  pub end-at_12 :
      (e : End) (st : Rpc) (rest : Bytes)
      → st.dest_ind ≤ 1024
      → parse_via_automaton syb (end_byte e ∷ rest) 12 st ≡ closing e rest st
  unfolding process_1_rpc_char
  end-at_12 e st rest small = end_round 12 110 e st st rest at_12-Ends small refl

  module _ (s : Rpc) (cur q : ℕ) (nm : Bytes) where
    pub end-at_8 :
        (e : End) (v po rest : Bytes) (o i : ℕ)
        → i < length v
        → length v ≤ 1024
        → parse_via_automaton syb (end_byte e ∷ rest) 8 (place s cur q nm v po o i)
          ≡ closing e rest (place s cur q nm (set v i 0) po o (i + 1))
    unfolding process_1_rpc_char
    end-at_8 e v po rest o i h small =
        end_round 8 111 e (place s cur q nm v po o i) (place s cur q nm (set v i 0) po o (i + 1))
          rest at_8-Ends (omega arith) (rw (lt→ltb i (length v) h) refl)

-- ===== src/Rpc/Functions.antt =====
-- Every function of `ct10rpc_process_1_rpc_char` returns and keeps the variables in order.
use xmltp.Prelude.{
  ℕ, ◌+◌, ◌≤◌, ◌<◌, ◌≡◌, refl, ◌∙◌, Bool, true, false, Bool-cases, ◌||◌, ◌⊎◌, inl, inr, Option,
  none, some, arith, ◌==◌, lt→ltb, length, set, ℤ, neg, length-set,
}
use xmltp.Bytes.{codes, strcmp_eq}
use xmltp.Rpc.State.{
  Sybase, Rpc, rpc_syntax_continue, check_first_parm, process_rpc_name_char, process_end_rpc_name,
  process_next_parm_name_letter, process_end_parm_name, process_next_value_letter,
  process_end_value, process_next_output_ind, process_end_output_ind,
}
use xmltp.Rpc.Parse.{go_on}
use xmltp.Rpc.Total.{IsSound, IsCode, set-Small}
use xmltp.Rpc.Sound.{rpc_name-IsSound, parm_name-IsSound, parm_val-IsSound, output_ind-IsSound}

-- A parameter has been counted, or the next one is the first.
abbrev pub IsStarted : Rpc → Type 0
IsStarted s = (s.first_parm_ind ≡ 1) ⊎ (0 < s.current_parm)

-- The functions that start a parameter, and those that need one.
abbrev pub opens : ℕ → Bool
opens f = f == 101 || f == 103 || f == 108 || f == 117

abbrev pub needs : ℕ → Bool
needs f = f == 110 || f == 111 || f == 115

-- A function returned with a code and sound variables, one more byte written at most, and a
-- parameter counted where there was one, or where it starts one, unless it failed.
abbrev pub Post : Bool → ℕ → Rpc → Option (ℤ × Rpc) → Type 0
Post o d t none = ⊥
Post o d t (some (rc, s)) =
    IsCode rc
    × IsSound s
    × (s.dest_ind ≤ d + 1)
    × IsStarted s
    × (rc ≡ rpc_syntax_continue → (o ≡ true) ⊎ (0 < t.current_parm) → 0 < s.current_parm)
    × (s.parm_tbl_size ≡ t.parm_tbl_size)

pub check_first-cases :
    (s : Rpc)
    → IsStarted s
    → (check_first_parm s ≡ record s { current_parm = 1; first_parm_ind = 0 })
      ⊎ ((check_first_parm s ≡ s) × (0 < s.current_parm))
check_first-cases s (inl e) = inl (rw e refl)
check_first-cases s (inr l) = elim (Bool-cases (s.first_parm_ind == 1)) [
  | inl e ↦ inl (rw e refl)
  | inr e ↦ inr (rw e refl, l)
]

module _ (syb : Sybase) (s : Rpc) (h : IsSound s) (st : IsStarted s)
    (fits : s.dest_ind < 1024) where
  pub skip-Post : Post false s.dest_ind s (some (rpc_syntax_continue, s))
  skip-Post = (inl refl, h, omega arith, st, λ _ x. ground arith, refl)

  pub name-Post : (c : ℕ) → Post false s.dest_ind s (go_on (process_rpc_name_char c s))
  name-Post c = rw (lt→ltb s.dest_ind (length s.p_rpc_name) (omega (arith, h.rpc_name_size))) (
    inl refl,
    rpc_name-IsSound s (set s.p_rpc_name s.dest_ind c) (s.dest_ind + 1)
        (length-set s.p_rpc_name s.dest_ind c ∙ h.rpc_name_size) h,
    omega arith,
    st,
    λ _ x. ground arith,
    refl,
  )

  pub end_rpc_name-Post : Post false s.dest_ind s (go_on (process_end_rpc_name s))
  end_rpc_name-Post =
      rw (lt→ltb s.dest_ind (length s.p_rpc_name) (omega (arith, h.rpc_name_size))) (
        inl refl,
        rpc_name-IsSound s (set s.p_rpc_name s.dest_ind 0) s.dest_ind
            (length-set s.p_rpc_name s.dest_ind 0 ∙ h.rpc_name_size) h,
        omega arith,
        st,
        λ _ x. ground arith,
        refl,
      )

  pub parm_name-Post : (c : ℕ) → Post false s.dest_ind s (go_on (process_next_parm_name_letter c s))
  parm_name-Post c =
      rw (lt→ltb s.dest_ind (length s.p_parm_name) (omega (arith, h.parm_name_size))) (
        inl refl,
        parm_name-IsSound s (set s.p_parm_name s.dest_ind c) (s.dest_ind + 1)
            (length-set s.p_parm_name s.dest_ind c ∙ h.parm_name_size) h,
        omega arith,
        st,
        λ _ x. ground arith,
        refl,
      )

  pub end_name-Post : Post false s.dest_ind s (go_on (process_end_parm_name s))
  end_name-Post = rw (lt→ltb s.dest_ind (length s.p_parm_name) (omega (arith, h.parm_name_size))) (
    inl refl,
    parm_name-IsSound s (set s.p_parm_name s.dest_ind 0) s.dest_ind
        (length-set s.p_parm_name s.dest_ind 0 ∙ h.parm_name_size) h,
    omega arith,
    st,
    λ _ x. ground arith,
    refl,
  )

  pub value-Post :
      (c : ℕ) → c < 128 → Post false s.dest_ind s (go_on (process_next_value_letter c s))
  value-Post c l = rw (lt→ltb s.dest_ind (length s.p_parm_val) (omega (arith, h.parm_val_size))) (
    inl refl,
    parm_val-IsSound s (set s.p_parm_val s.dest_ind c) (s.dest_ind + 1)
        (length-set s.p_parm_val s.dest_ind c ∙ h.parm_val_size)
        (set-Small s.p_parm_val s.dest_ind c l h.val_ascii) h,
    omega arith,
    st,
    λ _ x. ground arith,
    refl,
  )

  pub output-Post : (c : ℕ) → Post false s.dest_ind s (go_on (process_next_output_ind c s))
  output-Post c =
      rw (lt→ltb s.dest_ind (length s.p_output_ind) (omega (arith, h.output_ind_size))) (
        inl refl,
        output_ind-IsSound s (set s.p_output_ind s.dest_ind c) (s.dest_ind + 1) s.output_ind
            (length-set s.p_output_ind s.dest_ind c ∙ h.output_ind_size) h,
        omega arith,
        st,
        λ _ x. ground arith,
        refl,
      )

  -- The value ends; the rest of its function may follow.
  unfoldable pub ended : Rpc
  ended = record s { p_parm_val = set s.p_parm_val s.dest_ind 0; dest_ind = s.dest_ind + 1 }

  pub process_end_value-ended : process_end_value s ≡ some ended
  unfolding ended
  process_end_value-ended =
      rw (lt→ltb s.dest_ind (length s.p_parm_val) (omega (arith, h.parm_val_size))) refl

  pub ended-IsSound : IsSound ended
  unfolding ended
  ended-IsSound =
      parm_val-IsSound s (set s.p_parm_val s.dest_ind 0) (s.dest_ind + 1)
        (length-set s.p_parm_val s.dest_ind 0 ∙ h.parm_val_size)
        (set-Small s.p_parm_val s.dest_ind 0 (omega arith) h.val_ascii) h

  pub end_value-Post : Post false s.dest_ind s (go_on (process_end_value s))
  unfolding ended
  end_value-Post =
      rw process_end_value-ended
        (inl refl, ended-IsSound, omega arith, st, λ _ x. ground arith, refl)

  -- The output indicator ends, with the code of its comparison.
  abbrev pub indicated : ℕ → Rpc
  indicated o = record s { p_output_ind = set s.p_output_ind s.dest_ind 0; output_ind = o }

  pub indicated-IsSound : (o : ℕ) → IsSound (indicated o)
  indicated-IsSound o =
      output_ind-IsSound s (set s.p_output_ind s.dest_ind 0) s.dest_ind o
        (length-set s.p_output_ind s.dest_ind 0 ∙ h.output_ind_size) h

  pub end_output-cases :
      (process_end_output_ind s ≡ some (rpc_syntax_continue, indicated 1))
      ⊎ (process_end_output_ind s ≡ some (neg 2, indicated s.output_ind))
  end_output-cases =
      let room = lt→ltb s.dest_ind (length s.p_output_ind) (omega (arith, h.output_ind_size)) in
      elim (Bool-cases (strcmp_eq (set s.p_output_ind s.dest_ind 0) (codes "OUTPUT"))) [
        | inl a ↦ inl (rw (room, a) refl)
        | inr a ↦ elim (Bool-cases (strcmp_eq (set s.p_output_ind s.dest_ind 0) (codes "OUT"))) [
          | inl b ↦ inl (rw (room, a, b) refl)
          | inr b ↦ inr (rw (room, a, b) refl)
        ]
      ]

  pub end_output-Post : Post false s.dest_ind s (process_end_output_ind s)
  end_output-Post = elim end_output-cases [
    | inl e ↦ rw e (inl refl, indicated-IsSound 1, omega arith, st, λ _ x. ground arith, refl)
    | inr e ↦
        rw e (
          inr (inr refl),
          indicated-IsSound s.output_ind,
          omega arith,
          st,
          λ _ x. ground arith,
          refl,
        )
  ]

-- ===== src/Rpc/Starts.antt =====
-- The functions of src/ct10api/ct10rpc_parse.c that start a parameter and those that end one.
use xmltp.Prelude.{
  ℕ, ◌+◌, ◌≤◌, ◌<◌, refl, ◌∙◌, true, false, Bool-cases, inl, inr, Option, none, some, arith, ◌==◌,
  lt→ltb, leb, length, set, ℤ, length-set,
}
use xmltp.Rpc.State.{
  Sybase, Rpc, rpc_syntax_continue, process_first_parm_name_letter, process_first_value_letter,
  process_first_quote, process_first_date_quote, process_end_value, process_first_output_ind,
  process_end_output_ind,
}
use xmltp.Rpc.Parm.{process_1_full_parm}
use xmltp.Rpc.Parse.{go_on, get_ready_for_next_parm, counted, value_then_ready, output_then_ready}
use xmltp.Rpc.Spec.{plain, quoted, braced}
use xmltp.Rpc.Expected.{IsSybase}
use xmltp.Rpc.Total.{IsSound, Kept, set-Small, process_1_full_parm-Kept}
use xmltp.Rpc.Sound.{
  parm_name-IsSound, parm_val-IsSound, output_ind-IsSound, opened-IsSound, quoted-IsSound,
  next-IsSound, first-IsSound,
}
use xmltp.Rpc.Functions.{
  IsStarted, Post, check_first-cases, ended, process_end_value-ended, ended-IsSound, indicated,
  indicated-IsSound, end_output-cases,
}

module _ (syb : Sybase) (s : Rpc) (h : IsSound s) (st : IsStarted s) where
  -- A parameter starts, with its quotes.
  pub open_name-Post : (c : ℕ) → Post true s.dest_ind s (go_on (process_first_parm_name_letter c s))
  open_name-Post c = elim (check_first-cases s st) [
    | inl e ↦
        rw (e, lt→ltb 0 (length s.p_parm_name) (omega (arith, h.parm_name_size)))
          (
            inl refl,
            parm_name-IsSound _ (set s.p_parm_name 0 c) (0 + 1)
                (length-set s.p_parm_name 0 c ∙ h.parm_name_size) (first-IsSound s h),
            omega arith,
            inr (omega arith),
            λ _ x. omega arith,
            refl,
          )
    | inr (e, l) ↦
        rw (e, lt→ltb 0 (length s.p_parm_name) (omega (arith, h.parm_name_size)))
          (
            inl refl,
            parm_name-IsSound s (set s.p_parm_name 0 c) (0 + 1)
                (length-set s.p_parm_name 0 c ∙ h.parm_name_size) h,
            omega arith,
            inr l,
            λ _ x. l,
            refl,
          )
  ]

  pub open_value-Post :
      (c : ℕ) → c < 128 → Post true s.dest_ind s (go_on (process_first_value_letter c s))
  open_value-Post c small = elim (check_first-cases s st) [
    | inl e ↦
        rw (e, lt→ltb 0 (length s.p_parm_val) (omega (arith, h.parm_val_size)))
          (
            inl refl,
            parm_val-IsSound _ (set s.p_parm_val 0 c) (0 + 1)
                (length-set s.p_parm_val 0 c ∙ h.parm_val_size)
                (set-Small s.p_parm_val 0 c small h.val_ascii) (opened-IsSound s plain h),
            omega arith,
            inr (omega arith),
            λ _ x. omega arith,
            refl,
          )
    | inr (e, l) ↦
        rw (e, lt→ltb 0 (length s.p_parm_val) (omega (arith, h.parm_val_size)))
          (
            inl refl,
            parm_val-IsSound _ (set s.p_parm_val 0 c) (0 + 1)
                (length-set s.p_parm_val 0 c ∙ h.parm_val_size)
                (set-Small s.p_parm_val 0 c small h.val_ascii) (quoted-IsSound s plain h),
            omega arith,
            inr l,
            λ _ x. l,
            refl,
          )
  ]

  pub open_quote-Post : Post true s.dest_ind s (some (rpc_syntax_continue, process_first_quote s))
  open_quote-Post = elim (check_first-cases s st) [
    | inl e ↦ rw e (
      inl refl,
      opened-IsSound s quoted h,
      omega arith,
      inr (omega arith),
      λ _ x. omega arith,
      refl,
    )
    | inr (e, l) ↦ rw e (inl refl, quoted-IsSound s quoted h, omega arith, inr l, λ _ x. l, refl)
  ]

  pub open_brace-Post :
      Post true s.dest_ind s (some (rpc_syntax_continue, process_first_date_quote s))
  open_brace-Post = elim (check_first-cases s st) [
    | inl e ↦ rw e (
      inl refl,
      opened-IsSound s braced h,
      omega arith,
      inr (omega arith),
      λ _ x. omega arith,
      refl,
    )
    | inr (e, l) ↦ rw e (inl refl, quoted-IsSound s braced h, omega arith, inr l, λ _ x. l, refl)
  ]

  pub open_output-Post : (c : ℕ) → Post false s.dest_ind s (go_on (process_first_output_ind c s))
  open_output-Post c = rw (lt→ltb 0 (length s.p_output_ind) (omega (arith, h.output_ind_size))) (
    inl refl,
    output_ind-IsSound s (set s.p_output_ind 0 c) (0 + 1) s.output_ind
        (length-set s.p_output_ind 0 c ∙ h.output_ind_size) h,
    omega arith,
    st,
    λ _ x. ground arith,
    refl,
  )

module _ (syb : Sybase) (room : IsSybase syb) where
  -- The next parameter is counted behind a comma.
  pub counted-Post :
      (c d : ℕ) (s : Rpc) (o : Option (ℤ × Rpc))
      → 0 < s.current_parm
      → s.dest_ind ≤ d + 1
      → Kept s.dest_ind s o
      → Post false d s (counted c o)
  counted-Post c d s none some_parm small h = h
  counted-Post c d s (some (rc, t)) some_parm small (code, sound, le, same, size) =
      elim (Bool-cases (c == b',')) [
        | inr e ↦ rw e (code, sound, omega arith, inr (omega arith), λ _ x. omega arith, size)
        | inl e ↦ elim (Bool-cases (leb t.parm_tbl_size t.current_parm)) [
          | inl full ↦
              rw (e, full)
                (inr (inl refl), sound, omega arith, inr (omega arith), λ _ x. omega arith, size)
          | inr rpc_free ↦
              rw (e, rpc_free)
                (
                  code,
                  next-IsSound t (ground arith) sound,
                  omega arith,
                  inr (omega arith),
                  λ _ x. omega arith,
                  size,
                )
        ]
      ]

  pub ready-Post :
      (c d : ℕ) (s : Rpc)
      → IsSound s
      → 0 < s.current_parm
      → s.dest_ind ≤ d + 1
      → Post false d s (get_ready_for_next_parm syb c s)
  ready-Post c d s h some_parm small =
      counted-Post c d s (process_1_full_parm syb s) some_parm small
        (process_1_full_parm-Kept syb room s h some_parm)

  module _ (s : Rpc) (h : IsSound s) (st : IsStarted s) (fits : s.dest_ind < 1024)
      (some_parm : 0 < s.current_parm) (c : ℕ) where
    pub value_ready-Post : Post false s.dest_ind s (value_then_ready syb c (process_end_value s))
    unfolding ended
    value_ready-Post = rw (process_end_value-ended syb s h st fits) (
        ready-Post c s.dest_ind (ended syb s h st fits) (ended-IsSound syb s h st fits) some_parm
          (omega arith))

    pub output_ready-Post :
        Post false s.dest_ind s (output_then_ready syb c (process_end_output_ind s))
    output_ready-Post = elim (end_output-cases syb s h st fits) [
      | inl e ↦ rw e (
          ready-Post c s.dest_ind (indicated syb s h st fits 1)
            (indicated-IsSound syb s h st fits 1) some_parm (omega arith))
      | inr e ↦ rw e (
        inr (inr refl),
        indicated-IsSound syb s h st fits s.output_ind,
        omega arith,
        st,
        λ _ x. some_parm,
        refl,
      )
    ]

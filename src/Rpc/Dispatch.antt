-- ===== src/Rpc/Dispatch.antt =====
-- `ct10rpc_process_1_rpc_char` returns and keeps the variables in order.
use xmltp.Prelude.{
  ℕ, ◌<◌, ◌≡◌, refl, true, sym, Bool-cases, inl, inr, Option, arith, ◌==◌, ==_iff, ℤ, if◌then◌else◌,
}
use mathlib.Core.Path.{subst}
use xmltp.Rpc.State.{Sybase, Rpc, toupper}
use xmltp.Rpc.Parse.{process_1_rpc_char}
use xmltp.Rpc.Expected.{IsSybase}
use xmltp.Rpc.Total.{IsSound}
use xmltp.Rpc.Functions.{
  IsStarted, opens, needs, Post, skip-Post, name-Post, end_rpc_name-Post, parm_name-Post,
  end_name-Post, value-Post, output-Post, end_value-Post, end_output-Post,
}
use xmltp.Rpc.Starts.{
  open_name-Post, open_value-Post, open_quote-Post, open_brace-Post, open_output-Post, ready-Post,
  value_ready-Post, output_ready-Post,
}

-- What a function needs before it is called.
abbrev Needed : ℕ → Rpc → Type 0
Needed f s = needs f ≡ true → 0 < s.current_parm

module _ (s : Rpc) (f : ℕ) (need : Needed f s) where
  -- One branch of the `switch`, by the number of its function.
  branch :
      (n : ℕ) (x y : Option (ℤ × Rpc))
      → (Needed n s → Post (opens n) s.dest_ind s x)
      → Post (opens f) s.dest_ind s y
      → Post (opens f) s.dest_ind s (if f == n then x else y)
  branch n x y p rest = elim (Bool-cases (f == n)) [
    | inr e ↦ rw e rest
    | inl e ↦
        let same : f ≡ n = ground (arith, ==_iff f n) in
        rw e (
          subst (λ k. Post (opens k) s.dest_ind s x) (sym same)
            (p (subst (λ k. Needed k s) same need)))
  ]

module _ (syb : Sybase) (room : IsSybase syb) where
  pub process-Post :
      (f c : ℕ) (s : Rpc)
      → c < 128
      → IsSound s
      → IsStarted s
      → s.dest_ind < 1024
      → Needed f s
      → Post (opens f) s.dest_ind s (process_1_rpc_char syb f c s)
  unfolding process_1_rpc_char
  process-Post f c s small h st fits need =
      let on = branch s f need in
      on 0 _ _ (λ need. skip-Post syb s h st fits)
        (on 100 _ _ (λ need. name-Post syb s h st fits c)
          (on 101 _ _ (λ need. open_name-Post syb s h st c)
            (on 102 _ _ (λ need. parm_name-Post syb s h st fits c)
              (on 105 _ _ (λ need. end_name-Post syb s h st fits)
                (on 103 _ _ (λ need. open_value-Post syb s h st c small)
                  (on 104 _ _ (λ need. value-Post syb s h st fits c small)
                    (on 107 _ _ (λ need. value-Post syb s h st fits c small)
                      (on 106 _ _ (λ need. end_value-Post syb s h st fits)
                        (on 109 _ _ (λ need. end_value-Post syb s h st fits)
                          (on 108 _ _ (λ need. open_quote-Post syb s h st)
                            (on 110 _ _
                              (λ need.
                                ready-Post syb room c s.dest_ind s h (need refl) (omega arith))
                              (on 111 _ _
                                (λ need. value_ready-Post syb room s h st fits (need refl) c)
                                (on 112 _ _ (λ need. open_output-Post syb s h st (toupper c))
                                  (on 113 _ _ (λ need. output-Post syb s h st fits (toupper c))
                                    (on 114 _ _ (λ need. end_output-Post syb s h st fits)
                                      (on 115 _ _
                                        (λ need.
                                          output_ready-Post syb room s h st fits (need refl) c)
                                        (on 116 _ _ (λ need. end_rpc_name-Post syb s h st fits)
                                          (on 117 _ _ (λ need. open_brace-Post syb s h st)
                                            ((
                                              inr (inl refl),
                                              h,
                                              omega arith,
                                              st,
                                              λ e _. absurd cc,
                                              refl,
                                            ))))))))))))))))))))

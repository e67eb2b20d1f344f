-- ===== src/Rpc/Safety.antt =====
-- The parser of src/ct10api/ct10rpc_parse.c stays inside its arrays.
use xmltp.Prelude.{
  ℕ, suc, ◌+◌, ◌≤◌, ◌<◌, ◌≡◌, refl, ap, ◌∙◌, Bool, true, false, Bool-cases, ◌&&◌, ◌||◌, ◌⊎◌, inl,
  inr, Option, none, some, [], ◌∷◌, ◌++◌, arith, ◌==◌, leb, length, All, ℤ, pos, negsuc, neg,
  is_neg, if◌then◌else◌,
}
use xmltp.Bytes.{Bytes}
use xmltp.Rpc.Table.{automaton_entry}
use xmltp.Rpc.State.{Sybase, Rpc, rpc_syntax_continue}
use xmltp.Rpc.Parse.{parse_via_automaton, process_1_rpc_char, after_char}
use xmltp.Rpc.Steps.{step}
use xmltp.Rpc.Classes.{column, class_of, class_of-In, column-le}
use xmltp.Rpc.Expected.{IsSybase}
use xmltp.Rpc.Total.{IsSound}
use xmltp.Rpc.Functions.{IsStarted, opens, needs, Post}
use xmltp.Rpc.Dispatch.{process-Post}
use xmltp.Rpc.Levels.{next_fits, entry_fits, and_both, automaton_entry-fits, nul_ends}

-- The codes of the parser.
abbrev pub IsResult : ℤ → Type 0
IsResult rc = (rc ≡ neg 999) ⊎ ((rc ≡ neg 1) ⊎ ((rc ≡ neg 2) ⊎ (rc ≡ neg 10)))

-- The parser returned, with one of its codes and sound variables, for a table of `n` places.
abbrev pub Safe : ℕ → Option (ℤ × Rpc) → Type 0
Safe n none = ⊥
Safe n (some (rc, s)) = IsResult rc × IsSound s × (s.parm_tbl_size ≡ n)

-- What holds before a round in level `l`.
pub record Before (n l k : ℕ) (s : Rpc) : Type 0 where
  pub level_le : l ≤ 13
  pub sound : IsSound s
  pub started : IsStarted s
  pub counted : 5 ≤ l → 0 < s.current_parm
  pub dest_le : s.dest_ind ≤ k
  pub size_is : s.parm_tbl_size ≡ n

or_three : (a b c : Bool) → a || b || c ≡ true → (a ≡ true) ⊎ ((b ≡ true) ⊎ (c ≡ true))
or_three true b c h = inl refl
or_three false true c h = inr (inl refl)
or_three false false c h = inr (inr h)

negative-IsResult : (l f n : ℕ) → next_fits l f (negsuc n) ≡ true → IsResult (negsuc n)
unfolding next_fits
negative-IsResult l f n h = elim (or_three (n == 0) (n == 1) (n == 998) h) [
  | inl e ↦ inr (inl (ap negsuc (ground arith)))
  | inr (inl e) ↦ inr (inr (inl (ap negsuc (ground arith))))
  | inr (inr e) ↦ inl (ap negsuc (ground arith))
]

-- A level that fits has a parameter counted where it needs one.
level-counted :
    (l f l' : ℕ) (s s' : Rpc)
    → next_fits l f (pos l') ≡ true
    → (5 ≤ l → 0 < s.current_parm)
    → ((opens f ≡ true) ⊎ (0 < s.current_parm) → 0 < s'.current_parm)
    → 5 ≤ l'
    → 0 < s'.current_parm
unfolding next_fits
level-counted l f l' s s' h counted kept deep = elim (Bool-cases (leb 5 l)) [
  | inl e ↦ kept (inr (counted (ground arith)))
  | inr e ↦ elim (Bool-cases (opens f)) [
    | inl o ↦ kept (inl o)
    | inr o ↦ absurd (refused (leb l' 13) (leb 5 l') (leb 5 l) (opens f) h (ground arith) e o)
  ]
]
  where
    refused :
        (a b c o : Bool)
        → a && (if b then c || o else true) ≡ true
        → b ≡ true
        → c ≡ false
        → o ≡ false
        → ⊥
    refused a b c o h' e1 e2 e3 = absurd (ground arith)

level-le : (l f l' : ℕ) → next_fits l f (pos l') ≡ true → l' ≤ 13
unfolding next_fits
level-le l f l' h =
    let e : leb l' 13 ≡ true =
      (and_both (leb l' 13) (if leb 5 l' then leb 5 l || opens f else true) h).0 in
    ground arith

module _ (syb : Sybase) (again : ℕ → Rpc → Option (ℤ × Rpc)) (n l f k : ℕ) (s : Rpc)
    (b : Before n l k s) where
  next-Safe :
      (next : ℤ) (s' : Rpc)
      → next_fits l f next ≡ true
      → IsSound s'
      → s'.dest_ind ≤ s.dest_ind + 1
      → IsStarted s'
      → ((opens f ≡ true) ⊎ (0 < s.current_parm) → 0 < s'.current_parm)
      → s'.parm_tbl_size ≡ s.parm_tbl_size
      → ((l' : ℕ) (t : Rpc) → next ≡ pos l' → Before n l' (suc k) t → Safe n (again l' t))
      → Safe n (after_char syb again next (some (rpc_syntax_continue, s')))
  next-Safe (negsuc m) s' h sound le st kept size ih =
      (negative-IsResult l f m h, sound, size ∙ b.size_is)
  next-Safe (pos l') s' h sound le st kept size ih = ih l' s' refl (record {
    level_le = level-le l f l' h;
    sound = sound;
    started = st;
    counted = level-counted l f l' s s' h b.counted kept;
    dest_le = omega (arith, b.dest_le);
    size_is = size ∙ b.size_is;
  })

  after-Safe :
      (next : ℤ) (x : Option (ℤ × Rpc))
      → next_fits l f next ≡ true
      → Post (opens f) s.dest_ind s x
      → ((l' : ℕ) (t : Rpc) → next ≡ pos l' → Before n l' (suc k) t → Safe n (again l' t))
      → Safe n (after_char syb again next x)
  after-Safe next none h p ih = p
  after-Safe next (some (rc, s')) h (inl e, sound, le, st, kept, size) ih =
      rw e (next-Safe next s' h sound le st (kept e) size ih)
  after-Safe next (some (rc, s')) h (inr (inl e), sound, le, st, kept, size) ih =
      rw e (inr (inr (inr refl)), sound, size ∙ b.size_is)
  after-Safe next (some (rc, s')) h (inr (inr e), sound, le, st, kept, size) ih =
      rw e (inr (inr (inr refl)), sound, size ∙ b.size_is)

needed : (f l : ℕ) → needs f ≡ true → (if needs f then leb 5 l else true) ≡ true → 5 ≤ l
needed f l n h = let e : leb 5 l ≡ true = rw n at h in ground arith

pos-not_neg : (z : ℤ) (l : ℕ) → is_neg z ≡ true → z ≡ pos l → ⊥
pos-not_neg z l h e = let k : is_neg (pos l) ≡ true = rw e at h in absurd cc

module _ (syb : Sybase) (room : IsSybase syb) where
  -- A round, on an ASCII character.
  round-Safe :
      (c n l k : ℕ) (s : Rpc) (rest : Bytes)
      → c < 128
      → k < 1024
      → Before n l k s
      → ((l' : ℕ) (t : Rpc)
          → (automaton_entry l (column (class_of c))).0 ≡ pos l'
          → Before n l' (suc k) t
          → Safe n (parse_via_automaton syb rest l' t))
      → Safe n (parse_via_automaton syb (c ∷ rest) l s)
  unfolding entry_fits
  round-Safe c n l k s rest small room_left b ih =
      let col = column (class_of c) in
      let f = (automaton_entry l col).1 in
      let fit =
        and_both (next_fits l f (automaton_entry l col).0) (if needs f then leb 5 l else true)
          (automaton_entry-fits l col b.level_le) in
      rw
        (step syb l col f c (automaton_entry l col).0 s rest (omega (arith, b.dest_le))
          (class_of-In c (omega arith)) (column-le (class_of c)) refl)
        (after-Safe syb (λ j t. parse_via_automaton syb rest j t) n l f k s b
          (automaton_entry l col).0 (process_1_rpc_char syb f c s) fit.0
          (process-Post syb room f c s small b.sound b.started (omega (arith, b.dest_le))
            (λ n. b.counted (needed f l n fit.1)))
          ih)

  -- A C string, from any level.
  pub parse_via_automaton-Safe :
      (w : Bytes) (n l k : ℕ) (s : Rpc)
      → All (λ c. c < 128) w
      → k + length w < 1024
      → Before n l k s
      → Safe n (parse_via_automaton syb (w ++ 0 ∷ []) l s)
  unfolding class_of
  parse_via_automaton-Safe [] n l k s h fits b =
      round-Safe 0 n l k s [] (omega arith) (omega arith) b
        (λ l' t e before. absurd (pos-not_neg (automaton_entry l 9).0 l' (nul_ends l b.level_le) e))
  parse_via_automaton-Safe (c ∷ w) n l k s (small, h) fits b =
      round-Safe c n l k s (w ++ 0 ∷ []) small (omega arith) b
        (λ l' t e before. parse_via_automaton-Safe w n l' (suc k) t h (omega arith) before)

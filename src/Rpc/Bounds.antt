-- ===== src/Rpc/Bounds.antt =====
-- `ct10rpc_parse` on any text: it returns, inside its arrays.
use xmltp.Prelude.{
  ℕ, zero, suc, ◌≤◌, ◌<◌, ◌≡◌, refl, ◌∙◌, ◌⊎◌, inl, inr, Option, none, some, List, [], ◌∷◌, ◌++◌,
  arith, length, drop, All, ℤ, neg, eq_ℤ, length-set, length-append, length-drop, if◌then◌else◌,
}
use xmltp.Bytes.{Bytes, c_string}
use xmltp.Rpc.State.{Sybase, Parm, Rpc, rpc_syntax_ok}
use xmltp.Rpc.Parse.{parse_via_automaton, initialise, RpcAnswer, give_answer, parse}
use xmltp.Rpc.Spec.{Quoting}
use xmltp.Rpc.Expected.{quote_number, IsSybase, field}
use xmltp.Rpc.Total.{IsSound, set-Small}
use xmltp.Rpc.Safety.{IsResult, Safe, parse_via_automaton-Safe}
use xmltp.Rpc.Call.{
  given, cleared, length-cleared, length-field, parse-given, accepted, answer_accepted,
}

-- The variables between two calls: the sizes of the buffers, quotes of a value, ASCII characters.
pub record IsOrderly (s : Rpc) : Type 0 where
  pub rpc_name_size : length s.p_rpc_name ≡ 1024
  pub parm_name_size : length s.p_parm_name ≡ 1024
  pub parm_val_size : length s.p_parm_val ≡ 1024
  pub output_ind_size : length s.p_output_ind ≡ 1024
  pub val_ascii : All (λ c. c < 128) s.p_parm_val
  pub quoting : Quoting
  pub quote_is : s.quote_ind ≡ quote_number quoting

-- An answer with one of the four codes; it counts parameters only where the text is accepted, and
-- not more than the table has places; the array of the name keeps its size, and the variables
-- their order.
pub record IsBounded (a : RpcAnswer) (rpc_name : Bytes) (tbl : List (Option Parm)) : Type 0 where
  pub code : IsResult a.rc
  pub count_fits : a.nb_parm ≤ length tbl
  pub count_none : (a.rc ≡ rpc_syntax_ok) ⊎ (a.nb_parm ≡ 0)
  pub name_size : length a.rpc_name ≡ length rpc_name
  pub orderly : IsOrderly a.rpc

IsSound-IsOrderly : (s : Rpc) → IsSound s → IsOrderly s
IsSound-IsOrderly s h = record {
  rpc_name_size = h.rpc_name_size;
  parm_name_size = h.parm_name_size;
  parm_val_size = h.parm_val_size;
  output_ind_size = h.output_ind_size;
  val_ascii = h.val_ascii;
  quoting = h.quoting;
  quote_is = h.quote_is;
}

module _ (syb : Sybase) (room : IsSybase syb) (s : Rpc) (h : IsOrderly s) where
  initialise-IsSound :
      (tbl : List (Option Parm)) → 0 < length tbl → IsSound (initialise syb tbl (length tbl) s)
  initialise-IsSound tbl l = record {
    rpc_name_size = length-set s.p_rpc_name 0 0 ∙ h.rpc_name_size;
    parm_name_size = length-set s.p_parm_name 0 0 ∙ h.parm_name_size;
    parm_val_size = length-set s.p_parm_val 0 0 ∙ h.parm_val_size;
    output_ind_size = length-set s.p_output_ind 0 0 ∙ h.output_ind_size;
    table_size = refl;
    some_place = l;
    count_fits = omega arith;
    val_ascii = set-Small s.p_parm_val 0 0 (omega arith) h.val_ascii;
    quoting = h.quoting;
    quote_is = h.quote_is;
  }

refused :
    (rc : ℤ)
    → (rc ≡ neg 1) ⊎ ((rc ≡ neg 2) ⊎ (rc ≡ neg 10))
    → (x y : Option RpcAnswer) → (if eq_ℤ rc rpc_syntax_ok then x else y) ≡ y
refused rc (inl e) x y = rw e refl
refused rc (inr (inl e)) x y = rw e refl
refused rc (inr (inr e)) x y = rw e refl

-- The answer to each outcome of the automaton.
give_answer-IsBounded :
    (rpc_name : Bytes) (size : ℕ) (tbl : List (Option Parm)) (x : Option (ℤ × Rpc))
    → 0 < size
    → size ≤ length rpc_name
    → Safe (length tbl) x
    → (a : RpcAnswer) × (give_answer (cleared rpc_name size) size x ≡ some a)
      × IsBounded a rpc_name tbl
give_answer-IsBounded rpc_name size tbl none hs fits h = absurd h
give_answer-IsBounded rpc_name size tbl (some (rc, s)) hs fits (inl e, sound, size_is) = (
  accepted (field (c_string s.p_rpc_name) size) (drop size rpc_name) s,
  (rw e (answer_accepted rpc_name (c_string s.p_rpc_name) size s hs fits refl)),
  record {
    code = inl refl;
    count_fits = omega (arith, sound.count_fits, size_is);
    count_none = inl refl;
    name_size = omega (
      arith,
      length-append (field (c_string s.p_rpc_name) size) (drop size rpc_name),
      length-field (c_string s.p_rpc_name) size hs,
      length-drop size rpc_name,
    );
    orderly = IsSound-IsOrderly s sound;
  },
)
give_answer-IsBounded rpc_name size tbl (some (rc, s)) hs fits (inr e, sound, size_is) = (
  record { rc = rc; rpc_name = cleared rpc_name size; nb_parm = 0; rpc = s },
  refused rc e _ _,
  record {
    code = inr e;
    count_fits = omega arith;
    count_none = inr refl;
    name_size = length-cleared rpc_name size fits;
    orderly = IsSound-IsOrderly s sound;
  },
)

module _ (syb : Sybase) (room : IsSybase syb) (s : Rpc) (h : IsOrderly s) where
  -- `ct10rpc_parse`, with no argument that is NULL, on any text of less than 1,024 ASCII characters,
  -- and whatever memory and cs_convert answer: it returns, without an access outside of an array,
  -- one of its four codes; the count of the parameters is at most the size of the table, and 0
  -- where the text is not accepted; the array of the name keeps its size, and the variables are
  -- in order for the next call.
  pub parse-IsBounded :
      (w rpc_name : Bytes) (size : ℕ) (tbl : List (Option Parm))
      → All (λ c. c < 128) w
      → length w < 1024
      → 0 < size
      → size ≤ length rpc_name
      → 0 < length tbl
      → (a : RpcAnswer) × (parse syb (given (w ++ 0 ∷ []) rpc_name size tbl) s ≡ some a)
        × IsBounded a rpc_name tbl
  parse-IsBounded w rpc_name zero tbl ascii short hs fits places = absurd (omega arith)
  parse-IsBounded w rpc_name (suc n) [] ascii short hs fits places = absurd (omega arith)
  parse-IsBounded w rpc_name (suc n) (x ∷ tbl) ascii short hs fits places =
      let begun = initialise syb (x ∷ tbl) (length (x ∷ tbl)) s in
      let (a, e, b) =
        give_answer-IsBounded rpc_name (suc n) (x ∷ tbl)
          (parse_via_automaton syb (w ++ 0 ∷ []) 0 begun) hs fits
          (parse_via_automaton-Safe syb room w (length (x ∷ tbl)) 0 0 begun ascii (omega arith)
            (record {
              level_le = omega arith;
              sound = initialise-IsSound syb room s h (x ∷ tbl) places;
              started = inl refl;
              counted = λ deep. absurd (omega arith);
              dest_le = omega arith;
              size_is = refl;
            })) in
      (a, parse-given syb s (w ++ 0 ∷ []) rpc_name n x tbl fits ∙ e, b)

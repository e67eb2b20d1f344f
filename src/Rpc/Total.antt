-- ===== src/Rpc/Total.antt =====
-- `ct10rpc_process_1_full_parm` returns, whatever memory and cs_convert do, and keeps the variables
-- in order.
use xmltp.Prelude.{
  ℕ, zero, suc, ◌-◌, ◌≤◌, ◌<◌, ◌≡◌, refl, sym, ap, ◌∙◌, Bool, true, false, Bool-cases, ◌⊎◌, inl,
  inr, Option, none, some, [], ◌∷◌, arith, ◌==◌, lt→ltb, length, set, All, ℤ, pos, neg, length-set,
}
use xmltp.Bytes.{Bytes, c_string}
use xmltp.NumString.Accepts.{Ascii}
use xmltp.Rpc.State.{
  Datatype, cs_int_type, cs_float_type, cs_char_type, cs_datetime_type, Sybase, Parm, new_parm, Rpc,
  rpc_syntax_continue, rpc_syntax_fail,
}
use xmltp.Rpc.Parm.{
  find_type, check_null, describe, clear, end_parm, calloc, fill_parm, make_parm,
  process_1_full_parm, converted,
}
use xmltp.Rpc.Spec.{Quoting, plain, quoted, braced}
use xmltp.Rpc.Expected.{type_of, content, quote_number, IsSybase, char_size, sizes_of}
use xmltp.Rpc.Types.{typed, IsRead, find_type-kinds, ct10strncpy-field}
use xmltp.Rpc.Describe.{sized, named, set_size-sizes, char_text, char_size-positive}
use xmltp.Rpc.Place.{==_false}

-- The buffers have their size, the table its places, and the count of the parameters fits them;
-- the value is of ASCII characters.
pub record IsSound (s : Rpc) : Type 0 where
  pub rpc_name_size : length s.p_rpc_name ≡ 1024
  pub parm_name_size : length s.p_parm_name ≡ 1024
  pub parm_val_size : length s.p_parm_val ≡ 1024
  pub output_ind_size : length s.p_output_ind ≡ 1024
  pub table_size : s.parm_tbl_size ≡ length s.parm_tbl
  pub some_place : 0 < s.parm_tbl_size
  pub count_fits : s.current_parm ≤ s.parm_tbl_size
  pub val_ascii : All (λ c. c < 128) s.p_parm_val
  pub quoting : Quoting
  pub quote_is : s.quote_ind ≡ quote_number quoting

-- The codes of one function.
abbrev pub IsCode : ℤ → Type 0
IsCode rc = (rc ≡ rpc_syntax_continue) ⊎ ((rc ≡ rpc_syntax_fail) ⊎ (rc ≡ neg 2))

-- A function returned: with a code, sound variables, the count as it was, and `dest_ind` at most
-- `d`; the size of the table is not touched.
abbrev pub Kept : ℕ → Rpc → Option (ℤ × Rpc) → Type 0
Kept d t none = ⊥
Kept d t (some (rc, s)) =
    IsCode rc
    × IsSound s
    × (s.dest_ind ≤ d)
    × (s.current_parm ≡ t.current_parm)
    × (s.parm_tbl_size ≡ t.parm_tbl_size)

c_string-Ascii : (b : Bytes) → All (λ c. c < 128) b → Ascii (c_string b)
unfolding c_string
c_string-Ascii [] h = tt
c_string-Ascii (c ∷ b) (l, h) = elim (Bool-cases (c == 0)) [
  | inl e ↦ rw e tt
  | inr e ↦ rw e ((l, ground arith), c_string-Ascii b h)
]

pub set-Small :
    (b : Bytes) (i c : ℕ) → c < 128 → All (λ x. x < 128) b → All (λ x. x < 128) (set b i c)
set-Small [] i c l h = tt
set-Small (x ∷ b) zero c l h = (l, h.1)
set-Small (x ∷ b) (suc i) c l h = (h.0, set-Small b i c l h.1)

IsRead-ascii : (q : Quoting) (b : Bytes) → All (λ c. c < 128) b → IsRead q (c_string b)
IsRead-ascii plain b h = c_string-Ascii b h
IsRead-ascii quoted b h = tt
IsRead-ascii braced b h = tt

module _ (syb : Sybase) (room : IsSybase syb) where
  -- What `describe` returns.
  abbrev Described : Option (ℤ × Parm) → Type 0
  Described o = (rc : ℤ) × (p : Parm) × (o ≡ some (rc, p)) × ((rc ≡ pos 0) ⊎ (rc ≡ neg 10))

  converted-Described : (p : Parm) (c : Option Bytes) → Described (some (converted syb p c))
  converted-Described p none = (_, _, refl, inr refl)
  converted-Described p (some b) = (_, _, refl, inl refl)

  describe-Described :
      (name val : Bytes) (null : Bool) (t : Datatype) (o : ℕ)
      → Described (describe syb val o (named syb name val (null, t)))
  describe-Described name val true t o =
      rw (ct10strncpy-field name syb.max_name room.0) (_, _, refl, inl refl)
  describe-Described name val false cs_char_type o =
      rw
        (
          ct10strncpy-field name syb.max_name room.0,
          char_text syb val,
          ct10strncpy-field (content val) (char_size syb syb.max_char val)
              (char_size-positive syb syb.max_char val room.1),
        )
        (_, _, refl, inl refl)
  describe-Described name val false cs_int_type o =
      rw (ct10strncpy-field name syb.max_name room.0)
        (converted-Described _ (syb.cs_convert val cs_int_type 4))
  describe-Described name val false cs_float_type o =
      rw (ct10strncpy-field name syb.max_name room.0)
        (converted-Described _ (syb.cs_convert val cs_float_type 8))
  describe-Described name val false cs_datetime_type o =
      rw (ct10strncpy-field name syb.max_name room.0)
        (converted-Described _ (syb.cs_convert val cs_datetime_type 24))

  -- The variables behind the two writes.
  put-IsSound :
      (s : Rpc) (i : ℕ) (p : Option Parm)
      → IsSound s
      → IsSound (record s { parm_tbl = set s.parm_tbl i p })
  put-IsSound s i p h = record {
    rpc_name_size = h.rpc_name_size;
    parm_name_size = h.parm_name_size;
    parm_val_size = h.parm_val_size;
    output_ind_size = h.output_ind_size;
    table_size = h.table_size ∙ sym (length-set s.parm_tbl i p);
    some_place = h.some_place;
    count_fits = h.count_fits;
    val_ascii = h.val_ascii;
    quoting = h.quoting;
    quote_is = h.quote_is;
  }

  clear-IsSound : (s : Rpc) → IsSound s → IsSound (clear syb s)
  clear-IsSound s h = record {
    rpc_name_size = h.rpc_name_size;
    parm_name_size = length-set s.p_parm_name 0 0 ∙ h.parm_name_size;
    parm_val_size = length-set s.p_parm_val 0 0 ∙ h.parm_val_size;
    output_ind_size = length-set s.p_output_ind 0 0 ∙ h.output_ind_size;
    table_size = h.table_size;
    some_place = h.some_place;
    count_fits = h.count_fits;
    val_ascii = set-Small s.p_parm_val 0 0 (omega arith) h.val_ascii;
    quoting = h.quoting;
    quote_is = h.quote_is;
  }

  calloc-IsSound : (s : Rpc) → IsSound s → IsSound (calloc s).1
  calloc-IsSound s h = record {
    rpc_name_size = h.rpc_name_size;
    parm_name_size = h.parm_name_size;
    parm_val_size = h.parm_val_size;
    output_ind_size = h.output_ind_size;
    table_size = h.table_size;
    some_place = h.some_place;
    count_fits = h.count_fits;
    val_ascii = h.val_ascii;
    quoting = h.quoting;
    quote_is = h.quote_is;
  }

  end_parm-Kept :
      (i : ℕ) (s : Rpc) (o : Option (ℤ × Parm))
      → IsSound s
      → Described o
      → Kept s.dest_ind s (end_parm syb i s o)
  end_parm-Kept i s o h (rc, p, e, inl z) =
      rw (e, z) (inl refl, clear-IsSound _ (put-IsSound s i (some p) h), omega arith, refl, refl)
  end_parm-Kept i s o h (rc, p, e, inr z) =
      rw (e, z) (inr (inl refl), put-IsSound s i (some p) h, omega arith, refl, refl)

  fill_parm-Kept :
      (i : ℕ) (val name : Bytes) (null : Bool) (t : Datatype) (s : Rpc) (granted : Bool)
      → IsSound s
      → Kept s.dest_ind s
          (fill_parm syb i val name (sized (null, t) (sizes_of syb t val)) (granted, s))
  fill_parm-Kept i val name null t s false h =
      (inr (inl refl), put-IsSound s i _ h, omega arith, refl, refl)
  fill_parm-Kept i val name null t s true h =
      end_parm-Kept i s _ h (describe-Described name val null t s.output_ind)

  kind_found :
      (s : Rpc) (h : IsSound s)
      → find_type
          (c_string s.p_parm_val)
          s.quote_ind
          (check_null (c_string s.p_parm_val) s.quote_ind new_parm)
        ≡ some (typed (type_of h.quoting (c_string s.p_parm_val)))
  kind_found s h =
      ap
        (λ (q : ℕ).
          find_type (c_string s.p_parm_val) q (check_null (c_string s.p_parm_val) q new_parm))
        h.quote_is
      ∙ find_type-kinds h.quoting (c_string s.p_parm_val)
          (IsRead-ascii h.quoting s.p_parm_val h.val_ascii)

  make_parm-Kept :
      (i : ℕ) (s : Rpc) (granted : Bool)
      → IsSound s
      → Kept s.dest_ind s
          (make_parm syb i (c_string s.p_parm_val) (c_string s.p_parm_name) (granted, s))
  make_parm-Kept i s false h = (inr (inl refl), put-IsSound s i none h, omega arith, refl, refl)
  make_parm-Kept i s true h =
      let k = type_of h.quoting (c_string s.p_parm_val) in
      rw (kind_found s h, set_size-sizes syb k.0 k.1 (c_string s.p_parm_val))
        (fill_parm-Kept i (c_string s.p_parm_val) (c_string s.p_parm_name) k.0 k.1 _ _
          (calloc-IsSound s h))

  pub process_1_full_parm-Kept :
      (s : Rpc) → IsSound s → 0 < s.current_parm → Kept s.dest_ind s (process_1_full_parm syb s)
  unfolding process_1_full_parm
  process_1_full_parm-Kept s h some_parm =
      rw
        (
          ==_false s.current_parm (omega arith),
          lt→ltb (s.current_parm - 1) (length s.parm_tbl)
              (omega (arith, h.table_size, h.count_fits)),
        )
        (make_parm-Kept (s.current_parm - 1) _ _ (calloc-IsSound s h))

-- ===== src/Rpc/Expected.antt =====
-- The structure that a parameter of a call is to become, for the parser of
-- src/ct10api/ct10rpc_parse.c.
use xmltp.Prelude.{
  ℕ, ◌+◌, ◌-◌, ◌≤◌, ◌<◌, ◌≡◌, Bool, true, false, Option, none, some, List, [], ◌∷◌, ◌++◌, ◌==◌,
  if◌then◌else◌, length, take, replicate, pos, neg,
}
use xmltp.Bytes.{Bytes, codes, strcmp_eq}
use xmltp.NumString.Spec.{is_int, is_float}
use xmltp.Rpc.State.{
  Datatype, cs_int_type, cs_float_type, cs_char_type, cs_datetime_type, Format, unset,
  cs_fmt_unused, cs_fmt_nullterm, cs_inputvalue, cs_return, Sybase, Parm,
}
use xmltp.Rpc.Spec.{Quoting, plain, quoted, braced, Label, OutputWord, Arg}

-- The data type of a value, and whether it is null.
abbrev pub plain_type : Bytes → Bool × Datatype
plain_type text =
    if strcmp_eq text (codes "NULL")
    then (true, cs_int_type)
    else if strcmp_eq text (codes "NULL_C")
    then (true, cs_char_type)
    else if strcmp_eq text (codes "NULL_I")
    then (true, cs_int_type)
    else if strcmp_eq text (codes "NULL_F")
    then (true, cs_float_type)
    else if strcmp_eq text (codes "NULL_D")
    then (true, cs_datetime_type)
    else if is_int text
    then (false, cs_int_type)
    else if is_float text
    then (false, cs_float_type)
    else (false, cs_char_type)

abbrev pub type_of : Quoting → Bytes → Bool × Datatype
type_of plain text = plain_type text
type_of quoted text = (strcmp_eq text (codes "NULL"), cs_char_type)
type_of braced text = (strcmp_eq text (codes "NULL"), cs_datetime_type)

-- An empty string of characters is passed as a space.
abbrev pub content : Bytes → Bytes
content [] = b' ' ∷ []
content (c ∷ text) = c ∷ text

-- A C string in an array, with NULs up to its end.
abbrev pub field : Bytes → ℕ → Bytes
field text size = let t = take (size - 1) text in t ++ replicate (size - length t) 0

abbrev pub name_of : Option Label → Bytes
name_of none = []
name_of (some l) = b'@' ∷ l.word

abbrev pub has_output : Option OutputWord → Bool
has_output none = false
has_output (some _) = true

-- The number of a way to quote in `quote_ind`.
abbrev pub quote_number : Quoting → ℕ
quote_number plain = 0
quote_number quoted = 1
quote_number braced = 2

module _ (syb : Sybase) where
  -- The constants leave room for a name and for a string of characters.
  abbrev pub HasRoom : Option ℕ → Type 0
  HasRoom none = Unit {0}
  HasRoom (some max_char) = 2 ≤ max_char

  abbrev pub IsSybase : Type 0
  IsSybase = (0 < syb.max_name) × HasRoom syb.max_char

  abbrev pub char_size : Option ℕ → Bytes → ℕ
  char_size none text = length (content text) + 1
  char_size (some max_char) text = max_char - 1

  -- The length of a value, and the size of its buffer.
  abbrev pub sizes_of : Datatype → Bytes → ℕ × ℕ
  sizes_of cs_int_type text = (4, 4)
  sizes_of cs_float_type text = (8, 8)
  sizes_of cs_datetime_type text = (24, 24)
  sizes_of cs_char_type text = (length (content text), char_size syb.max_char text)

  abbrev pub as_unused : Option Bytes → Option (Bytes × Format)
  as_unused none = none
  as_unused (some bytes) = some (bytes, cs_fmt_unused)

  -- The bytes in the buffer and their format.
  abbrev pub value_of : Bool × Datatype → Bytes → ℕ → Option (Bytes × Format)
  value_of (true, t) text size = some (replicate size 0, unset)
  value_of (false, cs_char_type) text size = some (field (content text) size, cs_fmt_nullterm)
  value_of (false, t) text size = as_unused (syb.cs_convert text t size)

  abbrev pub assemble :
      Bytes → Bool → Bool × Datatype → ℕ × ℕ → Option (Bytes × Format) → Option Parm
  assemble name output (null, t) (len, size) none = none
  assemble name output (null, t) (len, size) (some (bytes, format)) = some (record {
    count = 1;
    null_ind = if null then neg 1 else pos 0;
    datatype = some t;
    len = len;
    maxlength = size;
    p_val = some bytes;
    name = field name syb.max_name;
    is_nullterm = if length name == 0 then false else true;
    status = if output then cs_return else cs_inputvalue;
    format = format;
  })

  -- A value of a type.
  abbrev pub parm_with : Bytes → Bool → Bytes → Bool × Datatype → Option Parm
  parm_with name output text (null, t) =
      assemble name output (null, t) (sizes_of t text) (value_of (null, t) text (sizes_of t text).1)

  -- The structure for a parameter; none where its value cannot be converted.
  abbrev pub parm_of : Arg → Option Parm
  parm_of a = parm_with (name_of a.label) (has_output a.output) a.text (type_of a.quoting a.text)

  -- The parameters become these structures.
  abbrev pub Makes : List Arg → List Parm → Type 0
  Makes [] [] = Unit
  Makes (a ∷ args) (p ∷ ps) = (parm_of a ≡ some p) × Makes args ps
  Makes _ _ = ⊥

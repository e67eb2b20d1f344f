-- ===== src/Rpc/Spec.antt =====
-- The text of a procedure call for the parser of src/ct10api/ct10rpc_parse.c.
use xmltp.Prelude.{
  ℕ, ◌<◌, ◌≡◌, Bool, true, false, Option, none, some, ◌⊎◌, List, [], ◌∷◌, ◌++◌, length, All,
}
use mathlib.Core.List.{map}
use xmltp.Bytes.{Bytes, codes}
use xmltp.Rpc.State.{toupper}
use xmltp.Rpc.Classes.{
  Class, class_of, letter, blank, Is, Byte, is_name, is_label, is_plain, is_first, is_quoted,
  is_braced,
}

pub data Quoting : Type 0 where
  plain quoted braced : Quoting

-- The name of a parameter behind its `@`, with the white space on both sides of the `=`.
pub record Label : Type 0 where
  pub word : Bytes
  pub before_equal : Bytes
  pub after_equal : Bytes

-- The word that makes a parameter an output, and the white space behind it.
pub record OutputWord : Type 0 where
  pub word : Bytes
  pub behind : Bytes

-- A parameter in a call, with its white space.
pub record Arg : Type 0 where
  pub before : Bytes
  pub label : Option Label
  pub quoting : Quoting
  pub text : Bytes
  pub behind : Bytes
  pub output : Option OutputWord

-- Each part of the text, in front of what follows it.
abbrev pub print_label : Option Label → Bytes → Bytes
print_label none rest = rest
print_label (some l) rest = b'@' ∷ (l.word ++ (l.before_equal ++ b'=' ∷ (l.after_equal ++ rest)))

abbrev pub print_value : Quoting → Bytes → Bytes → Bytes
print_value plain text rest = text ++ rest
print_value quoted text rest = b'"' ∷ (text ++ b'"' ∷ rest)
print_value braced text rest = b'{' ∷ (text ++ b'}' ∷ rest)

abbrev pub print_output : Option OutputWord → Bytes → Bytes
print_output none rest = rest
print_output (some o) rest = o.word ++ (o.behind ++ rest)

abbrev pub print_arg : Arg → Bytes → Bytes
print_arg a rest =
    a.before
    ++ print_label a.label (print_value a.quoting a.text (a.behind ++ print_output a.output rest))

-- The parameters with commas between them and a NUL behind them.
abbrev pub print_args : Arg → List Arg → Bytes
print_args a [] = print_arg a (0 ∷ [])
print_args a (b ∷ args) = print_arg a (b',' ∷ print_args b args)

abbrev pub IsBlank : Bytes → Type 0
IsBlank = All (Byte blank)

abbrev pub IsLabel : Option Label → Type 0
IsLabel none = Unit {0}
IsLabel (some l) =
    All (Is is_label) l.word
    × (length l.word < 1023)
    × IsBlank l.before_equal
    × IsBlank l.after_equal

abbrev pub is_labelled : Option Label → Bool
is_labelled none = false
is_labelled (some _) = true

-- An ASCII character of one of the kinds.
abbrev pub IsAscii : (Class → Bool) → ℕ → Type 0
IsAscii p c = (c < 128) × (p (class_of c) ≡ true)

-- The characters of a value: without quotes there is a first one that can start it, and no white
-- space or comma, and all are ASCII; in quotes or braces, nothing that ends it.
abbrev pub IsValue : Bool → Quoting → Bytes → Type 0
IsValue labelled plain [] = ⊥
IsValue labelled plain (c ∷ text) = IsAscii (is_first labelled) c × All (IsAscii is_plain) text
IsValue labelled quoted text = All (Is is_quoted) text
IsValue labelled braced text = All (Is is_braced) text

-- `out` and `output`, in letters of any size.
abbrev pub IsOutput : Option OutputWord → Type 0
IsOutput none = Unit {0}
IsOutput (some o) =
    All (Byte letter) o.word
    × ((map toupper o.word ≡ codes "OUT") ⊎ (map toupper o.word ≡ codes "OUTPUT"))
    × IsBlank o.behind

-- A value without quotes and the word for an output have white space between them.
abbrev pub IsApart : Quoting → Bytes → Option OutputWord → Type 0
IsApart plain [] (some _) = ⊥
IsApart _ _ _ = Unit {0}

pub record IsArg (a : Arg) : Type 0 where
  pub before_blank : IsBlank a.before
  pub label_lem : IsLabel a.label
  pub value_lem : IsValue (is_labelled a.label) a.quoting a.text
  pub text_fits : length a.text < 1024
  pub behind_blank : IsBlank a.behind
  pub output_lem : IsOutput a.output
  pub apart : IsApart a.quoting a.behind a.output

-- A call: white space, the name of the procedure, and its parameters behind a white space.
pub record RpcCall : Type 0 where
  pub lead : Bytes
  pub first : ℕ
  pub name : Bytes
  pub gap : ℕ
  pub args : List Arg

abbrev pub print_parms : ℕ → List Arg → Bytes
print_parms gap [] = 0 ∷ []
print_parms gap (a ∷ args) = gap ∷ print_args a args

-- The text of a call, with its NUL.
abbrev pub print_call : RpcCall → Bytes
print_call c = c.lead ++ c.first ∷ (c.name ++ print_parms c.gap c.args)

pub record IsRpcCall (c : RpcCall) : Type 0 where
  pub lead_blank : IsBlank c.lead
  pub first_lem : Is is_label c.first
  pub name_lem : All (Is is_name) c.name
  pub name_fits : length (c.first ∷ c.name) < 1024
  pub gap_blank : Byte blank c.gap
  pub args_lem : All IsArg c.args

-- ===== src/Ctx.antt =====
-- src/xmltp/xmltp_ctx.c: the parser context, its input buffer and the state that the lexer keeps
-- in it. A pointer to a context is an `Option Context`; `none` is NULL. The build is the one with
-- XMLTP_GX and without XML2DB. What the socket will deliver is the list `incoming`.
pub mod Recv
pub mod Input
pub mod Setters
mod Tests
use xmltp.Prelude.{
  ℕ, zero, suc, ◌+◌, ◌-◌, Bool, true, false, not, ◌&&◌, ◌||◌, Option, none, some, List, [], ◌∷◌,
  ◌++◌, ℤ, pos, neg, eq_ℤ, is_neg, ltb, leb, ◌==◌, if◌then◌else◌, length, get_or, set, take, drop,
  replicate,
}
use xmltp.Bytes.{Bytes, codes, c_string, decimal}
use xmltp.Tags.{Token}
use xmltp.Keywords.{
  value_follows_is_name, value_follows_is_attrib, value_follows_is_strval, value_follows_is_intval,
  value_follows_is_size, value_follows_has_ended,
}

-- One thing that happens at the socket: the overall time limit is found to be over, or
-- `sock_set_timeout` fails, with the text of its error, both before `recv`; then what `recv` does.
-- Bytes that it delivers are at least one.
pub data Event : Type 0 where
  elapsed interrupted again failed closed : Event
  set_timeout_failed : Bytes → Event
  received : ℕ → Bytes → Event

pub record InputState : Type 0 where
  pub b_eof_disconnect : ℕ
  pub nb_bytes : ℕ
  pub curr_pos : ℕ
  pub total_bytes_received : ℕ
  pub timeout_recv : ℕ
  pub inp_buffer : Bytes
  pub incoming : List Event

-- What the lexer returns: a token of the grammar, a character or a negative code.
pub data TokenVal : Type 0 where
  token : Token → TokenVal
  code : ℤ → TokenVal

pub record LexerState : Type 0 where
  pub b_value_follows : ℤ
  pub lexer_errctr : ℕ
  pub parser_errctr : ℕ
  pub last_known_token : TokenVal
  pub ctr_tokens : ℕ
  pub parser_errmsg : Bytes
  pub lexer_errmsg : Bytes
  pub proc_name : Bytes
  pub name_value : Bytes
  pub attrib_value : Bytes
  pub str_value : Bytes
  pub int_value : Bytes
  pub size_value : Bytes

pub record Context : Type 0 where
  pub signature : ℕ
  pub input : InputState
  pub lexer : LexerState

abbrev pub ctx_signature : ℕ
ctx_signature = 0xFF01f9e9

abbrev pub inp_buffer_size : ℕ
inp_buffer_size = 1024

abbrev pub max_one_string : ℕ
max_one_string = 2048

-- `sf_check_signature`
pub check_signature : Option Context → ℤ
check_signature none = neg 1
check_signature (some c) = if not (c.signature == ctx_signature) then neg 2 else pos 0

-- What `calloc` leaves in the structure, with the signature.
unfoldable pub create_new_context : List Event → Context
create_new_context events = record {
  signature = ctx_signature;
  input = record {
    b_eof_disconnect = 0;
    nb_bytes = 0;
    curr_pos = 0;
    total_bytes_received = 0;
    timeout_recv = 0;
    inp_buffer = replicate inp_buffer_size 0;
    incoming = events;
  };
  lexer = record {
    b_value_follows = pos 0;
    lexer_errctr = 0;
    parser_errctr = 0;
    last_known_token = code (pos 0);
    ctr_tokens = 0;
    parser_errmsg = [];
    lexer_errmsg = [];
    proc_name = [];
    name_value = [];
    attrib_value = [];
    str_value = [];
    int_value = [];
    size_value = [];
  };
}

pub check_lexer_value_ended : Option Context → Bool
check_lexer_value_ended none = false
check_lexer_value_ended (some c) =
    if is_neg (check_signature (some c))
    then false
    else eq_ℤ value_follows_has_ended c.lexer.b_value_follows

pub check_lexer_value_follows : Option Context → Bool
check_lexer_value_follows none = false
check_lexer_value_follows (some c) =
    if is_neg (check_signature (some c))
    then false
    else not (eq_ℤ c.lexer.b_value_follows value_follows_has_ended)
      && not (eq_ℤ c.lexer.b_value_follows (pos 0))

-- A setter of the lexer's state: nothing at a bad pointer, with the code -1.
abbrev pub on_lexer : Option Context → (LexerState → LexerState) → ℤ × Option Context
on_lexer none f = (neg 1, none)
on_lexer (some c) f =
    if is_neg (check_signature (some c))
    then (neg 1, some c)
    else (pos 0, some (record c { lexer = f c.lexer }))

pub assign_lexer_value_follows : Option Context → ℤ → ℤ × Option Context
assign_lexer_value_follows p b_follows = on_lexer p (λ l. record l { b_value_follows = b_follows })

pub assign_lexer_last_known_token : Option Context → TokenVal → ℤ × Option Context
assign_lexer_last_known_token p t =
    on_lexer p (λ l. record l { ctr_tokens = l.ctr_tokens + 1; last_known_token = t })

-- `sprintf(…, "%.80s, %.80s", msg, sval)`
abbrev pub error_text : Bytes → Bytes → Bytes
error_text msg sval = take 80 (c_string msg) ++ (codes ", " ++ take 80 (c_string sval))

pub lexer_error : Option Context → Bytes → Bytes → ℤ × Option Context
lexer_error p msg sval =
    on_lexer p
      (λ l. record l { lexer_errmsg = error_text msg sval; lexer_errctr = l.lexer_errctr + 1 })

pub parser_error : Option Context → Bytes → Bytes → ℤ × Option Context
parser_error p msg sval =
    on_lexer p
      (λ l. record l { parser_errmsg = error_text msg sval; parser_errctr = l.parser_errctr + 1 })

-- `strncpy(buf, s, sizeof(buf))` into a buffer of MAX_ONE_STRING bytes.
abbrev pub copy_string : Bytes → Bytes
copy_string s = take max_one_string (c_string s)

-- The assignments of the `switch` of `xmltp_ctx_assign_lexer_str_value`; `none` is its default.
pub store_value : LexerState → Bytes → Option LexerState
store_value l s =
    if eq_ℤ l.b_value_follows value_follows_is_name
    then some (record l { name_value = copy_string s })
    else if eq_ℤ l.b_value_follows value_follows_is_attrib
    then some (record l { attrib_value = copy_string s })
    else if eq_ℤ l.b_value_follows value_follows_is_intval
    then some (record l { int_value = copy_string s })
    else if eq_ℤ l.b_value_follows value_follows_is_strval
    then some (record l { str_value = copy_string s })
    else if eq_ℤ l.b_value_follows value_follows_is_size
    then some (record l { size_value = copy_string s })
    else none

pub assign_lexer_str_value : Option Context → Bytes → ℤ × Option Context
assign_lexer_str_value none s = (neg 1, none)
assign_lexer_str_value (some c) s =
    if is_neg (check_signature (some c)) then (neg 1, some c) else elim (store_value c.lexer s) [
      | some l ↦ (pos 0, some (record c { lexer = l }))
      | none ↦ (
        pos 0,
        (lexer_error (some c) (codes "cannot assign value, strange b_value_follows=")
            (decimal c.lexer.b_value_follows)).1,
      )
    ]

-- The address that `xmltp_ctx_get_lexer_value` returns: a buffer of the context, or the constant
-- text of its last line.
pub data ValueBuffer : Type 0 where
  name_buffer attrib_buffer int_buffer str_buffer size_buffer unknown_text : ValueBuffer

-- What stands at that address.
abbrev pub read_buffer : LexerState → ValueBuffer → Bytes
read_buffer l name_buffer = l.name_value
read_buffer l attrib_buffer = l.attrib_value
read_buffer l int_buffer = l.int_value
read_buffer l str_buffer = l.str_value
read_buffer l size_buffer = l.size_value
read_buffer l unknown_text = codes "[cannot get value, because unknown b_value_follows]"

-- The `switch` of `xmltp_ctx_get_lexer_value`; `none` is its default.
unfoldable pub buffer_for : ℤ → Option ValueBuffer
buffer_for v =
    if eq_ℤ v value_follows_is_name
    then some name_buffer
    else if eq_ℤ v value_follows_is_attrib
    then some attrib_buffer
    else if eq_ℤ v value_follows_is_intval
    then some int_buffer
    else if eq_ℤ v value_follows_is_strval
    then some str_buffer
    else if eq_ℤ v value_follows_is_size
    then some size_buffer
    else none

-- The option is `none` for the NULL of a bad pointer.
pub get_lexer_value : Option Context → Option ValueBuffer × Option Context
get_lexer_value none = (none, none)
get_lexer_value (some c) =
    if is_neg (check_signature (some c))
    then (none, some c)
    else elim (buffer_for c.lexer.b_value_follows) [
      | some b ↦ (some b, some c)
      | none ↦ (
        some unknown_text,
        (lexer_error (some c) (codes "cannot get value, strange b_value_follows=")
            (decimal c.lexer.b_value_follows)).1,
      )
    ]

-- `xmltp_ctx_reset_lexer_context`. `size_value` is not cleared, nor is the buffer itself.
pub reset_lexer_context : Option Context → ℤ × Option Context
reset_lexer_context none = (neg 1, none)
reset_lexer_context (some c) = if is_neg (check_signature (some c)) then (neg 1, some c) else (
  pos 0,
  some (record c {
    input = record (c.input) {
      b_eof_disconnect = 0;
      timeout_recv = 0;
      total_bytes_received = 0;
      curr_pos = 0;
      nb_bytes = 0;
    };
    lexer = record (c.lexer) {
      proc_name = [];
      name_value = [];
      attrib_value = [];
      int_value = [];
      str_value = [];
      lexer_errmsg = codes "[no error]";
      parser_errmsg = codes "[no error]";
      lexer_errctr = 0;
      parser_errctr = 0;
      ctr_tokens = 0;
      last_known_token = code (pos 0);
      b_value_follows = pos 0;
    };
  }),
)

-- `xmltp_ctx_get_lexer_or_parser_errors_ctr`
pub get_lexer_or_parser_errors_ctr : Option Context → ℤ
get_lexer_or_parser_errors_ctr none = neg 1
get_lexer_or_parser_errors_ctr (some c) =
    if is_neg (check_signature (some c))
    then neg 1
    else if ltb 0 c.lexer.parser_errctr
    then pos c.lexer.parser_errctr
    else pos c.lexer.lexer_errctr

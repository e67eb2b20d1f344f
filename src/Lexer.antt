-- ===== src/Lexer.antt =====
-- src/xmltp/xmltp_lex.c: the lexer of XMLTP/L, in the build with XMLTP_GX. Debug output is left
-- out. Each loop takes fuel, one round for each character read; the outer `none` is the end of it.
pub mod Loops
pub mod Tag
pub mod Value
pub mod Element
mod Tests
use xmltp.Prelude.{
  ℕ, zero, suc, ◌+◌, ◌-◌, Bool, true, false, not, ◌&&◌, ◌||◌, Option, none, some, List, [], ◌∷◌,
  ◌++◌, ℤ, pos, negsuc, neg, leb, ◌==◌, if◌then◌else◌, length, drop,
}
use xmltp.Bytes.{Bytes, codes, strlen, strncmp_eq}
use xmltp.Tags.{Token, eot, strval, eot_tag}
use xmltp.Keywords.{
  Keyword, keywords_tab, check_keywords_table, get_keyword_val, value_follows_has_ended,
}
use xmltp.Ctx.{
  Context, TokenVal, token, code, ValueBuffer, max_one_string, lexer_error, check_lexer_value_ended,
  check_lexer_value_follows, assign_lexer_value_follows, assign_lexer_last_known_token,
  assign_lexer_str_value, get_lexer_value,
}
use xmltp.Ctx.Recv.{get_input_char}

-- `YYSTYPE`: the address of the context, or the address of a value.
pub data SemanticValue : Type 0 where
  p_context : SemanticValue
  str_val : Option ValueBuffer → SemanticValue

-- What a call of the lexer returns, assigns to `*p_lval` and leaves of the context.
pub record Lexed : Type 0 where
  pub token_val : TokenVal
  pub lval : SemanticValue
  pub ctx : Option Context

-- `sbuf` at its declaration; NULs follow.
abbrev pub sbuf_init : Bytes
sbuf_init = 0 ∷ 0 ∷ 0 ∷ codes "[not init]"

-- `sbuf` before its text is terminated.
abbrev pub open_sbuf : Bytes → Bytes
open_sbuf buf = buf ++ drop (length buf) sbuf_init

-- The state of the loops of `sf_match_tag` and `sf_get_value`; `buf` is what stands before `p`.
pub record Scan : Type 0 where
  pub ctx : Option Context
  pub buf : Bytes
  pub trunc : Bool

abbrev pub fresh_scan : Option Context → Scan
fresh_scan p = record { ctx = p; buf = []; trunc = false }

-- The test on `sizeof(sbuf)`, with its message.
pub check_room : Bytes → Scan → Scan
check_room msg s =
    if not s.trunc && leb (max_one_string - 1) (length s.buf)
    then record s { ctx = (lexer_error s.ctx msg s.buf).1; trunc = true }
    else s

-- `if (!trunc_flag) { *p = (char) c; p++; }`
pub put_char : Scan → ℕ → Scan
put_char s c = if not s.trunc then record s { buf = s.buf ++ c ∷ [] } else s

abbrev pub tag_truncated : Bytes
tag_truncated = codes "Identifier truncated"

abbrev pub value_truncated : Bytes
value_truncated = codes "str_value too long, truncated"

-- A round of the loop of `sf_match_tag`, from the character read; `again` is the loop. The flag
-- tells the end at `>` from the end of the input.
pub tag_round : (Scan → Option (Bool × Scan)) → Scan → ℤ × Option Context → Option (Bool × Scan)
tag_round again s (negsuc _, p) = some (
  false,
  record s { ctx = (lexer_error p (codes "unexpected EOF in sf_match_tag()") (open_sbuf s.buf)).1 },
)
tag_round again s (pos c, p) = elim (c == b'>') [
  | true ↦ some (true, record s { ctx = p })
  | false ↦ again (put_char (check_room tag_truncated (record s { ctx = p })) c)
]

pub tag_loop : ℕ → Scan → Option (Bool × Scan)
tag_loop zero s = none
tag_loop (suc fuel) s = tag_round (tag_loop fuel) s (get_input_char s.ctx)

-- `sf_check_received_eot`
pub check_received_eot : Bytes → Bool
check_received_eot sbuf =
    let p_eot_tag = drop 1 eot_tag in strncmp_eq p_eot_tag sbuf (strlen p_eot_tag - 1)

-- `sf_match_tag` behind its loop, for a token that is known, with its `b_value_follows`.
abbrev pub known_tag : Token → ℤ → Option Context → Lexed
known_tag t b_value_follows p =
    let p' = (assign_lexer_value_follows p b_value_follows).1 in
    record {
      token_val = token t;
      lval = p_context;
      ctx = (assign_lexer_last_known_token p' (token t)).1;
    }

-- The same for an unknown keyword, -33.
abbrev pub unknown_tag : Option Context → Lexed
unknown_tag p = record {
  token_val = code (neg 33);
  lval = p_context;
  ctx = (assign_lexer_last_known_token p (code (neg 33))).1;
}

abbrev pub keyword_tag : Option Keyword → Option Context → Lexed
keyword_tag none p = unknown_tag p
keyword_tag (some k) p = known_tag k.token_val k.b_value_follows p

pub finish_tag : Scan → Option Lexed
finish_tag s =
    if check_received_eot s.buf
    then some (known_tag eot (pos 0) s.ctx)
    else elim (get_keyword_val s.buf) [ none ↦ none | some r ↦ some (keyword_tag r s.ctx) ]

-- `sf_match_tag`
pub match_tag : ℕ → SemanticValue → Option Context → Option Lexed
match_tag fuel lval p = elim (tag_loop fuel (fresh_scan p)) [
  | none ↦ none
  | some (found, s) ↦ elim found [
    | false ↦ some (record { token_val = code (neg 1); lval = lval; ctx = s.ctx })
    | true ↦ finish_tag s
  ]
]

-- A round of the loop of `sf_get_value`, with `prev_c`.
pub value_round :
    (ℕ → Scan → Option (Bool × Scan)) → ℕ → Scan → ℤ × Option Context → Option (Bool × Scan)
value_round again prev_c s (negsuc _, p) = some (
  false,
  record s { ctx = (lexer_error p (codes "unexpected EOF in str_value") (open_sbuf s.buf)).1 },
)
value_round again prev_c s (pos c, p) = elim (c == b'<' && not (prev_c == b'\\')) [
  | true ↦ some (true, record s { ctx = p })
  | false ↦ again c (put_char (check_room value_truncated (record s { ctx = p })) c)
]

pub value_loop : ℕ → ℕ → Scan → Option (Bool × Scan)
value_loop zero prev_c s = none
value_loop (suc fuel) prev_c s = value_round (value_loop fuel) prev_c s (get_input_char s.ctx)

-- `sf_get_value` behind its loop.
pub finish_value : Scan → Lexed
finish_value s =
    let p = (assign_lexer_str_value s.ctx s.buf).1 in
    let (value, p') = get_lexer_value p in
    record {
      token_val = token strval;
      lval = str_val value;
      ctx = (assign_lexer_value_follows p' value_follows_has_ended).1;
    }

-- `sf_get_value`
pub get_value : ℕ → SemanticValue → Option Context → Option Lexed
get_value fuel lval p = elim (value_loop fuel 0 (fresh_scan p)) [
  | none ↦ none
  | some (found, s) ↦ elim found [
    | false ↦ some (record { token_val = code (neg 1); lval = lval; ctx = s.ctx })
    | true ↦ some (finish_value s)
  ]
]

abbrev pub is_white : ℕ → Bool
is_white c = c == b'\t' || c == b' ' || c == b'\r' || c == b'\n'

-- A round of the loop at the end of `xml_lex_yylex1`; `at_tag` is the call of `sf_match_tag`.
pub skip_round :
    (Option Context → Option Lexed)
    → (Option Context → Option Lexed)
    → SemanticValue
    → ℤ × Option Context
    → Option Lexed
skip_round again at_tag lval (negsuc _, p) =
    some (record { token_val = code (pos 0); lval = lval; ctx = p })
skip_round again at_tag lval (pos c, p) = elim (is_white c) [
  | true ↦ again p
  | false ↦ elim (c == b'<') [
    | true ↦ at_tag p
    | false ↦ some (record { token_val = code (pos c); lval = lval; ctx = p })
  ]
]

pub skip_loop : ℕ → SemanticValue → Option Context → Option Lexed
skip_loop zero lval p = none
skip_loop (suc fuel) lval p =
    skip_round (skip_loop fuel lval) (match_tag fuel lval) lval (get_input_char p)

-- `xml_lex_yylex1` and `yylex`. The static flag only spares the second check of a good table.
pub yylex : ℕ → SemanticValue → Option Context → Option Lexed
yylex fuel lval p =
    if check_lexer_value_ended p
    then match_tag fuel lval p
    else elim (check_keywords_table keywords_tab) [
      | some errmsg ↦ some (record {
        token_val = code (neg 2);
        lval = lval;
        ctx = (lexer_error p (codes "ERROR from sf_check_keywords_table():") errmsg).1;
      })
      | none ↦ if check_lexer_value_follows p then get_value fuel lval p else skip_loop fuel lval p
    ]

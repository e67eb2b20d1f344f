-- ===== src/Lexer/Value.antt =====
-- `sf_get_value` on a value whose `<` arrives.
use xmltp.Prelude.{ℕ, ◌<◌, ◌≡◌, false, Option, some, [], ◌∷◌, ◌++◌, arith, length}
use xmltp.Bytes.{Bytes}
use xmltp.Tags.{strval}
use xmltp.Keywords.{value_follows_has_ended}
use xmltp.Ctx.{
  InputState, LexerState, Context, token, ctx_signature, max_one_string, ValueBuffer, buffer_for,
}
use xmltp.Ctx.Input.{IsReady, IsValid, pending}
use xmltp.Ctx.Setters.{
  write_buffer, assign_lexer_value_follows-valid, assign_lexer_str_value-valid,
  get_lexer_value-valid, b_value_follows-write_buffer,
}
use xmltp.Lexer.{SemanticValue, str_val, Lexed, finish_value, get_value}
use xmltp.Lexer.Loops.{NoDelimiter, value_loop-ReadsText}

-- The lexer's state after a value.
abbrev pub after_value : LexerState → ValueBuffer → Bytes → LexerState
after_value l b s = record (write_buffer l b s) { b_value_follows = value_follows_has_ended }

-- The outcome of `sf_get_value` on `text`, with `rest` left of the stream.
pub record GetsValue (c : Context) (b : ValueBuffer) (text rest : Bytes) (r : Option Lexed)
    : Type 0 where
  pub lexed : Lexed
  pub input : InputState
  pub returns : r ≡ some lexed
  pub token_is : lexed.token_val ≡ token strval
  pub lval_is : lexed.lval ≡ str_val (some b)
  pub context_is : lexed.ctx ≡ some (record c { input = input; lexer = after_value c.lexer b text })
  pub ready : IsReady input
  pub left : pending input ≡ rest

module _ (c : Context) (sig : c.signature ≡ ctx_signature) (b : ValueBuffer)
    (kind : buffer_for c.lexer.b_value_follows ≡ some b) (text : Bytes) where
  abbrev stored : Context
  stored = record c { lexer = write_buffer c.lexer b text }

  kind_stored : buffer_for stored.lexer.b_value_follows ≡ some b
  kind_stored = rw (b_value_follows-write_buffer c.lexer b text) kind

  finish_value-valid : finish_value (record { ctx = some c; buf = text; trunc = false }) ≡ record {
    token_val = token strval;
    lval = str_val (some b);
    ctx = some (record c { lexer = after_value c.lexer b text });
  }
  unfolding finish_value
  finish_value-valid = rw (
    assign_lexer_str_value-valid c sig b kind text,
    get_lexer_value-valid stored sig b kind_stored,
    assign_lexer_value_follows-valid stored sig value_follows_has_ended,
  )

-- `sf_get_value`, where the last tag said that a value of one of the five kinds follows, and the
-- stream brings a text in which each `<` stands behind a backslash and which does not end in one,
-- of less than MAX_ONE_STRING bytes, and then `<`: it returns STRVAL with the address of the
-- buffer of that kind, stores the text there, takes exactly the text and its `<` from the stream,
-- notes that the value has ended, and changes nothing else.
pub get_value-GetsValue :
    (fuel : ℕ) (lval : SemanticValue) (c : Context) (b : ValueBuffer) (text rest : Bytes)
    → IsValid c
    → buffer_for c.lexer.b_value_follows ≡ some b
    → pending c.input ≡ text ++ b'<' ∷ rest
    → NoDelimiter 0 text
    → length text < max_one_string
    → length text < fuel
    → GetsValue c b text rest (get_value fuel lval (some c))
unfolding get_value
get_value-GetsValue fuel lval c b text rest v kind p a l f =
    let (i, e, r, q) = value_loop-ReadsText text rest fuel 0 c [] v p a (omega arith) f in
    record {
      lexed =
          finish_value (record { ctx = some (record c { input = i }); buf = text; trunc = false });
      input = i;
      returns = rw (e, get_value);
      token_is = rw (finish_value-valid (record c { input = i }) v.0 b kind text);
      lval_is = rw (finish_value-valid (record c { input = i }) v.0 b kind text);
      context_is = rw (finish_value-valid (record c { input = i }) v.0 b kind text);
      ready = r;
      left = q;
    }

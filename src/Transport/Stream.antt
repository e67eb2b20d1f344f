-- ===== src/Transport/Stream.antt =====
-- A whole stream of tags and values, as src/xmltp/xmltp_writer.c writes it, through `yylex`.
use xmltp.Prelude.{
  ℕ, zero, suc, ◌+◌, ◌<◌, ◌≡◌, ◌≢◌, refl, ap, ◌∙◌, true, Option, none, some, List, [], ◌∷◌, ◌++◌,
  pos, length, All,
}
use xmltp.Bytes.{Bytes}
use xmltp.Tags.{Element, Token, start, finish, strval}
use xmltp.Keywords.Search.{kind_of}
use xmltp.Ctx.{Context, TokenVal, token, max_one_string, ValueBuffer, buffer_for}
use xmltp.Ctx.Input.{IsValid, pending}
use xmltp.Lexer.{SemanticValue, Lexed, is_white, yylex}
use xmltp.Lexer.Loops.{NoDelimiter}
use xmltp.Lexer.Tag.{tag_meaning, tag_token, after_tag}
use xmltp.Lexer.Element.{element_bytes, yylex_tag, yylex_white-LexesElement}

-- White space and then a tag with no value behind it, or an element with its value.
pub data Piece : Type 0 where
  a_tag : (white text : Bytes) → Token → Piece
  an_element : (white : Bytes) → Element → ValueBuffer → (text : Bytes) → Piece

abbrev pub piece_bytes : Piece → Bytes → Bytes
piece_bytes (a_tag white text t) rest = white ++ b'<' ∷ (text ++ b'>' ∷ rest)
piece_bytes (an_element white e b text) rest = white ++ element_bytes e text rest

abbrev pub piece_tokens : Piece → List TokenVal
piece_tokens (a_tag white text t) = token t ∷ []
piece_tokens (an_element white e b text) = token (start e) ∷ token strval ∷ token (finish e) ∷ []

abbrev pub IsWhite : Bytes → Type 0
IsWhite = All (λ d. is_white d ≡ true)

-- The tag is a known one after which no value is expected, or the element has a buffer for its
-- value; the texts are shorter than MAX_ONE_STRING, and the fuel is enough for them.
abbrev pub IsPiece : ℕ → Piece → Type 0
IsPiece fuel (a_tag white text t) =
    IsWhite white
    × All (λ b. b ≢ b'>') text
    × (length text < max_one_string)
    × (tag_meaning text ≡ some (t, pos 0))
    × (length white + length text + 1 < fuel)
IsPiece fuel (an_element white e b text) =
    IsWhite white
    × (buffer_for (kind_of e) ≡ some b)
    × NoDelimiter 0 text
    × (length text < max_one_string)
    × (length white + length text + 20 < fuel)

abbrev pub stream_bytes : List Piece → Bytes → Bytes
stream_bytes [] rest = rest
stream_bytes (p ∷ pieces) rest = piece_bytes p (stream_bytes pieces rest)

abbrev pub stream_tokens : List Piece → List TokenVal
stream_tokens [] = []
stream_tokens (p ∷ pieces) = piece_tokens p ++ stream_tokens pieces

-- Calls of `yylex`, one for each token that is wanted.
abbrev pub Tokens : Type 0
Tokens = Option (List TokenVal × Option Context)

abbrev pub first_token : TokenVal → Tokens → Tokens
first_token t none = none
first_token t (some (ts, ctx)) = some (t ∷ ts, ctx)

abbrev pub then_lex : (SemanticValue → Option Context → Tokens) → Option Lexed → Tokens
then_lex go_on none = none
then_lex go_on (some l) = first_token l.token_val (go_on l.lval l.ctx)

pub lex_all : ℕ → ℕ → SemanticValue → Option Context → Tokens
lex_all fuel zero lval p = some ([], p)
lex_all fuel (suc n) lval p = then_lex (lex_all fuel n) (yylex fuel lval p)

-- What the calls leave: the tokens, and a context at the end of these bytes that expects a tag.
pub record Lexes (tokens : List TokenVal) (rest : Bytes) (r : Tokens) : Type 0 where
  pub last : Context
  pub returned : r ≡ some (tokens, some last)
  pub valid : IsValid last
  pub idle : last.lexer.b_value_follows ≡ pos 0
  pub left : pending last.input ≡ rest

Lexes-first :
    (t : TokenVal) (ts : List TokenVal) (rest : Bytes) (r : Tokens)
    → Lexes ts rest r
    → Lexes (t ∷ ts) rest (first_token t r)
Lexes-first t ts rest r h = record {
  last = h.last;
  returned = ap (first_token t) h.returned;
  valid = h.valid;
  idle = h.idle;
  left = h.left;
}

-- The calls of `yylex` on these pieces, whatever reads the bytes behind them: the tokens are those
-- of the pieces in their order, and the stream stands behind the pieces.
pub lex_all-Lexes :
    (fuel : ℕ) (pieces : List Piece) (lval : SemanticValue) (c : Context) (rest : Bytes)
    → IsValid c
    → c.lexer.b_value_follows ≡ pos 0
    → pending c.input ≡ stream_bytes pieces rest
    → All (IsPiece fuel) pieces
    → Lexes (stream_tokens pieces) rest (lex_all fuel (length (stream_tokens pieces)) lval (some c))
unfolding lex_all
lex_all-Lexes fuel [] lval c rest v z p a = record {
  last = c;
  returned = refl;
  valid = v;
  idle = z;
  left = p;
}
lex_all-Lexes fuel (a_tag white text t ∷ pieces) lval c rest v z p a =
    let (w, no_end, short, meaning, enough) = a.0 in
    let m =
      yylex_tag white text (stream_bytes pieces rest) fuel lval c v z p w no_end short enough in
    let c' : Context = record c { input = m.input; lexer = after_tag c.lexer (some (t, pos 0)) } in
    let ctx : m.lexed.ctx ≡ some c' =
      m.context_is
      ∙ ap (λ k. some (record c { input = m.input; lexer = after_tag c.lexer k })) meaning in
    let tok : m.lexed.token_val ≡ token t = m.token_is ∙ ap tag_token meaning in
    let h = lex_all-Lexes fuel pieces m.lexed.lval c' rest (v.0, m.ready) refl m.left a.1 in
    rw (m.returns, tok, ctx) (Lexes-first (token t) (stream_tokens pieces) rest _ h)
lex_all-Lexes fuel (an_element white e b text ∷ pieces) lval c rest v z p a =
    let (w, kind, plain, short, enough) = a.0 in
    let m =
      yylex_white-LexesElement fuel lval c e b white text (stream_bytes pieces rest) v z kind p w
        plain short enough in
    let h = lex_all-Lexes fuel pieces m.lexed_3.lval m.last rest m.last_valid m.idle m.left a.1 in
    rw (m.call_1, m.token_1, m.call_2, m.token_2, m.call_3, m.token_3, m.last_is)
      (Lexes-first (token (start e)) _ rest _ (
        Lexes-first (token strval) _ rest _
          (Lexes-first (token (finish e)) (stream_tokens pieces) rest _ h)))

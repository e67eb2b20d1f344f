-- ===== src/Lexer/Element.antt =====
-- `yylex` over a whole element `<tag>value</tag>`.
use xmltp.Prelude.{
  ℕ, zero, suc, ◌+◌, ◌<◌, ◌≡◌, ◌≢◌, refl, ap, ◌∙◌, true, false, not, ◌&&◌, Option, some, [], ◌∷◌,
  ◌++◌, arith, pos, eq_ℤ, length, All,
}
use xmltp.Bytes.{Bytes}
use xmltp.Tags.{Element, attr, start, finish, strval, tag_name, end_tag_name}
use xmltp.Keywords.{value_follows_has_ended}
use xmltp.Keywords.Search.{keywords_tab-sorted, kind_of}
use xmltp.Ctx.{
  InputState, LexerState, Context, token, max_one_string, check_lexer_value_ended,
  check_lexer_value_follows, ValueBuffer, name_buffer, unknown_text, read_buffer, buffer_for,
  copy_string,
}
use xmltp.Ctx.Input.{IsValid, pending}
use xmltp.Ctx.Setters.{
  check_lexer_value_ended-valid, check_lexer_value_follows-valid, kind_follows,
  buffer_for-ne-unknown_text,
}
use xmltp.Lexer.{SemanticValue, str_val, Lexed, is_white, skip_round, skip_loop, yylex}
use xmltp.Lexer.Loops.{NoDelimiter, delivers_cons}
use xmltp.Lexer.Tag.{
  MatchesTag, match_tag-MatchesTag, tag_meaning-start, tag_meaning-finish, tag_token, after_tag,
}
use xmltp.Lexer.Value.{GetsValue, get_value-GetsValue, after_value}

MatchesTag-input :
    (c : Context) (i : InputState) (text rest : Bytes) (r : Option Lexed)
    → MatchesTag (record c { input = i }) text rest r
    → MatchesTag c text rest r
MatchesTag-input c i text rest r m = record {
  lexed = m.lexed;
  input = m.input;
  returns = m.returns;
  token_is = m.token_is;
  context_is = m.context_is;
  ready = m.ready;
  left = m.left;
}

-- White space before a tag is skipped.
skip_loop-MatchesTag :
    (white text rest : Bytes) (fuel : ℕ) (lval : SemanticValue) (c : Context)
    → IsValid c
    → pending c.input ≡ white ++ b'<' ∷ (text ++ b'>' ∷ rest)
    → All (λ b. is_white b ≡ true) white
    → All (λ b. b ≢ b'>') text
    → length text < max_one_string
    → length white + length text + 1 < fuel
    → MatchesTag c text rest (skip_loop fuel lval (some c))
unfolding skip_loop skip_round
skip_loop-MatchesTag white text rest zero lval c v p w a l f = absurd (omega arith)
skip_loop-MatchesTag [] text rest (suc fuel) lval c v p w a l f =
    let (i, e, r, q) = delivers_cons c b'<' (text ++ b'>' ∷ rest) v p in
    rw e (
      MatchesTag-input c i text rest _ (
        match_tag-MatchesTag fuel lval (record c { input = i }) text rest (v.0, r) q a l
          (omega arith)))
skip_loop-MatchesTag (b ∷ white) text rest (suc fuel) lval c v p w a l f =
    let (i, e, r, q) = delivers_cons c b (white ++ b'<' ∷ (text ++ b'>' ∷ rest)) v p in
    rw (e, w.0, skip_round)
      (MatchesTag-input c i text rest _ (
        skip_loop-MatchesTag white text rest fuel lval (record c { input = i }) (v.0, r) q w.1 a l
          (omega arith)))

-- Where no value is expected, `yylex` reads white space and a tag.
pub yylex_tag :
    (white text rest : Bytes) (fuel : ℕ) (lval : SemanticValue) (c : Context)
    → IsValid c
    → c.lexer.b_value_follows ≡ pos 0
    → pending c.input ≡ white ++ b'<' ∷ (text ++ b'>' ∷ rest)
    → All (λ b. is_white b ≡ true) white
    → All (λ b. b ≢ b'>') text
    → length text < max_one_string
    → length white + length text + 1 < fuel
    → MatchesTag c text rest (yylex fuel lval (some c))
unfolding yylex
yylex_tag white text rest fuel lval c v z p w a l f =
    let ended : check_lexer_value_ended (some c) ≡ false =
      check_lexer_value_ended-valid c v.0 ∙ ap (eq_ℤ value_follows_has_ended) z in
    let follows : check_lexer_value_follows (some c) ≡ false =
      check_lexer_value_follows-valid c v.0
      ∙ ap (λ k. not (eq_ℤ k value_follows_has_ended) && not (eq_ℤ k (pos 0))) z in
    rw (ended, keywords_tab-sorted, follows)
      (skip_loop-MatchesTag white text rest fuel lval c v p w a l f)

-- Behind a value, `yylex` reads the end tag, whose `<` the value has taken.
pub yylex_end_tag :
    (text rest : Bytes) (fuel : ℕ) (lval : SemanticValue) (c : Context)
    → IsValid c
    → c.lexer.b_value_follows ≡ value_follows_has_ended
    → pending c.input ≡ text ++ b'>' ∷ rest
    → All (λ b. b ≢ b'>') text
    → length text < max_one_string
    → length text < fuel
    → MatchesTag c text rest (yylex fuel lval (some c))
unfolding yylex
yylex_end_tag text rest fuel lval c v z p a l f =
    let ended : check_lexer_value_ended (some c) ≡ true =
      check_lexer_value_ended-valid c v.0 ∙ ap (eq_ℤ value_follows_has_ended) z in
    rw ended (match_tag-MatchesTag fuel lval c text rest v p a l f)

-- Where a value is expected, `yylex` reads it.
pub yylex_value :
    (text rest : Bytes) (fuel : ℕ) (lval : SemanticValue) (c : Context) (b : ValueBuffer)
    → IsValid c
    → buffer_for c.lexer.b_value_follows ≡ some b
    → pending c.input ≡ text ++ b'<' ∷ rest
    → NoDelimiter 0 text
    → length text < max_one_string
    → length text < fuel
    → GetsValue c b text rest (yylex fuel lval (some c))
unfolding yylex
yylex_value text rest fuel lval c b v kind p a l f =
    let k = kind_follows c.lexer.b_value_follows b kind in
    rw
      (
        check_lexer_value_ended-valid c v.0,
        k.0,
        keywords_tab-sorted,
        check_lexer_value_follows-valid c v.0,
        k.1,
      )
      (get_value-GetsValue fuel lval c b text rest v kind p a l f)

-- The bytes of `<tag>text</tag>`, before the bytes that follow it.
abbrev pub element_bytes : Element → Bytes → Bytes → Bytes
element_bytes e text rest =
    b'<' ∷ (tag_name e ++ b'>' ∷ (text ++ b'<' ∷ (end_tag_name e ++ b'>' ∷ rest)))

-- A tag has no `>`, and is short.
record IsTagText (text : Bytes) : Type 0 where
  no_end : All (λ b. b ≢ b'>') text
  short : length text < 16

tag_name-IsTagText : (e : Element) → IsTagText (tag_name e)
tag_name-IsTagText attr = record { no_end = omega arith; short = omega arith }
tag_name-IsTagText _ = record { no_end = omega arith; short = omega arith }

-- What three calls of `yylex` leave, started on an element of kind `e` whose buffer is `b`.
pub record LexesElement (fuel : ℕ) (lval : SemanticValue) (c : Context) (e : Element)
    (b : ValueBuffer) (text rest : Bytes) : Type 0 where
  pub lexed_1 : Lexed
  pub lexed_2 : Lexed
  pub lexed_3 : Lexed
  pub last : Context
  pub call_1 : yylex fuel lval (some c) ≡ some lexed_1
  pub call_2 : yylex fuel lexed_1.lval lexed_1.ctx ≡ some lexed_2
  pub call_3 : yylex fuel lexed_2.lval lexed_2.ctx ≡ some lexed_3
  pub token_1 : lexed_1.token_val ≡ token (start e)
  pub token_2 : lexed_2.token_val ≡ token strval
  pub token_3 : lexed_3.token_val ≡ token (finish e)
  pub value_at : lexed_2.lval ≡ str_val (some b)
  pub last_is : lexed_3.ctx ≡ some last
  pub value_is : read_buffer last.lexer b ≡ copy_string text
  pub last_valid : IsValid last
  pub idle : last.lexer.b_value_follows ≡ pos 0
  pub errors : last.lexer.lexer_errctr ≡ c.lexer.lexer_errctr
  pub left : pending last.input ≡ rest

-- The context after the start tag, the value and the end tag.
abbrev ctx_1 : Context → InputState → Element → Context
ctx_1 c i e = record c { input = i; lexer = after_tag c.lexer (some (start e, kind_of e)) }

abbrev ctx_2 : Context → InputState → Element → ValueBuffer → Bytes → InputState → Context
ctx_2 c i e b text j = record (ctx_1 c i e) {
  input = j;
  lexer = after_value (ctx_1 c i e).lexer b text;
}

read_buffer-write :
    (l : LexerState) (e : Element) (b : ValueBuffer) (text : Bytes)
    → buffer_for (kind_of e) ≡ some b
    → let l' =
        after_tag
          (after_value (after_tag l (some (start e, kind_of e))) b text)
          (some (finish e, pos 0)) in
      (read_buffer l' b ≡ copy_string text) × (l'.lexer_errctr ≡ l.lexer_errctr)
read_buffer-write l e name_buffer text h = (refl, refl)
read_buffer-write l e unknown_text text h = absurd (buffer_for-ne-unknown_text (kind_of e) h)
read_buffer-write l e _ text h = (refl, refl)

-- An element with white space before it.
pub yylex_white-LexesElement :
    (fuel : ℕ) (lval : SemanticValue) (c : Context) (e : Element) (b : ValueBuffer)
    (white text rest : Bytes)
    → IsValid c
    → c.lexer.b_value_follows ≡ pos 0
    → buffer_for (kind_of e) ≡ some b
    → pending c.input ≡ white ++ element_bytes e text rest
    → All (λ d. is_white d ≡ true) white
    → NoDelimiter 0 text
    → length text < max_one_string
    → length white + length text + 20 < fuel
    → LexesElement fuel lval c e b text rest
yylex_white-LexesElement fuel lval c e b white text rest v z kind p w a l f =
    let g = tag_name-IsTagText e in
    let after_1 : Bytes = text ++ b'<' ∷ (end_tag_name e ++ b'>' ∷ rest) in
    let m1 =
      yylex_tag white (tag_name e) after_1 fuel lval c v z p w g.no_end (omega (arith, g.short))
        (omega (arith, g.short)) in
    let ctx1 : m1.lexed.ctx ≡ some (ctx_1 c m1.input e) =
      m1.context_is
      ∙ ap (λ k. some (record c { input = m1.input; lexer = after_tag c.lexer k }))
          (tag_meaning-start e) in
    let m2 =
      yylex_value text (end_tag_name e ++ b'>' ∷ rest) fuel m1.lexed.lval (ctx_1 c m1.input e) b
        (v.0, m1.ready) kind m1.left a l (omega arith) in
    let m3 =
      yylex_end_tag (end_tag_name e) rest fuel m2.lexed.lval (ctx_2 c m1.input e b text m2.input)
        (v.0, m2.ready) refl m2.left (omega arith, g.no_end) (omega (arith, g.short))
        (omega (arith, g.short)) in
    let r = read_buffer-write c.lexer e b text kind in
    record {
      lexed_1 = m1.lexed;
      lexed_2 = m2.lexed;
      lexed_3 = m3.lexed;
      last = record c {
        input = m3.input;
        lexer = after_tag (ctx_2 c m1.input e b text m2.input).lexer (some (finish e, pos 0));
      };
      call_1 = m1.returns;
      call_2 = rw ctx1 m2.returns;
      call_3 = rw m2.context_is m3.returns;
      token_1 = m1.token_is ∙ ap tag_token (tag_meaning-start e);
      token_2 = m2.token_is;
      token_3 = m3.token_is ∙ ap tag_token (tag_meaning-finish e);
      value_at = m2.lval_is;
      last_is =
          m3.context_is
          ∙ ap
              (λ k. some (record c {
                input = m3.input;
                lexer = after_tag (ctx_2 c m1.input e b text m2.input).lexer k;
              }))
              (tag_meaning-finish e);
      value_is = r.0;
      last_valid = (v.0, m3.ready);
      idle = refl;
      errors = r.1;
      left = m3.left;
    }

-- `yylex`, called three times where no value is expected and the stream brings `<tag>text</tag>`,
-- for an element with a value buffer and a text of less than MAX_ONE_STRING bytes in which each
-- `<` stands behind a backslash and which does not end in one: the tokens are the start tag,
-- STRVAL with the address of the buffer, and the end tag; the buffer then holds the text up to a
-- NUL, no lexer error is counted, no value is expected, and the stream stands behind the element.
pub yylex-LexesElement :
    (fuel : ℕ) (lval : SemanticValue) (c : Context) (e : Element) (b : ValueBuffer)
    (text rest : Bytes)
    → IsValid c
    → c.lexer.b_value_follows ≡ pos 0
    → buffer_for (kind_of e) ≡ some b
    → pending c.input ≡ element_bytes e text rest
    → NoDelimiter 0 text
    → length text < max_one_string
    → length text + 20 < fuel
    → LexesElement fuel lval c e b text rest
yylex-LexesElement fuel lval c e b text rest v z kind p a l f =
    yylex_white-LexesElement fuel lval c e b [] text rest v z kind p tt a l (omega arith)

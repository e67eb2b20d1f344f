-- ===== src/Lexer/Tag.antt =====
-- `sf_match_tag` on a tag whose `>` arrives: the token, and what it leaves in the context.
use xmltp.Prelude.{
  ℕ, ◌+◌, ◌<◌, ◌≡◌, ◌≢◌, refl, false, inl, inr, Option, none, some, [], ◌∷◌, ◌++◌, arith, ℤ, pos,
  neg, if◌then◌else◌, Bool-cases, length, All,
}
use xmltp.Bytes.{Bytes, codes, c_string, strncmp_eq, strncmp_eq-append}
use xmltp.Tags.{
  Element, attr, Token, start, finish, eot, tag_name, end_tag_name, tag_xmlversion_and_encoding,
  xmlversion_and_encoding,
}
use xmltp.Keywords.{Keyword, keywords_tab}
use xmltp.Keywords.Search.{
  find_keyword, get_keyword_val-find, kind_of, find_keyword-start, find_keyword-finish,
  find_keyword-header,
}
use xmltp.Ctx.{
  InputState, LexerState, Context, TokenVal, token, code, ctx_signature, max_one_string,
}
use xmltp.Ctx.Input.{IsReady, IsValid, pending}
use xmltp.Ctx.Setters.{assign_lexer_value_follows-valid, assign_lexer_last_known_token-valid}
use xmltp.Lexer.{
  SemanticValue, Lexed, check_received_eot, known_tag, unknown_tag, keyword_tag, finish_tag,
  match_tag,
}
use xmltp.Lexer.Loops.{tag_loop-ReadsText}

-- What a tag's text stands for: a token, and the kind of value that follows it. The end of a
-- transaction is known by its first four bytes.
abbrev pub of_keyword : Option Keyword → Option (Token × ℤ)
of_keyword none = none
of_keyword (some k) = some (k.token_val, k.b_value_follows)

unfoldable pub tag_meaning : Bytes → Option (Token × ℤ)
tag_meaning text =
    if strncmp_eq (codes "EOT/") text 4
    then some (eot, pos 0)
    else of_keyword (find_keyword keywords_tab text)

abbrev pub tag_token : Option (Token × ℤ) → TokenVal
tag_token none = code (neg 33)
tag_token (some (t, v)) = token t

-- The lexer's state after the tag: the token is counted and remembered, and a known token says
-- whether a value follows.
abbrev pub after_tag : LexerState → Option (Token × ℤ) → LexerState
after_tag l none = record l { ctr_tokens = l.ctr_tokens + 1; last_known_token = code (neg 33) }
after_tag l (some (t, v)) = record l {
  b_value_follows = v;
  ctr_tokens = l.ctr_tokens + 1;
  last_known_token = token t;
}

-- The outcome of `sf_match_tag` on `text`, with `rest` left of the stream.
pub record MatchesTag (c : Context) (text rest : Bytes) (r : Option Lexed) : Type 0 where
  pub lexed : Lexed
  pub input : InputState
  pub returns : r ≡ some lexed
  pub token_is : lexed.token_val ≡ tag_token (tag_meaning text)
  pub context_is :
      lexed.ctx ≡ some (record c { input = input; lexer = after_tag c.lexer (tag_meaning text) })
  pub ready : IsReady input
  pub left : pending input ≡ rest

check_received_eot_lem : (text : Bytes) → check_received_eot text ≡ strncmp_eq (codes "EOT/") text 4
unfolding check_received_eot c_string
check_received_eot_lem text = strncmp_eq-append (codes "EOT/") (codes ">") text 4 (omega arith)

known_tag-valid :
    (c : Context) (t : Token) (v : ℤ)
    → c.signature ≡ ctx_signature
    → ((known_tag t v (some c)).token_val ≡ token t)
      × ((known_tag t v (some c)).ctx ≡ some (record c { lexer = after_tag c.lexer (some (t, v)) }))
known_tag-valid c t v sig = (
  refl,
  rw (
    assign_lexer_value_follows-valid c sig v,
    assign_lexer_last_known_token-valid
        (record c { lexer = record (c.lexer) { b_value_follows = v } }) sig (token t),
  ),
)

unknown_tag-valid :
    (c : Context)
    → c.signature ≡ ctx_signature
    → (unknown_tag (some c)).ctx ≡ some (record c { lexer = after_tag c.lexer none })
unknown_tag-valid c sig = rw (assign_lexer_last_known_token-valid c sig (code (neg 33)))

keyword_tag-valid :
    (c : Context) (k : Option Keyword)
    → c.signature ≡ ctx_signature
    → ((keyword_tag k (some c)).token_val ≡ tag_token (of_keyword k))
      × ((keyword_tag k (some c)).ctx
          ≡ some (record c { lexer = after_tag c.lexer (of_keyword k) }))
keyword_tag-valid c none sig = (refl, unknown_tag-valid c sig)
keyword_tag-valid c (some k) sig = known_tag-valid c k.token_val k.b_value_follows sig

finish_tag-MatchesTag :
    (c : Context) (text rest : Bytes) (i : InputState)
    → c.signature ≡ ctx_signature
    → IsReady i
    → pending i ≡ rest
    → MatchesTag c text rest
        (finish_tag (record { ctx = some (record c { input = i }); buf = text; trunc = false }))
unfolding finish_tag tag_meaning
finish_tag-MatchesTag c text rest i sig r q = elim (Bool-cases (strncmp_eq (codes "EOT/") text 4)) [
  | inl e ↦
      let k = known_tag-valid (record c { input = i }) eot (pos 0) sig in
      record {
        lexed = known_tag eot (pos 0) (some (record c { input = i }));
        input = i;
        returns = rw (check_received_eot_lem text, e);
        token_is = rw e;
        context_is = rw e k.1;
        ready = r;
        left = q;
      }
  | inr e ↦
      let k = keyword_tag-valid (record c { input = i }) (find_keyword keywords_tab text) sig in
      record {
        lexed = keyword_tag (find_keyword keywords_tab text) (some (record c { input = i }));
        input = i;
        returns = rw (check_received_eot_lem text, e, get_keyword_val-find text);
        token_is = rw e k.0;
        context_is = rw e k.1;
        ready = r;
        left = q;
      }
]

-- `sf_match_tag`, where the stream brings a text without `>`, of less than MAX_ONE_STRING bytes,
-- and then `>`: it returns the token that the text stands for, or -33, takes exactly the text and
-- its `>` from the stream, counts and remembers the token, notes the kind of value that follows
-- a known token, and changes nothing else.
pub match_tag-MatchesTag :
    (fuel : ℕ) (lval : SemanticValue) (c : Context) (text rest : Bytes)
    → IsValid c
    → pending c.input ≡ text ++ b'>' ∷ rest
    → All (λ b. b ≢ b'>') text
    → length text < max_one_string
    → length text < fuel
    → MatchesTag c text rest (match_tag fuel lval (some c))
unfolding match_tag
match_tag-MatchesTag fuel lval c text rest v p a l f =
    let (i, e, r, q) = tag_loop-ReadsText text rest fuel c [] v p a (omega arith) f in
    rw (e, match_tag) (finish_tag-MatchesTag c text rest i v.0 r q)

pub tag_meaning-start : (e : Element) → tag_meaning (tag_name e) ≡ some (start e, kind_of e)
unfolding tag_meaning strncmp_eq
tag_meaning-start attr = rw (find_keyword-start attr)
tag_meaning-start e = rw (find_keyword-start e)

pub tag_meaning-finish : (e : Element) → tag_meaning (end_tag_name e) ≡ some (finish e, pos 0)
unfolding tag_meaning strncmp_eq
tag_meaning-finish attr = rw (find_keyword-finish attr)
tag_meaning-finish e = rw (find_keyword-finish e)

pub tag_meaning-header :
    tag_meaning tag_xmlversion_and_encoding ≡ some (xmlversion_and_encoding, pos 0)
unfolding tag_meaning strncmp_eq
tag_meaning-header = rw find_keyword-header

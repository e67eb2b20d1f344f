-- ===== src/Transport/Delivery.antt =====
-- What src/xmltp/xmltp_writer.c sends, as src/xmltp/xmltp_lex.c reads it.
use mathlib.Core.Path.{subst}
use mathlib.Core.Option.{some-injective}
use xmltp.Prelude.{
  ℕ, ◌≡◌, refl, sym, ap, ◌∙◌, inl, inr, some, List, [], ◌∷◌, ◌++◌, append_assoc, arith, ℤ, pos,
  length, All,
}
use xmltp.Bytes.{Bytes, codes, c_string}
use xmltp.Tags.{
  Element, start, finish, xmlversion_and_encoding, eot, tag_name, end_tag_name,
  tag_xmlversion_and_encoding, tag_eot,
}
use xmltp.Ctx.{Context, ValueBuffer}
use xmltp.Ctx.Input.{IsValid, pending}
use xmltp.Lexer.{SemanticValue}
use xmltp.Writer.{Writer, Output, fresh_flags}
use xmltp.Writer.Ready.{IsReady, stream}
use xmltp.Writer.Items.{Item, opening, closing, header, end_mark, text, render}
use xmltp.Writer.Phase.{Call, before, ended, steps}
use xmltp.Writer.Calls.{IsCall}
use xmltp.Writer.Run.{do_calls, response-Delivered}
use xmltp.Transport.Stream.{
  Piece, a_tag, an_element, stream_bytes, stream_tokens, IsPiece, Lexes, lex_all, lex_all-Lexes,
}

-- The markup of the writer cut into the pieces of the lexer; `white` has been read before it.
pub data Reads : Bytes → List Item → List Piece → Type 0 where
  read_end : Reads [] [] []
  read_text :
      {white s : Bytes} {items : List Item} {pieces : List Piece}
      → Reads (white ++ c_string s) items pieces
      → Reads white (text s ∷ items) pieces
  read_header :
      {white : Bytes} {items : List Item} {pieces : List Piece}
      → Reads [] items pieces
      → Reads white
          (header ∷ items)
          (a_tag white tag_xmlversion_and_encoding xmlversion_and_encoding ∷ pieces)
  read_end_mark :
      {white : Bytes} {items : List Item} {pieces : List Piece}
      → Reads [] items pieces
      → Reads white (end_mark ∷ items) (a_tag white tag_eot eot ∷ pieces)
  read_opening :
      {white : Bytes} {e : Element} {items : List Item} {pieces : List Piece}
      → Reads [] items pieces
      → Reads white (opening e ∷ items) (a_tag white (tag_name e) (start e) ∷ pieces)
  read_closing :
      {white : Bytes} {e : Element} {items : List Item} {pieces : List Piece}
      → Reads [] items pieces
      → Reads white (closing e ∷ items) (a_tag white (end_tag_name e) (finish e) ∷ pieces)
  read_element :
      {white : Bytes} {e : Element} {b : ValueBuffer} {s : Bytes} {items : List Item}
      {pieces : List Piece}
      → Reads [] items pieces
      → Reads white
          (opening e ∷ text s ∷ closing e ∷ items)
          (an_element white e b (c_string s) ∷ pieces)

tag_append : (t rest : Bytes) → (codes "<" ++ (t ++ codes ">")) ++ rest ≡ b'<' ∷ (t ++ b'>' ∷ rest)
tag_append t rest = ap (λ r. b'<' ∷ r) (append_assoc t (codes ">") rest)

Reads-bytes :
    {white : Bytes} {items : List Item} {pieces : List Piece}
    → Reads white items pieces
    → white ++ render items ≡ stream_bytes pieces []
Reads-bytes read_end = refl
Reads-bytes (read_text {white} {s} {items} r) =
    sym (append_assoc white (c_string s) (render items)) ∙ Reads-bytes r
Reads-bytes (read_header {white} {items} r) =
    ap (λ t. white ++ t)
      (tag_append tag_xmlversion_and_encoding (render items)
        ∙ ap (λ t. b'<' ∷ (tag_xmlversion_and_encoding ++ b'>' ∷ t)) (Reads-bytes r))
Reads-bytes (read_end_mark {white} {items} r) =
    ap (λ t. white ++ b'<' ∷ (tag_eot ++ b'>' ∷ t)) (Reads-bytes r)
Reads-bytes (read_opening {white} {e} {items} r) =
    ap (λ t. white ++ t)
      (tag_append (tag_name e) (render items)
        ∙ ap (λ t. b'<' ∷ (tag_name e ++ b'>' ∷ t)) (Reads-bytes r))
Reads-bytes (read_closing {white} {e} {items} r) =
    ap (λ t. white ++ t)
      (tag_append (end_tag_name e) (render items)
        ∙ ap (λ t. b'<' ∷ (end_tag_name e ++ b'>' ∷ t)) (Reads-bytes r))
Reads-bytes (read_element {white} {e} {b} {s} {items} r) =
    ap (λ t. white ++ t)
      (tag_append (tag_name e) _
        ∙ ap (λ t. b'<' ∷ (tag_name e ++ b'>' ∷ (c_string s ++ t)))
            (tag_append (end_tag_name e) (render items)
              ∙ ap (λ t. b'<' ∷ (end_tag_name e ++ b'>' ∷ t)) (Reads-bytes r)))

-- From end to end: where calls in the order of the protocol, from the fresh state of the writer
-- with nothing waiting, ended a response or a call without a failed send, and another context that
-- expects a tag has these bytes to read, the calls of `yylex` return exactly the tokens of the
-- markup, and nothing is left. The markup is cut into white space, tags and short values.
pub response-Lexes :
    (fd fuel : ℕ) (calls : List Call) (items : List Item) (pieces : List Piece) (o : Output)
    (code : ℤ) (w : Writer) (lval : SemanticValue) (c : Context)
    → IsReady o
    → stream o ≡ []
    → All IsCall calls
    → steps before calls ≡ some (ended, items)
    → Reads [] items pieces
    → All (IsPiece fuel) pieces
    → do_calls fd calls (record { flags = fresh_flags; out = o }) ≡ some (code, w)
    → w.out.ctr_socket_write_errors ≡ 0
    → IsValid c
    → c.lexer.b_value_follows ≡ pos 0
    → pending c.input ≡ w.out.wire
    → Lexes (stream_tokens pieces) [] (lex_all fuel (length (stream_tokens pieces)) lval (some c))
response-Lexes fd fuel calls items pieces o code w lval c h none_waits z e cut short run ok v idle
      on_wire =
    let (code', w', run', _, outcome) = response-Delivered fd calls items o h z e in
    let same : w' ≡ w = ap (λ r. r.1) (some-injective (code', w') (code, w) (sym run' ∙ run)) in
    let sent : w.out.wire ≡ render items =
      subst (λ v. v.out.wire ≡ render items) same
        (elim outcome [
          | inl n ↦ absurd (omega (arith, n, ap (λ v. v.out.ctr_socket_write_errors) same, ok))
          | inr (_, s, _) ↦ s ∙ ap (λ t. t ++ render items) none_waits
        ]) in
    lex_all-Lexes fuel pieces lval c [] v idle (on_wire ∙ sent ∙ Reads-bytes cut) short

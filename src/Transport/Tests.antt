-- ===== src/Transport/Tests.antt =====
-- The theorems on values at concrete streams.
use xmltp.Prelude.{
  ℤ, Option, none, true, replicate, length-replicate, ℕ, List, All, ◌≡◌, refl, sym, ap, some, pos,
  [], ◌∷◌, ◌++◌, arith,
}
use xmltp.Bytes.{Bytes, codes, c_string, strncmp_eq}
use xmltp.Tags.{
  str, proc, proccall, start, finish, xmlversion_and_encoding, eot, tag_xmlversion_and_encoding,
}
use xmltp.Lexer.Tag.{tag_meaning, tag_meaning-start, tag_meaning-finish, tag_meaning-header}
use xmltp.SockObj.{send, send_ext, send_loop}
use xmltp.Writer.{
  Writer, Output, fresh_flags, send_buffer_size, write_string, write_bytes, buffer_or_send,
  flush_send_buffer, flush_created,
}
use xmltp.Writer.Response
use xmltp.Writer.Ready.{IsReady}
use xmltp.Writer.Items.{Item}
use xmltp.Writer.Phase.{Call, Outcome, begin_proc_call, end_proc_call, before, steps}
use xmltp.Writer.Run.{do_calls}
use xmltp.Transport.Delivery.{
  Reads, read_end, read_text, read_header, read_end_mark, read_opening, read_closing, read_element,
  response-Lexes,
}
use xmltp.Transport.Stream.{
  Piece, a_tag, an_element, stream_tokens, IsPiece, Lexes, lex_all, lex_all-Lexes,
}
use xmltp.Encoder.{decode}
use xmltp.Encoder.Decode.{chosen}
use xmltp.Ctx.{
  Context, str_buffer, name_buffer, read_buffer, received, again, create_new_context, buffer_for,
}
use xmltp.Ctx.Input.{IsValid, pending}
use xmltp.Lexer.{SemanticValue, p_context, yylex}
use xmltp.Lexer.Element.{LexesElement, element_bytes}
use xmltp.Lexer.Value.{GetsValue}
use xmltp.Transport.{written, written-escape, decode-yylex-encode, yylex_backslash}

abbrev lval : SemanticValue
lval = p_context

-- `<str>a&lt;b</str>` in two pieces.
abbrev encoded : Context
unfolding create_new_context
encoded =
    create_new_context
      (received b'<' (codes "str>a&l") ∷ again ∷ received b't' (codes ";b</str>") ∷ [])

encoded-IsValid : IsValid encoded
unfolding create_new_context
encoded-IsValid = (
  refl,
  record { in_buffer = omega arith; within = omega arith; size = refl; fits = omega arith },
)

decode-yylex-encode_example :
    (l : LexesElement 40 lval encoded str str_buffer (written (codes "a<b")) []) × (r : ℕ × Bytes)
    × (decode (read_buffer l.last.lexer str_buffer ++ 0 ∷ []) ≡ some r)
    × (c_string (chosen (read_buffer l.last.lexer str_buffer ++ 0 ∷ []) r) ≡ codes "a<b")
unfolding create_new_context buffer_for
decode-yylex-encode_example =
    decode-yylex-encode 40 lval encoded str str_buffer (codes "a<b") [] encoded-IsValid refl refl
      (sym (ap (λ w. element_bytes str w []) (written-escape (codes "a<b") (omega arith))))
      (omega arith) (omega arith) (omega arith) (omega arith)

-- Behind `<str>`: a value `C:\` and its end tag, and the next tag.
abbrev backslash : Context
unfolding create_new_context
backslash =
    let c = create_new_context (received b'C' (codes ":\\</str><isnull>") ∷ []) in
    record c { lexer = record (c.lexer) { b_value_follows = pos 3 } }

backslash-IsValid : IsValid backslash
unfolding create_new_context
backslash-IsValid = (
  refl,
  record { in_buffer = omega arith; within = omega arith; size = refl; fits = omega arith },
)

yylex_backslash_example :
    GetsValue backslash str_buffer
      (codes "C:\\</str>")
      (codes "isnull>")
      (yylex 20 lval (some backslash))
unfolding create_new_context buffer_for
yylex_backslash_example =
    yylex_backslash 20 lval backslash str_buffer (codes "C:") (codes "/str>") (codes "isnull>")
      backslash-IsValid refl refl (omega arith) (omega arith) (omega arith) (omega arith)
      (omega arith)

-- A call of `sp_who`, as another context receives it.
abbrev who_calls : List Call
who_calls = begin_proc_call (codes "sp_who") ∷ end_proc_call ∷ []

abbrev who_pieces : List Piece
who_pieces =
    a_tag [] tag_xmlversion_and_encoding xmlversion_and_encoding
    ∷ a_tag (codes "\n") (codes "proccall") (start proccall)
    ∷ an_element (codes "\n ") proc name_buffer (codes "sp_who")
    ∷ a_tag (codes "\n") (codes "/proccall") (finish proccall)
    ∷ a_tag (codes "\n") (codes "EOT/") eot
    ∷ []

abbrev who_context : Context
unfolding create_new_context
who_context = create_new_context (
    received b'<' (
      codes
        "?xml version=\"1.0\" encoding=\"ISO-8859-1\" ?>\n<proccall>\n <proc>sp_who</proc>\n</proccall>\n<EOT/>")
    ∷ [])

who_context-IsValid : IsValid who_context
unfolding create_new_context
who_context-IsValid = (
  refl,
  record { in_buffer = omega arith; within = omega arith; size = refl; fits = omega arith },
)

who_pieces-IsPiece : All (IsPiece 60) who_pieces
unfolding tag_meaning buffer_for strncmp_eq
who_pieces-IsPiece = (
  (tt, omega arith, omega arith, tag_meaning-header, omega arith),
  (
    ((refl, tt), omega arith, omega arith, tag_meaning-start proccall, omega arith),
    (
      (
        (refl, (refl, tt)),
        refl,
        (refl, (refl, (refl, (refl, (refl, (refl, omega arith)))))),
        omega arith,
        omega arith,
      ),
      (
        ((refl, tt), omega arith, omega arith, tag_meaning-finish proccall, omega arith),
        (((refl, tt), omega arith, omega arith, refl, omega arith), tt),
      ),
    ),
  ),
)

lex_all-Lexes_example : Lexes (stream_tokens who_pieces) [] (lex_all 60 7 lval (some who_context))
unfolding create_new_context
lex_all-Lexes_example =
    lex_all-Lexes 60 who_pieces lval who_context [] who_context-IsValid refl refl who_pieces-IsPiece

abbrev who_output : Output
who_output = record {
  ctr_socket_write_errors = 0;
  p_sock_obj = none;
  n_bytes_in_buff = 0;
  send_buffer = replicate send_buffer_size 0;
  esc_buf = [];
  events = [];
  wire = [];
  creatable = true;
  aborts = 0;
}

who_output-IsReady : IsReady who_output
who_output-IsReady = record {
  fits = omega arith;
  whole = length-replicate {A = ℕ} send_buffer_size 0;
  usable = refl;
}

abbrev writer_of : Option (ℤ × Writer) → Writer
writer_of none = record { flags = fresh_flags; out = who_output }
writer_of (some (_, w)) = w

-- The writer after the call.
abbrev who_written : Writer
who_written = writer_of (do_calls 4 who_calls (record { flags = fresh_flags; out = who_output }))

who_run :
    do_calls 4 who_calls (record { flags = fresh_flags; out = who_output })
    ≡ some (pos 0, who_written)
unfolding do_calls Response.begin_proc_call Response.end_proc_call
who_run = refl

who_sent :
    (who_written.out.ctr_socket_write_errors ≡ 0)
    × (pending who_context.input ≡ who_written.out.wire)
unfolding do_calls Response.begin_proc_call Response.end_proc_call write_string write_bytes
    buffer_or_send flush_send_buffer flush_created c_string send send_ext send_loop
    create_new_context
who_sent = (refl, refl)

abbrev items_of : Outcome → List Item
items_of none = []
items_of (some (_, items)) = items

who_calls-Reads : Reads [] (items_of (steps before who_calls)) who_pieces
unfolding c_string
who_calls-Reads = read_header (
    read_text (
      read_opening
        (read_text (read_element (read_text (read_closing (read_text (read_end_mark read_end))))))))

response-Lexes_example : Lexes (stream_tokens who_pieces) [] (lex_all 60 7 lval (some who_context))
unfolding create_new_context
response-Lexes_example =
    response-Lexes 4 60 who_calls _ who_pieces who_output (pos 0) who_written lval who_context
      who_output-IsReady refl (tt, (tt, tt)) refl who_calls-Reads who_pieces-IsPiece who_run
      who_sent.0 who_context-IsValid refl who_sent.1

-- ===== src/Lexer/Tests.antt =====
-- Runs of the lexer, and its theorems at concrete streams.
use xmltp.Prelude.{refl, some, pos, [], ◌∷◌, arith}
use xmltp.Bytes.{codes}
use xmltp.Tags.{str}
use xmltp.Ctx.{
  Context, str_buffer, int_buffer, received, interrupted, again, closed, create_new_context,
  buffer_for,
}
use xmltp.Ctx.Input.{IsValid}
use xmltp.Lexer.{SemanticValue, p_context, match_tag, get_value}
use xmltp.Lexer.Tag.{MatchesTag, match_tag-MatchesTag}
use xmltp.Lexer.Value.{GetsValue, get_value-GetsValue}
use xmltp.Lexer.Element.{LexesElement, yylex-LexesElement}

abbrev lval : SemanticValue
lval = p_context

-- `<str>A\<B</str>` in three pieces, with an interrupted call between them.
abbrev str_element : Context
unfolding create_new_context
str_element = create_new_context (
    received b'<' (codes "st")
    ∷ interrupted
    ∷ received b'r' (codes ">A\\")
    ∷ again
    ∷ received b'<' (codes "B</str> ")
    ∷ [])

str_element-IsValid : IsValid str_element
unfolding create_new_context
str_element-IsValid = (
  refl,
  record { in_buffer = omega arith; within = omega arith; size = refl; fits = omega arith },
)

yylex-LexesElement_example :
    LexesElement 40 lval str_element str str_buffer (codes "A\\<B") (codes " ")
unfolding create_new_context buffer_for
yylex-LexesElement_example =
    yylex-LexesElement 40 lval str_element str str_buffer (codes "A\\<B") (codes " ")
      str_element-IsValid refl refl refl (refl, (refl, (refl, (refl, omega arith)))) (omega arith)
      (omega arith)

-- Behind the `<` of a tag.
abbrev at_tag : Context
unfolding create_new_context
at_tag = create_new_context (received b'P' (codes "aram><name>") ∷ closed ∷ [])

at_tag-IsValid : IsValid at_tag
unfolding create_new_context
at_tag-IsValid = (
  refl,
  record { in_buffer = omega arith; within = omega arith; size = refl; fits = omega arith },
)

match_tag-MatchesTag_example :
    MatchesTag at_tag (codes "Param") (codes "<name>") (match_tag 9 lval (some at_tag))
unfolding create_new_context
match_tag-MatchesTag_example =
    match_tag-MatchesTag 9 lval at_tag (codes "Param") (codes "<name>") at_tag-IsValid refl
      (omega arith) (omega arith) (omega arith)

-- Behind `<int>`.
abbrev at_value : Context
unfolding create_new_context
at_value =
    let c = create_new_context (received b'4' (codes "2</int>") ∷ []) in
    record c { lexer = record (c.lexer) { b_value_follows = pos 4 } }

at_value-IsValid : IsValid at_value
unfolding create_new_context
at_value-IsValid = (
  refl,
  record { in_buffer = omega arith; within = omega arith; size = refl; fits = omega arith },
)

get_value-GetsValue_example :
    GetsValue at_value int_buffer (codes "42") (codes "/int>") (get_value 9 lval (some at_value))
unfolding create_new_context buffer_for
get_value-GetsValue_example =
    get_value-GetsValue 9 lval at_value int_buffer (codes "42") (codes "/int>") at_value-IsValid
      refl refl (refl, (refl, omega arith)) (omega arith) (omega arith)

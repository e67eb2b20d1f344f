-- ===== src/Ctx/Tests.antt =====
-- The input buffer at a stream that arrives in pieces.
use xmltp.Prelude.{◌≡◌, refl, some, [], ◌∷◌, arith}
use xmltp.Bytes.{codes}
use xmltp.Ctx.{Context, received, interrupted, again, closed, create_new_context}
use xmltp.Ctx.Recv.{get_input_char}
use xmltp.Ctx.Input.{IsValid, pending, Delivers, get_input_char-Delivers}

abbrev pieces : Context
unfolding create_new_context
pieces =
    create_new_context
      (interrupted ∷ received b'<' (codes "s") ∷ again ∷ received b'z' [] ∷ closed ∷ [])

pieces-IsValid : IsValid pieces
unfolding create_new_context
pieces-IsValid = (
  refl,
  record { in_buffer = omega arith; within = omega arith; size = refl; fits = omega arith },
)

pending-pieces : pending pieces.input ≡ codes "<sz"
unfolding create_new_context
pending-pieces = refl

get_input_char-Delivers_example :
    Delivers pieces (pending pieces.input) (get_input_char (some pieces))
get_input_char-Delivers_example = get_input_char-Delivers pieces pieces-IsValid

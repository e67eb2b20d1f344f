-- ===== src/NumString/Tests.antt =====
-- Runs of the automata, and their theorems at concrete texts.
use xmltp.Prelude.{◌≡◌, refl, arith, [], ◌∷◌, ◌++◌, some, neg}
use xmltp.Bytes.{codes}
use xmltp.NumString.{check_string, check_float_string, check_int_string}
use xmltp.NumString.Accepts.{check_float_string-verdict, check_int_string-verdict}

lone_point : check_float_string (codes "+." ++ 0 ∷ []) ≡ some (neg 2)
unfolding check_float_string check_string
lone_point = refl

two_signs : check_int_string (codes "--1" ++ 0 ∷ []) ≡ some (neg 1)
unfolding check_int_string check_string
two_signs = refl

check_float_string-verdict_example : check_float_string (codes "  -12.5 " ++ 0 ∷ []) ≡ some (neg 2)
check_float_string-verdict_example = check_float_string-verdict (codes "  -12.5 ") (omega arith)

check_int_string-verdict_example : check_int_string (codes " +40  " ++ 0 ∷ []) ≡ some (neg 2)
check_int_string-verdict_example = check_int_string-verdict (codes " +40  ") (omega arith)

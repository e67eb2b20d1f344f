-- ===== src/Rpc/Tests.antt =====
-- Runs of the parser of src/ct10api/ct10rpc_parse.c, and its theorems at inputs.
use mathlib.Core.List.{map}
use xmltp.Prelude.{
  ℕ, zero, suc, ◌+◌, ◌≡◌, ◌<◌, refl, Option, none, some, List, [], ◌∷◌, ◌++◌, All, arith, length,
  set, drop, replicate, ℤ, neg, Bool, true, false, length-replicate,
}
use xmltp.Bytes.{Bytes, codes, c_string, strcmp_eq}
use xmltp.NumString.{check_string, check_int_string, check_float_string}
use xmltp.Rpc.State.{Sybase, Parm, new_parm, Rpc}
use xmltp.Rpc.Parm.{process_1_full_parm}
use xmltp.Rpc.Parse.{RpcAnswer, parse, parse_via_automaton, process_1_rpc_char, initialise}
use xmltp.Rpc.Free.{rpc_free}
use xmltp.Rpc.Classes.{Is, is_name, class_of}
use xmltp.Rpc.Spec.{plain, quoted, RpcCall, IsRpcCall, print_call}
use xmltp.Rpc.Expected.{parm_of, Makes, field}
use xmltp.Rpc.RoundTrip.{IsIdle, name_overflow}
use xmltp.Rpc.Call.{given, Gives, parse-print_call}
use xmltp.Rpc.Blocks.{blocks, rpc_free-Gives}
use xmltp.Rpc.Bounds.{IsOrderly, IsBounded, parse-IsBounded}

program : Unit {0}
unfolding check_string check_int_string check_float_string process_1_full_parm parse_via_automaton
    process_1_rpc_char parse c_string strcmp_eq
program = tt

-- A conversion that keeps the text.
abbrev sybase : Sybase
sybase = record { max_name = 132; max_char = none; cs_convert = λ text _ _. some text }

abbrev fresh : Rpc
fresh = record {
  parm_tbl = [];
  parm_tbl_size = 0;
  current_parm = 0;
  first_parm_ind = 1;
  quote_ind = 0;
  p_rpc_name = replicate 1024 0;
  p_parm_name = replicate 1024 0;
  p_parm_val = replicate 1024 0;
  p_output_ind = replicate 1024 0;
  dest_ind = 0;
  output_ind = 0;
  grants = [];
  nb_blocks = 0;
}

abbrev run : Bytes → Option RpcAnswer
run text = parse sybase (given (text ++ 0 ∷ []) (replicate 32 0) 32 (replicate 4 none)) fresh

outcome : Option RpcAnswer → Option (ℤ × ℕ × List Bool)
outcome none = none
outcome (some a) = some (a.rc, a.nb_parm, map is_set a.rpc.parm_tbl)
  where
    is_set : Option Parm → Bool
    is_set none = false
    is_set (some _) = true

-- A comma at the end counts a parameter whose place in the table is not written.
comma_at_end :
    outcome (run (codes "sp_a 1,")) ≡ some (neg 999, 2, true ∷ false ∷ false ∷ false ∷ [])
unfolding program outcome
comma_at_end = refl

-- An output indicator that is none gives the general error, and not that of a parameter.
bad_output_indicator : outcome (run (codes "sp_a 1 oops")) ≡ some (neg 10, 0, replicate 4 false)
unfolding program outcome
bad_output_indicator = refl

-- Five parameters do not fit a table of four.
too_many : outcome (run (codes "sp_a 1,2,3,4,5")) ≡ some (neg 10, 0, replicate 4 true)
unfolding program outcome
too_many = refl

-- A byte above 127 in a value without quotes is looked up behind the table of its column.
high_byte : outcome (run (codes "sp_a @b=" ++ 233 ∷ [])) ≡ none
unfolding program outcome
high_byte = refl

-- sp_a @b = 12 , "x y" out,-4.5
abbrev sample : RpcCall
sample = record {
  lead = [];
  first = b's';
  name = codes "p_a";
  gap = b' ';
  args =
      record {
        before = [];
        label =
            some (record { word = codes "b"; before_equal = codes " "; after_equal = codes " " });
        quoting = plain;
        text = codes "12";
        behind = codes " ";
        output = none;
      }
      ∷ record {
        before = codes " ";
        label = none;
        quoting = quoted;
        text = codes "x y";
        behind = codes " ";
        output = some (record { word = codes "out"; behind = [] });
      }
      ∷ record {
        before = [];
        label = none;
        quoting = plain;
        text = codes "-4.5";
        behind = [];
        output = none;
      }
      ∷ [];
}

sample-IsRpcCall : IsRpcCall sample
unfolding class_of
sample-IsRpcCall = ground arith

or_new : Option Parm → Parm
or_new none = new_parm
or_new (some p) = p

sample_parms : List Parm
unfolding or_new strcmp_eq
sample_parms = map (λ a. or_new (parm_of sybase a)) sample.args

sample-Makes : Makes sybase sample.args sample_parms
unfolding sample_parms or_new strcmp_eq
sample-Makes = (refl, (refl, (refl, tt)))

fresh-IsIdle : IsIdle fresh
fresh-IsIdle = record {
  rpc_name_size = refl;
  parm_name_size = refl;
  parm_val_size = refl;
  output_ind_size = refl;
  memory = refl;
}

small_replicate : (n : ℕ) → All (λ c. c < 128) (replicate n 0)
small_replicate zero = tt
small_replicate (suc n) = (omega arith, small_replicate n)

fresh-IsOrderly : IsOrderly fresh
fresh-IsOrderly = record {
  rpc_name_size = refl;
  parm_name_size = refl;
  parm_val_size = refl;
  output_ind_size = refl;
  val_ascii = small_replicate 1024;
  quoting = plain;
  quote_is = refl;
}

parse-print_call_example :
    (a : RpcAnswer) × (parse sybase
        (given (print_call sample) (replicate 32 0) 32 (replicate 4 none))
        fresh
      ≡ some a)
    × Gives a (replicate 32 0) (codes "sp_a") 32 0 (replicate 4 none) sample_parms
parse-print_call_example =
    parse-print_call sybase (omega arith) fresh fresh-IsIdle sample sample_parms (replicate 32 0) 32
      (replicate 4 none) sample-IsRpcCall sample-Makes (omega arith) (omega arith) (omega arith)
      (omega arith)

parse-IsBounded_example :
    (a : RpcAnswer) × (parse sybase
        (given (codes "sp_a @=,,{" ++ 0 ∷ []) (replicate 32 0) 32 (replicate 4 none))
        fresh
      ≡ some a)
    × IsBounded a (replicate 32 0) (replicate 4 none)
parse-IsBounded_example =
    parse-IsBounded sybase (omega arith) fresh fresh-IsOrderly (codes "sp_a @=,,{") (replicate 32 0)
      32 (replicate 4 none) (omega arith) (omega arith) (omega arith) (omega arith) (omega arith)

rpc_free-Gives_example :
    (vals : List Bytes) × (map (λ (p : Parm). p.p_val) sample_parms ≡ map some vals)
    × (parse-print_call_example.0.rpc.nb_blocks ≡ 0 + length (blocks vals sample_parms))
    × (rpc_free parse-print_call_example.0.rpc_name parse-print_call_example.0.rpc.parm_tbl
          parse-print_call_example.0.nb_parm
        ≡ some (record {
          freed = blocks vals sample_parms;
          rpc_name = set (field (codes "sp_a") 32 ++ drop 32 (replicate 32 0)) 0 0;
          t_parm =
              replicate (length sample_parms) none ++ drop (length sample_parms) (replicate 4 none);
          nb_parm = 0;
        }))
rpc_free-Gives_example =
    rpc_free-Gives sybase sample.args parse-print_call_example.0 (replicate 32 0) (codes "sp_a") 32
      0 (replicate 4 none) sample_parms sample-Makes parse-print_call_example.2

letters : (n : ℕ) → All (Is is_name) (replicate n b'a')
unfolding class_of
letters zero = tt
letters (suc n) = ((omega arith, refl), letters n)

name_overflow_example :
    parse_via_automaton sybase
      (b'a' ∷ (replicate 1023 b'a' ++ b'a' ∷ 0 ∷ []))
      0
      (initialise sybase (replicate 4 none) 4 fresh)
    ≡ none
unfolding class_of
name_overflow_example =
    name_overflow sybase fresh (replicate 4 none) [] (replicate 1023 b'a') b'a' b'a' (0 ∷ []) refl
      tt (omega arith, refl) (letters 1023) (omega arith, refl)
      (omega (arith, length-replicate {A = ℕ} 1023 b'a'))

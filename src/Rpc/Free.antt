-- ===== src/Rpc/Free.antt =====
-- `ct10rpc_free` of src/ct10api/ct10rpc_parse.c.
use xmltp.Prelude.{ℕ, zero, suc, Option, none, some, List, [], ◌∷◌, set}
use xmltp.Bytes.{Bytes}
use xmltp.Rpc.State.{Parm}

-- A block of memory that calloc gave for a parameter: the buffer of its value, or its structure.
pub data Block : Type 0 where
  value : Bytes → Block
  structure : Parm → Block

-- What `ct10rpc_free` leaves: the blocks that it has given back, in this order, and its arguments.
pub record FreedRpc : Type 0 where
  pub freed : List Block
  pub rpc_name : Bytes
  pub t_parm : List (Option Parm)
  pub nb_parm : ℕ

-- `free(t_parm[x]->p_val)`, if it is not NULL.
abbrev pub free_value : Option Bytes → List Block → List Block
free_value none freed = freed
free_value (some bytes) freed = value bytes ∷ freed

-- A pointer that is not NULL is freed, behind its value, and its place is set to NULL.
abbrev pub free_parm :
    Option Parm
    → Option (List Block × List (Option Parm))
    → Option (List Block × List (Option Parm))
free_parm _ none = none
free_parm none (some (freed, t)) = some (freed, none ∷ t)
free_parm (some p) (some (freed, t)) = some (free_value p.p_val (structure p ∷ freed), none ∷ t)

unfoldable pub free_loop : ℕ → List (Option Parm) → Option (List Block × List (Option Parm))
free_loop zero t = some ([], t)
free_loop (suc n) [] = none
free_loop (suc n) (p ∷ t) = free_parm p (free_loop n t)

abbrev pub end_free : Bytes → Option (List Block × List (Option Parm)) → Option FreedRpc
end_free rpc_name none = none
end_free rpc_name (some (freed, t)) =
    some (record { freed = freed; rpc_name = set rpc_name 0 0; t_parm = t; nb_parm = 0 })

-- `ct10rpc_free`
unfoldable pub rpc_free : Bytes → List (Option Parm) → ℕ → Option FreedRpc
rpc_free rpc_name t_parm nb_parm = end_free rpc_name (free_loop nb_parm t_parm)

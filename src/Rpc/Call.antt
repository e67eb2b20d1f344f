-- ===== src/Rpc/Call.antt =====
-- `ct10rpc_parse` as a whole: what it gives back for the text of a call.
use xmltp.Prelude.{
  ℕ, zero, suc, ◌+◌, ◌-◌, ◌≤◌, ◌<◌, ◌≡◌, refl, sym, ap, ◌∙◌, true, Option, some, List, [], ◌∷◌,
  ◌++◌, arith, leb, length, take, drop, replicate, pos, neg, length-take, length-replicate,
  length-append, length-drop, drop-append,
}
use mathlib.Core.List.{map}
use xmltp.Bytes.{Bytes, c_string}
use xmltp.Rpc.State.{Sybase, Parm, Rpc, rpc_syntax_ok, strncpy_bytes}
use xmltp.Rpc.Parse.{
  parse_via_automaton, initialise, RpcAnswer, Arguments, write_front, give_answer, parse,
}
use xmltp.Rpc.Buffers.{write-append}
use xmltp.Rpc.Spec.{Arg, RpcCall, print_call, IsRpcCall}
use xmltp.Rpc.Expected.{IsSybase, Makes, field}
use xmltp.Rpc.Types.{ct10strncpy-field}
use xmltp.Rpc.RoundTrip.{IsIdle, call-CallParsed}

-- No argument is NULL.
abbrev pub given : Bytes → Bytes → ℕ → List (Option Parm) → Arguments
given chaine rpc_name size tbl = record {
  has_context = true;
  chaine_rpc = some chaine;
  rpc_name = some rpc_name;
  rpc_name_size = pos size;
  t_parm = some tbl;
  t_parm_size = pos (length tbl);
}

pub length-field : (text : Bytes) (n : ℕ) → 0 < n → length (field text n) ≡ n
length-field text n h = omega (
  arith,
  length-append (take (n - 1) text) (replicate (n - length (take (n - 1) text)) 0),
  length-replicate {A = ℕ} (n - length (take (n - 1) text)) 0,
  length-take (n - 1) text,
)

length-strncpy_bytes : (n : ℕ) → length (strncpy_bytes [] n) ≡ n
length-strncpy_bytes zero = refl
length-strncpy_bytes (suc n) = omega (arith, length-replicate {A = ℕ} (suc n - 0) 0)

leb_lem : (a b : ℕ) → a ≤ b → leb a b ≡ true
leb_lem a b h = ground arith

write_front_lem :
    (dest copy : Bytes)
    → length copy ≤ length dest
    → write_front dest (some copy) ≡ some (copy ++ drop (length copy) dest)
write_front_lem dest copy h = rw (leb_lem (length copy) (length dest) h) refl

length-Makes :
    (syb : Sybase) (args : List Arg) (ps : List Parm) → Makes syb args ps → length ps ≡ length args
length-Makes syb [] [] h = refl
length-Makes syb [] (p ∷ ps) h = absurd h
length-Makes syb (a ∷ args) [] h = absurd h
length-Makes syb (a ∷ args) (p ∷ ps) (_, h) = ap suc (length-Makes syb args ps h)

length-map-some : (ps : List Parm) → length (map some ps) ≡ length ps
length-map-some [] = refl
length-map-some (p ∷ ps) = ap suc (length-map-some ps)

-- What `ct10rpc_parse` gives back for a call: its code, the name in its array, and the structures
-- of the parameters at the front of the table, for each of which calloc has given two blocks, beside
-- those of before.
pub record Gives (a : RpcAnswer) (rpc_name name : Bytes) (size before : ℕ)
    (tbl : List (Option Parm)) (ps : List Parm) : Type 0 where
  pub rc_is : a.rc ≡ rpc_syntax_ok
  pub name_is : a.rpc_name ≡ field name size ++ drop size rpc_name
  pub nb_is : a.nb_parm ≡ length ps
  pub table_is : a.rpc.parm_tbl ≡ map some ps ++ drop (length ps) tbl
  pub blocks_are : a.rpc.nb_blocks ≡ before + (length ps + length ps)

-- The array for the name, filled with NULs.
abbrev pub cleared : Bytes → ℕ → Bytes
cleared rpc_name size = strncpy_bytes [] size ++ drop (length (strncpy_bytes [] size)) rpc_name

pub length-cleared :
    (rpc_name : Bytes) (size : ℕ)
    → size ≤ length rpc_name
    → length (cleared rpc_name size) ≡ length rpc_name
length-cleared rpc_name size h = omega (
  arith,
  length-append (strncpy_bytes [] size) (drop (length (strncpy_bytes [] size)) rpc_name),
  length-drop (length (strncpy_bytes [] size)) rpc_name,
  length-strncpy_bytes size,
)

drop-cleared :
    (rpc_name : Bytes) (size k : ℕ) → k ≡ size → drop k (cleared rpc_name size) ≡ drop size rpc_name
drop-cleared rpc_name size k e =
    ap (λ (j : ℕ). drop j (cleared rpc_name size)) (e ∙ sym (length-strncpy_bytes size))
    ∙ drop-append (strncpy_bytes [] size) (drop (length (strncpy_bytes [] size)) rpc_name)
    ∙ ap (λ (j : ℕ). drop j rpc_name) (length-strncpy_bytes size)

module _ (syb : Sybase) (s : Rpc) where
  pub parse-given :
      (chaine rpc_name : Bytes) (n : ℕ) (x : Option Parm) (tbl : List (Option Parm))
      → suc n ≤ length rpc_name
      → parse syb (given chaine rpc_name (suc n) (x ∷ tbl)) s
        ≡ give_answer
            (cleared rpc_name (suc n))
            (suc n)
            (parse_via_automaton syb chaine 0 (initialise syb (x ∷ tbl) (length (x ∷ tbl)) s))
  unfolding parse
  parse-given chaine rpc_name n x tbl h =
      rw
        (write_front_lem rpc_name (strncpy_bytes [] (suc n))
          (omega (arith, length-strncpy_bytes (suc n))))
        refl

-- The answer after the automaton has accepted.
abbrev pub accepted : Bytes → Bytes → Rpc → RpcAnswer
accepted name rest final = record {
  rc = rpc_syntax_ok;
  rpc_name = name ++ rest;
  nb_parm = final.current_parm;
  rpc = final;
}

pub answer_accepted :
    (rpc_name name : Bytes) (size : ℕ) (final : Rpc)
    → 0 < size
    → size ≤ length rpc_name
    → c_string final.p_rpc_name ≡ name
    → give_answer (cleared rpc_name size) size (some (neg 999, final))
      ≡ some (accepted (field name size) (drop size rpc_name) final)
answer_accepted rpc_name name size final pos_size fits e =
    rw
      (
        e,
        ct10strncpy-field name size pos_size,
        write_front_lem (cleared rpc_name size) (field name size)
            (omega (arith, length-field name size pos_size, length-cleared rpc_name size fits)),
        drop-cleared rpc_name size (length (field name size)) (length-field name size pos_size),
      )
      refl

module _ (syb : Sybase) (room : IsSybase syb) (s : Rpc) (idle : IsIdle s) where
  -- `ct10rpc_parse`, between two calls, with memory, on the text of a call, an array for the name
  -- and a table with a place for each parameter, returns RPC_SYNTAX_OK with the name, cut to its
  -- array, the number of the parameters, and for each parameter the structure that its name,
  -- quotes, value and direction ask for; the rest of the table is kept, and calloc has given two
  -- blocks for each parameter. A value without quotes is of ASCII characters, each word is shorter
  -- than its buffer, and each value can be converted.
  pub parse-print_call :
      (c : RpcCall) (ps : List Parm) (rpc_name : Bytes) (size : ℕ) (tbl : List (Option Parm))
      → IsRpcCall c
      → Makes syb c.args ps
      → 0 < size
      → size ≤ length rpc_name
      → 0 < length tbl
      → length c.args ≤ length tbl
      → (a : RpcAnswer) × (parse syb (given (print_call c) rpc_name size tbl) s ≡ some a)
        × Gives a rpc_name (c.first ∷ c.name) size s.nb_blocks tbl ps
  parse-print_call c ps rpc_name zero tbl hc hm hs fits ht ha = absurd (omega arith)
  parse-print_call c ps rpc_name (suc n) [] hc hm hs fits ht ha = absurd (omega arith)
  parse-print_call c ps rpc_name (suc n) (x ∷ tbl) hc hm hs fits ht ha =
      let r = call-CallParsed syb room s idle (x ∷ tbl) c ps hc hm ha in
      (
        accepted (field (c.first ∷ c.name) (suc n)) (drop (suc n) rpc_name) r.final,
        parse-given syb s (print_call c) rpc_name n x tbl fits
            ∙ ap (give_answer (cleared rpc_name (suc n)) (suc n)) r.runs
            ∙ answer_accepted rpc_name (c.first ∷ c.name) (suc n) r.final hs fits r.name_is,
        record {
          rc_is = refl;
          name_is = refl;
          nb_is = r.count;
          table_is =
              r.table
              ∙ write-append (map some ps) [] (x ∷ tbl) 0 refl
                  (omega (arith, length-map-some ps, length-Makes syb c.args ps hm))
              ∙ ap (λ (k : ℕ). map some ps ++ drop k (x ∷ tbl)) (length-map-some ps);
          blocks_are = r.blocks_are;
        },
      )

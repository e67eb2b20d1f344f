-- ===== src/Hosts.antt =====
-- src/xmltp/xmltp_hosts.c: the file that maps the logical names of servers to hosts and ports.
-- A line is what `fgets` put into its buffer, and a file the list of its lines; `none` is a file
-- that cannot be opened. An array is the list of the bytes that were written to it: `xmltp_hosts`
-- looks at its length.
pub mod Fields
pub mod Lookup
mod Tests
use xmltp.Prelude.{
  ℕ, zero, suc, ◌+◌, ◌-◌, Bool, true, false, not, ◌&&◌, ◌||◌, Option, none, some, List, [], ◌∷◌,
  ◌++◌, ◌==◌, if◌then◌else◌, leb, length, take, replicate,
}
use xmltp.Bytes.{Bytes, codes, c_string, strncmp_eq, strcmp_eq}

-- The local variables of `sf_split_line`; `j` is the length of the array that is being written.
pub record Split : Type 0 where
  pub step : ℕ
  pub on_data_ind : Bool
  pub logical_name : Bytes
  pub host_name : Bytes
  pub port_number : Bytes

-- What ends the `while` loop.
abbrev pub is_end : ℕ → Bool
is_end c = c == b'#' || c == 0 || c == b'\n'

abbrev pub is_separator : ℕ → Bool
is_separator c = c == b'\t' || c == b' '

-- `port_number[j] = '\0'` with the clean exit.
abbrev pub last_field_done : Split → Split
last_field_done s = record s {
  step = s.step + 1;
  on_data_ind = false;
  port_number = s.port_number ++ 0 ∷ [];
}

-- The `switch` at the end of a field.
abbrev pub field_done : Split → Split
field_done s =
    if s.step == 1
    then record s { on_data_ind = false; logical_name = s.logical_name ++ 0 ∷ [] }
    else if s.step == 2
    then record s { on_data_ind = false; host_name = s.host_name ++ 0 ∷ [] }
    else record s { on_data_ind = false }

abbrev pub start_field : Split → Split
start_field s = if s.on_data_ind then s else record s { on_data_ind = true; step = s.step + 1 }

-- The `switch` of the transfer; `none` is its default branch, in which `i` stays and the loop goes
-- on for ever.
abbrev pub transfer : ℕ → Split → Option Split
transfer c s =
    if s.step == 1
    then some (record s { logical_name = s.logical_name ++ c ∷ [] })
    else if s.step == 2
    then some (record s { host_name = s.host_name ++ c ∷ [] })
    else if s.step == 3
    then some (record s { port_number = s.port_number ++ c ∷ [] })
    else none

-- The `while` loop, and whether it ends at the end of the text. The comparison of `i` with the size
-- of the buffer is always true, since `fgets` puts a NUL into it.
pub split_loop : Bytes → Split → Option (Bool × Split)
split_loop [] s = some (true, s)
split_loop (c ∷ buf) s = elim (is_end c) [
  | true ↦ some (true, s)
  | false ↦ elim (is_separator c) [
    | true ↦ elim s.on_data_ind [
      | false ↦ split_loop buf s
      | true ↦ elim (s.step == 3) [
        | true ↦ some (false, last_field_done s)
        | false ↦ split_loop buf (field_done s)
      ]
    ]
    | false ↦ elim (transfer c (start_field s)) [ none ↦ none | some s' ↦ split_loop buf s' ]
  ]
]

-- What follows the loop.
abbrev pub after_loop : Bool × Split → Split
after_loop (at_end, s) =
    if at_end && s.on_data_ind
    then if s.step == 3 then last_field_done s else record s { step = s.step + 1 }
    else s

abbrev pub finish_split : Option (Bool × Split) → Option (ℕ × Split)
finish_split none = none
finish_split (some r) = some (if (after_loop r).step == 4 then 0 else 1, after_loop r)

abbrev pub new_split : Split
new_split = record {
  step = 0;
  on_data_ind = false;
  logical_name = [];
  host_name = [];
  port_number = [];
}

-- `sf_split_line`
pub split_line : Bytes → Option (ℕ × Split)
split_line buf = finish_split (split_loop buf new_split)

abbrev pub string_size : ℕ
string_size = 256

-- The bytes that `strncpy` writes.
abbrev pub strncpy : Bytes → ℕ → Bytes
strncpy s n = let t = take n (c_string s) in t ++ replicate (n - length t) 0

-- The test at the head of the `while` loop of `xmltp_hosts`.
abbrev pub is_skipped : Bytes → Bool
is_skipped [] = false
is_skipped (c ∷ buf) = c == b'#' || strcmp_eq (c ∷ buf) (codes "\n")

-- What `xmltp_hosts` returns: its code, `host_name` and `port_number`.
abbrev pub Answer : Type 0
Answer = ℕ × Bytes × Bytes

-- The name of a line that was split, against the one that is looked for.
abbrev pub match_line : Bytes → ℕ × Split → Option Answer
match_line logical_name (rc, s) =
    if (rc == 0) && strncmp_eq s.logical_name logical_name 32
    then some (0, strncpy s.host_name string_size, strncpy s.port_number 10)
    else none

-- `char t_logical_name[STRING_SIZE+1]`, and so for the two others: what was written to them stays
-- inside.
abbrev pub within_arrays : Split → Bool
within_arrays s =
    leb (length s.logical_name) (string_size + 1)
    && (leb (length s.host_name) (string_size + 1) && leb (length s.port_number) (string_size + 1))

-- A round of the loop: the outer option is `none` where `sf_split_line` does not return, and where
-- it writes behind one of the three arrays.
abbrev pub try_line : Bytes → Option (ℕ × Split) → Option (Option Answer)
try_line logical_name none = none
try_line logical_name (some r) =
    if within_arrays r.1 then some (match_line logical_name r) else none

abbrev pub hosts_round : Bytes → Bytes → Option (Option Answer)
hosts_round logical_name buf =
    if is_skipped buf then some none else try_line logical_name (split_line buf)

-- The next lines, unless the round returned.
abbrev pub or_next : Option Answer → Option (Option Answer) → Option Answer
or_next rest none = none
or_next rest (some none) = rest
or_next rest (some (some a)) = some a

pub hosts_loop : List Bytes → Bytes → Option Answer
hosts_loop [] logical_name = some (2, 0 ∷ [], 0 ∷ [])
hosts_loop (buf ∷ lines) logical_name =
    or_next (hosts_loop lines logical_name) (hosts_round logical_name buf)

-- `xmltp_hosts`
pub xmltp_hosts : Option (List Bytes) → Bytes → Option Answer
xmltp_hosts none logical_name = some (1, 0 ∷ [], 0 ∷ [])
xmltp_hosts (some lines) logical_name = hosts_loop lines logical_name

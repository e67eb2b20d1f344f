-- ===== src/Hosts/Lookup.antt =====
-- `xmltp_hosts` of src/xmltp/xmltp_hosts.c against a search in the words of the lines.
use mathlib.Core.Option.{some-injective}
use xmltp.Prelude.{
  ℕ, ◌≡◌, refl, sym, ap, ap₂, ◌∙◌, true, Bool-cases, inl, inr, Option, none, some, List, [], ◌∷◌,
  ◌==◌, arith, if◌then◌else◌, All,
}
use xmltp.Bytes.{Bytes, strncmp_eq, strcmp_eq}
use xmltp.Hosts.{
  Split, is_end, split_line, strncpy, string_size, is_skipped, Answer, within_arrays, match_line,
  try_line, hosts_round, or_next, hosts_loop, xmltp_hosts,
}
use xmltp.Hosts.Fields.{
  words, Triple, first_three, summary, AreShort, IsWithin, Stays, split_line-words,
  split_line-Stays,
}

-- The host and the port of a line, if it has three words and the first one agrees with the name.
abbrev pub entry_of : Bytes → Option Triple → Option Answer
entry_of logical_name none = none
entry_of logical_name (some (l, h, p)) =
    if strncmp_eq l logical_name 32 then some (0, strncpy h string_size, strncpy p 10) else none

abbrev pub first_entry : Option Answer → Answer → Answer
first_entry none rest = rest
first_entry (some a) rest = a

-- The first line that has the name.
abbrev pub lookup : List Bytes → Bytes → Answer
lookup [] logical_name = (2, 0 ∷ [], 0 ∷ [])
lookup (buf ∷ lines) logical_name =
    first_entry (entry_of logical_name (first_three (words [] buf))) (lookup lines logical_name)

skipped-words : (buf : Bytes) → is_skipped buf ≡ true → words [] buf ≡ []
unfolding words strcmp_eq
skipped-words [] h = refl
skipped-words (c ∷ buf) h = let e : is_end c ≡ true = ground arith in rw (e, words) refl

match_line-summary :
    (logical_name : Bytes) (r : ℕ × Split) (t : Option Triple)
    → summary (some r) ≡ some t
    → match_line logical_name r ≡ entry_of logical_name t
match_line-summary logical_name (rc, s) t h = elim (Bool-cases (rc == 0)) [
  | inl e ↦
      let found : Option Triple = some (s.logical_name, s.host_name, s.port_number) in
      let q : summary (some (rc, s)) ≡ some found = rw e refl in
      let p : match_line logical_name (rc, s) ≡ entry_of logical_name found = rw e refl in
      p ∙ ap (entry_of logical_name) (some-injective found t (sym q ∙ h))
  | inr e ↦
      let q : summary (some (rc, s)) ≡ some none = rw e refl in
      let p : match_line logical_name (rc, s) ≡ none = rw e refl in
      p ∙ ap (entry_of logical_name) (some-injective none t (sym q ∙ h))
]

IsWithin-within_arrays : (s : Split) → IsWithin s → within_arrays s ≡ true
IsWithin-within_arrays s (a, b, c) = ground arith

try_line-summary :
    (logical_name : Bytes) (r : Option (ℕ × Split)) (t : Option Triple)
    → summary r ≡ some t
    → Stays r
    → try_line logical_name r ≡ some (entry_of logical_name t)
try_line-summary logical_name none t h w = cc
try_line-summary logical_name (some r) t h w =
    rw (IsWithin-within_arrays r.1 w) (ap some (match_line-summary logical_name r t h))

hosts_round-entry :
    (logical_name buf : Bytes)
    → AreShort (words [] buf)
    → hosts_round logical_name buf ≡ some (entry_of logical_name (first_three (words [] buf)))
hosts_round-entry logical_name buf w = elim (Bool-cases (is_skipped buf)) [
  | inl e ↦ rw (e, skipped-words buf e) refl
  | inr e ↦ rw e (
      try_line-summary logical_name (split_line buf) _ (split_line-words buf)
        (split_line-Stays buf w))
]

or_next-first :
    (rest : Answer) (e : Option Answer) → or_next (some rest) (some e) ≡ some (first_entry e rest)
or_next-first rest none = refl
or_next-first rest (some a) = refl

-- The first three words of each line are of 256 bytes at most.
abbrev pub HasShortWords : List Bytes → Type 0
HasShortWords = All (λ buf. AreShort (words [] buf))

hosts_loop-lookup :
    (lines : List Bytes) (logical_name : Bytes)
    → HasShortWords lines
    → hosts_loop lines logical_name ≡ some (lookup lines logical_name)
unfolding hosts_loop
hosts_loop-lookup [] logical_name w = refl
hosts_loop-lookup (buf ∷ lines) logical_name (w, ws) =
    ap₂ or_next (hosts_loop-lookup lines logical_name ws) (hosts_round-entry logical_name buf w)
    ∙ or_next-first (lookup lines logical_name) _

-- `xmltp_hosts` returns 1 on a file that cannot be opened. On a file in which the first three words
-- of each line are of 256 bytes at most it returns, without a write behind its arrays, with the host
-- and the port of the first line that has three words and whose first word agrees with the logical
-- name in its first 32 bytes, and with 2 where there is no such line.
pub xmltp_hosts-lookup :
    (lines : List Bytes) (logical_name : Bytes)
    → HasShortWords lines
    → (xmltp_hosts none logical_name ≡ some (1, 0 ∷ [], 0 ∷ []))
      × (xmltp_hosts (some lines) logical_name ≡ some (lookup lines logical_name))
unfolding xmltp_hosts
xmltp_hosts-lookup lines logical_name w = (refl, hosts_loop-lookup lines logical_name w)

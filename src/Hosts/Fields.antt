-- ===== src/Hosts/Fields.antt =====
-- `sf_split_line` of src/xmltp/xmltp_hosts.c against the words of a line.
use xmltp.Prelude.{
  ℕ, ◌≡◌, refl, true, false, Bool-cases, inl, inr, Option, none, some, List, [], ◌∷◌, ◌++◌, ◌==◌,
  if◌then◌else◌, ◌≤◌, arith, All, length, take, length-append,
}
use xmltp.Bytes.{Bytes}
use xmltp.Hosts.{Split, is_end, is_separator, split_loop, finish_split, new_split, split_line}

-- A word that has begun, if it has any bytes.
abbrev pub close : Bytes → List Bytes → List Bytes
close [] rest = rest
close (c ∷ w) rest = (c ∷ w) ∷ rest

-- The words between tabs and spaces, up to a `#`, a NUL or the end of the line; `word` has begun.
unfoldable pub words : Bytes → Bytes → List Bytes
words word [] = close word []
words word (c ∷ buf) = elim (is_end c) [
  | true ↦ close word []
  | false ↦ elim (is_separator c) [
    | true ↦ close word (words [] buf)
    | false ↦ words (word ++ c ∷ []) buf
  ]
]

abbrev pub Triple : Type 0
Triple = Bytes × Bytes × Bytes

abbrev pub first_three : List Bytes → Option Triple
first_three (l ∷ h ∷ p ∷ _) = some (l ++ 0 ∷ [], h ++ 0 ∷ [], p ++ 0 ∷ [])
first_three _ = none

-- The three arrays where the code is 0.
abbrev pub summary : Option (ℕ × Split) → Option (Option Triple)
summary none = none
summary (some (rc, s)) =
    some (if rc == 0 then some (s.logical_name, s.host_name, s.port_number) else none)

-- A word that fits an array of 257 bytes with the NUL behind it.
abbrev pub IsShort : Bytes → Type 0
IsShort w = length w ≤ 256

-- The three words that are copied from a line are short.
abbrev pub AreShort : List Bytes → Type 0
AreShort ws = All IsShort (take 3 ws)

-- What was written to the three arrays is no longer than they are.
abbrev pub IsWithin : Split → Type 0
IsWithin s =
    (length s.logical_name ≤ 257) × (length s.host_name ≤ 257) × (length s.port_number ≤ 257)

abbrev pub Stays : Option (ℕ × Split) → Type 0
Stays none = ⊥
Stays (some (_, s)) = IsWithin s

with_nul : (w : Bytes) → IsShort w → length (w ++ 0 ∷ []) ≤ 257
with_nul w h = omega (arith, length-append w (0 ∷ []))

-- Where the loop stands: between words, or in one, whose first byte is given apart.
data Place : Type 0 where
  start : Place
  behind_one : Bytes → Place
  behind_two : Bytes → Bytes → Place
  in_first : ℕ → Bytes → Place
  in_second : Bytes → ℕ → Bytes → Place
  in_third : Bytes → Bytes → ℕ → Bytes → Place

abbrev state : Place → Split
state start = new_split
state (behind_one l) = record new_split { step = 1; logical_name = l ++ 0 ∷ [] }
state (behind_two l h) = record new_split {
  step = 2;
  logical_name = l ++ 0 ∷ [];
  host_name = h ++ 0 ∷ [];
}
state (in_first c w) = record new_split { step = 1; on_data_ind = true; logical_name = c ∷ w }
state (in_second l c w) = record new_split {
  step = 2;
  on_data_ind = true;
  logical_name = l ++ 0 ∷ [];
  host_name = c ∷ w;
}
state (in_third l h c w) = record {
  step = 3;
  on_data_ind = true;
  logical_name = l ++ 0 ∷ [];
  host_name = h ++ 0 ∷ [];
  port_number = c ∷ w;
}

abbrev all_words : Place → Bytes → List Bytes
all_words start buf = words [] buf
all_words (behind_one l) buf = l ∷ words [] buf
all_words (behind_two l h) buf = l ∷ h ∷ words [] buf
all_words (in_first c w) buf = words (c ∷ w) buf
all_words (in_second l c w) buf = l ∷ words (c ∷ w) buf
all_words (in_third l h c w) buf = l ∷ h ∷ words (c ∷ w) buf

abbrev Splits : Bytes → Place → Type 0
Splits buf p =
    (summary (finish_split (split_loop buf (state p))) ≡ some (first_three (all_words p buf)))
    × (AreShort (all_words p buf) → Stays (finish_split (split_loop buf (state p))))

at_end-Splits : (p : Place) → Splits [] p
unfolding split_loop words
at_end-Splits start = (refl, λ _. (omega arith, omega arith, omega arith))
at_end-Splits (behind_one l) = (refl, λ (a, _). (with_nul l a, omega arith, omega arith))
at_end-Splits (behind_two l h) = (refl, λ (a, (b, _)). (with_nul l a, with_nul h b, omega arith))
at_end-Splits (in_first c w) = (refl, λ (a, _). (omega arith, omega arith, omega arith))
at_end-Splits (in_second l c w) = (refl, λ (a, (b, _)). (with_nul l a, omega arith, omega arith))
at_end-Splits (in_third l h c w) =
    (refl, λ (a, (b, (q, _))). (with_nul l a, with_nul h b, with_nul (c ∷ w) q))

end-Splits : (d : ℕ) (buf : Bytes) (p : Place) → is_end d ≡ true → Splits (d ∷ buf) p
unfolding split_loop words
end-Splits d buf start e =
    rw (e, split_loop, words) (refl, λ _. (omega arith, omega arith, omega arith))
end-Splits d buf (behind_one l) e =
    rw (e, split_loop, words) (refl, λ (a, _). (with_nul l a, omega arith, omega arith))
end-Splits d buf (behind_two l h) e =
    rw (e, split_loop, words) (refl, λ (a, (b, _)). (with_nul l a, with_nul h b, omega arith))
end-Splits d buf (in_first c w) e =
    rw (e, split_loop, words) (refl, λ (a, _). (omega arith, omega arith, omega arith))
end-Splits d buf (in_second l c w) e =
    rw (e, split_loop, words) (refl, λ (a, (b, _)). (with_nul l a, omega arith, omega arith))
end-Splits d buf (in_third l h c w) e =
    rw (e, split_loop, words)
      (refl, λ (a, (b, (q, _))). (with_nul l a, with_nul h b, with_nul (c ∷ w) q))

separator-Splits :
    (d : ℕ) (buf : Bytes) (p : Place)
    → is_end d ≡ false
    → is_separator d ≡ true
    → ((q : Place) → Splits buf q)
    → Splits (d ∷ buf) p
unfolding split_loop words
separator-Splits d buf start e s h = rw (e, s, split_loop, words) (h start)
separator-Splits d buf (behind_one l) e s h = rw (e, s, split_loop, words) (h (behind_one l))
separator-Splits d buf (behind_two l k) e s h = rw (e, s, split_loop, words) (h (behind_two l k))
separator-Splits d buf (in_first c w) e s h = rw (e, s, split_loop, words) (h (behind_one (c ∷ w)))
separator-Splits d buf (in_second l c w) e s h =
    rw (e, s, split_loop, words) (h (behind_two l (c ∷ w)))
separator-Splits d buf (in_third l k c w) e s h =
    rw (e, s, split_loop, words)
      (refl, λ (a, (b, (q, _))). (with_nul l a, with_nul k b, with_nul (c ∷ w) q))

data-Splits :
    (d : ℕ) (buf : Bytes) (p : Place)
    → is_end d ≡ false
    → is_separator d ≡ false
    → ((q : Place) → Splits buf q)
    → Splits (d ∷ buf) p
unfolding split_loop words
data-Splits d buf start e s h = rw (e, s, split_loop, words) (h (in_first d []))
data-Splits d buf (behind_one l) e s h = rw (e, s, split_loop, words) (h (in_second l d []))
data-Splits d buf (behind_two l k) e s h = rw (e, s, split_loop, words) (h (in_third l k d []))
data-Splits d buf (in_first c w) e s h = rw (e, s, split_loop, words) (h (in_first c (w ++ d ∷ [])))
data-Splits d buf (in_second l c w) e s h =
    rw (e, s, split_loop, words) (h (in_second l c (w ++ d ∷ [])))
data-Splits d buf (in_third l k c w) e s h =
    rw (e, s, split_loop, words) (h (in_third l k c (w ++ d ∷ [])))

loop-Splits : (buf : Bytes) (p : Place) → Splits buf p
loop-Splits [] p = at_end-Splits p
loop-Splits (d ∷ buf) p = elim (Bool-cases (is_end d)) [
  | inl e ↦ end-Splits d buf p e
  | inr e ↦ elim (Bool-cases (is_separator d)) [
    | inl s ↦ separator-Splits d buf p e s (loop-Splits buf)
    | inr s ↦ data-Splits d buf p e s (loop-Splits buf)
  ]
]

-- `sf_split_line` returns on every line: with 0 and the first three words of the line in its
-- arrays, each with a NUL behind it, where there are three or more, and with 1 otherwise. A word is
-- a run of bytes other than tab and space before the first `#`, NUL or end of line.
pub split_line-words : (buf : Bytes) → summary (split_line buf) ≡ some (first_three (words [] buf))
unfolding split_line
split_line-words buf = (loop-Splits buf start).0

-- With short words, what `sf_split_line` writes stays inside of the arrays of `xmltp_hosts`.
pub split_line-Stays : (buf : Bytes) → AreShort (words [] buf) → Stays (split_line buf)
unfolding split_line
split_line-Stays buf = (loop-Splits buf start).1

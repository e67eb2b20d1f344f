-- ===== src/Rpc/Levels.antt =====
-- The levels of the automaton of src/ct10api/ct10rpc_parse.c in which a parameter is counted.
use xmltp.Prelude.{
  ℕ, zero, suc, ◌+◌, ◌≤◌, ◌<◌, ◌≡◌, refl, ap, ◌∙◌, Bool, true, false, ◌&&◌, ◌||◌, List, [], ◌∷◌,
  arith, ◌==◌, leb, length, ℤ, pos, negsuc, is_neg, get_or, if◌then◌else◌,
}
use xmltp.Rpc.Table.{rpc_automaton, automaton_entry}
use xmltp.Rpc.Functions.{opens, needs}

-- What the invariant needs of an entry: a function that needs a parameter stands in a level behind
-- the start of one, and such a level is entered from another or by a function that starts one.
unfoldable pub next_fits : ℕ → ℕ → ℤ → Bool
next_fits l f (negsuc n) = n == 0 || n == 1 || n == 998
next_fits l f (pos l') = leb l' 13 && (if leb 5 l' then leb 5 l || opens f else true)

unfoldable pub entry_fits : ℕ → ℤ × ℕ → Bool
unfolding next_fits
entry_fits l e = next_fits l e.1 e.0 && (if needs e.1 then leb 5 l else true)

all_fit : ℕ → List (ℤ × ℕ) → Bool
all_fit l [] = true
all_fit l (e ∷ row) = entry_fits l e && all_fit l row

-- A row whose entries fit, and that ends at a NUL.
row_fits : ℕ → List (ℤ × ℕ) → Bool
row_fits l row = all_fit l row && is_neg (get_or row 9 (pos 0, 0)).0

rows_fit : ℕ → List (List (ℤ × ℕ)) → Bool
rows_fit l [] = true
rows_fit l (row ∷ rows) = row_fits l row && rows_fit (suc l) rows

table_fits : rows_fit 0 rpc_automaton ≡ true
unfolding rows_fit row_fits all_fit entry_fits next_fits
table_fits = refl

pub and_both : (a b : Bool) → a && b ≡ true → (a ≡ true) × (b ≡ true)
and_both true b h = (refl, h)
and_both false b h = cc

rows_fit-get :
    (rows : List (List (ℤ × ℕ))) (from l : ℕ)
    → l < length rows
    → rows_fit from rows ≡ true
    → row_fits (from + l) (get_or rows l []) ≡ true
unfolding rows_fit
rows_fit-get [] from l small h = absurd (omega arith)
rows_fit-get (row ∷ rows) from zero small h =
    ap (λ j. row_fits j row) (omega arith) ∙ (and_both _ _ h).0
rows_fit-get (row ∷ rows) from (suc l) small h =
    ap (λ j. row_fits j (get_or rows l [])) (omega arith)
    ∙ rows_fit-get rows (suc from) l (omega arith) (and_both _ _ h).1

all_fit-get :
    (l : ℕ) (row : List (ℤ × ℕ)) (k : ℕ)
    → all_fit l row ≡ true
    → entry_fits l (get_or row k (pos 0, 0)) ≡ true
unfolding all_fit entry_fits next_fits
all_fit-get l [] k h = refl
all_fit-get l (e ∷ row) zero h = (and_both _ _ h).0
all_fit-get l (e ∷ row) (suc k) h = all_fit-get l row k (and_both _ _ h).1

row-fits : (l : ℕ) → l ≤ 13 → row_fits l (get_or rpc_automaton l []) ≡ true
row-fits l h =
    ap (λ j. row_fits j (get_or rpc_automaton l [])) (omega arith)
    ∙ rows_fit-get rpc_automaton 0 l (omega arith) table_fits

pub automaton_entry-fits : (l k : ℕ) → l ≤ 13 → entry_fits l (automaton_entry l k) ≡ true
unfolding row_fits
automaton_entry-fits l k h =
    all_fit-get l (get_or rpc_automaton l []) k (and_both _ _ (row-fits l h)).0

pub nul_ends : (l : ℕ) → l ≤ 13 → is_neg (automaton_entry l 9).0 ≡ true
unfolding row_fits
nul_ends l h = (and_both _ _ (row-fits l h)).1

-- ===== src/Writer/Nesting.antt =====
-- The tags of a response or a call are balanced.
use mathlib.Core.Option.{some-injective}
use mathlib.Core.Path.{subst}
use xmltp.Prelude.{
  ◌+◌, ◌≡◌, refl, sym, ap, ◌∙◌, true, Bool-cases, Option-cases, inl, inr, none, some, List, [], ◌∷◌,
  ◌++◌, ℤ, eq_ℤ, leb, length,
}
use xmltp.Bytes.{Bytes, strcmp_eq, strcmp_eq_refl}
use xmltp.Tags.{Element, attr, param, col, isnull, tag_name}
use xmltp.Encoder.Spec.{escape}
use xmltp.Writer.{esc_buf_size}
use xmltp.Writer.Parts.{data_element, sql_varchar}
use xmltp.Writer.Response.{as_flag, attr_text}
use xmltp.Writer.Items.{Item, opening, closing, header, end_mark, text}
use xmltp.Writer.Phase.{
  Phase, before, columns, between_rows, in_row, params, call_params, messages, after_messages,
  ended, Call, begin_result_set, column_name, column_value, end_colum_values, begin_output_params,
  param_value, end_param_values, begin_msg, write_msg, end_msg, end_response, begin_proc_call,
  end_proc_call, reset, open_elements, Outcome, if_fits, cell, number, size_of, param_items, step,
  step_column_value, step_param, step_msg, steps, then_run, after, same_element, close_innermost,
  nested,
}

same_element_refl : (e : Element) → same_element e e ≡ true
same_element_refl e = strcmp_eq_refl (tag_name e)

-- Where a call is in order, its items lead from the elements open before to those open after it.
abbrev Balances : List Element → Outcome → Type 0
Balances stack none = Unit
Balances stack (some (p, items)) = nested stack items ≡ some (open_elements p)

if_fits-Balances :
    (stack : List Element) (strval : Bytes) (r : Outcome)
    → Balances stack r
    → Balances stack (if_fits strval r)
if_fits-Balances stack strval r h =
    elim (Bool-cases (leb (length (escape strval) + 2) esc_buf_size)) [
      | inl e ↦ rw e h
      | inr e ↦ rw e tt
    ]

close-nested :
    (e : Element) (stack : List Element) (items : List Item)
    → nested (e ∷ stack) (closing e ∷ items) ≡ nested stack items
close-nested e stack items = rw (same_element_refl e, nested) refl

cell-nested :
    (stack : List Element) (datatype null_ind : ℤ) (strval : Bytes)
    → nested stack (cell datatype null_ind strval) ≡ some stack
unfolding strcmp_eq
cell-nested stack datatype null_ind strval =
    close-nested (data_element datatype) stack (number isnull (as_flag null_ind) [])

size_of-nested :
    (stack : List Element) (datatype opt_size : ℤ) (items : List Item)
    → nested stack (size_of datatype opt_size items) ≡ nested stack items
unfolding strcmp_eq
size_of-nested stack datatype opt_size items = elim (Bool-cases (eq_ℤ datatype sql_varchar)) [
  | inl e ↦ rw e refl
  | inr e ↦ rw e refl
]

param-nested :
    (stack : List Element) (p_name : Bytes) (datatype opt_size is_output null_ind : ℤ)
    (strval : Bytes)
    → nested stack (param_items p_name datatype opt_size is_output null_ind strval) ≡ some stack
unfolding strcmp_eq
param-nested stack p_name datatype opt_size is_output null_ind strval =
    close-nested (data_element datatype) (param ∷ stack) (
      opening attr
      ∷ text (attr_text null_ind is_output datatype)
      ∷ closing attr
      ∷ size_of datatype opt_size (closing param ∷ []))
    ∙ (size_of-nested (param ∷ stack) datatype opt_size (closing param ∷ []))

column_value-Balances :
    (p : Phase) (datatype null_ind : ℤ) (strval : Bytes)
    → Balances (open_elements p) (step_column_value (cell datatype null_ind strval) p)
unfolding strcmp_eq
column_value-Balances (columns n) datatype null_ind strval =
    cell-nested (open_elements (in_row n)) datatype null_ind strval
column_value-Balances (between_rows n) datatype null_ind strval =
    cell-nested (open_elements (in_row n)) datatype null_ind strval
column_value-Balances (in_row n) datatype null_ind strval =
    cell-nested (open_elements (in_row n)) datatype null_ind strval
column_value-Balances _ _ _ _ = tt

param_value-Balances :
    (p : Phase) (p_name : Bytes) (datatype opt_size is_output null_ind : ℤ) (strval : Bytes)
    → let items = param_items p_name datatype opt_size is_output null_ind strval in
      Balances (open_elements p) (step_param items p)
param_value-Balances params p_name datatype opt_size is_output null_ind strval =
    param-nested (open_elements params) p_name datatype opt_size is_output null_ind strval
param_value-Balances call_params p_name datatype opt_size is_output null_ind strval =
    param-nested (open_elements call_params) p_name datatype opt_size is_output null_ind strval
param_value-Balances _ _ _ _ _ _ _ = tt

msg-Balances :
    (p : Phase) (msg_num : ℤ) (msg_text : Bytes)
    → Balances (open_elements p) (step_msg msg_num msg_text p)
unfolding strcmp_eq
msg-Balances messages msg_num msg_text = refl
msg-Balances _ _ _ = tt

-- A call that the protocol allows leads from the elements that are open in the phase before it to
-- those of the phase after it: what it adds closes only what is open, innermost first.
pub step-Balances : (p : Phase) (c : Call) → Balances (open_elements p) (step p c)
unfolding strcmp_eq
step-Balances before (begin_result_set n nb_rows) = refl
step-Balances (columns m) (begin_result_set n nb_rows) = elim (Bool-cases (eq_ℤ m n)) [
  | inl e ↦ rw e tt
  | inr e ↦ rw e refl
]
step-Balances (between_rows m) (begin_result_set n nb_rows) = elim (Bool-cases (eq_ℤ m n)) [
  | inl e ↦ rw e tt
  | inr e ↦ rw e refl
]
step-Balances (columns m) (column_name col_name datatype opt_size) =
    size_of-nested (col ∷ open_elements (columns m)) datatype opt_size (closing col ∷ [])
step-Balances p (column_value datatype null_ind strval) =
    if_fits-Balances (open_elements p) strval (step_column_value (cell datatype null_ind strval) p)
      (column_value-Balances p datatype null_ind strval)
step-Balances (in_row n) end_colum_values = refl
step-Balances before (begin_output_params nb_rows) = refl
step-Balances (columns m) (begin_output_params nb_rows) = refl
step-Balances (between_rows m) (begin_output_params nb_rows) = refl
step-Balances params (begin_output_params nb_rows) = refl
step-Balances p (param_value p_name datatype opt_size is_output null_ind strval) =
    if_fits-Balances (open_elements p) strval
      (step_param (param_items p_name datatype opt_size is_output null_ind strval) p)
      (param_value-Balances p p_name datatype opt_size is_output null_ind strval)
step-Balances params end_param_values = refl
step-Balances call_params end_param_values = refl
step-Balances before (begin_msg nb_rows) = refl
step-Balances (columns m) (begin_msg nb_rows) = refl
step-Balances (between_rows m) (begin_msg nb_rows) = refl
step-Balances params (begin_msg nb_rows) = refl
step-Balances p (write_msg msg_num msg_text) =
    if_fits-Balances (open_elements p) msg_text (step_msg msg_num msg_text p)
      (msg-Balances p msg_num msg_text)
step-Balances messages end_msg = refl
step-Balances before (end_response return_status rc nb_rows) = refl
step-Balances (columns m) (end_response return_status rc nb_rows) = refl
step-Balances (between_rows m) (end_response return_status rc nb_rows) = refl
step-Balances params (end_response return_status rc nb_rows) = refl
step-Balances after_messages (end_response return_status rc nb_rows) = refl
step-Balances before (begin_proc_call proc_name) = refl
step-Balances call_params end_proc_call = refl
step-Balances ended reset = refl
step-Balances before reset = refl
step-Balances _ _ = tt

nested-append :
    (stack stack' : List Element) (xs ys : List Item)
    → nested stack xs ≡ some stack'
    → nested stack (xs ++ ys) ≡ nested stack' ys
nested-append stack stack' [] ys h = ap (λ s. nested s ys) (some-injective stack stack' h)
nested-append stack stack' (opening e ∷ xs) ys h = nested-append (e ∷ stack) stack' xs ys h
nested-append stack stack' (closing e ∷ xs) ys h = elim (Option-cases (close_innermost e stack)) [
  | inl q ↦ let r : nested stack (closing e ∷ xs) ≡ none = rw (q, nested) refl in cc
  | inr (s, q) ↦
      let r : (zs : List Item) → nested stack (closing e ∷ zs) ≡ nested s zs =
        λ zs. rw (q, nested) refl in
      r (xs ++ ys) ∙ nested-append s stack' xs ys (sym (r xs) ∙ h)
]
nested-append stack stack' (header ∷ xs) ys h = nested-append stack stack' xs ys h
nested-append stack stack' (end_mark ∷ xs) ys h = nested-append stack stack' xs ys h
nested-append stack stack' (text t ∷ xs) ys h = nested-append stack stack' xs ys h

after-Balances :
    (p q : Phase) (items : List Item) (r : Outcome)
    → nested (open_elements p) items ≡ some (open_elements q)
    → Balances (open_elements q) r
    → Balances (open_elements p) (after items r)
after-Balances p q items none h k = tt
after-Balances p q items (some (q', more)) h k =
    nested-append (open_elements p) (open_elements q) items more h ∙ k

then_run-Balances :
    (calls : List Call) (p : Phase) (r : Outcome)
    → Balances (open_elements p) r
    → ((q : Phase) → Balances (open_elements q) (steps q calls))
    → Balances (open_elements p) (then_run (λ q. steps q calls) r)
then_run-Balances calls p none h go_on = tt
then_run-Balances calls p (some (q, items)) h go_on =
    after-Balances p q items (steps q calls) h (go_on q)

all_steps-Balances : (calls : List Call) (p : Phase) → Balances (open_elements p) (steps p calls)
all_steps-Balances [] p = refl
all_steps-Balances (c ∷ calls) p =
    then_run-Balances calls p (step p c) (step-Balances p c) (all_steps-Balances calls)

apply-Balances :
    (stack : List Element) (r : Outcome) (q : Phase) (items : List Item)
    → Balances stack r
    → r ≡ some (q, items)
    → nested stack items ≡ some (open_elements q)
apply-Balances stack r q items h e = subst (Balances stack) e h

-- Whatever calls are made in the order of the protocol, the markup that they add, read from the
-- elements that are open before them, has every end tag match the innermost open element, and
-- leaves open exactly the elements of the phase that is reached.
pub steps-Balances :
    (p q : Phase) (calls : List Call) (items : List Item)
    → steps p calls ≡ some (q, items)
    → nested (open_elements p) items ≡ some (open_elements q)
steps-Balances p q calls items e =
    apply-Balances (open_elements p) (steps p calls) q items (all_steps-Balances calls p) e
